-- ===== src/Prelude/Words.antt =====
-- Rust's unsigned words: `u32`, `u64` and the 64-bit `usize`. `+` wraps as in the release profile.
use Prim.Native.Nat.{ℕ, ◌+◌, ◌*◌, ◌-◌, ◌%◌, ◌^◌, min}

abbrev pub u32_mod : ℕ
u32_mod = 2 ^ 32

abbrev pub u64_mod : ℕ
u64_mod = 2 ^ 64

-- x as u32, x as u64
abbrev pub as_u32 : ℕ → ℕ
as_u32 x = x % u32_mod

abbrev pub as_u64 : ℕ → ℕ
as_u64 x = x % u64_mod

abbrev pub add_u32 : ℕ → ℕ → ℕ
add_u32 a b = as_u32 (a + b)

abbrev pub add_u64 : ℕ → ℕ → ℕ
add_u64 a b = as_u64 (a + b)

abbrev pub mul_u64 : ℕ → ℕ → ℕ
mul_u64 a b = as_u64 (a * b)

-- u64::saturating_add, u32::saturating_add; `saturating_sub` is the truncated `-` of ℕ.
abbrev pub saturating_add_u64 : ℕ → ℕ → ℕ
saturating_add_u64 a b = min (a + b) (u64_mod - 1)

abbrev pub saturating_add_u32 : ℕ → ℕ → ℕ
saturating_add_u32 a b = min (a + b) (u32_mod - 1)
