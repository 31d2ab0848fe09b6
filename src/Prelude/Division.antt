-- ===== src/Prelude/Division.antt =====
-- The points i * n / k that cut n things into k parts of nearly equal size.
use Prim.Native.Nat.{ℕ, ◌+◌, ◌*◌, ◌/◌, ◌≤◌, ◌<◌}
use mathlib.Core.Path.{◌≡◌}
use native.Mathlib.Omega.{arith}
use native.Mathlib.Nat.{mul-div_cancel_left, le-div_iff_mul-le, div-mul-le_self}

pub cut_first : (n k : ℕ) → 0 * n / k ≡ 0
cut_first n k = omega arith

pub cut_last : (n k : ℕ) → 0 < k → k * n / k ≡ n
cut_last n k h = mul-div_cancel_left n h

pub cut_mono : (n k i : ℕ) → 0 < k → i * n / k ≤ (i + 1) * n / k
cut_mono n k i h = (le-div_iff_mul-le h).1 (omega (arith, div-mul-le_self (i * n) k))

-- With no more parts than things no part is empty.
pub cut_strict : (n k i : ℕ) → 0 < k → k ≤ n → i * n / k < (i + 1) * n / k
cut_strict n k i h le = (le-div_iff_mul-le h).1 (omega (arith, div-mul-le_self (i * n) k))
