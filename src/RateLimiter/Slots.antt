-- ===== src/RateLimiter/Slots.antt =====
-- The slots that src/rate_limiter.rs gives to calls that follow each other.
use paradown.Prelude.{ℕ, ◌+◌, ◌≤◌, ◌≡◌, ◌<◌, some, List, [], ◌∷◌, arith, u64_mod, ◌*◌}
use paradown.RateLimiter.{
  DownloadRateLimiter, kib_to_bytes, set_limit_kib_per_sec, current_limit_kib_per_sec, reserve,
}

-- A call of `acquire` while the limit stays: its bytes, and when it is made.
pub record Call : Type 0 where
  pub bytes : ℕ
  pub now : ℕ

unfoldable pub slots : (ℕ → ℕ → ℕ) → List Call → DownloadRateLimiter → List ℕ
unfolding reserve
slots duration_for [] limiter = []
slots duration_for (call ∷ calls) limiter =
    let reserved = reserve duration_for call.bytes call.now limiter in
    reserved.0 ∷ slots duration_for calls reserved.1

-- Each slot begins when those before it have ended, and not before its call.
unfoldable pub IsSpaced : (ℕ → ℕ) → ℕ → List Call → List ℕ → Type 0
IsSpaced duration free [] slots = Unit {0}
IsSpaced duration free (call ∷ calls) [] = Unit {0}
IsSpaced duration free (call ∷ calls) (slot ∷ slots) =
    (free ≤ slot) × (call.now ≤ slot) × IsSpaced duration (slot + duration call.bytes) calls slots

-- The slots of calls do not overlap, and each comes after its call, whatever the calls are.
slots-IsSpaced :
    (duration_for : ℕ → ℕ → ℕ) (calls : List Call) (limiter : DownloadRateLimiter)
    → IsSpaced
        (λ bytes. duration_for bytes limiter.bytes_per_second)
        limiter.next_available_at
        calls
        (slots duration_for calls limiter)
unfolding slots reserve IsSpaced
slots-IsSpaced duration_for [] limiter = tt
slots-IsSpaced duration_for (call ∷ calls) limiter = (
  omega arith,
  omega arith,
  slots-IsSpaced duration_for calls (reserve duration_for call.bytes call.now limiter).1,
)

-- The limit that is read is the one that was set, unless it is too large to count in bytes.
current_limit-set_limit :
    (limit now : ℕ) (limiter : DownloadRateLimiter)
    → 0 < limit
    → limit * 1024 < u64_mod
    → current_limit_kib_per_sec (set_limit_kib_per_sec (some limit) now limiter) ≡ some limit
unfolding current_limit_kib_per_sec set_limit_kib_per_sec kib_to_bytes
current_limit-set_limit limit now limiter p b = ground arith
