-- ===== src/RateLimiter.antt =====
-- src/rate_limiter.rs, with time as a number. How long some bytes take at a rate (floating point)
-- is a parameter.
pub mod Slots
use paradown.Prelude.{
  ℕ, ◌+◌, ◌*◌, ◌/◌, ◌==◌, Option, some, none, List, [], ◌∷◌, max, min, if◌then◌else◌, u64_mod, ◌-◌,
}

pub record DownloadRateLimiter : Type 0 where
  pub bytes_per_second : ℕ
  pub next_available_at : ℕ

unfoldable pub kib_to_bytes : Option ℕ → ℕ
kib_to_bytes none = 0
kib_to_bytes (some value) = min (value * 1024) (u64_mod - 1)

unfoldable pub new_limiter : Option ℕ → ℕ → DownloadRateLimiter
unfolding kib_to_bytes
new_limiter limit_kib_per_sec now = record {
  bytes_per_second = kib_to_bytes limit_kib_per_sec;
  next_available_at = now;
}

-- The waiters that this wakes are in the rounds of `acquire`.
unfoldable pub set_limit_kib_per_sec : Option ℕ → ℕ → DownloadRateLimiter → DownloadRateLimiter
unfolding kib_to_bytes
set_limit_kib_per_sec limit_kib_per_sec now limiter = record limiter {
  bytes_per_second = kib_to_bytes limit_kib_per_sec;
  next_available_at = now;
}

unfoldable pub current_limit_kib_per_sec : DownloadRateLimiter → Option ℕ
current_limit_kib_per_sec limiter =
    if limiter.bytes_per_second == 0 then none else some (limiter.bytes_per_second / 1024)

-- The slot that a call gets, and the limiter behind it.
unfoldable pub reserve : (ℕ → ℕ → ℕ) → ℕ → ℕ → DownloadRateLimiter → ℕ × DownloadRateLimiter
reserve duration_for bytes now limiter =
    let slot = max limiter.next_available_at now in
    (
      slot,
      record limiter { next_available_at = slot + duration_for bytes limiter.bytes_per_second },
    )

-- How the waiting of a round ends: at its slot, or by new limits, the last of which is given.
pub data Woken : Type 0 where
  slept : Woken
  updated : Option ℕ → ℕ → Woken

pub record Wait : Type 0 where
  pub now : ℕ
  pub woken : Woken

pub data Acquired : Type 0 where
  at_once : Acquired
  at_slot : ℕ → Acquired

-- The loop of `acquire`: when it returns, if it does within the rounds. The sender of the updates
-- is in the limiter, so waiting for them does not fail.
unfoldable pub acquire_loop :
    (ℕ → ℕ → ℕ) → ℕ → List Wait → DownloadRateLimiter → Option Acquired × DownloadRateLimiter
unfolding reserve set_limit_kib_per_sec
acquire_loop duration_for bytes [] limiter = (none, limiter)
acquire_loop duration_for bytes (wait ∷ waits) limiter =
    let reserved = reserve duration_for bytes wait.now limiter in
    let rest : Option Acquired × DownloadRateLimiter = elim wait.woken [
      | slept ↦ (some (at_slot reserved.0), reserved.1)
      | updated limit now ↦
          acquire_loop duration_for bytes waits (set_limit_kib_per_sec limit now reserved.1)
    ] in
    if limiter.bytes_per_second == 0 then (some at_once, limiter) else rest

unfoldable pub acquire :
    (ℕ → ℕ → ℕ) → ℕ → List Wait → DownloadRateLimiter → Option Acquired × DownloadRateLimiter
unfolding acquire_loop
acquire duration_for bytes waits limiter =
    if bytes == 0 then (some at_once, limiter) else acquire_loop duration_for bytes waits limiter
