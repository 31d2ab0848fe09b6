-- ===== src/Examples/RateLimiter.antt =====
-- src/rate_limiter.rs at a limit of one KiB per second, as its unit tests set and lift a limit.
use paradown.Prelude.{ℕ, ◌/◌, ◌≡◌, refl, some, none, [], ◌∷◌}
use paradown.RateLimiter.{
  DownloadRateLimiter, slept, updated, at_once, at_slot, new_limiter, kib_to_bytes,
  set_limit_kib_per_sec, current_limit_kib_per_sec, reserve, acquire, acquire_loop,
}

abbrev limiter : DownloadRateLimiter
limiter = record { bytes_per_second = 1024; next_available_at = 5 }

-- Time in seconds.
abbrev duration_for : ℕ → ℕ → ℕ
duration_for bytes bytes_per_second = bytes / bytes_per_second

limit_is_read : current_limit_kib_per_sec (new_limiter (some 64) 0) ≡ some 64
unfolding current_limit_kib_per_sec new_limiter kib_to_bytes
limit_is_read = refl

second_call_waits :
    let first = acquire duration_for 4096 (record { now = 7; woken = slept } ∷ []) limiter in
    (first.0 ≡ some (at_slot 7))
    × ((acquire duration_for 1024 (record { now = 8; woken = slept } ∷ []) first.1).0
        ≡ some (at_slot 11))
unfolding acquire acquire_loop reserve set_limit_kib_per_sec
second_call_waits = (refl, refl)

lifted_limit_wakes :
    (acquire duration_for 65536
      (record { now = 0; woken = updated none 1 } ∷ record { now = 1; woken = slept } ∷ [])
      limiter).0
    ≡ some at_once
unfolding acquire acquire_loop reserve set_limit_kib_per_sec kib_to_bytes
lifted_limit_wakes = refl
