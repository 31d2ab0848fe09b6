-- ===== src/Worker/Retry/Bounds.antt =====
-- The delays of src/worker/retry.rs lie within the configured ones.
use paradown.Prelude.{ℕ, ◌≤◌, ◌<◌, ◌≡◌, some, max, arith}
use paradown.Worker.Retry.{RetryConfig, next_retry_delay}

-- There is a delay only while there are retries left. It is at least the initial delay and at
-- least a second, and at most the maximal delay, unless the initial one is larger.
pub next_retry_delay_bounds :
    (config : RetryConfig) (retry_count delay : ℕ)
    → next_retry_delay config retry_count ≡ some delay
    → (retry_count < config.max_retries)
      × (max config.initial_delay 1 ≤ delay)
      × (delay ≤ max config.max_delay (max config.initial_delay 1))
unfolding next_retry_delay
next_retry_delay_bounds config retry_count delay h = ground arith
