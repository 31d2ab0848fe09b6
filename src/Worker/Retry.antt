-- ===== src/Worker/Retry.antt =====
-- src/worker/retry.rs: how long a worker waits before it tries again. The factor and its power are
-- floating point: the delay that they give, rounded up to seconds, is a parameter.
pub mod Bounds
use paradown.Prelude.{
  ℕ, ◌-◌, Bool, Option, some, none, min, max, leb, if◌then◌else◌, saturating_add_u32,
}

-- RetryConfig of src/config.rs. Of its backoff factor there are what `initial_delay *
-- factor.powi(exponent)` is, rounded up, and whether it is below 1.
pub record RetryConfig : Type 0 where
  pub max_retries : ℕ
  pub initial_delay : ℕ
  pub max_delay : ℕ
  pub scaled : ℕ → ℕ → ℕ
  pub factor_below_one : Bool

-- u64::clamp
abbrev clamp : ℕ → ℕ → ℕ → ℕ
clamp x low high = min (max x low) high

unfoldable pub compute_retry_delay : RetryConfig → ℕ → ℕ
compute_retry_delay config attempt =
    let initial_delay = max config.initial_delay 1 in
    let exponent = min (attempt - 1) 32 in
    clamp (config.scaled initial_delay exponent) initial_delay (max config.max_delay initial_delay)

unfoldable pub next_retry_delay : RetryConfig → ℕ → Option ℕ
unfolding compute_retry_delay
next_retry_delay config retry_count =
    if leb config.max_retries retry_count
    then none
    else some (compute_retry_delay config (saturating_add_u32 retry_count 1))
