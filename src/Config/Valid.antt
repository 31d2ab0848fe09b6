-- ===== src/Config/Valid.antt =====
-- What the checks of src/config.rs leave for the parts that use the configuration.
use paradown.Prelude.{
  ℕ, ◌≤◌, ◌<◌, Bool, false, ◌≡◌, refl, some, arith, ltb, ◌==◌, ◌||◌, sym, subst, if◌then◌else◌,
}
use paradown.Config.{
  Config, ConfigError, Checked, valid, invalid, also, validate, into_config,
  validate_schema_version, validate_retry_config,
}
use paradown.Worker.Retry.{RetryConfig, next_retry_delay}
use paradown.Worker.Retry.Bounds.{next_retry_delay_bounds}

also-eq-valid :
    {A : Type 0} (check : Checked (Unit {0})) (rest : Checked A) (a : A)
    → also check rest ≡ valid a
    → (check ≡ valid tt) × (rest ≡ valid a)
also-eq-valid (valid _) rest a h = (refl, h)
also-eq-valid (invalid e) rest a h = cc

validate_retry_config_lem :
    (retry : RetryConfig) (retry_count delay : ℕ)
    → validate_retry_config retry ≡ valid tt
    → next_retry_delay retry retry_count ≡ some delay
    → (retry_count < retry.max_retries)
      × (0 < retry.initial_delay)
      × (retry.initial_delay ≤ delay)
      × (delay ≤ retry.max_delay)
unfolding validate_retry_config
validate_retry_config_lem retry retry_count delay h d =
    let b = next_retry_delay_bounds retry retry_count delay d in ground (arith, b)

valid-injective : {A : Type 0} (a b : A) → valid a ≡ valid b → a ≡ b
valid-injective a b h = cc

schema_version_bound : (n : ℕ) → validate_schema_version n ≡ valid tt → n ≤ 1
unfolding validate_schema_version
schema_version_bound n h = ground arith

into_config-valid :
    (schema_version : ℕ) (config loaded : Config)
    → into_config schema_version config ≡ valid loaded
    → (schema_version ≤ 1) × (loaded ≡ config) × (validate config ≡ valid tt)
unfolding into_config
into_config-valid schema_version config loaded h =
    let v =
      also-eq-valid (validate_schema_version schema_version) (also (validate config) (valid config))
        loaded h in
    let c = also-eq-valid (validate config) (valid config) loaded v.1 in
    (schema_version_bound schema_version v.0, sym (valid-injective config loaded c.1), c.0)

-- What stands before the checks of the parts in `validate`.
guards-eq-valid :
    (b c d e : Bool) (x y z w : ConfigError) (rest : Checked (Unit {0}))
    → (if b
        then invalid x
        else if c
        then invalid y
        else if d
        then invalid z
        else if e
        then invalid w
        else rest)
      ≡ valid tt
    → (c ≡ false) × (d ≡ false) × (rest ≡ valid tt)
guards-eq-valid b c d e x y z w rest h = ground arith

validate-guards :
    (config : Config)
    → validate config ≡ valid tt
    → ((config.concurrent_tasks == 0) ≡ false)
      × ((config.segments_per_task == 0 || ltb 100 config.segments_per_task) ≡ false)
      × (validate_retry_config config.retry ≡ valid tt)
unfolding validate
validate-guards config h =
    let g = guards-eq-valid _ _ _ _ _ _ _ _ _ h in
    (g.0, g.1, (also-eq-valid (validate_retry_config config.retry) _ tt g.2).0)

counts_of_tests :
    (tasks segments : ℕ)
    → (tasks == 0) ≡ false
    → (segments == 0 || ltb 100 segments) ≡ false
    → (0 < tasks) × (0 < segments) × (segments ≤ 100)
counts_of_tests tasks segments t s = ground arith

-- A configuration that is accepted is the one in the file, with at least one task at a time and
-- one to a hundred segments of a task. If a worker then waits for a retry, there are retries
-- left, the initial delay is not 0, and the delay is between the initial and the maximal one.
pub into_config-next_retry_delay :
    (schema_version retry_count delay : ℕ) (config loaded : Config)
    → into_config schema_version config ≡ valid loaded
    → next_retry_delay loaded.retry retry_count ≡ some delay
    → (loaded ≡ config)
      × (0 < loaded.concurrent_tasks)
      × (0 < loaded.segments_per_task)
      × (loaded.segments_per_task ≤ 100)
      × (retry_count < loaded.retry.max_retries)
      × (0 < loaded.retry.initial_delay)
      × (loaded.retry.initial_delay ≤ delay)
      × (delay ≤ loaded.retry.max_delay)
into_config-next_retry_delay schema_version retry_count delay config loaded h d =
    let v = into_config-valid schema_version config loaded h in
    let g = validate-guards loaded (subst (λ c. validate c ≡ valid tt) (sym v.1) v.2) in
    let c = counts_of_tests loaded.concurrent_tasks loaded.segments_per_task g.0 g.1 in
    let r = validate_retry_config_lem loaded.retry retry_count delay g.2 d in
    (v.1, c.0, c.1, c.2, r.0, r.1, r.2, r.3)
