-- ===== src/Config.antt =====
-- src/config.rs: the configuration, its checks and its defaults; the options of src/domain/http.rs and
-- src/p2p that it holds.
pub mod Env
pub mod Overrides
pub mod Valid
use paradown.Prelude.{
  ℕ, ◌*◌, String, Bool, true, false, not, ◌&&◌, ◌||◌, Option, some, none, List, [], ◌∷◌, ltb, ◌==◌,
  str_eq, if◌then◌else◌,
}
use paradown.Text.{trim, is_empty_text, to_lower}
use paradown.Domain.Http.{HttpRequestOptions, no_options}
use paradown.Job.Prepare.{FileConflictStrategy, overwrite, skip_if_valid, resume}
use paradown.Worker.Retry.{RetryConfig}
use paradown.Swarm.Provider.{SwarmProviderLimits}

pub data LogLevel : Type 0 where
  error warn info debug : LogLevel

pub data Backend : Type 0 where
  memory : Backend
  json_file sqlite : String → Backend

pub data ConfigError : Type 0 where
  invalid_download_dir invalid_retry_config invalid_p2p_config : String → ConfigError
  invalid_concurrent_tasks invalid_segments_per_task invalid_progress_throttle_interval :
      ℕ → ConfigError
  invalid_completion_hook : ConfigError
  unsupported_schema_version : ℕ → ℕ → ConfigError
  invalid_env_value : String → String → String → ConfigError

-- Result<_, ConfigError>
pub data Checked {ℓ} (A : Type ℓ) : Type ℓ where
  valid : A → Checked A
  invalid : ConfigError → Checked A

-- `check?; rest`
abbrev pub also {ℓ} : {A : Type ℓ} → Checked (Unit {0}) → Checked A → Checked A
also (invalid e) rest = invalid e
also (valid _) rest = rest

pub record ProxyOptions : Type 0 where
  pub use_env_proxy : Bool
  pub http_proxy : Option String
  pub https_proxy : Option String
  pub no_proxy : Option String

pub record TlsOptions : Type 0 where
  pub insecure_skip_verify : Bool
  pub ca_certificate_pem : Option String
  pub client_identity_pem : Option String

pub record HttpClientOptions : Type 0 where
  pub proxy : ProxyOptions
  pub cookie_store : Bool
  pub cookie_jar_path : Option String
  pub tls : TlsOptions

pub record HttpConfig : Type 0 where
  pub client : HttpClientOptions
  pub request : HttpRequestOptions

pub record LibtorrentEngineConfig : Type 0 where
  pub alert_queue_size : ℕ
  pub enable_dht : Bool
  pub enable_lsd : Bool
  pub enable_upnp : Bool
  pub enable_natpmp : Bool
  pub listen_interfaces : Option String

pub data InputKind : Type 0 where
  auto html feed text : InputKind

pub record SwarmIndexProviderConfig : Type 0 where
  pub name : String
  pub url_template : String
  pub input_kind : InputKind
  pub cache_ttl_secs : ℕ
  pub timeout_secs : ℕ

pub record SwarmProviderConfig : Type 0 where
  pub enabled : Bool
  pub cache_dir : Option String
  pub include_magnet_hints : Bool
  pub static_trackers : List String
  pub static_tracker_files : List String
  pub static_peers : List String
  pub static_web_seeds : List String
  pub tracker_list_urls : List String
  pub tracker_list_cache_ttl_secs : ℕ
  pub tracker_list_timeout_secs : ℕ
  pub index_providers : List SwarmIndexProviderConfig
  pub discovery_files : List String
  pub discovery_urls : List String
  pub discovery_input_kind : InputKind
  pub discovery_timeout_secs : ℕ
  pub limits : SwarmProviderLimits

pub record P2pConfig : Type 0 where
  pub enabled : Bool
  pub libtorrent : LibtorrentEngineConfig
  pub swarm : SwarmProviderConfig

pub record ProgressThrottleConfig : Type 0 where
  pub interval_ms : ℕ
  pub threshold_bytes : ℕ

-- A rate limit is not 0 if there is one (NonZeroU64).
pub record Config : Type 0 where
  pub download_dir : String
  pub shuffle_tasks : Bool
  pub concurrent_tasks : ℕ
  pub segments_per_task : ℕ
  pub retry : RetryConfig
  pub rate_limit_kib_per_sec : Option ℕ
  pub connect_timeout_secs : ℕ
  pub storage_backend : Backend
  pub progress_throttle : ProgressThrottleConfig
  pub file_conflict_strategy : FileConflictStrategy
  pub log_level : LogLevel
  pub completion_hook : Option String
  pub http : HttpConfig
  pub p2p : P2pConfig

abbrev is_blank : Option String → Bool
is_blank none = false
is_blank (some value) = is_empty_text (trim value)

abbrev refuse : Bool → ConfigError → Checked (Unit {0})
refuse true e = invalid e
refuse false e = valid tt

unfoldable pub validate_retry_config : RetryConfig → Checked (Unit {0})
validate_retry_config retry =
    if ltb 0 retry.max_retries && retry.initial_delay == 0
    then invalid
        (invalid_retry_config "initial_delay must be greater than 0 when retries are enabled")
    else if ltb retry.max_delay retry.initial_delay
    then invalid (invalid_retry_config "max_delay must be greater than or equal to initial_delay")
    else if retry.factor_below_one
    then invalid (invalid_retry_config "backoff_factor must be greater than or equal to 1.0")
    else valid tt

-- `for provider in &p2p.swarm.index_providers`
unfoldable pub validate_index_providers : List SwarmIndexProviderConfig → Checked (Unit {0})
unfolding trim
validate_index_providers [] = valid tt
validate_index_providers (provider ∷ providers) =
    let rest = validate_index_providers providers in
    if is_empty_text (trim provider.name)
    then invalid (invalid_p2p_config "swarm index provider name cannot be blank")
    else if is_empty_text (trim provider.url_template)
    then invalid (invalid_p2p_config "swarm index provider url_template cannot be blank")
    else if provider.cache_ttl_secs == 0 || provider.timeout_secs == 0
    then invalid (
        invalid_p2p_config
          "swarm index provider cache_ttl_secs and timeout_secs must be greater than 0")
    else rest

unfoldable pub validate_limits : SwarmProviderLimits → Checked (Unit {0})
validate_limits limits =
    if limits.max_trackers == 0
      || limits.max_peers == 0
      || limits.max_web_seeds == 0
      || limits.max_locators == 0
      || limits.max_diagnostics == 0
    then invalid (invalid_p2p_config "swarm provider limits must be greater than 0")
    else valid tt

unfoldable pub validate_p2p_config : P2pConfig → Checked (Unit {0})
unfolding trim validate_index_providers validate_limits
validate_p2p_config p2p =
    if p2p.libtorrent.alert_queue_size == 0
    then invalid (invalid_p2p_config "libtorrent alert_queue_size must be greater than 0")
    else if is_blank p2p.libtorrent.listen_interfaces
    then invalid (invalid_p2p_config "libtorrent listen_interfaces cannot be blank")
    else if p2p.swarm.tracker_list_cache_ttl_secs == 0
    then invalid (invalid_p2p_config "swarm tracker_list_cache_ttl_secs must be greater than 0")
    else if p2p.swarm.tracker_list_timeout_secs == 0 || p2p.swarm.discovery_timeout_secs == 0
    then invalid (invalid_p2p_config "swarm provider timeouts must be greater than 0")
    else also (validate_index_providers p2p.swarm.index_providers)
        (validate_limits p2p.swarm.limits)

unfoldable pub validate : Config → Checked (Unit {0})
unfolding validate_retry_config validate_p2p_config trim
validate config =
    if is_empty_text config.download_dir
    then invalid (invalid_download_dir "path cannot be empty")
    else if config.concurrent_tasks == 0
    then invalid (invalid_concurrent_tasks config.concurrent_tasks)
    else if config.segments_per_task == 0 || ltb 100 config.segments_per_task
    then invalid (invalid_segments_per_task config.segments_per_task)
    else if config.progress_throttle.interval_ms == 0
    then invalid (invalid_progress_throttle_interval config.progress_throttle.interval_ms)
    else also (validate_retry_config config.retry) (
        also (validate_p2p_config config.p2p)
          (refuse (is_blank config.completion_hook) invalid_completion_hook))

unfoldable pub validate_schema_version : ℕ → Checked (Unit {0})
validate_schema_version schema_version =
    if ltb 1 schema_version then invalid (unsupported_schema_version schema_version 1) else valid tt

-- ConfigFile::into_config
unfoldable pub into_config : ℕ → Config → Checked Config
unfolding validate_schema_version validate
into_config schema_version config =
    also (validate_schema_version schema_version) (also (validate config) (valid config))

-- FileConflictStrategy::from_str
unfoldable pub conflict_strategy_from_str : String → Checked FileConflictStrategy
unfolding trim to_lower
conflict_strategy_from_str value =
    let v = to_lower (trim value) in
    if str_eq v "overwrite"
    then valid overwrite
    else if str_eq v "skipifvalid" || str_eq v "skip_if_valid" || str_eq v "skip-if-valid"
    then valid skip_if_valid
    else if str_eq v "resume"
    then valid resume
    else invalid (
        invalid_env_value "PARADOWN_FILE_CONFLICT_STRATEGY" v
          "expected overwrite, skip_if_valid, or resume")

-- The defaults; `scaled` are the powers of the factor 2.
unfoldable pub default_retry : (ℕ → ℕ → ℕ) → RetryConfig
default_retry scaled = record {
  max_retries = 3;
  initial_delay = 1;
  max_delay = 30;
  scaled = scaled;
  factor_below_one = false;
}

unfoldable pub default_libtorrent : LibtorrentEngineConfig
default_libtorrent = record {
  alert_queue_size = 1024;
  enable_dht = true;
  enable_lsd = true;
  enable_upnp = true;
  enable_natpmp = true;
  listen_interfaces = none;
}

unfoldable pub default_limits : SwarmProviderLimits
default_limits = record {
  max_trackers = 128;
  max_peers = 64;
  max_web_seeds = 64;
  max_locators = 64;
  max_diagnostics = 64;
}
