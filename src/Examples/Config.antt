-- ===== src/Examples/Config.antt =====
-- src/config.rs: the default configuration, and what it makes of a retry.
use paradown.Prelude.{
  String, Option, map, ◌∷◌, str_eq, if◌then◌else◌, ◌*◌, ◌^◌, ◌≤◌, ◌<◌, ◌≡◌, refl, true, false, some,
  none, [],
}
use paradown.Text.{trim, to_lower, strip_prefix, split_once, parse_unsigned, print_digits}
use paradown.Domain.Http.{no_options, basic}
use paradown.Job.Prepare.{resume, skip_if_valid}
use paradown.Worker.Retry.{next_retry_delay, compute_retry_delay}
use paradown.Config.{
  Config, SwarmIndexProviderConfig, memory, sqlite, info, auto, valid, invalid,
  invalid_segments_per_task, invalid_env_value, unsupported_schema_version, into_config, validate,
  validate_retry_config, validate_p2p_config, validate_index_providers, validate_limits,
  validate_schema_version, conflict_strategy_from_str, default_retry, default_libtorrent,
  default_limits,
}
use paradown.Config.Env.{
  read_env, parse_env_bool, parse_env_u64, parse_headers_env, parse_basic_auth_env,
  parse_storage_backend_env, parse_csv_env, headers_loop, split,
}
use paradown.Config.Overrides.{
  apply_env_overrides, run_overrides, task_overrides, http_overrides, p2p_overrides, env_indexes,
}
use paradown.Config.Valid.{into_config-next_retry_delay}

abbrev config : Config
unfolding default_retry default_libtorrent default_limits
config = record {
  download_dir = "./downloads";
  shuffle_tasks = false;
  concurrent_tasks = 4;
  segments_per_task = 8;
  retry = default_retry (λ initial exponent. initial * 2 ^ exponent);
  rate_limit_kib_per_sec = none;
  connect_timeout_secs = 60;
  storage_backend = sqlite "./downloads.db";
  progress_throttle = record { interval_ms = 200; threshold_bytes = 1048576 };
  file_conflict_strategy = resume;
  log_level = info;
  completion_hook = none;
  http = record {
    client = record {
      proxy = record {
        use_env_proxy = false;
        http_proxy = none;
        https_proxy = none;
        no_proxy = none;
      };
      cookie_store = false;
      cookie_jar_path = none;
      tls = record {
        insecure_skip_verify = false;
        ca_certificate_pem = none;
        client_identity_pem = none;
      };
    };
    request = no_options;
  };
  p2p = record {
    enabled = true;
    libtorrent = default_libtorrent;
    swarm = record {
      enabled = true;
      cache_dir = none;
      include_magnet_hints = true;
      static_trackers = [];
      static_tracker_files = [];
      static_peers = [];
      static_web_seeds = [];
      tracker_list_urls = [];
      tracker_list_cache_ttl_secs = 86400;
      tracker_list_timeout_secs = 15;
      index_providers = [];
      discovery_files = [];
      discovery_urls = [];
      discovery_input_kind = auto;
      discovery_timeout_secs = 15;
      limits = default_limits;
    };
  };
}

into_config-next_retry_delay_example :
    (config ≡ config)
    × (0 < config.concurrent_tasks)
    × (0 < config.segments_per_task)
    × (config.segments_per_task ≤ 100)
    × (1 < config.retry.max_retries)
    × (0 < config.retry.initial_delay)
    × (config.retry.initial_delay ≤ 2)
    × (2 ≤ config.retry.max_delay)
unfolding into_config validate_schema_version validate validate_retry_config validate_p2p_config
    validate_index_providers validate_limits trim next_retry_delay compute_retry_delay config
into_config-next_retry_delay_example = into_config-next_retry_delay 1 1 2 config config refl refl

segments_above_100 :
    validate (record config { segments_per_task = 101 }) ≡ invalid (invalid_segments_per_task 101)
unfolding validate config
segments_above_100 = refl

newer_schema : into_config 2 config ≡ invalid (unsupported_schema_version 2 1)
unfolding into_config validate_schema_version
newer_schema = refl

conflict_strategy_dashes : conflict_strategy_from_str " Skip-If-Valid " ≡ valid skip_if_valid
unfolding conflict_strategy_from_str trim to_lower
conflict_strategy_dashes = refl

abbrev environment : String → Option String
environment key =
    if str_eq key "PARADOWN_SEGMENTS_PER_TASK"
    then some "12"
    else if str_eq key "PARADOWN_WORKERS"
    then some " 16 "
    else if str_eq key "PARADOWN_INDEX_URL_TEMPLATES"
    then some "https://one/{q}, ,https://two/{q}"
    else none

-- The older name is read last and wins.
older_name_wins : (apply_env_overrides environment config).0.segments_per_task ≡ 16
unfolding apply_env_overrides run_overrides task_overrides http_overrides p2p_overrides read_env
    parse_env_bool parse_env_u64 parse_unsigned parse_csv_env split env_indexes print_digits trim
    config
older_name_wins = refl

blank_templates :
    map
      (λ (p : SwarmIndexProviderConfig). p.name)
      (apply_env_overrides environment config).0.p2p.swarm.index_providers
    ≡ "env-index-1" ∷ "env-index-2" ∷ []
unfolding apply_env_overrides run_overrides task_overrides http_overrides p2p_overrides read_env
    parse_env_bool parse_env_u64 parse_unsigned parse_csv_env split env_indexes print_digits trim
    config
blank_templates = refl

-- What was set before an error stays.
error_keeps_earlier :
    apply_env_overrides
      (λ key.
        if str_eq key "PARADOWN_SHUFFLE"
        then some "true"
        else if str_eq key "PARADOWN_WORKERS"
        then some "many"
        else none)
      config
    ≡ (
      record config { shuffle_tasks = true },
      invalid (invalid_env_value "PARADOWN_WORKERS" "many" "expected unsigned integer"),
    )
unfolding apply_env_overrides run_overrides task_overrides http_overrides p2p_overrides read_env
    parse_env_bool parse_env_u64 parse_unsigned trim to_lower config
error_keeps_earlier = refl

header_lines :
    parse_headers_env "PARADOWN_HEADERS" "A: 1\n\n B : 2:3"
    ≡ valid (record { name = "A"; value = "1" } ∷ record { name = "B"; value = "2:3" } ∷ [])
unfolding parse_headers_env headers_loop split split_once trim
header_lines = refl

user_without_password : parse_basic_auth_env "user: " ≡ valid (basic "user" none)
unfolding parse_basic_auth_env split_once trim
user_without_password = refl

backend_in_capitals :
    (parse_storage_backend_env "Memory" ≡ valid memory)
    × (parse_storage_backend_env "sqlite:a.db" ≡ valid (sqlite "a.db"))
unfolding parse_storage_backend_env trim to_lower strip_prefix
backend_in_capitals = (refl, refl)
