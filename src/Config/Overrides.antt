-- ===== src/Config/Overrides.antt =====
-- `Config::apply_env_overrides` of src/config.rs: its statements in their order. An error ends them
-- and leaves what was set before.
use Prim.Native.String.{◌++◌ as ◌+++◌}
use paradown.Prelude.{
  ℕ, ◌+◌, ◌==◌, String, true, Option, some, none, List, [], ◌∷◌, ◌++◌, if◌then◌else◌,
}
use paradown.Text.{print_digits}
use paradown.Domain.Http.{HttpRequestOptions, bearer}
use paradown.Config.{
  Config, Checked, valid, invalid, ProxyOptions, TlsOptions, HttpClientOptions,
  LibtorrentEngineConfig, P2pConfig, SwarmProviderConfig, SwarmIndexProviderConfig, auto,
  conflict_strategy_from_str,
}
use paradown.Config.Env.{
  read_env, parse_env_bool, parse_env_u64, parse_storage_backend_env, parse_log_level,
  parse_headers_env, parse_csv_env, parse_basic_auth_env,
}

-- `if let Some(value) = read? { set }`
abbrev override :
    {A : Type 0} → Checked (Option A) → (A → Config → Config) → Config → Config × Checked (Unit {0})
override (invalid e) set config = (config, invalid e)
override (valid none) set config = (config, valid tt)
override (valid (some value)) set config = (set value config, valid tt)

abbrev read_parsed : {A : Type 0} → (String → Checked A) → Option String → Checked (Option A)
read_parsed parse none = valid none
read_parsed parse (some text) = elim (parse text) [
  | invalid e ↦ invalid e
  | valid value ↦ valid (some value)
]

-- NonZeroU64::new
abbrev non_zero : ℕ → Option ℕ
non_zero value = if value == 0 then none else some value

abbrev on_client : (HttpClientOptions → HttpClientOptions) → Config → Config
on_client f config = record config { http = record (config.http) { client = f config.http.client } }

abbrev on_proxy : (ProxyOptions → ProxyOptions) → Config → Config
on_proxy f = on_client (λ c. record c { proxy = f c.proxy })

abbrev on_tls : (TlsOptions → TlsOptions) → Config → Config
on_tls f = on_client (λ c. record c { tls = f c.tls })

abbrev on_request : (HttpRequestOptions → HttpRequestOptions) → Config → Config
on_request f config = record config {
  http = record (config.http) { request = f config.http.request };
}

abbrev on_p2p : (P2pConfig → P2pConfig) → Config → Config
on_p2p f config = record config { p2p = f config.p2p }

abbrev on_libtorrent : (LibtorrentEngineConfig → LibtorrentEngineConfig) → Config → Config
on_libtorrent f = on_p2p (λ c. record c { libtorrent = f c.libtorrent })

abbrev on_swarm : (SwarmProviderConfig → SwarmProviderConfig) → Config → Config
on_swarm f = on_p2p (λ c. record c { swarm = f c.swarm })

-- The providers of the templates, numbered behind `index`.
unfoldable pub env_indexes : SwarmProviderConfig → ℕ → List String → List SwarmIndexProviderConfig
unfolding print_digits
env_indexes swarm index [] = []
env_indexes swarm index (url_template ∷ templates) =
    record {
      name = "env-index-" +++ print_digits 20 (index + 1) "";
      url_template = url_template;
      input_kind = auto;
      cache_ttl_secs = swarm.tracker_list_cache_ttl_secs;
      timeout_secs = swarm.tracker_list_timeout_secs;
    }
    ∷ env_indexes swarm (index + 1) templates

-- Those of the settings of tasks.
unfoldable pub task_overrides :
    (String → Option String) → List (Config → Config × Checked (Unit {0}))
task_overrides env =
    (override (valid (read_env env "PARADOWN_DOWNLOAD_DIR"))
      (λ value config. record config { download_dir = value }))
    ∷ (override (parse_env_bool env "PARADOWN_SHUFFLE_TASKS")
        (λ value config. record config { shuffle_tasks = value }))
    ∷ (override (parse_env_bool env "PARADOWN_SHUFFLE")
        (λ value config. record config { shuffle_tasks = value }))
    ∷ (override (parse_env_u64 env "PARADOWN_CONCURRENT_TASKS")
        (λ value config. record config { concurrent_tasks = value }))
    ∷ (override (parse_env_u64 env "PARADOWN_MAX_CONCURRENT")
        (λ value config. record config { concurrent_tasks = value }))
    ∷ (override (parse_env_u64 env "PARADOWN_SEGMENTS_PER_TASK")
        (λ value config. record config { segments_per_task = value }))
    ∷ (override (parse_env_u64 env "PARADOWN_WORKERS")
        (λ value config. record config { segments_per_task = value }))
    ∷ (override (parse_env_u64 env "PARADOWN_RATE_LIMIT_KIB_PER_SEC")
        (λ value config. record config { rate_limit_kib_per_sec = non_zero value }))
    ∷ (override (parse_env_u64 env "PARADOWN_RATE_LIMIT_KBPS")
        (λ value config. record config { rate_limit_kib_per_sec = non_zero value }))
    ∷ (override (parse_env_u64 env "PARADOWN_CONNECT_TIMEOUT_SECS")
        (λ value config. record config { connect_timeout_secs = value }))
    ∷ (override (parse_env_u64 env "PARADOWN_CONNECTION_TIMEOUT_SECS")
        (λ value config. record config { connect_timeout_secs = value }))
    ∷ (override (read_parsed (parse_storage_backend_env) (read_env env "PARADOWN_STORAGE_BACKEND"))
        (λ value config. record config { storage_backend = value }))
    ∷ (override
        (read_parsed (conflict_strategy_from_str) (read_env env "PARADOWN_FILE_CONFLICT_STRATEGY"))
        (λ value config. record config { file_conflict_strategy = value }))
    ∷ (override
        (read_parsed (parse_log_level "PARADOWN_LOG_LEVEL") (read_env env "PARADOWN_LOG_LEVEL"))
        (λ value config. record config { log_level = value }))
    ∷ (override (valid (read_env env "PARADOWN_COMPLETION_HOOK"))
        (λ value config. record config { completion_hook = some value }))
    ∷ (override (valid (read_env env "PARADOWN_ON_COMPLETE"))
        (λ value config. record config { completion_hook = some value }))
    ∷ []

-- Those of the settings of requests.
unfoldable pub http_overrides :
    (String → Option String) → List (Config → Config × Checked (Unit {0}))
http_overrides env =
    (override (parse_env_bool env "PARADOWN_USE_ENV_PROXY")
      (λ value. on_proxy (λ c. record c { use_env_proxy = value })))
    ∷ (override (parse_env_bool env "PARADOWN_COOKIE_STORE")
        (λ value. on_client (λ c. record c { cookie_store = value })))
    ∷ (override (valid (read_env env "PARADOWN_COOKIE_JAR"))
        (λ value. on_client (λ c. record c { cookie_store = true; cookie_jar_path = some value })))
    ∷ (override (valid (read_env env "PARADOWN_HTTP_PROXY"))
        (λ value. on_proxy (λ c. record c { http_proxy = some value })))
    ∷ (override (valid (read_env env "PARADOWN_HTTPS_PROXY"))
        (λ value. on_proxy (λ c. record c { https_proxy = some value })))
    ∷ (override (valid (read_env env "PARADOWN_NO_PROXY"))
        (λ value. on_proxy (λ c. record c { no_proxy = some value })))
    ∷ (override (parse_env_bool env "PARADOWN_TLS_INSECURE_SKIP_VERIFY")
        (λ value. on_tls (λ c. record c { insecure_skip_verify = value })))
    ∷ (override (valid (read_env env "PARADOWN_TLS_CA_CERT_PEM"))
        (λ value. on_tls (λ c. record c { ca_certificate_pem = some value })))
    ∷ (override (valid (read_env env "PARADOWN_TLS_CLIENT_IDENTITY_PEM"))
        (λ value. on_tls (λ c. record c { client_identity_pem = some value })))
    ∷ (override
        (read_parsed (parse_headers_env "PARADOWN_HEADERS") (read_env env "PARADOWN_HEADERS"))
        (λ value. on_request (λ c. record c { headers = value })))
    ∷ (override (valid (read_env env "PARADOWN_COOKIE"))
        (λ value. on_request (λ c. record c { cookie = some value })))
    ∷ (override (valid (read_env env "PARADOWN_USER_AGENT"))
        (λ value. on_request (λ c. record c { user_agent = some value })))
    ∷ (override (read_parsed (parse_basic_auth_env) (read_env env "PARADOWN_BASIC_AUTH"))
        (λ value. on_request (λ c. record c { auth = some value })))
    ∷ (override (valid (read_env env "PARADOWN_BEARER_TOKEN"))
        (λ value. on_request (λ c. record c { auth = some (bearer value) })))
    ∷ []

-- Those of the settings of torrents.
unfoldable pub p2p_overrides :
    (String → Option String) → List (Config → Config × Checked (Unit {0}))
p2p_overrides env =
    (override (parse_env_bool env "PARADOWN_P2P_ENABLED")
      (λ value. on_p2p (λ c. record c { enabled = value })))
    ∷ (override (parse_env_u64 env "PARADOWN_LIBTORRENT_ALERT_QUEUE_SIZE")
        (λ value. on_libtorrent (λ c. record c { alert_queue_size = value })))
    ∷ (override (parse_env_bool env "PARADOWN_LIBTORRENT_DHT")
        (λ value. on_libtorrent (λ c. record c { enable_dht = value })))
    ∷ (override (parse_env_bool env "PARADOWN_LIBTORRENT_LSD")
        (λ value. on_libtorrent (λ c. record c { enable_lsd = value })))
    ∷ (override (parse_env_bool env "PARADOWN_LIBTORRENT_UPNP")
        (λ value. on_libtorrent (λ c. record c { enable_upnp = value })))
    ∷ (override (parse_env_bool env "PARADOWN_LIBTORRENT_NATPMP")
        (λ value. on_libtorrent (λ c. record c { enable_natpmp = value })))
    ∷ (override (valid (read_env env "PARADOWN_LIBTORRENT_LISTEN_INTERFACES"))
        (λ value. on_libtorrent (λ c. record c { listen_interfaces = some value })))
    ∷ (override (parse_env_bool env "PARADOWN_SWARM_PROVIDERS_ENABLED")
        (λ value. on_swarm (λ c. record c { enabled = value })))
    ∷ (override (valid (read_env env "PARADOWN_SWARM_PROVIDER_CACHE_DIR"))
        (λ value. on_swarm (λ c. record c { cache_dir = some value })))
    ∷ (override (valid (read_env env "PARADOWN_TRACKER_LIST_URLS"))
        (λ value. on_swarm (λ c. record c { tracker_list_urls = parse_csv_env value })))
    ∷ (override (parse_env_u64 env "PARADOWN_TRACKER_LIST_CACHE_TTL_SECS")
        (λ value. on_swarm (λ c. record c { tracker_list_cache_ttl_secs = value })))
    ∷ (override (parse_env_u64 env "PARADOWN_TRACKER_LIST_TIMEOUT_SECS")
        (λ value. on_swarm (λ c. record c { tracker_list_timeout_secs = value })))
    ∷ (override (valid (read_env env "PARADOWN_INDEX_URL_TEMPLATES")) (λ value.
        on_swarm (λ c. record c { index_providers = env_indexes c 0 (parse_csv_env value) })))
    ∷ []

-- One statement after the other, up to an error.
unfoldable pub run_overrides :
    List (Config → Config × Checked (Unit {0})) → Config → Config × Checked (Unit {0})
run_overrides [] config = (config, valid tt)
run_overrides (step ∷ steps) config = elim (step config).1 [
  | invalid e ↦ ((step config).0, invalid e)
  | valid _ ↦ run_overrides steps (step config).0
]

unfoldable pub apply_env_overrides : (String → Option String) → Config → Config × Checked (Unit {0})
unfolding task_overrides http_overrides p2p_overrides run_overrides
apply_env_overrides env config =
    run_overrides (task_overrides env ++ http_overrides env ++ p2p_overrides env) config
