-- ===== src/Config/Load.antt =====
-- `Load` in internal/config/config.go.
pub mod Range
pub mod Sound
use pixrail_go_payment_switc.Prelude.{
  ℕ, Bool, true, false, ◌&&◌, ◌||◌, not, List, [], ◌∷◌, ◌++◌, Text, str, is_empty, trim, text_eq, ℤ,
  pos, ltb_ℤ, Map, insert, if◌then◌else◌, Result, ok, err, ◌>>=◌, plain_error,
}
use pixrail_go_payment_switc.Rail.Request.{decimal}
use pixrail_go_payment_switc.Config.{ApiKeyRole, ApiKey, Config}
use pixrail_go_payment_switc.Config.Keys.{parse_api_keys}

-- What `Load` draws from outside.
pub record Surroundings : Type 0 where
  pub getenv : Text → Text
  pub atoi : Text → Result ℤ
  pub parse_duration : Text → Result ℤ
  pub duration_text : ℤ → Text
  pub quote : Text → Text

-- `getenv` of the code.
unfoldable pub setting : Surroundings → Text → Text → Text
setting env key fallback =
    let given = trim (env.getenv key) in if is_empty given then fallback else given

unfoldable pub starts_with_colon : Text → Bool
starts_with_colon s = elim s [ [] ↦ false | x ∷ xs ↦ text_eq (x ∷ []) (str ":") ]

-- `defaultHTTPAddr`
unfoldable pub default_http_addr : Surroundings → Text
unfolding starts_with_colon
default_http_addr env =
    let addr = trim (env.getenv (str "PIXRAIL_HTTP_ADDR")) in
    let port = trim (env.getenv (str "PORT")) in
    if not (is_empty addr)
    then addr
    else if is_empty port
    then str ":8080"
    else if starts_with_colon port
    then port
    else str ":" ++ port

-- `getenvIntAtLeast`
unfoldable pub int_at_least : Surroundings → Text → ℤ → ℤ → Result ℤ
int_at_least env key fallback low =
    let given = trim (env.getenv key) in
    if is_empty given then ok fallback else elim (env.atoi given) [
      | err e ↦ err (plain_error (key ++ (str " must be an integer: " ++ e.message)))
      | ok parsed ↦
          if ltb_ℤ parsed low
          then err (plain_error (key ++ (str " must be >= " ++ decimal low)))
          else ok parsed
    ]

-- `getenvDurationAtLeast`
unfoldable pub duration_at_least : Surroundings → Text → ℤ → ℤ → Result ℤ
duration_at_least env key fallback low =
    let given = trim (env.getenv key) in
    if is_empty given then ok fallback else elim (env.parse_duration given) [
      | err e ↦ err (plain_error (key ++ (str " must be a duration: " ++ e.message)))
      | ok parsed ↦
          if ltb_ℤ parsed low
          then err (plain_error (key ++ (str " must be >= " ++ env.duration_text low)))
          else ok parsed
    ]

unfoldable pub is_production : Text → Bool
is_production environment = text_eq environment (str "production")

-- `defaultTracingExporter` and `defaultProviderCallbackSecret`
unfoldable pub default_tracing_exporter : Text → Text
unfolding is_production
default_tracing_exporter environment =
    if is_production environment then str "none" else str "stdout"

unfoldable pub default_provider_callback_secret : Text → Text
unfolding is_production
default_provider_callback_secret environment =
    if is_production environment then [] else str "dev-provider-callback-secret"

-- The settings, before the API keys are read.
unfoldable pub read_settings : Surroundings → Result Config
read_settings env = do
  let environment = setting env (str "PIXRAIL_ENV") (str "development")
  min_conns ← int_at_least env (str "PIXRAIL_POSTGRES_MIN_CONNS") (pos 0) (pos 0)
  max_conns ← int_at_least env (str "PIXRAIL_POSTGRES_MAX_CONNS") (pos 10) (pos 1)
  lifetime ←
      duration_at_least env (str "PIXRAIL_POSTGRES_MAX_CONN_LIFETIME") (pos 1800000000000) (pos 1)
  tenant_bucket ← int_at_least env (str "PIXRAIL_TENANT_BUCKET_SIZE") (pos 120) (pos 1)
  dict_bucket ← int_at_least env (str "PIXRAIL_DICT_BUCKET_SIZE") (pos 60) (pos 1)
  dict_timeout ← duration_at_least env (str "PIXRAIL_DICT_TIMEOUT") (pos 300000000) (pos 1)
  batch_size ← int_at_least env (str "PIXRAIL_WORKER_BATCH_SIZE") (pos 100) (pos 1)
  interval ← duration_at_least env (str "PIXRAIL_WORKER_INTERVAL") (pos 1000000000) (pos 1)
  tolerance ←
      duration_at_least env (str "PIXRAIL_PROVIDER_SIGNATURE_TOLERANCE") (pos 300000000000) (pos 1)
  shutdown ← duration_at_least env (str "PIXRAIL_SHUTDOWN_TIMEOUT") (pos 5000000000) (pos 1)
  ok (record {
    addr = default_http_addr env;
    environment = environment;
    api_keys = [];
    store_driver = setting env (str "PIXRAIL_STORE_DRIVER") (str "memory");
    database_url = setting env (str "PIXRAIL_DATABASE_URL") [];
    postgres_min_conns = min_conns;
    postgres_max_conns = max_conns;
    postgres_max_conn_lifetime = lifetime;
    tenant_bucket_size = tenant_bucket;
    dict_bucket_size = dict_bucket;
    dict_timeout = dict_timeout;
    worker_batch_size = batch_size;
    worker_interval = interval;
    provider_callback_secret =
        setting env (str "PIXRAIL_PROVIDER_CALLBACK_SECRET")
          (default_provider_callback_secret environment);
    provider_signature_tolerance = tolerance;
    pprof_addr = setting env (str "PIXRAIL_PPROF_ADDR") [];
    shutdown_timeout = shutdown;
    require_configured_secrets = is_production environment;
    tracing_exporter =
        setting env (str "PIXRAIL_TRACING_EXPORTER") (default_tracing_exporter environment);
  })

unfoldable pub demo_key : Text → ApiKeyRole → ApiKey
demo_key secret role = record { tenant_id = str "tenant_demo"; secret = secret; roles = role ∷ [] }

unfoldable pub demo_keys : Map ApiKey
unfolding demo_key
demo_keys =
    (str "dev-secret", demo_key (str "dev-secret") ApiKeyRole.role_tenant)
    ∷ (str "worker-secret", demo_key (str "worker-secret") ApiKeyRole.role_worker)
    ∷ (str "risk-secret", demo_key (str "risk-secret") ApiKeyRole.role_risk)
    ∷ (str "provider-secret", demo_key (str "provider-secret") ApiKeyRole.role_provider)
    ∷ []

-- The keys, or the demonstration's when there are none and it is not production.
unfoldable pub keys_or_demo : Bool → Map ApiKey → Result (Map ApiKey)
unfolding demo_keys
keys_or_demo required [] =
    if required
    then err (plain_error (str "PIXRAIL_API_KEYS is required in production"))
    else ok demo_keys
keys_or_demo required (k ∷ ks) = ok (k ∷ ks)

-- The tests that follow, and the configuration.
unfoldable pub check_settings : Config → Map ApiKey → Result Config
check_settings c keys =
    if c.require_configured_secrets && is_empty c.provider_callback_secret
    then err (plain_error (str "PIXRAIL_PROVIDER_CALLBACK_SECRET is required in production"))
    else if not (text_eq c.store_driver (str "memory"))
        && not (text_eq c.store_driver (str "postgres"))
    then err (plain_error (str "PIXRAIL_STORE_DRIVER must be memory or postgres"))
    else if text_eq c.store_driver (str "postgres") && is_empty c.database_url
    then err
        (plain_error (str "PIXRAIL_DATABASE_URL is required when PIXRAIL_STORE_DRIVER=postgres"))
    else if is_production c.environment && not (text_eq c.store_driver (str "postgres"))
    then err (plain_error (str "PIXRAIL_STORE_DRIVER=postgres is required in production"))
    else if not (text_eq c.tracing_exporter (str "none"))
        && not (text_eq c.tracing_exporter (str "stdout"))
    then err (plain_error (str "PIXRAIL_TRACING_EXPORTER must be none or stdout"))
    else ok (record c { api_keys = keys })

-- `Load`
unfoldable pub load : Surroundings → Result Config
load env = do
  c ← read_settings env
  parsed ← parse_api_keys env.quote (env.getenv (str "PIXRAIL_API_KEYS"))
  keys ← keys_or_demo c.require_configured_secrets parsed
  check_settings c keys
