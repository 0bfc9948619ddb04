-- ===== src/Config.antt =====
-- internal/config/config.go: the API keys and the settings. The environment, `strconv.Atoi`,
-- `time.ParseDuration`, `%q` and the text of a duration are parameters.
pub mod Keys
pub mod Load
use pixrail_go_payment_switc.Prelude.{
  Bool, true, false, ◌||◌, List, [], ◌∷◌, Text, str, ℤ, Map, Option, none, some, text_eq,
  if◌then◌else◌,
}

-- `APIKeyRole`. A role that is none of these never gets into a key.
pub data ApiKeyRole : Type 0 where
  role_tenant role_worker role_risk role_provider : ApiKeyRole

unfoldable pub role_eq : ApiKeyRole → ApiKeyRole → Bool
role_eq role_tenant role_tenant = true
role_eq role_worker role_worker = true
role_eq role_risk role_risk = true
role_eq role_provider role_provider = true
role_eq _ _ = false

-- `APIKey`; the roles are the keys that the map has.
pub record ApiKey : Type 0 where
  pub tenant_id : Text
  pub secret : Text
  pub roles : List ApiKeyRole

unfoldable pub member : ApiKeyRole → List ApiKeyRole → Bool
unfolding role_eq
member role [] = false
member role (r ∷ rs) = role_eq r role || member role rs

-- `APIKey.HasRole`
unfoldable pub has_role : ApiKey → ApiKeyRole → Bool
unfolding role_eq member
has_role key role = elim key.roles [ [] ↦ role_eq role role_tenant | r ∷ rs ↦ member role (r ∷ rs) ]

-- The durations are in nanoseconds.
pub record Config : Type 0 where
  pub addr : Text
  pub environment : Text
  pub api_keys : Map ApiKey
  pub store_driver : Text
  pub database_url : Text
  pub postgres_min_conns : ℤ
  pub postgres_max_conns : ℤ
  pub postgres_max_conn_lifetime : ℤ
  pub tenant_bucket_size : ℤ
  pub dict_bucket_size : ℤ
  pub dict_timeout : ℤ
  pub worker_batch_size : ℤ
  pub worker_interval : ℤ
  pub provider_callback_secret : Text
  pub provider_signature_tolerance : ℤ
  pub pprof_addr : Text
  pub shutdown_timeout : ℤ
  pub require_configured_secrets : Bool
  pub tracing_exporter : Text
