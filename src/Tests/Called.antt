-- ===== src/Tests/Called.antt =====
-- A settlement that arrives at internal/api/server.go, under a configuration for production.
use pixrail_go_payment_switc.Prelude.{
  trim, insert, ◌≡◌, ◌≢◌, refl, ap, [], ◌∷◌, ◌++◌, none, some, Text, str, text_eq, lookup, length,
  pos, ok, err, if◌then◌else◌, arith, true, plain_error, ◌+ℤ◌, wrap64, to_u64, sentinel_text, inc64,
  from_u64, ◌-ℤ◌,
}
use pixrail_go_payment_switc.Config.Load.{
  setting, read_settings, keys_or_demo, is_production, int_at_least, duration_at_least,
  default_tracing_exporter, default_http_addr, check_settings, Surroundings, load,
}
use pixrail_go_payment_switc.Config.Keys.{parse_api_keys}
use pixrail_go_payment_switc.Rail.{Transfer, TransferStatus, SettlementStatus}
use pixrail_go_payment_switc.Store.{
  new_memory_store, scoped, get_transfer, append_events, update_settlement,
}
use pixrail_go_payment_switc.Store.Changes.{Grows-refl}
use pixrail_go_payment_switc.Switch.Sound.{IsSound}
use pixrail_go_payment_switc.Config.{ApiKeyRole, ApiKey, Config, has_role}
use pixrail_go_payment_switc.Config.Load.Sound.{
  IsForProduction, load-IsForProduction, tenants_apart,
}
use pixrail_go_payment_switc.Metrics.{new_metrics, max_latency_samples, latency_key, samples_of}
use pixrail_go_payment_switc.Metrics.Samples.{last, observe_all, durations, observe_all-samples}
use pixrail_go_payment_switc.Api.{Server, Endpoint, Request, Libraries, State, role_for}
use pixrail_go_payment_switc.Api.Auth.{token_of, auth_role, read_and_verify}
use pixrail_go_payment_switc.Api.Handlers.{Answer, serve, answer_outcome}
use pixrail_go_payment_switc.Api.Handlers.Entitled.{IsEntitled, changes_need_role}
use pixrail_go_payment_switc.Api.Handlers.Signed.{IsCarriedOut, settlement_signed}
use pixrail_go_payment_switc.Api.Handlers.Own.{OnlyReads, reads_own}
use pixrail_go_payment_switc.Tests.{a_transfer, an_env, a_world}
use pixrail_go_payment_switc.Switch.Settle.{
  write_settlement, settlement_event, settlement_audit, settle_identified, plan_settlement,
  complete, record_settlement,
}
use pixrail_go_payment_switc.Switch.{new_id, make_event}
use pixrail_go_payment_switc.Rail.Request.{
  settlement_text, join, hash_parts, callback_parts, callback_fingerprint,
}
use pixrail_go_payment_switc.Events.{new_event}
use pixrail_go_payment_switc.Rail.Transitions

an_env-IsSound : IsSound an_env
an_env-IsSound n s v = (v, Grows-refl s)

abbrev settings : Surroundings
settings = record {
  getenv = λ key.
      if text_eq key (str "PIXRAIL_ENV")
      then str "production"
      else if text_eq key (str "PIXRAIL_API_KEYS")
      then str "a:w:tenant|provider, b:v"
      else if text_eq key (str "PIXRAIL_STORE_DRIVER")
      then str "postgres"
      else if text_eq key (str "PIXRAIL_DATABASE_URL")
      then str "db"
      else if text_eq key (str "PIXRAIL_PROVIDER_CALLBACK_SECRET")
      then str "hush"
      else [];
  atoi = λ s. err (plain_error []);
  parse_duration = λ s. err (plain_error []);
  duration_text = λ z. [];
  quote = λ s. s;
}

abbrev a_rest : Text
a_rest = b'x' ∷ []

abbrev w_key : ApiKey
w_key = record {
  tenant_id = b'a' ∷ [];
  secret = b'w' ∷ [];
  roles = ApiKeyRole.role_tenant ∷ ApiKeyRole.role_provider ∷ [];
}

abbrev v_key : ApiKey
v_key = record { tenant_id = b'b' ∷ []; secret = b'v' ∷ []; roles = ApiKeyRole.role_tenant ∷ [] }

abbrev config : Config
config = record {
  addr = str ":8080";
  environment = str "production";
  api_keys = (b'w' ∷ [], w_key) ∷ (b'v' ∷ [], v_key) ∷ [];
  store_driver = str "postgres";
  database_url = str "db";
  postgres_min_conns = pos 0;
  postgres_max_conns = pos 10;
  postgres_max_conn_lifetime = pos 1800000000000;
  tenant_bucket_size = pos 120;
  dict_bucket_size = pos 60;
  dict_timeout = pos 300000000;
  worker_batch_size = pos 100;
  worker_interval = pos 1000000000;
  provider_callback_secret = str "hush";
  provider_signature_tolerance = pos 300000000000;
  pprof_addr = [];
  shutdown_timeout = pos 5000000000;
  require_configured_secrets = true;
  tracing_exporter = str "none";
}

load_run : load settings ≡ ok config
unfolding load read_settings int_at_least trim text_eq str duration_at_least parse_api_keys lookup
    insert keys_or_demo check_settings is_production setting default_tracing_exporter
    default_http_addr
load_run = refl

load-IsForProduction_example : IsForProduction settings config
load-IsForProduction_example = load-IsForProduction settings config load_run refl

w_found : lookup (b'w' ∷ []) config.api_keys ≡ some w_key
unfolding lookup text_eq
w_found = refl

tenants_apart_example : (w_key.tenant_id ≡ w_key.tenant_id) × (a_rest ≡ a_rest)
tenants_apart_example =
    tenants_apart settings config (b'w' ∷ []) (b'w' ∷ []) w_key w_key a_rest a_rest load_run w_found
      w_found refl

abbrev server : Server
server = record {
  keys = config.api_keys;
  security = record {
    provider_callback_secret = str "hush";
    signature_tolerance = pos 300000000000;
  };
}

abbrev lib : Libraries
lib = record {
  decode_create = λ r. none;
  decode_review = λ r. none;
  decode_settlement = λ raw.
      some (record { spi_message_id = b'm' ∷ []; status = SettlementStatus.accepted; code = [] });
  parse_int = λ s. some (pos 99);
  hmac = λ secret message. b'z' ∷ [];
  since_epoch = λ now epoch. pos 1000000000;
  now = 100;
  received_at = 30;
}

abbrev a_call : Request
a_call = record {
  authorization = str "Bearer w";
  api_key = [];
  idempotency_key = [];
  timestamp = str "99";
  signature = str "sha256=z";
  correlation_id = b'c' ∷ [];
  body = some (str "{}");
}

abbrev approved : Transfer
approved = record a_transfer { status = TransferStatus.approved; spi_message_id = b'm' ∷ [] }

abbrev a_state : State
a_state = record {
  world = record a_world {
    store = record new_memory_store { transfers = (b't' ∷ [], approved) ∷ [] };
  };
  metrics = new_metrics;
}

abbrev called : Answer
called = serve an_env lib server a_state (Endpoint.record_settlement (b't' ∷ [])) a_call

called_events : length called.1.world.store.events ≡ 1
unfolding serve role_for auth_role lookup text_eq str has_role read_and_verify trim ◌-ℤ◌
    answer_outcome record_settlement settle_identified get_transfer plan_settlement settlement_event
    make_event new_event new_id sentinel_text from_u64 inc64 to_u64 wrap64 ◌+ℤ◌ callback_fingerprint
    callback_parts hash_parts join settlement_text Transitions.record_settlement append_events
    scoped update_settlement complete settlement_audit write_settlement insert
called_events = refl

called_changed : called.1 ≢ a_state
called_changed e =
    let before : length called.1.world.store.events ≡ 0 =
      ap (λ (st : State). length st.world.store.events) e in
    ground (arith, called_events, before)

changes_need_role_example : IsEntitled server (Endpoint.record_settlement (b't' ∷ [])) a_call
changes_need_role_example =
    changes_need_role settings config an_env lib server a_state
      (Endpoint.record_settlement (b't' ∷ [])) a_call load_run refl called_changed

settlement_signed_example : IsCarriedOut an_env lib server a_state (b't' ∷ []) a_call
settlement_signed_example =
    settlement_signed an_env lib server a_state (b't' ∷ []) a_call called_changed

token_found : lookup (token_of a_call) server.keys ≡ some w_key
unfolding lookup text_eq token_of str
token_found = refl

reads_own_example :
    OnlyReads w_key.tenant_id a_state
      (serve an_env lib server a_state (Endpoint.get_transfer (b't' ∷ [])) a_call)
    × OnlyReads w_key.tenant_id a_state (serve an_env lib server a_state Endpoint.outbox a_call)
reads_own_example = reads_own an_env lib server a_state (b't' ∷ []) a_call w_key token_found

observe_all-samples_example :
    samples_of
      (latency_key (str "GET") (str "/healthz"))
      (observe_all new_metrics
        (str "GET")
        (str "/healthz")
        ((200, pos 5) ∷ (503, pos 7) ∷ [])).latency
    ≡ last max_latency_samples (
        samples_of (latency_key (str "GET") (str "/healthz")) new_metrics.latency
        ++ durations ((200, pos 5) ∷ (503, pos 7) ∷ []))
unfolding lookup
observe_all-samples_example =
    observe_all-samples new_metrics (str "GET") (str "/healthz") ((200, pos 5) ∷ (503, pos 7) ∷ [])
      (omega arith)
