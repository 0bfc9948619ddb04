-- ===== src/Api.antt =====
-- internal/api/server.go: the HTTP server in front of the switch. The mux and the middleware have
-- found the endpoint and the correlation before; JSON, HMAC-SHA256, `strconv.ParseInt` and the
-- difference of two times are parameters.
pub mod Auth
pub mod Handlers
pub mod Middleware
pub mod Safe
use pixrail_go_payment_switc.Prelude.{
  ℕ, Bool, true, false, List, Text, str, ℤ, pos, ltb_ℤ, leb_ℤ, Map, Option, none, some, lookup,
  insert, inc64, wrap64, ◌+ℤ◌, if◌then◌else◌, Error, Kind,
}
use pixrail_go_payment_switc.Rail.{
  Time, Transfer, TransferStatus, DictKeyType, ReviewDecision, SettlementStatus,
}
use pixrail_go_payment_switc.Events.{OutboxRecord}
use pixrail_go_payment_switc.Switch.{World}
use pixrail_go_payment_switc.Metrics.{Metrics}
use pixrail_go_payment_switc.Config.{ApiKeyRole, ApiKey}

pub record SecurityConfig : Type 0 where
  pub provider_callback_secret : Text
  pub signature_tolerance : ℤ

-- `Server`, without the service's state and without the logger.
pub record Server : Type 0 where
  pub keys : Map ApiKey
  pub security : SecurityConfig

-- `NewServer`: five minutes unless a positive tolerance is given.
unfoldable pub new_server : Map ApiKey → Option SecurityConfig → Server
new_server keys none = record {
  keys = keys;
  security = record { provider_callback_secret = str ""; signature_tolerance = pos 300000000000 };
}
new_server keys (some security) = record {
  keys = keys;
  security =
      if leb_ℤ security.signature_tolerance (pos 0)
      then record security { signature_tolerance = pos 300000000000 }
      else security;
}

-- What `routes` registers, with the path's `id`.
pub data Endpoint : Type 0 where
  health ready metrics_page outbox create_transfer : Endpoint
  get_transfer submit_to_spi record_review record_settlement : Text → Endpoint

-- The role that `routes` asks for.
unfoldable pub role_for : Endpoint → Option ApiKeyRole
role_for health = none
role_for ready = none
role_for metrics_page = none
role_for outbox = some ApiKeyRole.role_tenant
role_for create_transfer = some ApiKeyRole.role_tenant
role_for (get_transfer id) = some ApiKeyRole.role_tenant
role_for (submit_to_spi id) = some ApiKeyRole.role_worker
role_for (record_review id) = some ApiKeyRole.role_risk
role_for (record_settlement id) = some ApiKeyRole.role_provider

-- The headers and the body; `none` is a body that cannot be read to its end.
pub record Request : Type 0 where
  pub authorization : Text
  pub api_key : Text
  pub idempotency_key : Text
  pub timestamp : Text
  pub signature : Text
  pub correlation_id : Text
  pub body : Option Text

pub record CreatePayload : Type 0 where
  pub account_id : Text
  pub amount_cents : ℤ
  pub currency : Text
  pub receiver_key : Text
  pub receiver_key_type : DictKeyType
  pub description : Text

pub record ReviewPayload : Type 0 where
  pub decision : ReviewDecision
  pub reason : Text

pub record SettlementPayload : Type 0 where
  pub spi_message_id : Text
  pub status : SettlementStatus
  pub code : Text

-- What the handlers take from libraries, and their readings of the clock.
pub record Libraries : Type 0 where
  pub decode_create : Request → Option CreatePayload
  pub decode_review : Request → Option ReviewPayload
  pub decode_settlement : Text → Option SettlementPayload
  pub parse_int : Text → Option ℤ
  -- The hexadecimal HMAC-SHA256 of a message under a secret.
  pub hmac : Text → Text → Text
  -- The time from an epoch in seconds to `now`, in nanoseconds.
  pub since_epoch : Time → ℤ → ℤ
  pub now : Time
  pub received_at : Time

-- `transferResponse`, without the names of the fields.
pub record TransferView : Type 0 where
  pub id : Text
  pub tenant_id : Text
  pub account_id : Text
  pub status : TransferStatus
  pub amount_cents : ℤ
  pub currency : Text
  pub receiver_key_type : DictKeyType
  pub receiver_name : Text
  pub receiver_bank : Text
  pub fraud_score : ℤ
  pub fraud_rules : List Text
  pub decision_reason : Text
  pub spi_message_id : Text
  pub end_to_end_id : Text
  pub settlement_code : Text
  pub created_at : Time
  pub updated_at : Time

unfoldable pub transfer_view : Transfer → TransferView
transfer_view t = record {
  id = t.id;
  tenant_id = t.tenant_id;
  account_id = t.account_id;
  status = t.status;
  amount_cents = t.amount_cents;
  currency = t.currency;
  receiver_key_type = t.receiver_key_type;
  receiver_name = t.receiver_name;
  receiver_bank = t.receiver_bank;
  fraud_score = t.fraud_score;
  fraud_rules = t.fraud_rules;
  decision_reason = t.decision_reason;
  spi_message_id = t.spi_message_id;
  end_to_end_id = t.end_to_end_id;
  settlement_code = t.settlement_code;
  created_at = t.created_at;
  updated_at = t.updated_at;
}

pub data Body : Type 0 where
  failure : (code message : Text) → Body
  shown : TransferView → (idempotent_replay : Bool) → Body
  records : List OutboxRecord → Body
  alive : Body
  ready_body : Body
  unavailable : (message : Text) → Body
  prometheus unmatched : Body

pub record Response : Type 0 where
  pub status : ℕ
  pub body : Body

abbrev pub write_error : ℕ → Text → Text → Response
write_error status code message = record { status = status; body = Body.failure code message }

-- `handleDomainError`
unfoldable pub domain_error : Error → Response
domain_error e = elim e.kind [
  | Kind.validation ↦ write_error 400 (str "validation_failed") e.message
  | Kind.unauthorized ↦ write_error 401 (str "unauthorized") e.message
  | Kind.rate_limited ↦ write_error 429 (str "rate_limited") e.message
  | Kind.not_found ↦ write_error 404 (str "not_found") e.message
  | Kind.conflict ↦ write_error 409 (str "conflict") e.message
  | Kind.dependency_failed ↦ write_error 502 (str "dependency_failed") e.message
  | Kind.deadline_exceeded ↦ write_error 500 (str "internal_error") (str "unexpected error")
  | Kind.canceled ↦ write_error 500 (str "internal_error") (str "unexpected error")
  | Kind.other ↦ write_error 500 (str "internal_error") (str "unexpected error")
]

-- What requests share: the service's world, and the metrics.
pub record State : Type 0 where
  pub world : World
  pub metrics : Metrics
