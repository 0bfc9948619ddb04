-- ===== src/Rail.antt =====
-- internal/rail/model.go: the types of the domain model. A time is the number of nanoseconds since
-- Go's zero time, so 0 is `IsZero` and `UTC` changes nothing; a nil `*time.Time` is `none`.
pub mod Request
pub mod Transitions
pub mod Calls
pub mod Lifecycle
use pixrail_go_payment_switc.Prelude.{
  ℕ, Bool, true, false, ◌||◌, Option, List, Text, text_eq, ℤ, Map, ltb, ◌≡◌, refl, arith,
}

abbrev pub Time : Type 0
Time = ℕ

-- `unknown` holds a string that is none of the constants.
pub data TransferStatus : Type 0 where
  accepted approved blocked review settled rejected : TransferStatus
  unknown : Text → TransferStatus

pub data DictKeyType : Type 0 where
  cpf cnpj email phone evp : DictKeyType
  unknown : Text → DictKeyType

pub data SettlementStatus : Type 0 where
  accepted rejected : SettlementStatus
  unknown : Text → SettlementStatus

pub data ReviewDecision : Type 0 where
  approve block : ReviewDecision
  unknown : Text → ReviewDecision

pub record CreateTransferRequest : Type 0 where
  pub tenant_id : Text
  pub account_id : Text
  pub idempotency_key : Text
  pub correlation_id : Text
  pub amount_cents : ℤ
  pub currency : Text
  pub receiver_key : Text
  pub receiver_key_type : DictKeyType
  pub description : Text
  pub requested_at : Time

pub record Transfer : Type 0 where
  pub id : Text
  pub tenant_id : Text
  pub account_id : Text
  pub idempotency_key : Text
  pub request_hash : Text
  pub correlation_id : Text
  pub end_to_end_id : Text
  pub amount_cents : ℤ
  pub currency : Text
  pub receiver_key : Text
  pub receiver_key_type : DictKeyType
  pub receiver_name : Text
  pub receiver_bank : Text
  pub receiver_risk : ℤ
  pub fraud_score : ℤ
  pub fraud_rules : List Text
  pub status : TransferStatus
  pub decision_reason : Text
  pub spi_message_id : Text
  pub spi_claim_token : Text
  pub spi_claimed_until : Option Time
  pub spi_submission_attempts : ℤ
  pub spi_last_error : Text
  pub settlement_code : Text
  pub created_at : Time
  pub updated_at : Time

pub record AuditRecord : Type 0 where
  pub tenant_id : Text
  pub account_id : Text
  pub transfer_id : Text
  pub action : Text
  pub correlation_id : Text
  pub metadata : Map Text
  pub created_at : Time

pub record DictEntry : Type 0 where
  pub key : Text
  pub key_type : DictKeyType
  pub receiver_id : Text
  pub name : Text
  pub bank_ispb : Text
  pub account_hash : Text
  pub risk_signal : ℤ
  pub resolved_at : Time

pub record FraudDecision : Type 0 where
  pub score : ℤ
  pub status : TransferStatus
  pub rules : List Text
  pub reason : Text

pub record SpiMessage : Type 0 where
  pub message_id : Text
  pub end_to_end_id : Text
  pub transfer_id : Text
  pub submitted_at : Time

pub record SettlementCallback : Type 0 where
  pub tenant_id : Text
  pub transfer_id : Text
  pub spi_message_id : Text
  pub status : SettlementStatus
  pub code : Text
  pub callback_hash : Text
  pub correlation_id : Text
  pub received_at : Time

pub record ReviewDecisionRequest : Type 0 where
  pub tenant_id : Text
  pub transfer_id : Text
  pub decision : ReviewDecision
  pub reason : Text
  pub correlation_id : Text
  pub reviewed_at : Time

-- `s == t` on statuses.
abbrev pub status_eq : TransferStatus → TransferStatus → Bool
status_eq TransferStatus.accepted TransferStatus.accepted = true
status_eq TransferStatus.approved TransferStatus.approved = true
status_eq TransferStatus.blocked TransferStatus.blocked = true
status_eq TransferStatus.review TransferStatus.review = true
status_eq TransferStatus.settled TransferStatus.settled = true
status_eq TransferStatus.rejected TransferStatus.rejected = true
status_eq (TransferStatus.unknown s) (TransferStatus.unknown t) = text_eq s t
status_eq _ _ = false

-- `s.Terminal()`
abbrev pub terminal : TransferStatus → Bool
terminal s =
    status_eq s TransferStatus.blocked
    || (status_eq s TransferStatus.settled || status_eq s TransferStatus.rejected)

-- `until != nil && until.After(now)`
abbrev pub claimed_after : Option Time → Time → Bool
claimed_after Option.none now = false
claimed_after (Option.some until) now = ltb now until

pub accepted_when :
    (st : TransferStatus)
    → status_eq st TransferStatus.accepted ≡ true
    → st ≡ TransferStatus.accepted
accepted_when TransferStatus.accepted e = refl
accepted_when st e = ground arith
