-- ===== src/Tests.antt =====
-- Concrete data for the tests: one request that goes all the way, and its surroundings.
pub mod Life
pub mod Stored
pub mod Served
pub mod Sent
pub mod Rated
pub mod Relayed
pub mod Encoded
pub mod Called
use pixrail_go_payment_switc.Prelude.{
  ℕ, ◌+◌, List, [], ◌∷◌, ◌++◌, Option, none, some, Text, str, ℤ, pos, Result, ok, err, Error, true,
  false,
}
use pixrail_go_payment_switc.Rail.{
  Time, Transfer, TransferStatus, DictKeyType, SettlementStatus, ReviewDecision,
  CreateTransferRequest, DictEntry, FraudDecision, SpiMessage, SettlementCallback,
  ReviewDecisionRequest, AuditRecord,
}
use pixrail_go_payment_switc.Store.{MemoryStore, new_memory_store}
use pixrail_go_payment_switc.Fraud.{score}
use pixrail_go_payment_switc.Switch.{Env, World, Reply, Field}

abbrev pub a_transfer : Transfer
a_transfer = record {
  id = b't' ∷ [];
  tenant_id = b'a' ∷ [];
  account_id = b'x' ∷ [];
  idempotency_key = b'k' ∷ [];
  request_hash = b'h' ∷ [];
  correlation_id = b'c' ∷ [];
  end_to_end_id = [];
  amount_cents = pos 1200;
  currency = b'B' ∷ b'R' ∷ b'L' ∷ [];
  receiver_key = b'r' ∷ [];
  receiver_key_type = DictKeyType.email;
  receiver_name = b'n' ∷ [];
  receiver_bank = b'b' ∷ [];
  receiver_risk = pos 10;
  fraud_score = pos 10;
  fraud_rules = [];
  status = TransferStatus.accepted;
  decision_reason = [];
  spi_message_id = [];
  spi_claim_token = [];
  spi_claimed_until = none;
  spi_submission_attempts = pos 0;
  spi_last_error = [];
  settlement_code = [];
  created_at = 5;
  updated_at = 5;
}

abbrev pub a_worker : Text
a_worker = b'w' ∷ []

abbrev pub claimed_transfer : Transfer
claimed_transfer = record a_transfer {
  spi_claim_token = a_worker;
  spi_claimed_until = some 40;
  spi_submission_attempts = pos 1;
  updated_at = 10;
}

abbrev pub a_message : SpiMessage
a_message = record {
  message_id = b'm' ∷ [];
  end_to_end_id = b'e' ∷ [];
  transfer_id = b't' ∷ [];
  submitted_at = 20;
}

abbrev pub a_callback : SettlementCallback
a_callback = record {
  tenant_id = b'a' ∷ [];
  transfer_id = b't' ∷ [];
  spi_message_id = b'm' ∷ [];
  status = SettlementStatus.accepted;
  code = [];
  callback_hash = b'z' ∷ [];
  correlation_id = b'c' ∷ [];
  received_at = 30;
}

abbrev pub an_audit : AuditRecord
an_audit = record {
  tenant_id = b'a' ∷ [];
  account_id = b'x' ∷ [];
  transfer_id = b't' ∷ [];
  action = [];
  correlation_id = b'c' ∷ [];
  metadata = [];
  created_at = 20;
}

abbrev pub an_entry : DictEntry
an_entry = record {
  key = b'r' ∷ [];
  key_type = DictKeyType.email;
  receiver_id = b'i' ∷ [];
  name = b'n' ∷ [];
  bank_ispb = b'b' ∷ [];
  account_hash = b'q' ∷ [];
  risk_signal = pos 10;
  resolved_at = 4;
}

abbrev pub a_request : CreateTransferRequest
a_request = record {
  tenant_id = b'a' ∷ [];
  account_id = b'x' ∷ [];
  idempotency_key = b'k' ∷ [];
  correlation_id = b'c' ∷ [];
  amount_cents = pos 1200;
  currency = b'B' ∷ b'R' ∷ b'L' ∷ [];
  receiver_key = b'r' ∷ [];
  receiver_key_type = DictKeyType.email;
  description = [];
  requested_at = 5;
}

-- Quiet surroundings: the request and the transfer are the only ones.
abbrev pub an_env : Env
an_env = record {
  digest = λ s. b'd' ∷ s;
  marshal = λ p. ok (b'{' ∷ b'}' ∷ []);
  now = λ n. 100 + n;
  store_now = λ n. 100 + n;
  limit_now = λ n. 100 + n;
  random = λ n. b'0' ∷ [];
  ctx = λ n. none;
  meanwhile = λ n s. s;
  resolve = λ tenant_id key key_type. ok an_entry;
  score = λ request entry. ok (score request entry);
  submit = λ t. ok a_message;
}

abbrev pub a_world : World
a_world = record { store = new_memory_store; tenant_limit = none; dict_limit = none }

abbrev pub reply_or : Reply → Result Reply → Reply
reply_or r (ok r') = r'
reply_or r (err e) = r

abbrev pub no_reply : Reply
no_reply = record { transfer = a_transfer; idempotent_replay = true; events = [] }
