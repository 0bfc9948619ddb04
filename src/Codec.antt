-- ===== src/Codec.antt =====
-- internal/codec: the payment event on the wire, and the participant profile in the cache. A text or
-- a buffer is its bytes; an `or` of bits that do not meet is a sum.
pub mod Bytes
pub mod Cbor
pub mod MsgPack
pub mod Proto
pub mod Cache
use pixrail_go_payment_switc.Prelude.{ℕ, List, [], ◌∷◌, Text, str, ℤ, pos}

-- internal/codec/events.go
pub record PaymentEvent : Type 0 where
  pub event_id : Text
  pub event_type : Text
  pub tenant_id : Text
  pub account_id : Text
  pub transfer_id : Text
  pub correlation_id : Text
  pub occurred_at_unix_nano : ℤ
  pub amount_cents : ℤ
  pub currency : Text
  pub receiver_key_type : Text
  pub decision_reason : Text
  pub spi_message_id : Text
  pub end_to_end_id : Text
  pub fraud_score : ℤ
  pub fraud_rules : List Text

-- `SamplePixTransferRequested()`; its date is in nanoseconds since 1970.
unfoldable pub sample_requested : PaymentEvent
sample_requested = record {
  event_id = str "evt_20260531_requested_001";
  event_type = str "pix_transfer_requested";
  tenant_id = str "tenant_demo";
  account_id = str "acct_123";
  transfer_id = str "pxt_20260531_001";
  correlation_id = str "corr_20260531_001";
  occurred_at_unix_nano = pos 1780228800000000000;
  amount_cents = pos 12345;
  currency = str "BRL";
  receiver_key_type = str "EMAIL";
  decision_reason = [];
  spi_message_id = [];
  end_to_end_id = [];
  fraud_score = pos 0;
  fraud_rules = [];
}

-- `SamplePixTransferApproved()`
unfoldable pub sample_approved : PaymentEvent
sample_approved = record sample_requested {
  event_id = str "evt_20260531_approved_001";
  event_type = str "pix_transfer_approved";
  decision_reason = str "risk within payment-rail policy";
  spi_message_id = str "spi_6f0b1abf6b8c2f71";
  end_to_end_id = str "E202605311200006f0b1abf6b8c2f71";
}

-- `SamplePixTransferBlocked()`
unfoldable pub sample_blocked : PaymentEvent
sample_blocked = record sample_requested {
  event_id = str "evt_20260531_blocked_001";
  event_type = str "pix_transfer_blocked";
  decision_reason = str "receiver risk over payment-rail policy";
  fraud_score = pos 96;
  fraud_rules = str "receiver_risk_high" ∷ str "velocity_threshold" ∷ [];
}
