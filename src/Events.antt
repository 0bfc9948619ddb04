-- ===== src/Events.antt =====
-- internal/events/events.go: the event envelope and the outbox record. The payload is the text that
-- `json.Marshal` makes of the caller's map, or its error.
use pixrail_go_payment_switc.Prelude.{ℤ, Bool, Option, Text, str, Result, ok, err, ◌++◌}
use pixrail_go_payment_switc.Rail.{Time}

pub record Event : Type 0 where
  pub event_id : Text
  pub event_type : Text
  pub schema_version : Text
  pub occurred_at : Time
  pub producer : Text
  pub tenant_id : Text
  pub account_id : Text
  pub transfer_id : Text
  pub correlation_id : Text
  pub payload : Text

pub record OutboxRecord : Type 0 where
  pub sequence : ℤ
  pub event : Event
  pub published : Bool
  pub attempts : ℤ
  pub last_error : Text
  pub available_at : Time
  pub claim_token : Text
  pub claimed_until : Option Time
  pub dispatched_at : Option Time

-- Who an event is about: the arguments of `New` before the time.
pub record Subject : Type 0 where
  pub tenant_id : Text
  pub account_id : Text
  pub transfer_id : Text
  pub correlation_id : Text

-- `events.New`; `marshalled` is what `json.Marshal(payload)` returned.
unfoldable pub new_event : Text → Text → Subject → Time → Result Text → Result Event
new_event event_id event_type s occurred_at (ok raw) = ok (record {
  event_id = event_id;
  event_type = event_type;
  schema_version = str "1";
  occurred_at = occurred_at;
  producer = str "pixrail.payment-switch";
  tenant_id = s.tenant_id;
  account_id = s.account_id;
  transfer_id = s.transfer_id;
  correlation_id = s.correlation_id;
  payload = raw;
})
new_event event_id event_type s occurred_at (err e) =
    err (record { kind = e.kind; message = str "marshal event payload: " ++ e.message })
