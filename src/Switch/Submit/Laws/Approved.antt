-- ===== src/Switch/Submit/Laws/Approved.antt =====
-- What the SPI's answer makes of a transfer in internal/switcher/service.go, and the events about it.
use pixrail_go_payment_switc.Prelude.{
  ◌≡◌, refl, List, [], ◌∷◌, none, Text, str, ok, Result-cases, inl, inr, arith, text_eq_iff,
}
use pixrail_go_payment_switc.Rail.{Transfer, TransferStatus, SpiMessage, accepted_when}
use pixrail_go_payment_switc.Rail.Transitions
use pixrail_go_payment_switc.Events.{Event}
use pixrail_go_payment_switc.Switch.{Env, text, make_event}
use pixrail_go_payment_switc.Switch.Announce.{event_types, make_event-type}
use pixrail_go_payment_switc.Switch.Submit.{spi_subject, submission_events}

-- The transfer once the SPI's answer is recorded: approved under the SPI's identifiers, without a
-- claim.
abbrev pub approved_by : SpiMessage → Transfer → Transfer
approved_by message t = record t {
  status = TransferStatus.approved;
  spi_message_id = message.message_id;
  end_to_end_id = message.end_to_end_id;
  spi_claim_token = [];
  spi_claimed_until = none;
  spi_last_error = [];
  updated_at = message.submitted_at;
}

pub submission_events-types :
    (env : Env) (t : Transfer) (correlation_id : Text) (message : SpiMessage) (made : List Event)
    → submission_events env t correlation_id message ≡ ok made
    → event_types made ≡ str "spi_message_created" ∷ str "pix_transfer_approved" ∷ []
unfolding submission_events
submission_events-types env t correlation_id message made e =
    let s = spi_subject t correlation_id in
    elim (Result-cases (
      make_event env 1 (str "spi_message_created") s (env.now 1) (
        (str "spi_message_id", text message.message_id)
        ∷ (str "end_to_end_id", text message.end_to_end_id)
        ∷ []))) [
          | inr (x, h) ↦ absurd (ground arith)
          | inl (a, h) ↦
              elim (Result-cases (
                make_event env 2 (str "pix_transfer_approved") s (env.now 2) (
                  (str "end_to_end_id", text message.end_to_end_id)
                  ∷ (str "spi_message_id", text message.message_id)
                  ∷ (str "decision_reason", text t.decision_reason)
                  ∷ []))) [
                    | inr (x, k) ↦ absurd (ground arith)
                    | inl (b, k) ↦
                        let first = make_event-type env 1 _ s (env.now 1) _ a h in
                        let second = make_event-type env 2 _ s (env.now 2) _ b k in
                        let both : made ≡ a ∷ b ∷ [] = ground arith in rw (both, first, second) refl
                  ]
        ]

-- What the transfer's own method does when it takes the SPI's answer in.
pub approve_move :
    (t : Transfer) (token : Text) (message : SpiMessage) (u : Transfer)
    → Transitions.record_spi_submission t token message ≡ ok u
    → (t.status ≡ TransferStatus.accepted)
      × (t.spi_claim_token ≡ token)
      × (u ≡ approved_by message t)
unfolding Transitions.record_spi_submission
approve_move t token message u e = (
  accepted_when t.status (ground arith),
  ground (arith, text_eq_iff t.spi_claim_token token),
  ground arith,
)
