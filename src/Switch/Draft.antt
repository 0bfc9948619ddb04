-- ===== src/Switch/Draft.antt =====
-- internal/switcher/service.go: what `CreateTransfer` writes, namely the transfer, its events and its
-- audit record.
use pixrail_go_payment_switc.Prelude.{List, [], ◌∷◌, none, Text, str, pos, Result}
use pixrail_go_payment_switc.Rail.{
  Transfer, TransferStatus, CreateTransferRequest, DictEntry, FraudDecision, AuditRecord,
}
use pixrail_go_payment_switc.Rail.Request.{decimal, key_type_text}
use pixrail_go_payment_switc.Events.{Event, Subject}
use pixrail_go_payment_switc.Switch.{Env, text, number, texts, new_id, make_event, keep_made}

unfoldable pub new_transfer :
    Env → CreateTransferRequest → Text → DictEntry → FraudDecision → Transfer
new_transfer env req request_hash entry decision = record {
  id = new_id env (str "pxt") 0;
  tenant_id = req.tenant_id;
  account_id = req.account_id;
  idempotency_key = req.idempotency_key;
  request_hash = request_hash;
  correlation_id = req.correlation_id;
  end_to_end_id = [];
  amount_cents = req.amount_cents;
  currency = req.currency;
  receiver_key = req.receiver_key;
  receiver_key_type = req.receiver_key_type;
  receiver_name = entry.name;
  receiver_bank = entry.bank_ispb;
  receiver_risk = entry.risk_signal;
  fraud_score = decision.score;
  fraud_rules = decision.rules;
  status = decision.status;
  decision_reason = decision.reason;
  spi_message_id = [];
  spi_claim_token = [];
  spi_claimed_until = none;
  spi_submission_attempts = pos 0;
  spi_last_error = [];
  settlement_code = [];
  created_at = env.now 1;
  updated_at = env.now 1;
}

unfoldable pub status_text : TransferStatus → Text
status_text TransferStatus.accepted = str "accepted"
status_text TransferStatus.approved = str "approved"
status_text TransferStatus.blocked = str "blocked"
status_text TransferStatus.review = str "review"
status_text TransferStatus.settled = str "settled"
status_text TransferStatus.rejected = str "rejected"
status_text (TransferStatus.unknown s) = s

-- The subject of the events about a transfer.
abbrev pub subject_of : Transfer → Subject
subject_of t = record {
  tenant_id = t.tenant_id;
  account_id = t.account_id;
  transfer_id = t.id;
  correlation_id = t.correlation_id;
}

-- The events that follow from the decision, numbered from the fifth clock reading on.
abbrev pub decision_events : Env → Transfer → FraudDecision → TransferStatus → List (Result Event)
decision_events env t decision TransferStatus.accepted =
    make_event env 4 (str "pix_transfer_accepted") (subject_of t) (env.now 5)
      ((str "decision_reason", text t.decision_reason) ∷ [])
    ∷ make_event env 5 (str "spi_submission_requested") (subject_of t) (env.now 6)
        ((str "request_hash", text t.request_hash) ∷ [])
    ∷ []
decision_events env t decision TransferStatus.review =
    make_event env 4 (str "pix_transfer_review_requested") (subject_of t) (env.now 5) (
      (str "score", number decision.score)
      ∷ (str "rules", texts decision.rules)
      ∷ (str "decision_reason", text decision.reason)
      ∷ [])
    ∷ []
decision_events env t decision TransferStatus.blocked =
    make_event env 4 (str "pix_transfer_blocked") (subject_of t) (env.now 5) (
      (str "score", number decision.score)
      ∷ (str "rules", texts decision.rules)
      ∷ (str "decision_reason", text decision.reason)
      ∷ [])
    ∷ []
decision_events env t decision _ = []

unfoldable pub creation_events : Env → Transfer → DictEntry → FraudDecision → List Event
unfolding status_text
creation_events env t entry decision = keep_made (
    make_event env 1 (str "pix_transfer_requested") (subject_of t) (env.now 2) (
      (str "amount_cents", number t.amount_cents)
      ∷ (str "currency", text t.currency)
      ∷ (str "receiver_key_type", text (key_type_text t.receiver_key_type))
      ∷ [])
    ∷ make_event env 2 (str "dict_key_resolved") (subject_of t) (env.now 3) (
        (str "receiver_id", text entry.receiver_id)
        ∷ (str "receiver_bank", text entry.bank_ispb)
        ∷ (str "risk_signal", number entry.risk_signal)
        ∷ [])
    ∷ make_event env 3 (str "fraud_score_calculated") (subject_of t) (env.now 4) (
        (str "score", number decision.score)
        ∷ (str "status", text (status_text decision.status))
        ∷ (str "rules", texts decision.rules)
        ∷ [])
    ∷ decision_events env t decision decision.status)

unfoldable pub creation_audit : Env → Transfer → AuditRecord
unfolding status_text
creation_audit env t = record {
  tenant_id = t.tenant_id;
  account_id = t.account_id;
  transfer_id = t.id;
  action = str "pix_transfer_decided";
  correlation_id = t.correlation_id;
  metadata = (str "status", status_text t.status) ∷ (str "score", decimal t.fraud_score) ∷ [];
  created_at = env.now 1;
}
