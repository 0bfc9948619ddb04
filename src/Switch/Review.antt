-- ===== src/Switch/Review.antt =====
-- internal/switcher/service.go: `RecordReview`.
pub mod Laws
pub mod Safe
use pixrail_go_payment_switc.Prelude.{
  ℕ, Bool, true, false, ◌||◌, not, ◌==◌, List, [], ◌∷◌, Text, str, is_empty, trim, if◌then◌else◌,
  Result, ok, err, ◌>>=◌, Error, Kind, fault,
}
use pixrail_go_payment_switc.Rail.{
  Time, Transfer, TransferStatus, ReviewDecision, ReviewDecisionRequest, AuditRecord, status_eq,
}
use pixrail_go_payment_switc.Events.{Event, Subject}
use pixrail_go_payment_switc.Store.{get_transfer, record_review_decision}
use pixrail_go_payment_switc.Switch.{
  Env, World, Reply, Outcome, text, number, texts, with_store, make_event, or_else,
}
use pixrail_go_payment_switc.Switch.Draft.{status_text}

unfoldable pub decision_text : ReviewDecision → Text
decision_text ReviewDecision.approve = str "approve"
decision_text ReviewDecision.block = str "block"
decision_text (ReviewDecision.unknown s) = s

unfoldable pub normalize_review : Env → ReviewDecisionRequest → ReviewDecisionRequest
normalize_review env req = record req {
  tenant_id = trim req.tenant_id;
  transfer_id = trim req.transfer_id;
  correlation_id = trim req.correlation_id;
  reason = trim req.reason;
  reviewed_at = if req.reviewed_at == 0 then env.now 0 else req.reviewed_at;
}

-- The next status and the event's type that a decision asks for.
abbrev pub verdict_of : ReviewDecision → Result (TransferStatus × Text)
verdict_of ReviewDecision.approve = ok (TransferStatus.accepted, str "pix_transfer_review_approved")
verdict_of ReviewDecision.block = ok (TransferStatus.blocked, str "pix_transfer_review_blocked")
verdict_of (ReviewDecision.unknown s) =
    err (fault Kind.validation (str "review decision must be approve or block"))

-- The reviewer's reason, or what stands for it.
abbrev pub reason_for : TransferStatus → Text → Text
reason_for TransferStatus.blocked reason = or_else reason (str "manual review blocked")
reason_for _ reason = or_else reason (str "manual review approved")

abbrev pub review_subject : Transfer → ReviewDecisionRequest → Subject
review_subject t req = record {
  tenant_id = t.tenant_id;
  account_id = t.account_id;
  transfer_id = t.id;
  correlation_id = req.correlation_id;
}

-- The event that follows from the next status.
abbrev pub follow_up : Env → Transfer → ReviewDecisionRequest → Text → TransferStatus → Result Event
follow_up env t req reason TransferStatus.accepted =
    make_event env 1 (str "spi_submission_requested") (review_subject t req) req.reviewed_at
      ((str "request_hash", text t.request_hash) ∷ [])
follow_up env t req reason _ =
    make_event env 1 (str "pix_transfer_blocked") (review_subject t req) req.reviewed_at (
      (str "score", number t.fraud_score)
      ∷ (str "rules", texts t.fraud_rules)
      ∷ (str "decision_reason", text reason)
      ∷ [])

unfoldable pub review_events :
    Env → Transfer → ReviewDecisionRequest → Text → TransferStatus → Text → Result (List Event)
unfolding decision_text
review_events env t req reason next event_type = do
  decided ←
      make_event env 0 event_type (review_subject t req) req.reviewed_at
        ((str "decision", text (decision_text req.decision)) ∷ (str "reason", text reason) ∷ [])
  followed ← follow_up env t req reason next
  ok (decided ∷ followed ∷ [])

unfoldable pub review_audit : Transfer → ReviewDecisionRequest → TransferStatus → AuditRecord
unfolding decision_text status_text
review_audit t req next = record {
  tenant_id = t.tenant_id;
  account_id = t.account_id;
  transfer_id = t.id;
  action = str "manual_review_recorded";
  correlation_id = req.correlation_id;
  metadata = (str "decision", decision_text req.decision) ∷ (str "status", status_text next) ∷ [];
  created_at = req.reviewed_at;
}

-- What a review of the transfer `t` writes: the next status, the reason, the events, the audit.
unfoldable pub plan_review :
    Env
    → ReviewDecisionRequest
    → Transfer
    → Result (TransferStatus × Text × List Event × AuditRecord)
plan_review env request t =
    let req = record request { correlation_id = or_else request.correlation_id t.correlation_id } in
    if not (status_eq t.status TransferStatus.review)
    then err (fault Kind.conflict (str "transfer is not waiting for review"))
    else (do
      (next, event_type) ← verdict_of req.decision
      let reason = reason_for next req.reason
      made ← review_events env t req reason next event_type
      ok (next, reason, made, review_audit t req next))

-- `RecordReviewDecision` and the reply.
unfoldable pub write_review :
    Env
    → World
    → ReviewDecisionRequest
    → TransferStatus × Text × List Event × AuditRecord
    → Outcome Reply
write_review env w req (next, reason, made, audit) =
    let s = env.meanwhile 1 w.store in
    elim (record_review_decision s req.tenant_id req.transfer_id next reason made audit) [
      | err e ↦ (err e, with_store w s)
      | ok (t, s') ↦
          (ok (record { transfer = t; idempotent_replay = false; events = made }), with_store w s')
    ]

unfoldable pub review_normalized : Env → World → ReviewDecisionRequest → Outcome Reply
review_normalized env w req =
    let w1 = with_store w (env.meanwhile 0 w.store) in
    if is_empty req.tenant_id || is_empty req.transfer_id
    then (err (fault Kind.validation (str "tenant_id and transfer_id are required")), w)
    else elim (get_transfer w1.store req.tenant_id req.transfer_id >>= plan_review env req) [
      | err e ↦ (err e, w1)
      | ok plan ↦ write_review env w1 req plan
    ]

unfoldable pub record_review : Env → World → ReviewDecisionRequest → Outcome Reply
record_review env w request = review_normalized env w (normalize_review env request)
