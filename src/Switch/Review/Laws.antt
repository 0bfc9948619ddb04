-- ===== src/Switch/Review/Laws.antt =====
-- `RecordReview` of internal/switcher/service.go.
use pixrail_go_payment_switc.Prelude.{
  true, false, ◌||◌, ◌≡◌, ◌≢◌, refl, ap, ◌∙◌, List, [], ◌∷◌, Text, is_empty, str, ok, err, Kind,
  fault, Result-cases, Bool-cases, inl, inr, arith,
}
use pixrail_go_payment_switc.Rail.{
  Time, Transfer, TransferStatus, ReviewDecision, ReviewDecisionRequest, AuditRecord, status_eq,
}
use pixrail_go_payment_switc.Rail.Transitions
use pixrail_go_payment_switc.Events.{Event}
use pixrail_go_payment_switc.Store
use pixrail_go_payment_switc.Store.{MemoryStore, get_transfer, put_transfer, log}
use pixrail_go_payment_switc.Store.Steps.{review_inv}
use pixrail_go_payment_switc.Switch.{Env, World, Reply, text, with_store, make_event, or_else}
use pixrail_go_payment_switc.Switch.Announce.{event_types, make_event-type}
use pixrail_go_payment_switc.Switch.Review.{
  verdict_of, reason_for, decision_text, review_subject, review_audit, normalize_review,
  review_events, follow_up, plan_review, write_review, review_normalized, record_review,
}

-- What a decision leads to: the next status, and the types of the two events.
pub data Verdict : ReviewDecision → TransferStatus → List Text → Type 0 where
  approved :
      Verdict ReviewDecision.approve TransferStatus.accepted
        (str "pix_transfer_review_approved" ∷ str "spi_submission_requested" ∷ [])
  refused :
      Verdict ReviewDecision.block TransferStatus.blocked
        (str "pix_transfer_review_blocked" ∷ str "pix_transfer_blocked" ∷ [])

-- A review that succeeds: the transfer was waiting for it, and goes on as the decision says.
pub record Reviewed (req : ReviewDecisionRequest) (before : MemoryStore) (r : Reply)
    (after : MemoryStore) : Type 0 where
  pub held : Transfer
  pub found : get_transfer before req.tenant_id req.transfer_id ≡ ok held
  pub waited : held.status ≡ TransferStatus.review
  pub verdict : Verdict req.decision r.transfer.status (event_types r.events)
  pub unchanged : r.transfer ≡ record held {
    status = r.transfer.status;
    decision_reason = r.transfer.decision_reason;
    updated_at = req.reviewed_at;
  }
  pub new : r.idempotent_replay ≡ false
  pub trail : AuditRecord
  pub written : after ≡ log r.events (trail ∷ []) (put_transfer r.transfer before)

in_review :
    (st : TransferStatus) → status_eq st TransferStatus.review ≡ true → st ≡ TransferStatus.review
in_review TransferStatus.review e = refl
in_review st e = ground arith

verdict-Verdict :
    (env : Env) (t : Transfer) (req : ReviewDecisionRequest) (reason : Text) (d : ReviewDecision)
    (next : TransferStatus) (event_type : Text) (a b : Event)
    → verdict_of d ≡ ok (next, event_type)
    → a.event_type ≡ event_type
    → follow_up env t req reason next ≡ ok b
    → Verdict d next (a.event_type ∷ b.event_type ∷ [])
verdict-Verdict env t req reason ReviewDecision.approve next event_type a b v h f =
    let is_next : TransferStatus.accepted ≡ next = ground arith in
    let first : a.event_type ≡ str "pix_transfer_review_approved" = ground arith in
    let second : b.event_type ≡ str "spi_submission_requested" =
      make_event-type env 1 _ (review_subject t req) req.reviewed_at _ b (rw (← is_next) at f) in
    rw (← is_next, first, second) Verdict.approved
verdict-Verdict env t req reason ReviewDecision.block next event_type a b v h f =
    let is_next : TransferStatus.blocked ≡ next = ground arith in
    let first : a.event_type ≡ str "pix_transfer_review_blocked" = ground arith in
    let second : b.event_type ≡ str "pix_transfer_blocked" =
      make_event-type env 1 _ (review_subject t req) req.reviewed_at _ b (rw (← is_next) at f) in
    rw (← is_next, first, second) Verdict.refused
verdict-Verdict env t req reason (ReviewDecision.unknown s) next event_type a b v h f =
    absurd (ground arith)

-- The two events are of the verdict's type, and of the type that the next status asks for.
review_events-types :
    (env : Env) (t : Transfer) (req : ReviewDecisionRequest) (reason : Text) (d : ReviewDecision)
    (next : TransferStatus) (event_type : Text) (made : List Event)
    → verdict_of d ≡ ok (next, event_type)
    → review_events env t req reason next event_type ≡ ok made
    → Verdict d next (event_types made)
unfolding review_events
review_events-types env t req reason d next event_type made v e =
    let head =
      make_event env 0 event_type (review_subject t req) req.reviewed_at
        ((str "decision", text (decision_text req.decision)) ∷ (str "reason", text reason) ∷ []) in
    elim (Result-cases head) [
      | inr (x, h) ↦ absurd (ground arith)
      | inl (a, h) ↦ elim (Result-cases (follow_up env t req reason next)) [
        | inr (x, f) ↦ absurd (ground arith)
        | inl (b, f) ↦
            let first =
              make_event-type env 0 event_type (review_subject t req) req.reviewed_at _ a h in
            let both : made ≡ a ∷ b ∷ [] = ground arith in
            rw both (verdict-Verdict env t req reason d next event_type a b v first f)
      ]
    ]

-- What a plan to review says of the transfer and the decision.
plan_review-ok :
    (env : Env) (req : ReviewDecisionRequest) (t : Transfer) (next : TransferStatus) (reason : Text)
    (made : List Event) (audit : AuditRecord)
    → plan_review env req t ≡ ok (next, reason, made, audit)
    → (t.status ≡ TransferStatus.review)
      × Verdict req.decision next (event_types made)
      × (audit.created_at ≡ req.reviewed_at)
unfolding plan_review review_audit
plan_review-ok env request t next reason made audit e =
    let req : ReviewDecisionRequest = record request {
      correlation_id = or_else request.correlation_id t.correlation_id;
    } in
    elim (Bool-cases (status_eq t.status TransferStatus.review)) [
      | inr other ↦ absurd (ground arith)
      | inl waits ↦ elim (Result-cases (verdict_of req.decision)) [
        | inr (x, v) ↦ absurd (ground arith)
        | inl ((n, ty), v) ↦
            elim (Result-cases (review_events env t req (reason_for n req.reason) n ty)) [
              | inr (x, m) ↦ absurd (ground arith)
              | inl (es, m) ↦
                  let types =
                    review_events-types env t req (reason_for n req.reason) req.decision n ty es v
                      m in
                  let next_is : n ≡ next = ground arith in
                  let made_is : es ≡ made = ground arith in
                  (in_review t.status waits, rw (made_is, next_is) at types, ground arith)
            ]
      ]
    ]

-- What the transfer's own method does when it takes a review in.
review_move :
    (t : Transfer) (status : TransferStatus) (reason : Text) (at : Time) (u : Transfer)
    → Transitions.record_review_decision t status reason at ≡ ok u
    → (t.status ≡ TransferStatus.review)
      × (status ≡ u.status)
      × (u ≡ record t { status = u.status; decision_reason = u.decision_reason; updated_at = at })
unfolding Transitions.record_review_decision
review_move t status reason at u e = elim (Bool-cases (status_eq t.status TransferStatus.review)) [
  | inr other ↦ absurd (ground arith)
  | inl waits ↦ (in_review t.status waits, ground arith, ground arith)
]

write_review-Reviewed :
    (env : Env) (w : World) (req : ReviewDecisionRequest) (next : TransferStatus) (reason : Text)
    (made : List Event) (audit : AuditRecord) (r : Reply) (w' : World)
    → Verdict req.decision next (event_types made)
    → audit.created_at ≡ req.reviewed_at
    → write_review env w req (next, reason, made, audit) ≡ (ok r, w')
    → Reviewed req (env.meanwhile 1 w.store) r w'.store
unfolding write_review Transitions.record_review_decision
write_review-Reviewed env w req next reason made audit r w' verdict at e =
    let s = env.meanwhile 1 w.store in
    elim (Result-cases
      (Store.record_review_decision s req.tenant_id req.transfer_id next reason made audit)) [
        | inr (x, d) ↦ absurd (ground arith)
        | inl ((u, s'), d) ↦
            let (t, got, moved, new) =
              review_inv s req.tenant_id req.transfer_id next reason made audit u s' d in
            let same : u ≡ r.transfer = ground arith in
            let told : made ≡ r.events = ground arith in
            let (waits, status_is, rest) = review_move t next reason audit.created_at u moved in
            record {
              held = t;
              found = got;
              waited = waits;
              verdict = rw (told, status_is ∙ ap (λ x. x.status) same) at verdict;
              unchanged = rw (same, at) at rest;
              new = ground arith;
              trail = audit;
              written = ground arith;
            }
      ]

-- A review that succeeds found the transfer waiting for it. Approval makes it accepted and asks
-- for its submission, a block makes it blocked, each with its two events; only the status, the
-- reason and the time of the transfer change, and the events and one audit record are written
-- with it.
pub record_review-Reviewed :
    (env : Env) (w : World) (request : ReviewDecisionRequest) (r : Reply) (w' : World)
    → record_review env w request ≡ (ok r, w')
    → Reviewed (normalize_review env request) (env.meanwhile 1 (env.meanwhile 0 w.store)) r w'.store
unfolding record_review review_normalized
record_review-Reviewed env w request r w' e =
    let req = normalize_review env request in
    let s = env.meanwhile 0 w.store in
    elim (Bool-cases (is_empty req.tenant_id || is_empty req.transfer_id)) [
      | inl missing ↦ absurd (ground arith)
      | inr named ↦ elim (Result-cases (get_transfer s req.tenant_id req.transfer_id)) [
        | inr (x, g) ↦ absurd (ground arith)
        | inl (t, g) ↦ elim (Result-cases (plan_review env req t)) [
          | inr (x, p) ↦ absurd (ground arith)
          | inl ((next, reason, made, audit), p) ↦
              let (_, verdict, at) = plan_review-ok env req t next reason made audit p in
              write_review-Reviewed env (with_store w s) req next reason made audit r w' verdict at
                (ground arith)
        ]
      ]
    ]

-- A transfer that is found but is not waiting for a review answers every decision with a
-- conflict, and the review writes nothing.
pub record_review-refuses :
    (env : Env) (w : World) (request : ReviewDecisionRequest) (t : Transfer)
    → let req = normalize_review env request in
      is_empty req.tenant_id ≡ false
      → is_empty req.transfer_id ≡ false
      → get_transfer (env.meanwhile 0 w.store) req.tenant_id req.transfer_id ≡ ok t
      → t.status ≢ TransferStatus.review
      → record_review env w request ≡ (
        err (fault Kind.conflict (str "transfer is not waiting for review")),
        with_store w (env.meanwhile 0 w.store),
      )
unfolding record_review review_normalized plan_review
record_review-refuses env w request t tenant named found other =
    elim (Bool-cases (status_eq t.status TransferStatus.review)) [
      | inl waits ↦ absurd (other (in_review t.status waits))
      | inr no_ ↦ ground arith
    ]
