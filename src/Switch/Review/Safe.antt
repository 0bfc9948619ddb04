-- ===== src/Switch/Review/Safe.antt =====
-- `RecordReview` in internal/switcher/service.go keeps the store, whatever it answers.
use pixrail_go_payment_switc.Prelude.{
  ◌||◌, List, Text, is_empty, Result-cases, Bool-cases, inl, inr, ◌>>=◌,
}
use pixrail_go_payment_switc.Rail.{TransferStatus, ReviewDecisionRequest, AuditRecord}
use pixrail_go_payment_switc.Events.{Event}
use pixrail_go_payment_switc.Store
use pixrail_go_payment_switc.Store.{MemoryStore, get_transfer, put_transfer, log}
use pixrail_go_payment_switc.Store.Methods.{review-Change}
use pixrail_go_payment_switc.Switch.{Env, World, with_store}
use pixrail_go_payment_switc.Switch.Sound.{Keeps, IsSound, Keeps-refl, Keeps-trans, Keeps-Change}
use pixrail_go_payment_switc.Switch.Review.{
  normalize_review, plan_review, write_review, review_normalized, record_review,
}

module _ (env : Env) (sound : IsSound env) where
  write_review-Keeps :
      (w : World) (req : ReviewDecisionRequest) (next : TransferStatus) (reason : Text)
      (made : List Event) (audit : AuditRecord)
      → Keeps w.store (write_review env w req (next, reason, made, audit)).1.store
  unfolding write_review
  write_review-Keeps w req next reason made audit =
      let s = env.meanwhile 1 w.store in
      elim (Result-cases
        (Store.record_review_decision s req.tenant_id req.transfer_id next reason made audit)) [
          | inr (x, e) ↦ rw (e, write_review) (sound 1 w.store)
          | inl ((u, s'), e) ↦
              rw (e, write_review)
                (Keeps-trans w.store s s' (sound 1 w.store) (
                  Keeps-Change s s' (λ _.
                    review-Change s req.tenant_id req.transfer_id next reason made audit u s' e)))
        ]

  review_normalized-Keeps :
      (w : World) (req : ReviewDecisionRequest)
      → Keeps w.store (review_normalized env w req).1.store
  unfolding review_normalized
  review_normalized-Keeps w req =
      let s = env.meanwhile 0 w.store in
      elim (Bool-cases (is_empty req.tenant_id || is_empty req.transfer_id)) [
        | inl missing ↦ rw (missing, review_normalized) (Keeps-refl w.store)
        | inr named ↦
            elim (Result-cases
              (get_transfer s req.tenant_id req.transfer_id >>= plan_review env req)) [
                | inr (x, e) ↦ rw (named, e, review_normalized) (sound 0 w.store)
                | inl ((next, reason, made, audit), e) ↦
                    rw (named, e, review_normalized)
                      (Keeps-trans w.store s _ (sound 0 w.store)
                        (write_review-Keeps (with_store w s) req next reason made audit))
              ]
      ]

  -- A review keeps the maps of the store coherent and loses no transfer, key or callback, whatever
  -- its outcome, as long as the requests that run meanwhile do.
  pub record_review-Keeps :
      (w : World) (request : ReviewDecisionRequest)
      → Keeps w.store (record_review env w request).1.store
  unfolding record_review
  record_review-Keeps w request = review_normalized-Keeps w (normalize_review env request)
