-- ===== src/Tests/Sent.antt =====
-- The payment switch on concrete data: sending, reviewing and settling a stored transfer.
use pixrail_go_payment_switc.Switch.Submit.{
  submit_trimmed, submit_claimed, submission_events, submission_audit, record_exchange, let_go,
  exchange, submit_to_spi, submit_pending_spi,
}
use pixrail_go_payment_switc.Switch.Settle.{
  write_settlement, settlement_event, settlement_audit, settle_identified, plan_settlement,
  complete, record_settlement,
}
use pixrail_go_payment_switc.Switch.{new_id, make_event, World, Reply}
use pixrail_go_payment_switc.Store.Outbox.{
  update_claimed, sort_by_sequence, mark_outbox_published, mark_outbox_failed, insert_by_sequence,
  claim_pending_outbox, claim_loop,
}
use pixrail_go_payment_switc.Store.History.{
  step, Op, inserts, claims, submits, IsFresh, run, run-IsValid,
}
use pixrail_go_payment_switc.Rail.Request.{
  settlement_text, join, hash_parts, callback_parts, callback_fingerprint,
}
use pixrail_go_payment_switc.Prelude.{
  ◌+ℤ◌, wrap64, to_u64, sentinel_text, inc64, from_u64, ◌≡◌, ◌≢◌, refl, List, [], ◌∷◌, none,
  text_eq, lookup, insert, ok, err, true, false, Result, str, All, trim, pos, is_empty,
  if◌then◌else◌, length,
}
use pixrail_go_payment_switc.Switch.Review.{
  write_review, review_normalized, review_events, plan_review, normalize_review, record_review,
}
use pixrail_go_payment_switc.Events.{new_event}
use pixrail_go_payment_switc.Rail.Transitions
use pixrail_go_payment_switc.Store
use pixrail_go_payment_switc.Rail.{Transfer, TransferStatus, ReviewDecision, ReviewDecisionRequest}
use pixrail_go_payment_switc.Store.{MemoryStore, new_memory_store, get_transfer, hash_of}
use pixrail_go_payment_switc.Store.Pending.{pending_spi_submissions}
use pixrail_go_payment_switc.Store.Invariant.{new_memory_store-IsValid}
use pixrail_go_payment_switc.Store.Changes.{Grows-refl}
use pixrail_go_payment_switc.Switch.Sound.{IsSound}
use pixrail_go_payment_switc.Switch.Submit.Laws.{
  Submitted, submit_to_spi-Submitted, Batched, submit_pending_spi-Batched,
}
use pixrail_go_payment_switc.Switch.Review.Laws.{Reviewed, record_review-Reviewed}
use pixrail_go_payment_switc.Switch.Settle.Settled.{Settled, record_settlement-Settled}
use pixrail_go_payment_switc.Switch.Settle.Once.{record_settlement_once, conflicting_callback}
use pixrail_go_payment_switc.Tests.{
  a_transfer, a_worker, a_message, a_callback, an_audit, an_env, a_world, reply_or, no_reply,
}

an_env-IsSound : IsSound an_env
an_env-IsSound n s v = (v, Grows-refl s)

abbrev stored_as : Transfer → World
stored_as t = record a_world {
  store = record new_memory_store {
    transfers = (t.id, t) ∷ [];
    idempotency = (b'a' ∷ b':' ∷ b'k' ∷ [], t.id) ∷ [];
  };
}

abbrev sent : Result Reply × World
sent = submit_to_spi an_env (stored_as a_transfer) (b'a' ∷ []) (b't' ∷ []) []

send_run :
    submit_to_spi an_env (stored_as a_transfer) (b'a' ∷ []) (b't' ∷ []) []
    ≡ (ok (reply_or no_reply sent.0), sent.1)
unfolding submit_to_spi submit_trimmed trim Store.claim_spi_submission get_transfer lookup text_eq
    Transitions.claim_spi_submission new_id str submit_claimed exchange submission_events make_event
    new_event record_exchange Store.record_spi_submission sentinel_text from_u64 inc64 to_u64 wrap64
    ◌+ℤ◌ insert Transitions.record_spi_submission Transitions.release_spi_submission
    Store.append_events Store.release_spi_submission let_go submission_audit
send_run = refl

send_fresh : (reply_or no_reply sent.0).idempotent_replay ≡ false
unfolding submit_to_spi submit_trimmed trim Store.claim_spi_submission get_transfer lookup text_eq
    Transitions.claim_spi_submission new_id str submit_claimed exchange submission_events make_event
    new_event record_exchange Store.record_spi_submission sentinel_text from_u64 inc64 to_u64 wrap64
    ◌+ℤ◌ insert Transitions.record_spi_submission Transitions.release_spi_submission
    Store.append_events Store.release_spi_submission let_go submission_audit
send_fresh = refl

submit_to_spi-Submitted_example :
    Submitted an_env
      (stored_as a_transfer)
      (trim (b'a' ∷ []))
      (trim (b't' ∷ []))
      (trim [])
      (reply_or no_reply sent.0)
      sent.1.store
submit_to_spi-Submitted_example =
    submit_to_spi-Submitted an_env (stored_as a_transfer) (b'a' ∷ []) (b't' ∷ []) []
      (reply_or no_reply sent.0) sent.1 send_run send_fresh

abbrev as_stored : List Transfer → List Transfer
as_stored ts = ts

one_pending :
    pending_spi_submissions as_stored none (stored_as a_transfer).store (pos 10) 100
    ≡ ok (a_transfer ∷ [])
unfolding pending_spi_submissions
one_pending = refl

submit_pending_spi-Batched_example :
    Batched
      (λ n. an_env)
      0
      (record { scanned = length (a_transfer ∷ []); submitted = 0; replayed = 0; skipped = 0 })
      (stored_as a_transfer)
      (a_transfer ∷ [])
      (submit_pending_spi as_stored (λ n. an_env) none (stored_as a_transfer) (pos 10) 100)
submit_pending_spi-Batched_example =
    submit_pending_spi-Batched (λ n. an_env) as_stored none (stored_as a_transfer) (pos 10) 100
      (a_transfer ∷ []) one_pending

abbrev held_transfer : Transfer
held_transfer = record a_transfer { status = TransferStatus.review }

abbrev an_approval : ReviewDecisionRequest
an_approval = record {
  tenant_id = b'a' ∷ [];
  transfer_id = b't' ∷ [];
  decision = ReviewDecision.approve;
  reason = [];
  correlation_id = [];
  reviewed_at = 50;
}

abbrev reviewed : Result Reply × World
reviewed = record_review an_env (stored_as held_transfer) an_approval

review_run :
    record_review an_env (stored_as held_transfer) an_approval
    ≡ (ok (reply_or no_reply reviewed.0), reviewed.1)
unfolding record_review review_normalized normalize_review trim get_transfer lookup text_eq
    plan_review review_events make_event new_event write_review Store.record_review_decision
    Transitions.record_review_decision
review_run = refl

record_review-Reviewed_example :
    Reviewed
      (normalize_review an_env an_approval)
      (stored_as held_transfer).store
      (reply_or no_reply reviewed.0)
      reviewed.1.store
record_review-Reviewed_example =
    record_review-Reviewed an_env (stored_as held_transfer) an_approval
      (reply_or no_reply reviewed.0) reviewed.1 review_run

found_accepted :
    get_transfer
      (stored_as a_transfer).store
      (normalize_review an_env an_approval).tenant_id
      (normalize_review an_env an_approval).transfer_id
    ≡ ok a_transfer
unfolding get_transfer lookup text_eq normalize_review trim
found_accepted = refl

not_in_review : a_transfer.status ≢ TransferStatus.review
not_in_review e = cc

tenant_named : is_empty (normalize_review an_env an_approval).tenant_id ≡ false
unfolding normalize_review trim
tenant_named = refl

transfer_named : is_empty (normalize_review an_env an_approval).transfer_id ≡ false
unfolding normalize_review trim
transfer_named = refl

abbrev to_the_spi : List Op
to_the_spi =
    inserts a_transfer [] []
    ∷ claims none (b'a' ∷ []) (b't' ∷ []) a_worker 40 10
    ∷ submits none (b'a' ∷ []) (b't' ∷ []) a_worker a_message [] an_audit
    ∷ []

to_the_spi-IsFresh : All IsFresh to_the_spi
to_the_spi-IsFresh =
    ((record { known = refl; unsent = refl; unclaimed = λ ne. refl }, refl), (tt, (tt, tt)))

abbrev approved_world : World
approved_world = record a_world { store = run an_env.digest new_memory_store to_the_spi }

abbrev settled : Result Reply × World
settled = record_settlement an_env approved_world a_callback

settle_run :
    record_settlement an_env approved_world a_callback
    ≡ (ok (reply_or no_reply settled.0), settled.1)
unfolding record_settlement settle_identified get_transfer lookup run Store.record_spi_submission
    Store.claim_spi_submission Store.insert_transfer Store.append_events insert text_eq
    Transitions.claim_spi_submission trim Transitions.record_spi_submission plan_settlement
    settlement_event make_event new_event sentinel_text from_u64 inc64 to_u64 wrap64 ◌+ℤ◌ str
    callback_fingerprint callback_parts hash_parts join settlement_text
    Transitions.record_review_decision Transitions.record_settlement
    Transitions.release_spi_submission step claim_loop claim_pending_outbox insert_by_sequence
    mark_outbox_failed mark_outbox_published sort_by_sequence update_claimed
    Store.record_review_decision Store.release_spi_submission Store.scoped Store.update_settlement
    complete settlement_audit write_settlement new_id
settle_run = refl

settle_fresh : (reply_or no_reply settled.0).idempotent_replay ≡ false
unfolding record_settlement settle_identified get_transfer lookup run Store.record_spi_submission
    Store.claim_spi_submission Store.insert_transfer Store.append_events insert text_eq
    Transitions.claim_spi_submission trim Transitions.record_spi_submission plan_settlement
    settlement_event make_event new_event sentinel_text from_u64 inc64 to_u64 wrap64 ◌+ℤ◌ str
    callback_fingerprint callback_parts hash_parts join settlement_text
    Transitions.record_review_decision Transitions.record_settlement
    Transitions.release_spi_submission step claim_loop claim_pending_outbox insert_by_sequence
    mark_outbox_failed mark_outbox_published sort_by_sequence update_claimed
    Store.record_review_decision Store.release_spi_submission Store.scoped Store.update_settlement
    complete settlement_audit write_settlement new_id
settle_fresh = refl

record_settlement-Settled_example :
    Settled an_env approved_world a_callback (reply_or no_reply settled.0) settled.1.store
record_settlement-Settled_example =
    record_settlement-Settled an_env approved_world a_callback (reply_or no_reply settled.0)
      settled.1 settle_run settle_fresh

abbrev later_world : World
later_world = record a_world { store = run an_env.digest settled.1.store [] }

record_settlement_once_example : record_settlement an_env later_world a_callback ≡ (
  (if text_eq (hash_of an_env.digest a_callback) (hash_of an_env.digest a_callback)
      then ok (record {
        transfer = (reply_or no_reply settled.0).transfer;
        idempotent_replay = true;
        events = [];
      })
      else err conflicting_callback),
  later_world,
)
record_settlement_once_example =
    record_settlement_once an_env an_env approved_world settled.1 later_world a_callback a_callback
      (reply_or no_reply settled.0) [] (str "pix_transfer_settled") an_env-IsSound
      (run-IsValid an_env.digest new_memory_store to_the_spi new_memory_store-IsValid
        to_the_spi-IsFresh)
      settle_run settle_fresh tt refl refl refl (λ p. (b'{' ∷ b'}' ∷ [], refl)) refl refl refl refl
