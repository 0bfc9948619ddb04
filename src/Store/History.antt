-- ===== src/Store/History.antt =====
-- Histories of the in-memory store (internal/store/memory.go): its methods called in any order, by
-- any number of callers. The lock makes each call one step.
use pixrail_go_payment_switc.Prelude.{
  Bool, ◌≡◌, refl, List, [], ◌∷◌, Option, Text, ℤ, Result, ok, err, Error, arith, All,
}
use pixrail_go_payment_switc.Rail.{
  Time, Transfer, TransferStatus, AuditRecord, SpiMessage, SettlementCallback,
}
use pixrail_go_payment_switc.Events.{Event}
use pixrail_go_payment_switc.Store.{
  MemoryStore, Replayable, insert_transfer, claim_spi_submission, record_spi_submission,
  release_spi_submission, record_review_decision, update_settlement,
}
use pixrail_go_payment_switc.Store.Outbox.{
  claim_pending_outbox, mark_outbox_published, mark_outbox_failed,
}
use pixrail_go_payment_switc.Store.Invariant.{IsValid}
use pixrail_go_payment_switc.Store.Changes.{
  Change, none_made, Change-IsValid, Grows, Grows-refl, Grows-trans, Change-Grows,
}
use pixrail_go_payment_switc.Store.Methods.{
  IsNew, insert-Change, claim-Change, record-Change, release-Change, review-Change,
  settlement-Change,
}

-- The methods that write, with their arguments.
pub data Op : Type 0 where
  inserts : Transfer → List Event → List AuditRecord → Op
  claims : Option Error → Text → Text → Text → Time → Time → Op
  submits : Option Error → Text → Text → Text → SpiMessage → List Event → AuditRecord → Op
  releases : Option Error → Text → Text → Text → Text → Time → Time → Op
  reviews : Text → Text → TransferStatus → Text → List Event → AuditRecord → Op
  settles : Text → Text → SettlementCallback → List Event → AuditRecord → Op
  claims_outbox : Option Error → ℤ → Text → Time → Time → Time → Op
  publishes : Option Error → ℤ → Text → Time → Op
  fails : Option Error → ℤ → Text → Text → Time → Op

-- The store after a call: the one that it returned, or the old one after an error.
abbrev store_or : MemoryStore → Result MemoryStore → MemoryStore
store_or s (ok s') = s'
store_or s (err e) = s

abbrev after_replayable : MemoryStore → Result Replayable → MemoryStore
after_replayable s (ok (t, replay, s')) = s'
after_replayable s (err e) = s

abbrev after_pair : {A B : Type 0} → B → Result (A × B) → B
after_pair s (ok (a, s')) = s'
after_pair s (err e) = s

-- What is asked of a call: a transfer that is put in is new.
abbrev pub IsFresh : Op → Type 0
IsFresh (inserts t outbox audit) = IsNew t
IsFresh _ = Unit {0}

module _ (digest : Text → Text) where
  unfoldable pub step : MemoryStore → Op → MemoryStore
  step s (inserts t outbox audit) = store_or s (insert_transfer s t outbox audit)
  step s (claims ctx tenant_id id token until now) =
      after_replayable s (claim_spi_submission ctx s tenant_id id token until now)
  step s (submits ctx tenant_id id token message outbox audit) =
      after_replayable s (record_spi_submission ctx s tenant_id id token message outbox audit)
  step s (releases ctx tenant_id id token error retry_at now) =
      store_or s (release_spi_submission ctx s tenant_id id token error retry_at now)
  step s (reviews tenant_id id status reason outbox audit) =
      after_pair s (record_review_decision s tenant_id id status reason outbox audit)
  step s (settles tenant_id id callback outbox audit) =
      after_replayable s (update_settlement digest s tenant_id id callback outbox audit)
  step s (claims_outbox ctx limit token until checked now) =
      after_pair s (claim_pending_outbox ctx s limit token until checked now)
  step s (publishes ctx sequence token at) =
      store_or s (mark_outbox_published ctx s sequence token at)
  step s (fails ctx sequence token error retry_at) =
      store_or s (mark_outbox_failed ctx s sequence token error retry_at)

  unfoldable pub run : MemoryStore → List Op → MemoryStore
  unfolding step
  run s [] = s
  run s (o ∷ os) = run (step s o) os

unmoved : (s : MemoryStore) → Change s s
unmoved s = none_made refl refl refl

store_or-Change :
    (s : MemoryStore) (r : Result MemoryStore)
    → ((s' : MemoryStore) → r ≡ ok s' → Change s s')
    → Change s (store_or s r)
store_or-Change s (ok s') h = h s' refl
store_or-Change s (err e) h = unmoved s

after_replayable-Change :
    (s : MemoryStore) (r : Result Replayable)
    → ((u : Transfer) (replay : Bool) (s' : MemoryStore) → r ≡ ok (u, replay, s') → Change s s')
    → Change s (after_replayable s r)
after_replayable-Change s (ok (t, replay, s')) h = h t replay s' refl
after_replayable-Change s (err e) h = unmoved s

after_pair-Change :
    {A : Type 0} (s : MemoryStore) (r : Result (A × MemoryStore))
    → ((a : A) (s' : MemoryStore) → r ≡ ok (a, s') → Change s s')
    → Change s (after_pair s r)
after_pair-Change s (ok (a, s')) h = h a s' refl
after_pair-Change s (err e) h = unmoved s

module _ (digest : Text → Text) where
  pub step-Change : (s : MemoryStore) (o : Op) → IsValid s → IsFresh o → Change s (step digest s o)
  unfolding step
  step-Change s (inserts t outbox audit) v new =
      store_or-Change s _ λ s' e. insert-Change s s' t outbox audit v new e
  step-Change s (claims ctx tenant_id id token until now) v new =
      after_replayable-Change s _ (claim-Change ctx s tenant_id id token until now)
  step-Change s (submits ctx tenant_id id token message outbox audit) v new =
      after_replayable-Change s _ (record-Change ctx s tenant_id id token message outbox audit)
  step-Change s (releases ctx tenant_id id token error retry_at now) v new =
      store_or-Change s _ (release-Change ctx s tenant_id id token error retry_at now)
  step-Change s (reviews tenant_id id status reason outbox audit) v new =
      after_pair-Change s _ (review-Change s tenant_id id status reason outbox audit)
  step-Change s (settles tenant_id id callback outbox audit) v new =
      after_replayable-Change s _ (settlement-Change s tenant_id id digest callback outbox audit)
  step-Change s (claims_outbox ctx limit token until checked now) v new =
      unfold claim_pending_outbox in none_made (ground arith) (ground arith) (ground arith)
  step-Change s (publishes ctx sequence token at) v new =
      unfold mark_outbox_published in none_made (ground arith) (ground arith) (ground arith)
  step-Change s (fails ctx sequence token error retry_at) v new =
      unfold mark_outbox_failed in none_made (ground arith) (ground arith) (ground arith)

  -- No history of calls of the store's methods, in which every transfer that is put in is new,
  -- breaks the agreement of the maps: every transfer stands under its own ID in a state that its
  -- methods reach, every idempotency key leads to the one transfer that carries it, and the
  -- callback that settled a transfer is on record.
  pub run-IsValid :
      (s : MemoryStore) (ops : List Op) → IsValid s → All IsFresh ops → IsValid (run digest s ops)
  unfolding run
  run-IsValid s [] v fresh = v
  run-IsValid s (o ∷ os) v fresh =
      run-IsValid (step digest s o) os (Change-IsValid (step-Change s o v fresh.0) v) fresh.1

  -- From a store whose maps agree, no history of calls in which every transfer that is put in is
  -- new loses a transfer, an idempotency key or a callback; each transfer keeps its order, moves
  -- along the life cycle only, and stays as it is once it is final.
  pub run-Grows :
      (s : MemoryStore) (ops : List Op) → IsValid s → All IsFresh ops → Grows s (run digest s ops)
  unfolding run
  run-Grows s [] v fresh = Grows-refl s
  run-Grows s (o ∷ os) v fresh =
      let c = step-Change s o v fresh.0 in
      Grows-trans (Change-Grows c v) (run-Grows (step digest s o) os (Change-IsValid c v) fresh.1)
