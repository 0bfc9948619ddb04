-- ===== src/Store/Outbox/Exclusive.antt =====
-- Two workers that claim the outbox of internal/store/memory.go.
use pixrail_go_payment_switc.Prelude.{
  ℕ, zero, suc, ◌<◌, ◌≡◌, refl, ap, sym, ◌∙◌, true, false, List, [], ◌∷◌, Option, Text, ℤ,
  if◌then◌else◌, Result, ok, err, Error, arith, Bool-cases, inl, inr,
}
use pixrail_go_payment_switc.Rail.{Time}
use pixrail_go_payment_switc.Events.{OutboxRecord}
use pixrail_go_payment_switc.Store.{MemoryStore}
use pixrail_go_payment_switc.Store.Outbox.{
  followers, claimable, claim, claim_loop, claim_pending_outbox,
}

-- The records that a claim of at most `k + 1` leaves to others.
unfoldable pub left_over : ℕ → Time → List OutboxRecord → List OutboxRecord
left_over k now [] = []
left_over zero now (r ∷ rs) =
    let rest = left_over zero now rs in if claimable now r then rs else r ∷ rest
left_over (suc k) now (r ∷ rs) =
    let taken = left_over k now rs in
    let passed = left_over (suc k) now rs in if claimable now r then taken else r ∷ passed

module _ (token : Text) (until now : Time) where
  claim_loop-passes :
      (k : ℕ) (r : OutboxRecord) (rs : List OutboxRecord)
      → claimable now r ≡ false
      → (claim_loop k token until now (r ∷ rs)).0 ≡ (claim_loop k token until now rs).0
  unfolding claim_loop
  claim_loop-passes zero r rs e = rw e refl
  claim_loop-passes (suc k) r rs e = rw e refl

  claim_loop-cong :
      (k : ℕ) (r : OutboxRecord) (xs ys : List OutboxRecord)
      → ((j : ℕ) → (claim_loop j token until now xs).0 ≡ (claim_loop j token until now ys).0)
      → (claim_loop k token until now (r ∷ xs)).0 ≡ (claim_loop k token until now (r ∷ ys)).0
  unfolding claim_loop
  claim_loop-cong k r xs ys same = elim (Bool-cases (claimable now r)) [
    | inr unfit ↦ claim_loop-passes k r xs unfit ∙ same k ∙ sym (claim_loop-passes k r ys unfit)
    | inl fit ↦ by_room fit k
  ]
    where
      by_room :
          claimable now r ≡ true
          → (k : ℕ)
          → (claim_loop k token until now (r ∷ xs)).0 ≡ (claim_loop k token until now (r ∷ ys)).0
      by_room fit zero = rw fit refl
      by_room fit (suc k) = rw fit (ap (λ rest. claim token until r ∷ rest) (same k))

module _ (token token' : Text) (until until' now now' : Time) (live : now' < until) where
  claimed_hidden : (r : OutboxRecord) → claimable now' (claim token until r) ≡ false
  claimed_hidden r = ground arith

  claim_loop-left_over :
      (k : ℕ) (rs : List OutboxRecord) (j : ℕ)
      → (claim_loop j token' until' now' (claim_loop k token until now rs).1).0
        ≡ (claim_loop j token' until' now' (left_over k now rs)).0
  unfolding left_over
  claim_loop-left_over k [] j = unfold claim_loop in refl
  claim_loop-left_over zero (r ∷ rs) j = elim (Bool-cases (claimable now r)) [
    | inl fit ↦
        let step : (claim_loop zero token until now (r ∷ rs)).1 ≡ claim token until r ∷ rs =
          unfold claim_loop in rw fit refl in
        rw (fit, step)
          (claim_loop-passes token' until' now' j (claim token until r) rs (claimed_hidden r))
    | inr unfit ↦
        let step : (claim_loop zero token until now (r ∷ rs)).1
            ≡ r ∷ (claim_loop zero token until now rs).1 =
          unfold claim_loop in rw unfit refl in
        rw (unfit, step) (claim_loop-cong token' until' now' j r _ _ (claim_loop-left_over zero rs))
  ]
  claim_loop-left_over (suc k) (r ∷ rs) j = elim (Bool-cases (claimable now r)) [
    | inl fit ↦
        let step : (claim_loop (suc k) token until now (r ∷ rs)).1
            ≡ claim token until r ∷ (claim_loop k token until now rs).1 =
          unfold claim_loop in rw fit refl in
        rw (fit, step)
          (claim_loop-passes token' until' now' j (claim token until r) _ (claimed_hidden r)
            ∙ claim_loop-left_over k rs j)
    | inr unfit ↦
        let step : (claim_loop (suc k) token until now (r ∷ rs)).1
            ≡ r ∷ (claim_loop (suc k) token until now rs).1 =
          unfold claim_loop in rw unfit refl in
        rw (unfit, step)
          (claim_loop-cong token' until' now' j r _ _ (claim_loop-left_over (suc k) rs))
  ]

-- The records that a claim answers with.
abbrev pub answered_with : Result (List OutboxRecord × MemoryStore) → Result (List OutboxRecord)
answered_with (ok (rs, s)) = ok rs
answered_with (err e) = err e

-- After a claim of the outbox and until it expires, any other claim answers as if the records
-- that the first one took were not in the outbox.
pub claim_excludes_others :
    (ctx ctx' : Option Error) (s s' : MemoryStore) (limit limit' : ℤ) (token token' : Text)
    (until until' checked checked' now now' : Time) (rs : List OutboxRecord)
    → claim_pending_outbox ctx s limit token until checked now ≡ ok (rs, s')
    → now' < until
    → answered_with (claim_pending_outbox ctx' s' limit' token' until' checked' now')
      ≡ answered_with (
          claim_pending_outbox ctx'
            (record s { events = left_over (followers limit) now s.events })
            limit'
            token'
            until'
            checked'
            now')
unfolding claim_pending_outbox
claim_excludes_others ctx ctx' s s' limit limit' token token' until until' checked checked' now now'
      rs e live =
    let same =
      claim_loop-left_over token token' until until' now now' live (followers limit) s.events
        (followers limit') in
    let events_are : s'.events ≡ (claim_loop (followers limit) token until now s.events).1 =
      ground arith in
    ground (arith, same, events_are)
