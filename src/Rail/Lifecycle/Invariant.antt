-- ===== src/Rail/Lifecycle/Invariant.antt =====
-- What holds of a transfer between two calls, and which statuses follow which.
use pixrail_go_payment_switc.Prelude.{
  Bool, true, false, ◌≡◌, ◌≢◌, refl, [], ◌∷◌, Text, is_empty, trim, ok, arith,
}
use pixrail_go_payment_switc.Rail.{Transfer, TransferStatus, terminal}
use pixrail_go_payment_switc.Rail.Transitions.{
  claim_spi_submission, record_spi_submission, release_spi_submission, record_review_decision,
  record_settlement,
}
use pixrail_go_payment_switc.Rail.Calls.{
  Call, claims, submits, releases, reviews, settles, call, after,
}

-- The statuses before the SPI took the transfer over.
abbrev pub before_spi : TransferStatus → Bool
before_spi TransferStatus.accepted = true
before_spi TransferStatus.review = true
before_spi TransferStatus.blocked = true
before_spi _ = false

abbrev pub is_constant : TransferStatus → Bool
is_constant (TransferStatus.unknown s) = false
is_constant _ = true

pub record IsValid (t : Transfer) : Type 0 where
  pub known : is_constant t.status ≡ true
  pub unsent : is_empty t.spi_message_id ≡ before_spi t.status
  pub unclaimed : t.status ≢ TransferStatus.accepted → is_empty t.spi_claim_token ≡ true

pub trim-empty : (s : Text) → is_empty s ≡ true → is_empty (trim s) ≡ true
unfolding trim
trim-empty [] h = refl
trim-empty (x ∷ s) h = cc

-- The edges of the life cycle. A claim or a release stays where it is.
infix 40 ◌⟶◌
pub data ◌⟶◌ : TransferStatus → TransferStatus → Type 0 where
  stay : {s : TransferStatus} → s ⟶ s
  submit : TransferStatus.accepted ⟶ TransferStatus.approved
  release_to_spi : TransferStatus.review ⟶ TransferStatus.accepted
  refuse : TransferStatus.review ⟶ TransferStatus.blocked
  settle : TransferStatus.approved ⟶ TransferStatus.settled
  bounce : TransferStatus.approved ⟶ TransferStatus.rejected

ruleset edges = (stay, submit, release_to_spi, refuse, settle, bounce)

module _ (t u : Transfer) (c : Call) (done : call t c ≡ ok u) where
  -- Every call that succeeds keeps the invariant.
  pub call-IsValid : IsValid t → IsValid u
  unfolding call claim_spi_submission record_spi_submission release_spi_submission
      record_review_decision record_settlement
  call-IsValid v = by_call c done
    where
      by_call : (c : Call) → call t c ≡ ok u → IsValid u
      by_call (claims token until now) e = ground arith
      by_call (submits token message) e = ground (arith, trim-empty message.message_id)
      by_call (releases token error retry_at now) e = ground arith
      by_call (reviews status reason at) e = ground arith
      by_call (settles callback) e = ground arith

  pub call-⟶ : t.status ⟶ u.status
  unfolding call claim_spi_submission record_spi_submission release_spi_submission
      record_review_decision record_settlement
  call-⟶ = by_call c done
    where
      by_call : (c : Call) → call t c ≡ ok u → t.status ⟶ u.status
      by_call (claims token until now) e = grind (arith, edges)
      by_call (submits token message) e = grind (arith, edges)
      by_call (releases token error retry_at now) e = grind (arith, edges)
      by_call (reviews status reason at) e = grind (arith, edges)
      by_call (settles callback) e = grind (arith, edges)

-- Every call on a valid transfer in a terminal status is refused.
pub terminal-call :
    (t : Transfer) (c : Call) → IsValid t → terminal t.status ≡ true → after t (call t c) ≡ t
unfolding call claim_spi_submission record_spi_submission release_spi_submission
    record_review_decision record_settlement
terminal-call t (claims token until now) v e = ground arith
terminal-call t (submits token message) v e = ground arith
terminal-call t (releases token error retry_at now) v e = ground arith
terminal-call t (reviews status reason at) v e = ground arith
terminal-call t (settles callback) v e = ground arith
