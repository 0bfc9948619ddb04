-- ===== src/Rail/Lifecycle/History.antt =====
-- Histories of calls on one transfer.
use pixrail_go_payment_switc.Prelude.{
  true, ◌≡◌, refl, List, [], ◌∷◌, ok, arith, inl, inr, Result-cases, ◌∙◌,
}
use pixrail_go_payment_switc.Rail.{Transfer, TransferStatus, terminal}
use pixrail_go_payment_switc.Rail.Transitions.{
  claim_spi_submission, record_spi_submission, release_spi_submission, record_review_decision,
  record_settlement,
}
use pixrail_go_payment_switc.Rail.Calls.{
  Call, claims, submits, releases, reviews, settles, call, after, history,
}
use pixrail_go_payment_switc.Rail.Lifecycle.Invariant.{
  IsValid, call-IsValid, call-⟶, terminal-call, ◌⟶◌, stay,
}

-- Paths in the diagram of the life cycle.
infix 40 ◌⟶*◌
pub data ◌⟶*◌ : TransferStatus → TransferStatus → Type 0 where
  here : {s : TransferStatus} → s ⟶* s
  next : {s t u : TransferStatus} → s ⟶ t → t ⟶* u → s ⟶* u

after-IsValid : (t : Transfer) (c : Call) → IsValid t → IsValid (after t (call t c))
after-IsValid t c v = elim (Result-cases (call t c)) [
  | inl (u, e) ↦ rw e (call-IsValid t u c e v)
  | inr (x, e) ↦ rw e v
]

after-⟶ : (t : Transfer) (c : Call) → t.status ⟶ (after t (call t c)).status
after-⟶ t c = elim (Result-cases (call t c)) [
  | inl (u, e) ↦ rw e (call-⟶ t u c e)
  | inr (x, e) ↦ rw e stay
]

-- No history of calls breaks the invariant, whoever makes them and in whatever order.
pub history-IsValid : (t : Transfer) (cs : List Call) → IsValid t → IsValid (history t cs)
unfolding history
history-IsValid t [] v = v
history-IsValid t (c ∷ cs) v = history-IsValid (after t (call t c)) cs (after-IsValid t c v)

-- Whatever methods are called on a transfer, by whomever and in whatever order, its status moves
-- along the diagram only: from accepted to approved, from review to accepted or blocked, from
-- approved to settled or rejected.
pub history-⟶* : (t : Transfer) (cs : List Call) → t.status ⟶* (history t cs).status
unfolding history
history-⟶* t [] = here
history-⟶* t (c ∷ cs) = next (after-⟶ t c) (history-⟶* (after t (call t c)) cs)

-- No history of calls changes anything in a valid transfer that is blocked, settled or rejected.
pub terminal-history :
    (t : Transfer) (cs : List Call) → IsValid t → terminal t.status ≡ true → history t cs ≡ t
unfolding history
terminal-history t [] v e = refl
terminal-history t (c ∷ cs) v e = rw (terminal-call t c v e) (terminal-history t cs v e)

-- The fields that say who pays whom how much, and why.
pub record SameOrder (t u : Transfer) : Type 0 where
  pub id : u.id ≡ t.id
  pub tenant_id : u.tenant_id ≡ t.tenant_id
  pub account_id : u.account_id ≡ t.account_id
  pub idempotency_key : u.idempotency_key ≡ t.idempotency_key
  pub request_hash : u.request_hash ≡ t.request_hash
  pub correlation_id : u.correlation_id ≡ t.correlation_id
  pub amount_cents : u.amount_cents ≡ t.amount_cents
  pub currency : u.currency ≡ t.currency
  pub receiver_key : u.receiver_key ≡ t.receiver_key
  pub receiver_key_type : u.receiver_key_type ≡ t.receiver_key_type
  pub receiver_name : u.receiver_name ≡ t.receiver_name
  pub receiver_bank : u.receiver_bank ≡ t.receiver_bank
  pub receiver_risk : u.receiver_risk ≡ t.receiver_risk
  pub fraud_score : u.fraud_score ≡ t.fraud_score
  pub fraud_rules : u.fraud_rules ≡ t.fraud_rules
  pub created_at : u.created_at ≡ t.created_at

pub SameOrder-refl : (t : Transfer) → SameOrder t t
SameOrder-refl t = ground arith

pub SameOrder-trans : {t u w : Transfer} → SameOrder t u → SameOrder u w → SameOrder t w
SameOrder-trans s r = ground arith

pub call-SameOrder : (t u : Transfer) (c : Call) → call t c ≡ ok u → SameOrder t u
unfolding call claim_spi_submission record_spi_submission release_spi_submission
    record_review_decision record_settlement
call-SameOrder t u (claims token until now) e = ground arith
call-SameOrder t u (submits token message) e = ground arith
call-SameOrder t u (releases token error retry_at now) e = ground arith
call-SameOrder t u (reviews status reason at) e = ground arith
call-SameOrder t u (settles callback) e = ground arith

-- No history of calls changes who pays whom how much, and why: the ID of a transfer, its tenant,
-- account, idempotency key, request hash and correlation, its amount and currency, its receiver,
-- its score and its time of creation stay as they are.
pub history-SameOrder : (t : Transfer) (cs : List Call) → SameOrder t (history t cs)
unfolding history
history-SameOrder t [] = SameOrder-refl t
history-SameOrder t (c ∷ cs) = elim (Result-cases (call t c)) [
  | inl (u, e) ↦ rw e (SameOrder-trans (call-SameOrder t u c e) (history-SameOrder u cs))
  | inr (x, e) ↦ rw e (history-SameOrder t cs)
]

pub ⟶*-trans : {a b c : TransferStatus} → a ⟶* b → b ⟶* c → a ⟶* c
⟶*-trans here q = q
⟶*-trans (next e p) q = next e (⟶*-trans p q)

-- How a transfer stands to what it is later: the same order, further along its life.
pub record Later (t u : Transfer) : Type 0 where
  pub order : SameOrder t u
  pub path : t.status ⟶* u.status
  pub final : terminal t.status ≡ true → u ≡ t

pub Later-refl : (t : Transfer) → Later t t
Later-refl t = record { order = SameOrder-refl t; path = here; final = λ e. refl }

pub Later-trans : {t u w : Transfer} → Later t u → Later u w → Later t w
Later-trans {t} {u} {w} p q = record {
  order = SameOrder-trans p.order q.order;
  path = ⟶*-trans p.path q.path;
  final = λ e. q.final (rw (p.final e) e) ∙ p.final e;
}

pub call-Later : (t u : Transfer) (c : Call) → IsValid t → call t c ≡ ok u → Later t u
call-Later t u c v e = record {
  order = call-SameOrder t u c e;
  path = next (call-⟶ t u c e) here;
  final = λ done. rw e at (terminal-call t c v done);
}
