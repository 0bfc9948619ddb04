-- ===== src/Fraud/Policy.antt =====
-- What the rules engine of internal/fraud/engine.go decides.
use pixrail_go_payment_switc.Prelude.{
  ℕ, ◌+◌, ◌≤◌, ◌<◌, ◌^◌, ◌≡◌, refl, ◌↔◌, ap, ◌∙◌, Bool, [], Text, text_eq, pos, ◌+ℤ◌, ◌≤ℤ◌, leb_ℤ,
  wrap64, if◌then◌else◌, arith,
}
use pixrail_go_payment_switc.Rail.{CreateTransferRequest, DictEntry, TransferStatus}
use pixrail_go_payment_switc.Fraud.{
  Tally, rule, amount_high, amount_review, dict_high_risk, verdict, score,
}

abbrev award : Bool → ℕ → ℕ
award fires p = if fires then p else 0

-- The points that the policy gives, as one sum.
unfoldable pub points : CreateTransferRequest → DictEntry → ℕ
points transfer dict =
    award (leb_ℤ (pos 1000000) transfer.amount_cents) 40
    + award (leb_ℤ (pos 500000) transfer.amount_cents) 15
    + award (leb_ℤ (pos 80) dict.risk_signal) 35
    + award (text_eq transfer.account_id dict.account_hash) 25

add-wrap64 : (r m : ℕ) → r + m < 2 ^ 63 → wrap64 (pos r +ℤ pos m) ≡ pos (r + m)
unfolding wrap64 ◌+ℤ◌
add-wrap64 r m h = ground arith

-- A tally of `n` after `m` points.
abbrev Holds : Tally → ℕ → Type 0
Holds t n = t.score ≡ pos n

rule-Holds :
    (fires : Bool) (p : ℕ) (name : Text) (t : Tally) (n : ℕ)
    → Holds t n
    → n + p < 2 ^ 63
    → Holds (rule fires p name t) (n + award fires p)
unfolding rule
rule-Holds fires p name t n e h = ground (arith, add-wrap64 n p)

award-le : (b : Bool) (p : ℕ) → award b p ≤ p
award-le b p = ground arith

-- The score is the risk signal plus the points of the rules that fire.
pub score-points :
    (transfer : CreateTransferRequest) (dict : DictEntry) (risk : ℕ)
    → dict.risk_signal ≡ pos risk
    → risk + 115 < 2 ^ 63
    → (score transfer dict).score ≡ pos (risk + points transfer dict)
unfolding score points
score-points transfer dict risk e room =
    let start : Tally = record { score = dict.risk_signal; rules = [] } in
    let large = leb_ℤ (pos 1000000) transfer.amount_cents in
    let notable = leb_ℤ (pos 500000) transfer.amount_cents in
    let risky = leb_ℤ (pos 80) dict.risk_signal in
    let own = text_eq transfer.account_id dict.account_hash in
    let t1 = amount_high transfer start in
    let t2 = amount_review transfer t1 in
    let t3 = dict_high_risk dict t2 in
    let h1 : Holds t1 (risk + award large 40) = rule-Holds large 40 _ start risk e (omega arith) in
    let h2 : Holds t2 (risk + award large 40 + award notable 15) =
      rule-Holds notable 15 _ t1 _ h1 (omega (arith, award-le large 40)) in
    let h3 : Holds t3 (risk + award large 40 + award notable 15 + award risky 35) =
      rule-Holds risky 35 _ t2 _ h2 (omega (arith, award-le large 40, award-le notable 15)) in
    rule-Holds own 25 _ t3 _ h3
      (omega (arith, award-le large 40, award-le notable 15, award-le risky 35))
    ∙ ap pos (omega arith)

score-verdict :
    (transfer : CreateTransferRequest) (dict : DictEntry)
    → (score transfer dict).status ≡ verdict (score transfer dict).score
unfolding score
score-verdict transfer dict = refl

-- What the policy asks for at a total of points.
pub record Decides (status : TransferStatus) (total : ℕ) : Type 0 where
  pub blocks : (status ≡ TransferStatus.blocked) ↔ (90 ≤ total)
  pub reviews : (status ≡ TransferStatus.review) ↔ ((65 ≤ total) × (total < 90))
  pub accepts : (status ≡ TransferStatus.accepted) ↔ (total < 65)

verdict-Decides : (total : ℕ) → Decides (verdict (pos total)) total
unfolding verdict
verdict-Decides total = ground arith

-- With a risk signal that is not negative and leaves room in an int, a transfer is blocked
-- exactly when the signal and the points of the rules that fire come to 90 or more, goes to
-- review exactly from 65 up to there, and is accepted exactly below.
pub score-Decides :
    (transfer : CreateTransferRequest) (dict : DictEntry) (risk : ℕ)
    → dict.risk_signal ≡ pos risk
    → risk + 115 < 2 ^ 63
    → Decides (score transfer dict).status (risk + points transfer dict)
score-Decides transfer dict risk e room =
    rw (score-verdict transfer dict, score-points transfer dict risk e room)
      (verdict-Decides (risk + points transfer dict))

abbrev pub severity : TransferStatus → ℕ
severity TransferStatus.accepted = 0
severity TransferStatus.review = 1
severity TransferStatus.blocked = 2
severity _ = 3

verdict_mono : (m n : ℕ) → m ≤ n → severity (verdict (pos m)) ≤ severity (verdict (pos n))
unfolding verdict
verdict_mono m n h = ground arith

points_mono :
    (small large : CreateTransferRequest) (dict : DictEntry)
    → small.account_id ≡ large.account_id
    → small.amount_cents ≤ℤ large.amount_cents
    → points small dict ≤ points large dict
unfolding points
points_mono small large dict same le = rw same (ground arith)

-- For one account and one receiver, with a risk signal that is not negative and leaves room in an
-- int, a larger amount is never decided more mildly.
pub score_mono :
    (small large : CreateTransferRequest) (dict : DictEntry) (risk : ℕ)
    → dict.risk_signal ≡ pos risk
    → risk + 115 < 2 ^ 63
    → small.account_id ≡ large.account_id
    → small.amount_cents ≤ℤ large.amount_cents
    → severity (score small dict).status ≤ severity (score large dict).status
score_mono small large dict risk e room same le =
    rw
      (
        score-verdict small dict,
        score-points small dict risk e room,
        score-verdict large dict,
        score-points large dict risk e room,
      )
      (verdict_mono _ _ (omega (arith, points_mono small large dict same le)))

-- A receiver with a risk signal of 80 or more that leaves room in an int is blocked, whatever the
-- amount: the signal counts and adds 35 points.
pub score_risky :
    (transfer : CreateTransferRequest) (dict : DictEntry) (risk : ℕ)
    → dict.risk_signal ≡ pos risk
    → risk + 115 < 2 ^ 63
    → 80 ≤ risk
    → (score transfer dict).status ≡ TransferStatus.blocked
unfolding points
score_risky transfer dict risk e room high =
    (score-Decides transfer dict risk e room).blocks.1 (rw e (ground arith))
