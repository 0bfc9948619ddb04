-- ===== src/Fraud.antt =====
-- internal/fraud/engine.go: the rules engine. Scores are `int`s and wrap around at 64 bits.
use pixrail_go_payment_switc.Prelude.{
  ℕ, ◌+◌, ◌≤◌, ◌<◌, ◌^◌, ◌≡◌, ◌≢◌, ◌⊎◌, ◌↔◌, Bool, List, [], ◌∷◌, ◌++◌, Text, str, text_eq, ℤ, pos,
  ◌+ℤ◌, ◌≤ℤ◌, ◌<ℤ◌, leb_ℤ, wrap64, wrap64_id, if◌then◌else◌, arith, IsInt64, pos_part, neg_part,
  +ℤ_parts, int_laws, text_eq_iff,
}
use pixrail_go_payment_switc.Rail.{CreateTransferRequest, DictEntry, FraudDecision, TransferStatus}
pub mod Policy

-- One rule: when it fires it adds its points and its name.
record Tally : Type 0 where
  score : ℤ
  rules : List Text

rule : Bool → ℕ → Text → Tally → Tally
rule fires points name t =
    if fires
    then record { score = wrap64 (t.score +ℤ pos points); rules = t.rules ++ (name ∷ []) }
    else t

unfoldable pub verdict : ℤ → TransferStatus
verdict score =
    if leb_ℤ (pos 90) score
    then TransferStatus.blocked
    else if leb_ℤ (pos 65) score
    then TransferStatus.review
    else TransferStatus.accepted

unfoldable pub verdict_reason : ℤ → Text
verdict_reason score =
    if leb_ℤ (pos 90) score
    then str "blocked by fraud policy"
    else if leb_ℤ (pos 65) score
    then str "manual review required"
    else str "risk within payment-rail policy"

amount_high : CreateTransferRequest → Tally → Tally
unfolding rule
amount_high transfer = rule (leb_ℤ (pos 1000000) transfer.amount_cents) 40 (str "amount_high")

amount_review : CreateTransferRequest → Tally → Tally
unfolding rule
amount_review transfer = rule (leb_ℤ (pos 500000) transfer.amount_cents) 15 (str "amount_review")

dict_high_risk : DictEntry → Tally → Tally
unfolding rule
dict_high_risk dict = rule (leb_ℤ (pos 80) dict.risk_signal) 35 (str "dict_high_risk")

self_transfer : CreateTransferRequest → DictEntry → Tally → Tally
unfolding rule
self_transfer transfer dict =
    rule (text_eq transfer.account_id dict.account_hash) 25 (str "self_transfer_hash_match")

tally : CreateTransferRequest → DictEntry → Tally
unfolding amount_high amount_review dict_high_risk self_transfer
tally transfer dict = self_transfer transfer dict (
    dict_high_risk dict (
      amount_review transfer
        (amount_high transfer (record { score = dict.risk_signal; rules = [] }))))

-- `RulesEngine.Score`, which never fails.
unfoldable pub score : CreateTransferRequest → DictEntry → FraudDecision
unfolding tally verdict verdict_reason
score transfer dict = record {
  score = (tally transfer dict).score;
  status = verdict (tally transfer dict).score;
  rules = (tally transfer dict).rules;
  reason = verdict_reason (tally transfer dict).score;
}
