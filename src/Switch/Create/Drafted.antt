-- ===== src/Switch/Create/Drafted.antt =====
-- What `CreateTransfer` of internal/switcher/service.go asks of the rate limits, and what it puts into a
-- transfer and its events.
use pixrail_go_payment_switc.Prelude.{
  ℕ, Result, true, ◌≡◌, refl, ap, ◌∙◌, List, [], ◌∷◌, ◌++◌, Option, none, some, Text, str, trim,
  pos, ok, arith,
}
use pixrail_go_payment_switc.Rail.{
  Time, Transfer, TransferStatus, CreateTransferRequest, DictEntry, FraudDecision,
}
use pixrail_go_payment_switc.Rail.Request.{request_fingerprint}
use pixrail_go_payment_switc.Events.{Event, Subject, new_event}
use pixrail_go_payment_switc.RateLimit.TokenBucket.{Limiter, allow}
use pixrail_go_payment_switc.Switch.{
  Env, World, Field, text, number, texts, make_event, keep_made, or_else,
}
use pixrail_go_payment_switc.Switch.Announce.{event_types}
use pixrail_go_payment_switc.Switch.Draft.{
  new_transfer, subject_of, decision_events, creation_events,
}
use pixrail_go_payment_switc.Switch.Create.{normalize, admit, admit_request, decidable}

-- A limiter lets a key through, or there is none.
abbrev pub Admits : Option Limiter → Text → Time → Type 0
Admits none key now = Unit {0}
Admits (some l) key now = (allow l key now).0 ≡ true

admit-Admits :
    (limit : Option Limiter) (key : Text) (now : Time)
    → (admit limit key now).0 ≡ true
    → Admits limit key now
unfolding admit
admit-Admits none key now e = tt
admit-Admits (some l) key now e = e

pub admit_request-Admits :
    (env : Env) (w : World) (req : CreateTransferRequest)
    → (admit_request env w req).0 ≡ ok tt
    → Admits w.tenant_limit (req.tenant_id ++ (b':' ∷ req.account_id)) (env.limit_now 0)
      × Admits w.dict_limit (req.tenant_id ++ (b':' ∷ req.receiver_key)) (env.limit_now 1)
unfolding admit_request
admit_request-Admits env w req e = (
  admit-Admits w.tenant_limit (req.tenant_id ++ (b':' ∷ req.account_id)) (env.limit_now 0)
      (ground arith),
  admit-Admits w.dict_limit (req.tenant_id ++ (b':' ∷ req.receiver_key)) (env.limit_now 1)
      (ground arith),
)

-- A transfer says what the request, the entry of its receiver and the decision say, and has not been
-- sent to the SPI.
pub record Carries (env : Env) (request : CreateTransferRequest) (entry : DictEntry)
    (decision : FraudDecision) (t : Transfer) : Type 0 where
  pub tenant_id : t.tenant_id ≡ trim request.tenant_id
  pub account_id : t.account_id ≡ trim request.account_id
  pub idempotency_key : t.idempotency_key ≡ trim request.idempotency_key
  pub correlation_id : t.correlation_id ≡ trim request.correlation_id
  pub request_hash : t.request_hash ≡ request_fingerprint env.digest (normalize env request)
  pub amount_cents : t.amount_cents ≡ request.amount_cents
  pub currency : t.currency ≡ or_else request.currency (str "BRL")
  pub receiver_key : t.receiver_key ≡ trim request.receiver_key
  pub receiver_key_type : t.receiver_key_type ≡ request.receiver_key_type
  pub receiver_name : t.receiver_name ≡ entry.name
  pub receiver_bank : t.receiver_bank ≡ entry.bank_ispb
  pub receiver_risk : t.receiver_risk ≡ entry.risk_signal
  pub fraud_score : t.fraud_score ≡ decision.score
  pub fraud_rules : t.fraud_rules ≡ decision.rules
  pub status : t.status ≡ decision.status
  pub decision_reason : t.decision_reason ≡ decision.reason
  pub unsent : t.spi_message_id ≡ []
  pub unclaimed : t.spi_claimed_until ≡ none
  pub attempts : t.spi_submission_attempts ≡ pos 0

pub new_transfer-Carries :
    (env : Env) (request : CreateTransferRequest) (entry : DictEntry) (decision : FraudDecision)
    → let req = normalize env request in
      Carries env request entry decision
        (new_transfer env req (request_fingerprint env.digest req) entry decision)
unfolding new_transfer normalize
new_transfer-Carries env request entry decision = ground arith

-- The types of the events about a decision.
pub data Announced : TransferStatus → List Text → Type 0 where
  accepted : Announced TransferStatus.accepted (
      str "pix_transfer_requested"
      ∷ str "dict_key_resolved"
      ∷ str "fraud_score_calculated"
      ∷ str "pix_transfer_accepted"
      ∷ str "spi_submission_requested"
      ∷ [])
  review : Announced TransferStatus.review (
      str "pix_transfer_requested"
      ∷ str "dict_key_resolved"
      ∷ str "fraud_score_calculated"
      ∷ str "pix_transfer_review_requested"
      ∷ [])
  blocked : Announced TransferStatus.blocked (
      str "pix_transfer_requested"
      ∷ str "dict_key_resolved"
      ∷ str "fraud_score_calculated"
      ∷ str "pix_transfer_blocked"
      ∷ [])

module _ (env : Env) (encode : List (Text × Field) → Text)
    (marshals : (payload : List (Text × Field)) → env.marshal payload ≡ ok (encode payload)) where
  keep_made-type :
      (n : ℕ) (event_type : Text) (s : Subject) (at : Time) (payload : List (Text × Field))
      (rest : List (Result Event))
      → event_types (keep_made (make_event env n event_type s at payload ∷ rest))
        ≡ event_type ∷ event_types (keep_made rest)
  unfolding make_event new_event
  keep_made-type n event_type s at payload rest = rw (marshals payload) refl

  module _ (t : Transfer) (decision : FraudDecision) where
    -- The events that every decision has, in front of those of its own.
    first_three :
        (resolved scored requested : List (Text × Field)) (rest : List (Result Event))
        → let s = subject_of t in
          event_types (
            keep_made (
              make_event env 1 (str "pix_transfer_requested") s (env.now 2) requested
              ∷ make_event env 2 (str "dict_key_resolved") s (env.now 3) resolved
              ∷ make_event env 3 (str "fraud_score_calculated") s (env.now 4) scored
              ∷ rest))
          ≡ str "pix_transfer_requested"
            ∷ str "dict_key_resolved"
            ∷ str "fraud_score_calculated"
            ∷ event_types (keep_made rest)
    first_three resolved scored requested rest =
        keep_made-type 1 _ (subject_of t) (env.now 2) requested _
        ∙ ap (◌∷◌ (str "pix_transfer_requested")) (
            keep_made-type 2 _ (subject_of t) (env.now 3) resolved _
            ∙ ap (◌∷◌ (str "dict_key_resolved"))
                (keep_made-type 3 _ (subject_of t) (env.now 4) scored rest))

    abbrev scoring : List (Text × Field)
    scoring =
        (str "score", number decision.score)
        ∷ (str "rules", texts decision.rules)
        ∷ (str "decision_reason", text decision.reason)
        ∷ []

    -- What a decision announces of its own, behind the three.
    decision_events-Announced :
        (st : TransferStatus)
        → decidable st ≡ true
        → Announced st (
            str "pix_transfer_requested"
            ∷ str "dict_key_resolved"
            ∷ str "fraud_score_calculated"
            ∷ event_types (keep_made (decision_events env t decision st)))
    unfolding make_event new_event
    decision_events-Announced TransferStatus.accepted e =
        rw (marshals ((str "decision_reason", text t.decision_reason) ∷ []))
          (rw (marshals ((str "request_hash", text t.request_hash) ∷ [])) Announced.accepted)
    decision_events-Announced TransferStatus.review e = rw (marshals scoring) Announced.review
    decision_events-Announced TransferStatus.blocked e = rw (marshals scoring) Announced.blocked
    decision_events-Announced st e = absurd (ground arith)

    pub creation_events-Announced :
        (entry : DictEntry)
        → decidable decision.status ≡ true
        → Announced decision.status (event_types (creation_events env t entry decision))
    unfolding creation_events
    creation_events-Announced entry fit =
        rw (first_three _ _ _ (decision_events env t decision decision.status))
          (decision_events-Announced decision.status fit)
