-- ===== src/Switch.antt =====
-- internal/switcher/service.go: the payment switch. A use case makes several calls to the store, and
-- other requests run between them: `meanwhile n` is what they did to the store before the n-th
-- call of this use case. What the code draws from outside comes from `Env`.
pub mod Announce
pub mod Draft
pub mod Sound
pub mod Create
pub mod Submit
pub mod Review
pub mod Settle
pub mod Service
use pixrail_go_payment_switc.Prelude.{
  ℕ, Bool, List, [], ◌∷◌, ◌++◌, Option, none, some, Text, str, ℤ, Map, Result, ok, err, Error,
  is_empty, if◌then◌else◌,
}
use pixrail_go_payment_switc.Rail.{
  Time, Transfer, CreateTransferRequest, DictKeyType, DictEntry, FraudDecision, SpiMessage,
}
use pixrail_go_payment_switc.Events.{Event, Subject, new_event}
use pixrail_go_payment_switc.Store.{MemoryStore}
use pixrail_go_payment_switc.RateLimit.TokenBucket.{Limiter, allow}

-- A value in the `map[string]any` of an event's payload.
pub data Field : Type 0 where
  text : Text → Field
  number : ℤ → Field
  texts : List Text → Field

pub record Env : Type 0 where
  -- SHA-256 in hexadecimal, and `json.Marshal` of a payload.
  pub digest : Text → Text
  pub marshal : List (Text × Field) → Result Text
  -- The n-th reading of the switch's clock, of the store's, and of the limiters'.
  pub now : ℕ → Time
  pub store_now : ℕ → Time
  pub limit_now : ℕ → Time
  -- What follows the prefix in the n-th call of `newID`.
  pub random : ℕ → Text
  -- `ctx.Err()` at the n-th call of the store.
  pub ctx : ℕ → Option Error
  pub meanwhile : ℕ → MemoryStore → MemoryStore
  -- The ports: ParticipantResolver, FraudScorer and SPIClient.
  pub resolve : Text → Text → DictKeyType → Result DictEntry
  pub score : CreateTransferRequest → DictEntry → Result FraudDecision
  pub submit : Transfer → Result SpiMessage

-- The state that requests share. A nil limiter is `none`.
pub record World : Type 0 where
  pub store : MemoryStore
  pub tenant_limit : Option Limiter
  pub dict_limit : Option Limiter

-- `Result` of service.go.
pub record Reply : Type 0 where
  pub transfer : Transfer
  pub idempotent_replay : Bool
  pub events : List Event

abbrev pub Outcome : Type 0 → Type 0
Outcome A = Result A × World

abbrev pub with_store : World → MemoryStore → World
with_store w s = record w { store = s }

-- `newID`
unfoldable pub new_id : Env → Text → ℕ → Text
new_id env prefix n = prefix ++ (b'_' ∷ env.random n)

-- `addEvent`: the n-th event of a use case.
unfoldable pub make_event : Env → ℕ → Text → Subject → Time → List (Text × Field) → Result Event
make_event env n event_type subject at payload =
    new_event (new_id env (str "evt") n) event_type subject at (env.marshal payload)

-- `addEvent` of CreateTransfer, which passes over an event that cannot be marshalled.
abbrev pub keep_made : List (Result Event) → List Event
keep_made [] = []
keep_made (ok e ∷ rs) = e ∷ keep_made rs
keep_made (err x ∷ rs) = keep_made rs

abbrev pub or_else : Text → Text → Text
or_else s fallback = if is_empty s then fallback else s
