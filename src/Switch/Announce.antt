-- ===== src/Switch/Announce.antt =====
-- The types of the events that the use cases of internal/switcher/service.go write.
use pixrail_go_payment_switc.Prelude.{
  ℕ, ◌≡◌, List, [], ◌∷◌, Text, ok, Result-cases, inl, inr, arith,
}
use pixrail_go_payment_switc.Rail.{Time}
use pixrail_go_payment_switc.Events.{Event, Subject, new_event}
use pixrail_go_payment_switc.Switch.{Env, Field, make_event}

abbrev pub event_types : List Event → List Text
event_types [] = []
event_types (e ∷ es) = e.event_type ∷ event_types es

pub make_event-type :
    (env : Env) (n : ℕ) (event_type : Text) (s : Subject) (at : Time)
    (payload : List (Text × Field)) (e : Event)
    → make_event env n event_type s at payload ≡ ok e
    → e.event_type ≡ event_type
unfolding make_event new_event
make_event-type env n event_type s at payload e h = elim (Result-cases (env.marshal payload)) [
  | inl (raw, m) ↦ ground arith
  | inr (x, m) ↦ absurd (ground arith)
]
