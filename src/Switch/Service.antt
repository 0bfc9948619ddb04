-- ===== src/Switch/Service.antt =====
-- internal/switcher/service.go: the use cases of the service one after the other, each in its own
-- surroundings, as its callers make them.
use pixrail_go_payment_switc.Prelude.{ℕ, List, [], ◌∷◌, Option, Text, ℤ, Error, All}
use pixrail_go_payment_switc.Rail.{
  Time, Transfer, CreateTransferRequest, ReviewDecisionRequest, SettlementCallback,
}
use pixrail_go_payment_switc.Store.Invariant.{IsValid}
use pixrail_go_payment_switc.Store.Changes.{Grows}
use pixrail_go_payment_switc.Switch.{Env, World}
use pixrail_go_payment_switc.Switch.Sound.{Keeps, IsSound, Keeps-refl, Keeps-trans}
use pixrail_go_payment_switc.Switch.Create.{create_transfer}
use pixrail_go_payment_switc.Switch.Create.Accept.{create_transfer-Keeps}
use pixrail_go_payment_switc.Switch.Submit.{submit_to_spi, submit_pending_spi}
use pixrail_go_payment_switc.Switch.Submit.Laws.{submit_to_spi-Keeps, submit_pending_spi-Keeps}
use pixrail_go_payment_switc.Switch.Review.{record_review}
use pixrail_go_payment_switc.Switch.Review.Safe.{record_review-Keeps}
use pixrail_go_payment_switc.Switch.Settle.{record_settlement}
use pixrail_go_payment_switc.Switch.Settle.Laws.{record_settlement-Keeps}

-- The use cases with their arguments. A batch runs each submission in surroundings of its own.
pub data UseCase : Type 0 where
  creates : Env → CreateTransferRequest → UseCase
  submits : Env → Text → Text → Text → UseCase
  submits_pending : (List Transfer → List Transfer) → (ℕ → Env) → Option Error → ℤ → Time → UseCase
  reviews : Env → ReviewDecisionRequest → UseCase
  settles : Env → SettlementCallback → UseCase

unfoldable pub serve : World → UseCase → World
serve w (creates env request) = (create_transfer env w request).1
serve w (submits env tenant_id id correlation_id) =
    (submit_to_spi env w tenant_id id correlation_id).1
serve w (submits_pending walk envs ctx limit now) = (submit_pending_spi walk envs ctx w limit now).1
serve w (reviews env request) = (record_review env w request).1
serve w (settles env callback) = (record_settlement env w callback).1

unfoldable pub serve_all : World → List UseCase → World
unfolding serve
serve_all w [] = w
serve_all w (u ∷ us) = serve_all (serve w u) us

-- Whatever runs between the calls of a use case keeps the store as well.
abbrev pub IsServed : UseCase → Type 0
IsServed (creates env request) = IsSound env
IsServed (submits env tenant_id id correlation_id) = IsSound env
IsServed (submits_pending walk envs ctx limit now) = (n : ℕ) → IsSound (envs n)
IsServed (reviews env request) = IsSound env
IsServed (settles env callback) = IsSound env

serve-Keeps : (w : World) (u : UseCase) → IsServed u → Keeps w.store (serve w u).store
unfolding serve
serve-Keeps w (creates env request) sound = create_transfer-Keeps env w request sound
serve-Keeps w (submits env tenant_id id correlation_id) sound =
    submit_to_spi-Keeps env sound w tenant_id id correlation_id
serve-Keeps w (submits_pending walk envs ctx limit now) sound =
    submit_pending_spi-Keeps envs walk ctx w limit now sound
serve-Keeps w (reviews env request) sound = record_review-Keeps env sound w request
serve-Keeps w (settles env callback) sound = record_settlement-Keeps env sound w callback

serve_all-Keeps :
    (w : World) (us : List UseCase) → All IsServed us → Keeps w.store (serve_all w us).store
unfolding serve_all
serve_all-Keeps w [] served = Keeps-refl w.store
serve_all-Keeps w (u ∷ us) served =
    Keeps-trans w.store (serve w u).store _ (serve-Keeps w u served.0)
      (serve_all-Keeps (serve w u) us served.1)

-- Whatever requests the service serves, with whatever outcome and interleaved with whatever keeps
-- the store: from a store whose maps agree they lead to one whose maps agree, and they lose no
-- transfer, no idempotency key and no callback, and change no transfer that is final.
pub serve_all-safe :
    (w : World) (us : List UseCase)
    → IsValid w.store
    → All IsServed us
    → IsValid (serve_all w us).store × Grows w.store (serve_all w us).store
serve_all-safe w us v served = serve_all-Keeps w us served v
