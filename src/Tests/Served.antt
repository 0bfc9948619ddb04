-- ===== src/Tests/Served.antt =====
-- The payment switch on concrete data: a transfer is created, sent and settled, and asked about again.
use pixrail_go_payment_switc.Switch.Create.{
  store_transfer, decide, create_valid, create_new, admit_request, normalize, create_transfer,
}
use pixrail_go_payment_switc.Store.{insert_transfer, find_by_idempotency}
use pixrail_go_payment_switc.Fraud.{score}
use pixrail_go_payment_switc.Prelude.{
  ◌≡◌, refl, List, [], ◌∷◌, text_eq, lookup, ok, err, true, false, Result, str, trim, is_empty,
  if◌then◌else◌,
}
use pixrail_go_payment_switc.Rail.{Transfer}
use pixrail_go_payment_switc.Rail.Request.{validate, request_fingerprint}
use pixrail_go_payment_switc.Rail.Lifecycle.{Later}
use pixrail_go_payment_switc.Store.Invariant.{IsValid, new_memory_store-IsValid}
use pixrail_go_payment_switc.Store.Changes.{Grows, Grows-refl}
use pixrail_go_payment_switc.Store.History.{run}
use pixrail_go_payment_switc.Switch.{World, Reply}
use pixrail_go_payment_switc.Switch.Sound.{IsSound}
use pixrail_go_payment_switc.Switch.Create.Idempotent.{create_once, reused_key}
use pixrail_go_payment_switc.Switch.Service.{
  UseCase, creates, submits, settles, serve_all, serve_all-safe,
}
use pixrail_go_payment_switc.Tests.{a_callback, a_request, an_env, a_world, reply_or, no_reply}

an_env-IsSound : IsSound an_env
an_env-IsSound n s v = (v, Grows-refl s)

abbrev created : Result Reply × World
created = create_transfer an_env a_world a_request

create_run :
    create_transfer an_env a_world a_request ≡ (ok (reply_or no_reply created.0), created.1)
unfolding create_transfer validate trim text_eq str create_valid find_by_idempotency lookup
    create_new admit_request decide score store_transfer insert_transfer
create_run = refl

create_fresh : (reply_or no_reply created.0).idempotent_replay ≡ false
unfolding create_transfer validate trim text_eq str create_valid find_by_idempotency lookup
    create_new admit_request decide score store_transfer insert_transfer
create_fresh = refl

abbrev w1 : World
w1 = created.1

a_request-valid : validate (normalize an_env a_request) ≡ ok tt
unfolding validate trim normalize text_eq str
a_request-valid = refl

fingerprint_full : is_empty (request_fingerprint an_env.digest (normalize an_env a_request)) ≡ false
unfolding request_fingerprint
fingerprint_full = refl

create_once_example :
    (u : Transfer) × Later (reply_or no_reply created.0).transfer u
    × (create_transfer an_env (record a_world { store = run an_env.digest w1.store [] }) a_request
        ≡ (
          (if text_eq
                (request_fingerprint an_env.digest (normalize an_env a_request))
                (request_fingerprint an_env.digest (normalize an_env a_request))
              then ok (record { transfer = u; idempotent_replay = true; events = [] })
              else err reused_key),
          record a_world { store = run an_env.digest w1.store [] },
        ))
create_once_example =
    create_once an_env an_env a_world w1 (record a_world { store = run an_env.digest w1.store [] })
      a_request a_request (reply_or no_reply created.0) [] an_env-IsSound new_memory_store-IsValid
      create_run create_fresh tt refl refl a_request-valid refl refl fingerprint_full

abbrev a_day : List UseCase
a_day =
    creates an_env a_request
    ∷ submits an_env (b'a' ∷ []) (b't' ∷ []) []
    ∷ settles an_env a_callback
    ∷ []

serve_all-safe_example :
    IsValid (serve_all a_world a_day).store × Grows a_world.store (serve_all a_world a_day).store
serve_all-safe_example =
    serve_all-safe a_world a_day new_memory_store-IsValid
      (an_env-IsSound, (an_env-IsSound, (an_env-IsSound, tt)))
