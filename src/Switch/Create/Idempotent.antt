-- ===== src/Switch/Create/Idempotent.antt =====
-- The idempotency key across requests: `CreateTransfer` of internal/switcher/service.go after any
-- history of the store.
use pixrail_go_payment_switc.Prelude.{
  true, false, ◌≡◌, ◌≢◌, sym, ap, ◌∙◌, subst, List, [], ◌∷◌, some, none, Text, str, text_eq,
  text_eq_iff, ok, err, Kind, fault, inl, inr, arith, is_empty, All, Error, Bool-cases,
  if◌then◌else◌,
}
use pixrail_go_payment_switc.Rail.{Transfer, CreateTransferRequest}
use pixrail_go_payment_switc.Rail.Request.{validate, request_fingerprint}
use pixrail_go_payment_switc.Rail.Lifecycle.{Later}
use pixrail_go_payment_switc.Store.{find_by_idempotency}
use pixrail_go_payment_switc.Store.Invariant.{IsValid}
use pixrail_go_payment_switc.Store.Methods.{IsNew}
use pixrail_go_payment_switc.Store.History.{Op, IsFresh, run}
use pixrail_go_payment_switc.Store.Promises.{insert_once}
use pixrail_go_payment_switc.Switch.{Env, World, Reply, with_store}
use pixrail_go_payment_switc.Switch.Draft.{new_transfer, creation_audit}
use pixrail_go_payment_switc.Switch.Sound.{IsSound}
use pixrail_go_payment_switc.Switch.Create.{normalize, replay, create_valid, create_transfer}
use pixrail_go_payment_switc.Switch.Create.Accept.{decided_status, new_transfer-IsNew}
use pixrail_go_payment_switc.Switch.Create.Replay.{create_transfer-fresh}

-- What `CreateTransfer` answers when the key leads to a transfer.
found_answers :
    (env : Env) (w : World) (request : CreateTransferRequest) (u : Transfer)
    → validate (normalize env request) ≡ ok tt
    → find_by_idempotency
        (env.ctx 0)
        (env.meanwhile 0 w.store)
        (normalize env request).tenant_id
        (normalize env request).idempotency_key
      ≡ ok (some u)
    → create_transfer env w request ≡ (
      replay (request_fingerprint env.digest (normalize env request)) u,
      with_store w (env.meanwhile 0 w.store),
    )
unfolding create_transfer create_valid
found_answers env w request u v f = ground arith

replay-same :
    (hash : Text) (u : Transfer)
    → u.request_hash ≡ hash
    → replay hash u ≡ ok (record { transfer = u; idempotent_replay = true; events = [] })
unfolding replay
replay-same hash u e = ground (arith, text_eq_iff u.request_hash hash)

replay-other :
    (hash : Text) (u : Transfer)
    → u.request_hash ≢ hash
    → is_empty u.request_hash ≡ false
    → replay hash u
      ≡ err (fault Kind.conflict (str "idempotency key reused with different request payload"))
unfolding replay
replay-other hash u ne full = ground (arith, text_eq_iff u.request_hash hash)

abbrev pub reused_key : Error
reused_key = fault Kind.conflict (str "idempotency key reused with different request payload")

-- After a request created a transfer in a store whose maps agree, every later valid request under
-- the same tenant and idempotency key, in a live context and after any history of the store,
-- leaves the store as it is: with the same fingerprint, which is not empty, it is answered by
-- what became of that transfer, and with another fingerprint it is a conflict.
pub create_once :
    (env env' : Env) (w w1 w' : World) (request request' : CreateTransferRequest) (r : Reply)
    (ops : List Op)
    → IsSound env
    → IsValid w.store
    → create_transfer env w request ≡ (ok r, w1)
    → r.idempotent_replay ≡ false
    → All IsFresh ops
    → env'.ctx 0 ≡ none
    → env'.meanwhile 0 w'.store ≡ run env'.digest w1.store ops
    → validate (normalize env' request') ≡ ok tt
    → (normalize env' request').tenant_id ≡ (normalize env request).tenant_id
    → (normalize env' request').idempotency_key ≡ (normalize env request).idempotency_key
    → is_empty (request_fingerprint env.digest (normalize env request)) ≡ false
    → (u : Transfer) × Later r.transfer u
      × (create_transfer env' w' request' ≡ (
        (if text_eq
              (request_fingerprint env.digest (normalize env request))
              (request_fingerprint env'.digest (normalize env' request'))
            then ok (record { transfer = u; idempotent_replay = true; events = [] })
            else err reused_key),
        with_store w' (run env'.digest w1.store ops),
      ))
unfolding new_transfer
create_once env env' w w1 w' request request' r ops sound v done first fresh live history v' tenant
      key full =
    let c = create_transfer-fresh env w request r w1 done first in
    let req = normalize env request in
    let hash = request_fingerprint env.digest req in
    let later = run env'.digest w1.store ops in
    let s0 = sound 0 w.store v in
    let s1 = sound 1 (env.meanwhile 0 w.store) s0.0 in
    let fine = decided_status env req c.entry c.decision c.decided in
    let new =
      subst IsNew (sym c.transfer_is) (new_transfer-IsNew env req hash c.entry c.decision fine) in
    let (u, at_u, since) =
      insert_once env'.digest _ w1.store r.transfer r.events (creation_audit env r.transfer ∷ [])
        ops s1.0 new c.stored fresh in
    let tid : r.transfer.tenant_id ≡ req.tenant_id = ap (λ t. t.tenant_id) c.transfer_is in
    let kid : r.transfer.idempotency_key ≡ req.idempotency_key =
      ap (λ t. t.idempotency_key) c.transfer_is in
    let made : r.transfer.request_hash ≡ hash = ap (λ t. t.request_hash) c.transfer_is in
    let carried : u.request_hash ≡ hash = since.order.request_hash ∙ made in
    let there : find_by_idempotency (env'.ctx 0) (env'.meanwhile 0 w'.store)
          (normalize env' request').tenant_id (normalize env' request').idempotency_key
        ≡ ok (some u) =
      cc (at_u, live, history, tid, kid, tenant, key) in
    let answer = found_answers env' w' request' u v' there in
    let hash' = request_fingerprint env'.digest (normalize env' request') in
    (
      u,
      since,
      elim (Bool-cases (text_eq hash hash')) [
        | inl same ↦
            let equal = (text_eq_iff hash hash').0 same in
            rw same (answer ∙ cc (replay-same _ u (carried ∙ equal), history))
        | inr other ↦ rw other (
            answer
            ∙ cc (
              replay-other hash' u (λ e. ground (arith, text_eq_iff hash hash', sym carried ∙ e))
                  (ap is_empty carried ∙ full),
              history,
            ))
      ],
    )
