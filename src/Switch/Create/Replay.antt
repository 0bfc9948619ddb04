-- ===== src/Switch/Create/Replay.antt =====
-- `CreateTransfer` of internal/switcher/service.go: what a reply tells, and the idempotency key.
use pixrail_go_payment_switc.Prelude.{
  ◌++◌, trim, true, false, ◌≡◌, [], ◌∷◌, none, some, Text, ok, Error, Result-cases, Bool-cases, inl,
  inr, arith,
}
use pixrail_go_payment_switc.Rail.{Transfer, CreateTransferRequest, DictEntry, FraudDecision}
use pixrail_go_payment_switc.Rail.Request.{validate, request_fingerprint}
use pixrail_go_payment_switc.Store.{MemoryStore, find_by_idempotency, insert_transfer}
use pixrail_go_payment_switc.Switch.{Env, World, Reply, with_store}
use pixrail_go_payment_switc.Switch.Draft.{new_transfer, creation_events, creation_audit}
use pixrail_go_payment_switc.Switch.Create.{
  normalize, replay, admit_request, decide, is_conflict, after_refusal, store_transfer, create_new,
  create_valid, create_transfer,
}
use pixrail_go_payment_switc.Switch.Create.Accept.{admit_request-store}
use pixrail_go_payment_switc.Switch.Create.Drafted.{
  Admits, admit_request-Admits, Carries, new_transfer-Carries,
}

replay-replays :
    (hash : Text) (t : Transfer) (r : Reply) → replay hash t ≡ ok r → r.idempotent_replay ≡ true
unfolding replay
replay-replays hash t r e = ground arith

after_refusal-replays :
    (env : Env) (s : MemoryStore) (req : CreateTransferRequest) (hash : Text) (refused : Error)
    (r : Reply)
    → after_refusal env s req hash refused ≡ ok r
    → r.idempotent_replay ≡ true
unfolding after_refusal
after_refusal-replays env s req hash refused r e = elim (Bool-cases (is_conflict refused.kind)) [
  | inr no_ ↦ ground arith
  | inl yes_ ↦
      elim (Result-cases (find_by_idempotency (env.ctx 1) s req.tenant_id req.idempotency_key)) [
        | inr (x, f) ↦ ground arith
        | inl (none, f) ↦ ground arith
        | inl (some t, f) ↦ replay-replays hash t r (ground arith)
      ]
]

-- A first success: the key was free, both limits let the request through, the receiver and the
-- score were decided, and the transfer went into the store with its events and its audit record.
pub record Created (env : Env) (w : World) (request : CreateTransferRequest) (r : Reply)
    (s' : MemoryStore) : Type 0 where
  pub entry : DictEntry
  pub decision : FraudDecision
  pub valid : validate (normalize env request) ≡ ok tt
  pub unused :
      find_by_idempotency
        (env.ctx 0)
        (env.meanwhile 0 w.store)
        (normalize env request).tenant_id
        (normalize env request).idempotency_key
      ≡ ok none
  pub tenant_admits :
      Admits w.tenant_limit
        (trim request.tenant_id ++ (b':' ∷ trim request.account_id))
        (env.limit_now 0)
  pub dict_admits :
      Admits w.dict_limit
        (trim request.tenant_id ++ (b':' ∷ trim request.receiver_key))
        (env.limit_now 1)
  pub decided : decide env (normalize env request) ≡ ok (entry, decision)
  pub transfer_is :
      r.transfer
      ≡ new_transfer env
          (normalize env request)
          (request_fingerprint env.digest (normalize env request))
          entry
          decision
  pub carries : Carries env request entry decision r.transfer
  pub events_are : r.events ≡ creation_events env r.transfer entry decision
  pub stored :
      insert_transfer
        (env.meanwhile 1 (env.meanwhile 0 w.store))
        r.transfer
        r.events
        (creation_audit env r.transfer ∷ [])
      ≡ ok s'

store_transfer-fresh :
    (env : Env) (w : World) (req : CreateTransferRequest) (hash : Text) (entry : DictEntry)
    (decision : FraudDecision) (r : Reply) (w' : World)
    → store_transfer env w req hash (entry, decision) ≡ (ok r, w')
    → r.idempotent_replay ≡ false
    → let t = new_transfer env req hash entry decision in
      (r.transfer ≡ t)
      × (r.events ≡ creation_events env t entry decision)
      × (insert_transfer
            (env.meanwhile 1 w.store)
            t
            (creation_events env t entry decision)
            (creation_audit env t ∷ [])
          ≡ ok w'.store)
unfolding store_transfer
store_transfer-fresh env w req hash entry decision r w' e first =
    let t = new_transfer env req hash entry decision in
    let es = creation_events env t entry decision in
    let s = env.meanwhile 1 w.store in
    elim (Result-cases (insert_transfer s t es (creation_audit env t ∷ []))) [
      | inl (stored, i) ↦ (ground arith, ground arith, ground arith)
      | inr (refused, i) ↦
          let again = after_refusal-replays env (env.meanwhile 2 s) req hash refused r in
          absurd (ground (arith, again))
    ]

-- A request that is answered with a new transfer.
pub create_transfer-fresh :
    (env : Env) (w : World) (request : CreateTransferRequest) (r : Reply) (w' : World)
    → create_transfer env w request ≡ (ok r, w')
    → r.idempotent_replay ≡ false
    → Created env w request r w'.store
unfolding create_transfer create_valid create_new normalize
create_transfer-fresh env w request r w' e first =
    let req = normalize env request in
    let hash = request_fingerprint env.digest req in
    let w1 = with_store w (env.meanwhile 0 w.store) in
    let a = admit_request env w1 req in
    elim (Result-cases (validate req)) [
      | inr (x, v) ↦ absurd (ground arith)
      | inl (_, v) ↦
          elim (Result-cases
            (find_by_idempotency (env.ctx 0) w1.store req.tenant_id req.idempotency_key)) [
              | inr (x, f) ↦ absurd (ground arith)
              | inl (some t, f) ↦ absurd (ground (arith, replay-replays hash t r))
              | inl (none, f) ↦ elim (Result-cases a.0) [
                | inr (x, l) ↦ absurd (ground arith)
                | inl (_, l) ↦ elim (Result-cases (decide env req)) [
                  | inr (x, d) ↦ absurd (ground arith)
                  | inl ((entry, decision), d) ↦
                      let (t_is, es_are, stored) =
                        store_transfer-fresh env a.1 req hash entry decision r w' (ground arith)
                          first in
                      let same = admit_request-store env w1 req in
                      record {
                        entry = entry;
                        decision = decision;
                        valid = v;
                        unused = f;
                        tenant_admits = (admit_request-Admits env w1 req l).0;
                        dict_admits = (admit_request-Admits env w1 req l).1;
                        decided = d;
                        transfer_is = t_is;
                        carries = rw t_is (new_transfer-Carries env request entry decision);
                        events_are = rw t_is es_are;
                        stored = rw (t_is, es_are) (rw same at stored);
                      }
                ]
              ]
            ]
    ]
