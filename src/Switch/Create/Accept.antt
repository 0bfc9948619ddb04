-- ===== src/Switch/Create/Accept.antt =====
-- `CreateTransfer` of internal/switcher/service.go: what it stores, and that it keeps the store.
use pixrail_go_payment_switc.Prelude.{
  true, ◌≡◌, refl, List, [], ◌∷◌, none, some, Text, ok, Result-cases, Bool-cases, inl, inr, arith,
}
use pixrail_go_payment_switc.Rail.{CreateTransferRequest, DictEntry, FraudDecision, AuditRecord}
use pixrail_go_payment_switc.Rail.Request.{validate, request_fingerprint}
use pixrail_go_payment_switc.Store.{find_by_idempotency, insert_transfer}
use pixrail_go_payment_switc.Store.Methods.{IsNew, insert-Change}
use pixrail_go_payment_switc.Switch.{Env, World, with_store}
use pixrail_go_payment_switc.Switch.Draft.{new_transfer, creation_events, creation_audit}
use pixrail_go_payment_switc.Switch.Sound.{Keeps, IsSound, Keeps-refl, Keeps-trans, Keeps-Change}
use pixrail_go_payment_switc.Switch.Create.{
  normalize, admit_request, decide, decidable, is_conflict, store_transfer, create_new,
  create_valid, create_transfer,
}

pub decided_status :
    (env : Env) (req : CreateTransferRequest) (entry : DictEntry) (decision : FraudDecision)
    → decide env req ≡ ok (entry, decision)
    → decidable decision.status ≡ true
unfolding decide
decided_status env req entry decision e = ground arith

-- A transfer of `CreateTransfer` is new to the store: in a first status, and unknown to the SPI.
pub new_transfer-IsNew :
    (env : Env) (req : CreateTransferRequest) (hash : Text) (entry : DictEntry)
    (decision : FraudDecision)
    → decidable decision.status ≡ true
    → IsNew (new_transfer env req hash entry decision)
unfolding new_transfer
new_transfer-IsNew env req hash entry decision e =
    (record { known = ground arith; unsent = ground arith; unclaimed = λ _. refl }, ground arith)

pub admit_request-store :
    (env : Env) (w : World) (req : CreateTransferRequest)
    → (admit_request env w req).1.store ≡ w.store
unfolding admit_request
admit_request-store env w req = ground arith

store_transfer-Keeps :
    (env : Env) (w : World) (req : CreateTransferRequest) (hash : Text) (entry : DictEntry)
    (decision : FraudDecision)
    → IsSound env
    → decidable decision.status ≡ true
    → Keeps w.store (store_transfer env w req hash (entry, decision)).1.store
unfolding store_transfer
store_transfer-Keeps env w req hash entry decision sound fine =
    let t = new_transfer env req hash entry decision in
    let es = creation_events env t entry decision in
    let trail : List AuditRecord = creation_audit env t ∷ [] in
    let s = env.meanwhile 1 w.store in
    elim (Result-cases (insert_transfer s t es trail)) [
      | inl (stored, e) ↦
          rw (e, store_transfer)
            (Keeps-trans w.store s stored (sound 1 w.store) (
              Keeps-Change s stored (λ v.
                insert-Change s stored t es trail v
                  (new_transfer-IsNew env req hash entry decision fine) e)))
      | inr (refused, e) ↦ elim (Bool-cases (is_conflict refused.kind)) [
        | inl yes_ ↦
            rw (e, store_transfer, yes_)
              (Keeps-trans w.store s (env.meanwhile 2 s) (sound 1 w.store) (sound 2 s))
        | inr no_ ↦ rw (e, store_transfer, no_) (sound 1 w.store)
      ]
    ]

create_new-Keeps :
    (env : Env) (w : World) (req : CreateTransferRequest) (hash : Text)
    → IsSound env
    → Keeps w.store (create_new env w req hash).1.store
unfolding create_new
create_new-Keeps env w req hash sound =
    let a = admit_request env w req in
    let same = admit_request-store env w req in
    let start : Keeps w.store a.1.store = rw same (Keeps-refl w.store) in
    elim (Result-cases a.0) [
      | inr (x, e) ↦ rw (e, create_new) start
      | inl (live, e) ↦ elim (Result-cases (decide env req)) [
        | inr (x, d) ↦ rw (e, create_new, d, create_new) start
        | inl ((entry, decision), d) ↦
            rw (e, create_new, d, create_new)
              (Keeps-trans w.store a.1.store _ start (
                store_transfer-Keeps env a.1 req hash entry decision sound
                  (decided_status env req entry decision d)))
      ]
    ]

create_valid-Keeps :
    (env : Env) (w : World) (req : CreateTransferRequest)
    → IsSound env
    → Keeps w.store (create_valid env w req).1.store
unfolding create_valid
create_valid-Keeps env w req sound =
    let s = env.meanwhile 0 w.store in
    elim (Result-cases (find_by_idempotency (env.ctx 0) s req.tenant_id req.idempotency_key)) [
      | inr (x, e) ↦ rw (e, create_valid) (sound 0 w.store)
      | inl (some existing, e) ↦ rw (e, create_valid) (sound 0 w.store)
      | inl (none, e) ↦
          rw (e, create_valid)
            (Keeps-trans w.store s _ (sound 0 w.store) (
              create_new-Keeps env (with_store w s) req (request_fingerprint env.digest req) sound))
    ]

-- Whatever the outcome, the store's maps stay coherent and nothing in them is lost.
pub create_transfer-Keeps :
    (env : Env) (w : World) (request : CreateTransferRequest)
    → IsSound env
    → Keeps w.store (create_transfer env w request).1.store
unfolding create_transfer
create_transfer-Keeps env w request sound = elim (Result-cases (validate (normalize env request))) [
  | inl (valid, e) ↦
      rw (e, create_transfer) (create_valid-Keeps env w (normalize env request) sound)
  | inr (x, e) ↦ rw (e, create_transfer) (Keeps-refl w.store)
]
