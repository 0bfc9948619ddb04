-- ===== src/Switch/Create.antt =====
-- internal/switcher/service.go: `CreateTransfer`.
pub mod Drafted
pub mod Replay
pub mod Accept
pub mod Idempotent
use pixrail_go_payment_switc.Prelude.{
  ℕ, Bool, true, false, ◌&&◌, ◌||◌, not, ◌==◌, List, [], ◌∷◌, ◌++◌, Option, none, some, Text, str,
  text_eq, is_empty, trim, ℤ, pos, if◌then◌else◌, Result, ok, err, ◌>>=◌, Error, Kind, fault,
}
use pixrail_go_payment_switc.Rail.{
  Time, Transfer, TransferStatus, CreateTransferRequest, DictEntry, FraudDecision, AuditRecord,
}
use pixrail_go_payment_switc.Rail.Request.{validate, request_fingerprint, decimal, key_type_text}
use pixrail_go_payment_switc.Events.{Event, Subject}
use pixrail_go_payment_switc.Store.{MemoryStore, find_by_idempotency, insert_transfer}
use pixrail_go_payment_switc.RateLimit.TokenBucket.{Limiter, allow}
use pixrail_go_payment_switc.Switch.{Env, World, Reply, Outcome, with_store, or_else}
use pixrail_go_payment_switc.Switch.Draft.{new_transfer, creation_events, creation_audit}

-- The trimmed request with its defaults.
unfoldable pub normalize : Env → CreateTransferRequest → CreateTransferRequest
normalize env req = record req {
  tenant_id = trim req.tenant_id;
  account_id = trim req.account_id;
  idempotency_key = trim req.idempotency_key;
  correlation_id = trim req.correlation_id;
  receiver_key = trim req.receiver_key;
  currency = or_else req.currency (str "BRL");
  requested_at = if req.requested_at == 0 then env.now 0 else req.requested_at;
}

-- What a transfer found under the request's key answers: a replay, unless it was made for another
-- request.
unfoldable pub replay : Text → Transfer → Result Reply
replay request_hash existing =
    if not (is_empty existing.request_hash) && not (text_eq existing.request_hash request_hash)
    then err (fault Kind.conflict (str "idempotency key reused with different request payload"))
    else ok (record { transfer = existing; idempotent_replay = true; events = [] })

-- `limit != nil && !limit.Allow(key)` refuses.
unfoldable pub admit : Option Limiter → Text → Time → Bool × Option Limiter
admit none key now = (true, none)
admit (some l) key now = let r = allow l key now in (r.0, some r.1)

-- The two rate limits, the tenant's first.
unfoldable pub admit_request : Env → World → CreateTransferRequest → Result (Unit {0}) × World
unfolding admit
admit_request env w req =
    let tenant =
      admit w.tenant_limit (req.tenant_id ++ (b':' ∷ req.account_id)) (env.limit_now 0) in
    let w1 = record w { tenant_limit = tenant.1 } in
    let dict = admit w.dict_limit (req.tenant_id ++ (b':' ∷ req.receiver_key)) (env.limit_now 1) in
    let w2 = record w1 { dict_limit = dict.1 } in
    if not tenant.0
    then (err (fault Kind.rate_limited (str "tenant/account bucket exhausted")), w1)
    else if not dict.0
    then (err (fault Kind.rate_limited (str "dict lookup bucket exhausted")), w2)
    else (ok tt, w2)

-- The error of a resolver: a timeout is a failed dependency.
abbrev pub resolver_error : Error → Error
resolver_error e = elim e.kind [
  | Kind.deadline_exceeded ↦ fault Kind.dependency_failed (str "dict lookup timeout")
  | Kind.canceled ↦ fault Kind.dependency_failed (str "dict lookup timeout")
  | _ ↦ e
]

abbrev pub resolved : Result DictEntry → Result DictEntry
resolved (ok entry) = ok entry
resolved (err e) = err (resolver_error e)

-- The statuses that a decision may have.
abbrev pub decidable : TransferStatus → Bool
decidable TransferStatus.accepted = true
decidable TransferStatus.review = true
decidable TransferStatus.blocked = true
decidable _ = false

abbrev pub checked_decision : FraudDecision → Result FraudDecision
checked_decision d =
    if decidable d.status
    then ok d
    else err (fault Kind.dependency_failed (str "fraud decision status is invalid"))

-- The lookup of the receiver and the fraud score.
unfoldable pub decide : Env → CreateTransferRequest → Result (DictEntry × FraudDecision)
decide env req = do
  entry ← resolved (env.resolve req.tenant_id req.receiver_key req.receiver_key_type)
  decision ← env.score req entry
  decision' ← checked_decision decision
  ok (entry, decision')

abbrev pub is_conflict : Kind → Bool
is_conflict Kind.conflict = true
is_conflict _ = false

-- After `InsertTransfer` refused: the transfer that took the key first, if there is one.
unfoldable pub after_refusal :
    Env → MemoryStore → CreateTransferRequest → Text → Error → Result Reply
after_refusal env s req request_hash refused =
    if is_conflict refused.kind
    then (do
      found ← find_by_idempotency (env.ctx 1) s req.tenant_id req.idempotency_key
      elim found [ some existing ↦ replay request_hash existing | none ↦ err refused ])
    else err refused

-- From `InsertTransfer` on.
unfoldable pub store_transfer :
    Env → World → CreateTransferRequest → Text → DictEntry × FraudDecision → Outcome Reply
store_transfer env w req request_hash (entry, decision) =
    let t = new_transfer env req request_hash entry decision in
    let outbox = creation_events env t entry decision in
    let s = env.meanwhile 1 w.store in
    let s' = env.meanwhile 2 s in
    elim (insert_transfer s t outbox (creation_audit env t ∷ [])) [
      | ok stored ↦ (
        ok (record { transfer = t; idempotent_replay = false; events = outbox }),
        with_store w stored,
      )
      | err refused ↦ (
        after_refusal env s' req request_hash refused,
        with_store w (if is_conflict refused.kind then s' else s),
      )
    ]

-- From the rate limits on.
unfoldable pub create_new : Env → World → CreateTransferRequest → Text → Outcome Reply
create_new env w req request_hash =
    let admitted = admit_request env w req in
    elim admitted.0 [
      | err e ↦ (err e, admitted.1)
      | ok _ ↦ elim (decide env req) [
        | err e ↦ (err e, admitted.1)
        | ok decided ↦ store_transfer env admitted.1 req request_hash decided
      ]
    ]

-- After the validation.
unfoldable pub create_valid : Env → World → CreateTransferRequest → Outcome Reply
create_valid env w req =
    let request_hash = request_fingerprint env.digest req in
    let w1 = with_store w (env.meanwhile 0 w.store) in
    elim (find_by_idempotency (env.ctx 0) w1.store req.tenant_id req.idempotency_key) [
      | err e ↦ (err e, w1)
      | ok (some existing) ↦ (replay request_hash existing, w1)
      | ok none ↦ create_new env w1 req request_hash
    ]

unfoldable pub create_transfer : Env → World → CreateTransferRequest → Outcome Reply
unfolding normalize
create_transfer env w request =
    let req = normalize env request in
    elim (validate req) [ err e ↦ (err e, w) | ok _ ↦ create_valid env w req ]
