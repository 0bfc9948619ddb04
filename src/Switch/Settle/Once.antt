-- ===== src/Switch/Settle/Once.antt =====
-- `RecordSettlement` of internal/switcher/service.go: the callbacks about a transfer that is settled.
use pixrail_go_payment_switc.Prelude.{
  Bool, true, false, ◌||◌, ◌≡◌, refl, sym, ap, subst, ◌∙◌, List, [], ◌∷◌, Text, text_eq,
  text_eq_iff, is_empty, str, Result, ok, err, Error, Kind, fault, Result-cases, Bool-cases, inl,
  inr, arith, if◌then◌else◌, All,
}
use pixrail_go_payment_switc.Rail.{Transfer, SettlementCallback, AuditRecord}
use pixrail_go_payment_switc.Rail.Request.{settlement_text}
use pixrail_go_payment_switc.Events.{Event, new_event}
use pixrail_go_payment_switc.Store.{MemoryStore, get_transfer, hash_of, update_settlement}
use pixrail_go_payment_switc.Store.Invariant.{IsValid}
use pixrail_go_payment_switc.Store.History.{Op, IsFresh, run}
use pixrail_go_payment_switc.Store.Steps.{settlement_inv}
use pixrail_go_payment_switc.Store.Promises.{settle_once}
use pixrail_go_payment_switc.Switch.{Env, World, Reply, Field, text, make_event, with_store}
use pixrail_go_payment_switc.Switch.Sound.{IsSound}
use pixrail_go_payment_switc.Switch.Settle.{
  complete, hashed, settlement_event_type, settlement_event, settlement_audit, plan_settlement,
  settled_reply, write_settlement, settle_identified, record_settlement,
}
use pixrail_go_payment_switc.Switch.Settle.Laws.{hash_of-hashed}
use pixrail_go_payment_switc.Switch.Settle.Settled.{record_settlement-Settled}

module _ (env : Env) (c : SettlementCallback) (t : Transfer) where
  -- A callback with a known status about the transfer's own message is written down, if its event
  -- can be marshalled.
  plan_settlement-ok :
      (ty : Text)
      → is_empty t.spi_message_id ≡ false
      → t.spi_message_id ≡ c.spi_message_id
      → settlement_event_type c.status ≡ ok ty
      → ((p : List (Text × Field)) → (raw : Text) × (env.marshal p ≡ ok raw))
      → (event : Event) × (plan_settlement env c t ≡ ok (event, settlement_audit t c))
  unfolding plan_settlement settlement_event make_event new_event
  plan_settlement-ok ty full same known marshals =
      let (raw, m) = marshals (
        (str "spi_message_id", text c.spi_message_id)
        ∷ (str "status", text (settlement_text c.status))
        ∷ (str "code", text c.code)
        ∷ []) in
      elim (Result-cases (settlement_event env c t ty)) [
        | inl (event, e) ↦ (event, ground (arith, text_eq_iff t.spi_message_id c.spi_message_id))
        | inr (x, e) ↦ absurd (ground arith)
      ]

-- A callback about a transfer that is there, with a known status and a message that matches, is up
-- to the store's `UpdateSettlement`.
record_settlement-writes :
    (env : Env) (w : World) (callback : SettlementCallback) (t : Transfer) (ty : Text)
    → (is_empty callback.tenant_id
        || (is_empty callback.transfer_id || is_empty callback.spi_message_id))
      ≡ false
    → get_transfer (env.meanwhile 0 w.store) callback.tenant_id callback.transfer_id ≡ ok t
    → is_empty t.spi_message_id ≡ false
    → t.spi_message_id ≡ callback.spi_message_id
    → settlement_event_type callback.status ≡ ok ty
    → ((p : List (Text × Field)) → (raw : Text) × (env.marshal p ≡ ok raw))
    → (event : Event) × (audit : AuditRecord) × (record_settlement env w callback
        ≡ write_settlement env
            (with_store w (env.meanwhile 0 w.store))
            (hashed env (complete env callback))
            (event, audit))
unfolding record_settlement settle_identified complete
record_settlement-writes env w callback t ty named found full same known marshals =
    let c = hashed env (complete env callback) in
    let (event, planned) = plan_settlement-ok env c t ty full same known marshals in
    (event, settlement_audit t c, ground arith)

update_settlement-same :
    {digest digest' : Text → Text} {s s' : MemoryStore} {a a' b b' : Text} (c : SettlementCallback)
    (es : List Event) (audit : AuditRecord)
    → digest ≡ digest'
    → s ≡ s'
    → a ≡ a'
    → b ≡ b'
    → update_settlement digest s a b c es audit ≡ update_settlement digest' s' a' b' c es audit
update_settlement-same c es audit h i j k = cc

-- What the use case makes of the store's answer to a callback.
abbrev answer_of :
    Env → World → Event → Result (Transfer × Bool × MemoryStore) → Result Reply × World
answer_of env w event (err e) = (err e, with_store w (env.meanwhile 1 w.store))
answer_of env w event (ok done) = (ok (settled_reply event done), with_store w done.2)

write_settlement-answers :
    (env : Env) (w : World) (c : SettlementCallback) (event : Event) (audit : AuditRecord)
    (answer : Result (Transfer × Bool × MemoryStore))
    → update_settlement env.digest
        (env.meanwhile 1 w.store)
        c.tenant_id
        c.transfer_id
        c
        (event ∷ [])
        audit
      ≡ answer
    → write_settlement env w c (event, audit) ≡ answer_of env w event answer
unfolding write_settlement
write_settlement-answers env w c event audit (ok x) e = ground arith
write_settlement-answers env w c event audit (err x) e = ground arith

abbrev pub conflicting_callback : Error
conflicting_callback =
    fault Kind.conflict (str "conflicting settlement callback for terminal transfer")

-- Once a callback has settled a transfer in a store whose maps agree, every later callback about
-- it that has a known status and an event that can be marshalled, after any history of the store
-- and as long as the use cases share their digest and nobody writes during the second, leaves the
-- store as it is: with the same hash it is a replay of the settled transfer, with another hash it
-- is a conflict.
pub record_settlement_once :
    (env env' : Env) (w w1 w' : World) (callback again : SettlementCallback) (r : Reply)
    (ops : List Op) (ty : Text)
    → IsSound env
    → IsValid w.store
    → record_settlement env w callback ≡ (ok r, w1)
    → r.idempotent_replay ≡ false
    → All IsFresh ops
    → env'.digest ≡ env.digest
    → env'.meanwhile 0 w'.store ≡ run env.digest w1.store ops
    → env'.meanwhile 1 (run env.digest w1.store ops) ≡ run env.digest w1.store ops
    → ((p : List (Text × Field)) → (raw : Text) × (env'.marshal p ≡ ok raw))
    → again.tenant_id ≡ callback.tenant_id
    → again.transfer_id ≡ callback.transfer_id
    → again.spi_message_id ≡ callback.spi_message_id
    → settlement_event_type again.status ≡ ok ty
    → record_settlement env' w' again ≡ (
      (if text_eq (hash_of env.digest again) (hash_of env.digest callback)
          then ok (record { transfer = r.transfer; idempotent_replay = true; events = [] })
          else err conflicting_callback),
      with_store w' (run env.digest w1.store ops),
    )
unfolding write_settlement complete
record_settlement_once env env' w w1 w' callback again r ops ty sound v done first fresh hasher
      history quiet marshals tenant id message known =
    let d = record_settlement-Settled env w callback r w1 done first in
    let s0 = sound 0 w.store v in
    let s1 = sound 1 (env.meanwhile 0 w.store) s0.0 in
    let later = run env.digest w1.store ops in
    let (still, answers) =
      settle_once env.digest _ w1.store callback.tenant_id callback.transfer_id _ _ _ r.transfer ops
        s1.0 d.stored fresh in
    let own = hashed env (complete env callback) in
    let (t, got, how) =
      settlement_inv later callback.tenant_id callback.transfer_id env.digest own [] d.trail
        r.transfer true later ((answers own [] d.trail refl).0 refl) in
    let is_t : t ≡ r.transfer = elim how [
      | inl (_, e, _, _) ↦ sym e
      | inr (no_, _, _, _) ↦ absurd (ground arith)
    ] in
    let there : get_transfer (env'.meanwhile 0 w'.store) again.tenant_id again.transfer_id
        ≡ ok r.transfer =
      rw (history, tenant, id, ← is_t) got in
    let carried : r.transfer.spi_message_id ≡ again.spi_message_id =
      d.same_message ∙ d.answers ∙ sym message in
    let (event, audit, writes) =
      record_settlement-writes env' w' again r.transfer ty (rw (tenant, id, message) d.named) there
        (rw (carried, message) (ground (arith, d.named))) carried known marshals in
    let (replays, conflicts) =
      answers (hashed env' (complete env' again)) (event ∷ []) audit message in
    let at_write : update_settlement env'.digest (env'.meanwhile 1 (env'.meanwhile 0 w'.store))
          again.tenant_id again.transfer_id (hashed env' (complete env' again)) (event ∷ []) audit
        ≡ update_settlement env.digest later callback.tenant_id callback.transfer_id
            (hashed env' (complete env' again)) (event ∷ []) audit =
      update_settlement-same _ _ _ hasher (ap (env'.meanwhile 1) history ∙ quiet) tenant id in
    let hashes : hash_of env.digest (hashed env' (complete env' again)) ≡ hash_of env.digest again =
      subst (λ d. hash_of d (hashed env' (complete env' again)) ≡ hash_of d again) hasher
        (hash_of-hashed env' again) in
    let hashes' = hash_of-hashed env callback in
    elim (Bool-cases (text_eq (hash_of env.digest again) (hash_of env.digest callback))) [
      | inl same ↦
          let equal =
            (text_eq_iff (hash_of env.digest again) (hash_of env.digest callback)).0 same in
          rw same (
            writes
            ∙ write_settlement-answers env' (with_store w' (env'.meanwhile 0 w'.store))
                (hashed env' (complete env' again)) event audit _
                (at_write ∙ replays (hashes ∙ equal ∙ sym hashes')))
      | inr other ↦ rw other (
          writes
          ∙ write_settlement-answers env' (with_store w' (env'.meanwhile 0 w'.store))
              (hashed env' (complete env' again)) event audit _
              (at_write
                ∙ conflicts (λ e. ground (
                  arith,
                  text_eq_iff (hash_of env.digest again) (hash_of env.digest callback),
                  sym hashes ∙ e ∙ hashes',
                )))
          ∙ ap (λ s. (err conflicting_callback, with_store w' s))
              (ap (env'.meanwhile 1) history ∙ quiet))
    ]
