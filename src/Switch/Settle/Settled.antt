-- ===== src/Switch/Settle/Settled.antt =====
-- `RecordSettlement` of internal/switcher/service.go: the callback that settles a transfer.
use pixrail_go_payment_switc.Prelude.{
  Text, str, insert, true, false, ◌||◌, ◌≡◌, sym, ap, ◌∙◌, [], ◌∷◌, some, text_eq_iff, is_empty, ok,
  Result-cases, Bool-cases, inl, inr, arith, ◌>>=◌,
}
use pixrail_go_payment_switc.Rail.{
  Transfer, TransferStatus, SettlementCallback, SettlementStatus, AuditRecord,
}
use pixrail_go_payment_switc.Rail.Transitions
use pixrail_go_payment_switc.Rail.Transitions.{settled_status}
use pixrail_go_payment_switc.Events.{Event}
use pixrail_go_payment_switc.Store.{
  MemoryStore, get_transfer, update_settlement, log, put_transfer, scoped, hash_of,
}
use pixrail_go_payment_switc.Store.Steps.{settlement_inv}
use pixrail_go_payment_switc.Switch.{Env, World, Reply, with_store}
use pixrail_go_payment_switc.Switch.Announce.{make_event-type}
use pixrail_go_payment_switc.Switch.Settle.{
  complete, hashed, settlement_event_type, settlement_event, plan_settlement, write_settlement,
  settle_identified, record_settlement,
}

-- What a callback leads to: the final status, and the type of the event.
pub data Closing : SettlementStatus → TransferStatus → Text → Type 0 where
  paid : Closing SettlementStatus.accepted TransferStatus.settled (str "pix_transfer_settled")
  returned : Closing SettlementStatus.rejected TransferStatus.rejected (str "pix_transfer_rejected")

closing :
    (s : SettlementStatus) (status : TransferStatus) (event_type : Text)
    → settled_status s ≡ some status
    → settlement_event_type s ≡ ok event_type
    → Closing s status event_type
closing SettlementStatus.accepted status event_type h k =
    let moved : TransferStatus.settled ≡ status = ground arith in
    let told : str "pix_transfer_settled" ≡ event_type = ground arith in
    rw (← moved, ← told) Closing.paid
closing SettlementStatus.rejected status event_type h k =
    let moved : TransferStatus.rejected ≡ status = ground arith in
    let told : str "pix_transfer_rejected" ≡ event_type = ground arith in
    rw (← moved, ← told) Closing.returned
closing (SettlementStatus.unknown s) status event_type h k = absurd (ground arith)

-- A callback that settles: the transfer was approved under the callback's SPI message, and only its
-- status, its settlement code and its time change, as the callback says.
pub record Settled (env : Env) (w : World) (callback : SettlementCallback) (r : Reply)
    (s' : MemoryStore) : Type 0 where
  pub held : Transfer
  pub event : Event
  pub trail : AuditRecord
  pub found :
      get_transfer
        (env.meanwhile 1 (env.meanwhile 0 w.store))
        callback.tenant_id
        callback.transfer_id
      ≡ ok held
  pub named :
      (is_empty callback.tenant_id
        || (is_empty callback.transfer_id || is_empty callback.spi_message_id))
      ≡ false
  pub same_message : r.transfer.spi_message_id ≡ held.spi_message_id
  pub approved : held.status ≡ TransferStatus.approved
  pub answers : held.spi_message_id ≡ callback.spi_message_id
  pub closes : Closing callback.status r.transfer.status event.event_type
  pub changed : r.transfer ≡ record held {
    status = r.transfer.status;
    settlement_code = callback.code;
    updated_at = (complete env callback).received_at;
  }
  pub told : r.events ≡ event ∷ []
  pub written :
      s'
      ≡ log r.events
          (trail ∷ [])
          (record (put_transfer r.transfer (env.meanwhile 1 (env.meanwhile 0 w.store))) {
            callbacks =
                insert
                  (scoped callback.tenant_id callback.spi_message_id)
                  (hash_of env.digest (hashed env (complete env callback)))
                  (env.meanwhile 1 (env.meanwhile 0 w.store)).callbacks;
          })
  pub stored :
      update_settlement env.digest
        (env.meanwhile 1 (env.meanwhile 0 w.store))
        callback.tenant_id
        callback.transfer_id
        (hashed env (complete env callback))
        (event ∷ [])
        trail
      ≡ ok (r.transfer, false, s')

settle_move :
    (t : Transfer) (callback : SettlementCallback) (u : Transfer)
    → Transitions.record_settlement t callback ≡ ok u
    → (t.status ≡ TransferStatus.approved)
      × (t.spi_message_id ≡ callback.spi_message_id)
      × (settled_status callback.status ≡ some u.status)
      × (u ≡ record t {
        status = u.status;
        settlement_code = callback.code;
        updated_at = callback.received_at;
      })
unfolding Transitions.record_settlement
settle_move t callback u e = (
  ground (arith, text_eq_iff t.spi_message_id callback.spi_message_id),
  ground (arith, text_eq_iff t.spi_message_id callback.spi_message_id),
  ground arith,
  ground arith,
)

plan_settlement-type :
    (env : Env) (c : SettlementCallback) (t : Transfer) (event : Event) (audit : AuditRecord)
    → plan_settlement env c t ≡ ok (event, audit)
    → settlement_event_type c.status ≡ ok event.event_type
unfolding plan_settlement settlement_event
plan_settlement-type env c t event audit e = elim (Result-cases (settlement_event_type c.status)) [
  | inr (x, k) ↦ absurd (ground arith)
  | inl (event_type, k) ↦ elim (Result-cases (settlement_event env c t event_type)) [
    | inr (x, m) ↦ absurd (ground arith)
    | inl (made, m) ↦
        let typed = make_event-type env 1 event_type _ c.received_at _ made m in
        let same : made ≡ event = ground arith in rw (← same, typed) k
  ]
]

get_then-type :
    (env : Env) (c : SettlementCallback) (s : MemoryStore) (event : Event) (audit : AuditRecord)
    → (get_transfer s c.tenant_id c.transfer_id >>= plan_settlement env c) ≡ ok (event, audit)
    → settlement_event_type c.status ≡ ok event.event_type
get_then-type env c s event audit e =
    elim (Result-cases (get_transfer s c.tenant_id c.transfer_id)) [
      | inr (x, g) ↦ absurd (ground arith)
      | inl (t, g) ↦ plan_settlement-type env c t event audit (ground arith)
    ]

write_settlement-Settled :
    (env : Env) (w : World) (callback : SettlementCallback) (event : Event) (audit : AuditRecord)
    (r : Reply) (w' : World)
    → write_settlement env
        (with_store w (env.meanwhile 0 w.store))
        (hashed env (complete env callback))
        (event, audit)
      ≡ (ok r, w')
    → r.idempotent_replay ≡ false
    → settlement_event_type callback.status ≡ ok event.event_type
    → (is_empty callback.tenant_id
        || (is_empty callback.transfer_id || is_empty callback.spi_message_id))
      ≡ false
    → Settled env w callback r w'.store
unfolding write_settlement complete
write_settlement-Settled env w callback event audit r w' e first typed named =
    let s = env.meanwhile 1 (env.meanwhile 0 w.store) in
    let c = hashed env (complete env callback) in
    elim (Result-cases
      (update_settlement env.digest s c.tenant_id c.transfer_id c (event ∷ []) audit)) [
        | inr (x, d) ↦ absurd (ground arith)
        | inl ((u, true, s'), d) ↦ absurd (ground arith)
        | inl ((u, false, s'), d) ↦
            let (t, got, how) =
              settlement_inv s c.tenant_id c.transfer_id env.digest c (event ∷ []) audit u false s'
                d in
            elim how [
              | inl (replayed, _, _, _) ↦ absurd (ground arith)
              | inr (_, free, moved, new) ↦
                  let (was, spi, asked, changed) = settle_move t c u moved in
                  let same : u ≡ r.transfer = ground arith in
                  record {
                    held = t;
                    event = event;
                    trail = audit;
                    found = got;
                    named = named;
                    same_message = ap (λ x. x.spi_message_id) (sym same ∙ changed);
                    approved = was;
                    answers = spi;
                    closes =
                        closing callback.status r.transfer.status event.event_type
                          (asked ∙ ap (λ x. some x.status) same) typed;
                    changed = rw same at changed;
                    told = ground arith;
                    written = ground arith;
                    stored = ground arith;
                  }
            ]
      ]

-- A settlement that succeeds for the first time: the transfer was approved, under the SPI message
-- that the callback names. An accepted callback makes it settled and a rejected one makes it
-- rejected, with the callback's code, and nothing else of it changes but its time; one event of
-- that outcome, the callback's hash and one audit record are written with it.
pub record_settlement-Settled :
    (env : Env) (w : World) (callback : SettlementCallback) (r : Reply) (w' : World)
    → record_settlement env w callback ≡ (ok r, w')
    → r.idempotent_replay ≡ false
    → Settled env w callback r w'.store
unfolding record_settlement settle_identified
record_settlement-Settled env w callback r w' e first =
    let c = complete env callback in
    let s = env.meanwhile 0 w.store in
    elim (Bool-cases
      (is_empty c.tenant_id || (is_empty c.transfer_id || is_empty c.spi_message_id))) [
        | inl missing ↦ absurd (ground arith)
        | inr named ↦
            elim (Result-cases
              (get_transfer s c.tenant_id c.transfer_id >>= plan_settlement env (hashed env c))) [
                | inr (x, g) ↦ absurd (ground arith)
                | inl ((event, audit), g) ↦
                    write_settlement-Settled env w callback event audit r w' (ground arith) first
                      (unfold complete in get_then-type env (hashed env c) s event audit g)
                      (unfold complete in named)
              ]
      ]
