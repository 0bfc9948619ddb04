-- ===== src/Switch/Settle.antt =====
-- internal/switcher/service.go: `RecordSettlement`.
pub mod Laws
pub mod Settled
pub mod Once
use pixrail_go_payment_switc.Prelude.{
  ℕ, Bool, true, false, ◌||◌, not, ◌==◌, List, [], ◌∷◌, Text, str, text_eq, is_empty, if◌then◌else◌,
  Result, ok, err, ◌>>=◌, Error, Kind, fault,
}
use pixrail_go_payment_switc.Rail.{
  Time, Transfer, SettlementStatus, SettlementCallback, AuditRecord,
}
use pixrail_go_payment_switc.Rail.Request.{callback_fingerprint, settlement_text}
use pixrail_go_payment_switc.Events.{Event}
use pixrail_go_payment_switc.Store.{MemoryStore, get_transfer, update_settlement}
use pixrail_go_payment_switc.Switch.{
  Env, World, Reply, Outcome, text, with_store, new_id, make_event, or_else,
}

-- The defaults of a callback. Its hash is taken once the identifiers are known to be there.
unfoldable pub complete : Env → SettlementCallback → SettlementCallback
complete env c =
    let timed = record c {
      received_at = if c.received_at == 0 then env.now 0 else c.received_at;
    } in
    record timed { correlation_id = or_else c.correlation_id (new_id env (str "corr") 0) }

abbrev pub hashed : Env → SettlementCallback → SettlementCallback
hashed env c = record c {
  callback_hash = or_else c.callback_hash (callback_fingerprint env.digest c);
}

abbrev pub settlement_event_type : SettlementStatus → Result Text
settlement_event_type SettlementStatus.accepted = ok (str "pix_transfer_settled")
settlement_event_type SettlementStatus.rejected = ok (str "pix_transfer_rejected")
settlement_event_type (SettlementStatus.unknown s) =
    err (fault Kind.validation (str "unsupported settlement status"))

unfoldable pub settlement_audit : Transfer → SettlementCallback → AuditRecord
unfolding settlement_text
settlement_audit t c = record {
  tenant_id = t.tenant_id;
  account_id = t.account_id;
  transfer_id = t.id;
  action = str "spi_settlement_callback_recorded";
  correlation_id = c.correlation_id;
  metadata = (str "status", settlement_text c.status) ∷ (str "code", c.code) ∷ [];
  created_at = c.received_at;
}

unfoldable pub settlement_event : Env → SettlementCallback → Transfer → Text → Result Event
unfolding settlement_text
settlement_event env c t event_type =
    make_event env 1 event_type
      (record {
        tenant_id = t.tenant_id;
        account_id = t.account_id;
        transfer_id = t.id;
        correlation_id = c.correlation_id;
      })
      c.received_at
      ((str "spi_message_id", text c.spi_message_id)
        ∷ (str "status", text (settlement_text c.status))
        ∷ (str "code", text c.code)
        ∷ [])

-- What a callback about the transfer `t` writes: its event and its audit record.
unfoldable pub plan_settlement : Env → SettlementCallback → Transfer → Result (Event × AuditRecord)
plan_settlement env c t =
    if is_empty t.spi_message_id || not (text_eq t.spi_message_id c.spi_message_id)
    then err (fault Kind.conflict (str "spi_message_id mismatch"))
    else (do
      event_type ← settlement_event_type c.status
      event ← settlement_event env c t event_type
      ok (event, settlement_audit t c))

abbrev pub settled_reply : Event → Transfer × Bool × MemoryStore → Reply
settled_reply event (t, true, s) = record { transfer = t; idempotent_replay = true; events = [] }
settled_reply event (t, false, s) = record {
  transfer = t;
  idempotent_replay = false;
  events = event ∷ [];
}

-- `UpdateSettlement` and the reply.
unfoldable pub write_settlement :
    Env → World → SettlementCallback → Event × AuditRecord → Outcome Reply
write_settlement env w c (event, audit) =
    let s = env.meanwhile 1 w.store in
    elim (update_settlement env.digest s c.tenant_id c.transfer_id c (event ∷ []) audit) [
      | err e ↦ (err e, with_store w s)
      | ok done ↦ (ok (settled_reply event done), with_store w done.2)
    ]

unfoldable pub settle_identified : Env → World → SettlementCallback → Outcome Reply
settle_identified env w c =
    let w1 = with_store w (env.meanwhile 0 w.store) in
    elim (get_transfer w1.store c.tenant_id c.transfer_id >>= plan_settlement env c) [
      | err e ↦ (err e, w1)
      | ok plan ↦ write_settlement env w1 c plan
    ]

unfoldable pub record_settlement : Env → World → SettlementCallback → Outcome Reply
unfolding complete
record_settlement env w callback =
    let c = complete env callback in
    if is_empty c.tenant_id || (is_empty c.transfer_id || is_empty c.spi_message_id)
    then (
      err (fault Kind.validation (str "tenant_id, transfer_id, and spi_message_id are required")),
      w,
    )
    else settle_identified env w (hashed env c)
