-- ===== src/Switch/Settle/Laws.antt =====
-- `RecordSettlement` of internal/switcher/service.go: the callback that settles a transfer, and what
-- comes after it.
use pixrail_go_payment_switc.Prelude.{
  ◌||◌, ◌≡◌, [], ◌∷◌, is_empty, Result-cases, Bool-cases, inl, inr, arith, ◌>>=◌,
}
use pixrail_go_payment_switc.Rail.{SettlementCallback, AuditRecord}
use pixrail_go_payment_switc.Rail.Request.{callback_fingerprint, callback_parts}
use pixrail_go_payment_switc.Events.{Event}
use pixrail_go_payment_switc.Store.{get_transfer, hash_of, update_settlement}
use pixrail_go_payment_switc.Store.Methods.{settlement-Change}
use pixrail_go_payment_switc.Switch.{Env, World, with_store}
use pixrail_go_payment_switc.Switch.Sound.{Keeps, IsSound, Keeps-refl, Keeps-trans, Keeps-Change}
use pixrail_go_payment_switc.Switch.Settle.{
  complete, hashed, plan_settlement, write_settlement, settle_identified, record_settlement,
}

module _ (env : Env) (sound : IsSound env) where
  write_settlement-Keeps :
      (w : World) (c : SettlementCallback) (event : Event) (audit : AuditRecord)
      → Keeps w.store (write_settlement env w c (event, audit)).1.store
  unfolding write_settlement
  write_settlement-Keeps w c event audit =
      let s = env.meanwhile 1 w.store in
      elim (Result-cases
        (update_settlement env.digest s c.tenant_id c.transfer_id c (event ∷ []) audit)) [
          | inr (x, e) ↦ rw (e, write_settlement) (sound 1 w.store)
          | inl ((u, replay, s'), e) ↦
              rw (e, write_settlement)
                (Keeps-trans w.store s s' (sound 1 w.store) (
                  Keeps-Change s s' (λ _.
                    settlement-Change s c.tenant_id c.transfer_id env.digest c (event ∷ []) audit u
                      replay s' e)))
        ]

  settle_identified-Keeps :
      (w : World) (c : SettlementCallback) → Keeps w.store (settle_identified env w c).1.store
  unfolding settle_identified
  settle_identified-Keeps w c =
      let s = env.meanwhile 0 w.store in
      elim (Result-cases (get_transfer s c.tenant_id c.transfer_id >>= plan_settlement env c)) [
        | inr (x, e) ↦ rw (e, settle_identified) (sound 0 w.store)
        | inl ((event, audit), e) ↦
            rw (e, settle_identified)
              (Keeps-trans w.store s _ (sound 0 w.store)
                (write_settlement-Keeps (with_store w s) c event audit))
      ]

  -- A settlement callback keeps the maps of the store coherent and loses no transfer, key or
  -- callback, whatever its outcome, as long as the requests that run meanwhile do.
  pub record_settlement-Keeps :
      (w : World) (callback : SettlementCallback)
      → Keeps w.store (record_settlement env w callback).1.store
  unfolding record_settlement
  record_settlement-Keeps w callback =
      let c = complete env callback in
      elim (Bool-cases
        (is_empty c.tenant_id || (is_empty c.transfer_id || is_empty c.spi_message_id))) [
          | inl missing ↦ rw (missing, record_settlement) (Keeps-refl w.store)
          | inr named ↦ rw (named, record_settlement) (settle_identified-Keeps w (hashed env c))
        ]

-- The hash that the switch fills in is the one that the store would take.
pub hash_of-hashed :
    (env : Env) (callback : SettlementCallback)
    → hash_of env.digest (hashed env (complete env callback)) ≡ hash_of env.digest callback
unfolding complete callback_fingerprint callback_parts
hash_of-hashed env callback = elim (Bool-cases (is_empty callback.callback_hash)) [
  | inr full ↦ ground arith
  | inl none_given ↦ ground arith
]
