-- ===== src/Switch/Submit/Laws/Safe.antt =====
-- `SubmitToSPI` of internal/switcher/service.go keeps the store, whatever its outcome.
use pixrail_go_payment_switc.Prelude.{
  true, false, ◌||◌, List, Text, Error, Result-cases, Bool-cases, inl, inr, is_empty, trim, ◌+◌,
}
use pixrail_go_payment_switc.Rail.{Transfer, SpiMessage}
use pixrail_go_payment_switc.Events.{Event}
use pixrail_go_payment_switc.Store
use pixrail_go_payment_switc.Store.{MemoryStore}
use pixrail_go_payment_switc.Store.Methods.{claim-Change, record-Change, release-Change}
use pixrail_go_payment_switc.Switch.{Env, World, with_store, or_else}
use pixrail_go_payment_switc.Switch.Sound.{Keeps, IsSound, Keeps-refl, Keeps-trans, Keeps-Change}
use pixrail_go_payment_switc.Switch.Submit.{
  claim_token, spi_claim_ttl, second, submission_audit, exchange, let_go, record_exchange,
  submit_claimed, submit_trimmed, submit_to_spi,
}

module _ (env : Env) (sound : IsSound env) (w : World) (tenant_id id : Text) where
  let_go-Keeps : (e : Error) → Keeps w.store (let_go env w tenant_id id e).store
  unfolding let_go
  let_go-Keeps e =
      let s = env.meanwhile 1 w.store in
      let token = claim_token env in
      elim (Result-cases (
        Store.release_spi_submission (env.ctx 1) s tenant_id id token e.message (env.now 3 + second)
          (env.store_now 1))) [
            | inl (s', r) ↦
                rw (r, let_go)
                  (Keeps-trans w.store s s' (sound 1 w.store) (
                    Keeps-Change s s' (λ _.
                      release-Change (env.ctx 1) s tenant_id id token e.message (env.now 3 + second)
                        (env.store_now 1) s' r)))
            | inr (x, r) ↦ rw (r, let_go) (sound 1 w.store)
          ]

  record_exchange-Keeps :
      (t : Transfer) (correlation_id : Text) (message : SpiMessage) (made : List Event)
      → Keeps w.store (record_exchange env w tenant_id id t correlation_id (message, made)).1.store
  unfolding record_exchange
  record_exchange-Keeps t correlation_id message made =
      let s = env.meanwhile 1 w.store in
      let token = claim_token env in
      let audit = submission_audit t correlation_id message in
      elim (Result-cases
        (Store.record_spi_submission (env.ctx 1) s tenant_id id token message made audit)) [
          | inl ((u, replay, s'), r) ↦
              rw (r, record_exchange)
                (Keeps-trans w.store s s' (sound 1 w.store) (
                  Keeps-Change s s' (λ _.
                    record-Change (env.ctx 1) s tenant_id id token message made audit u replay s'
                      r)))
          | inr (x, r) ↦ rw (r, record_exchange) (sound 1 w.store)
        ]

  submit_claimed-Keeps :
      (correlation_id : Text) (t : Transfer)
      → Keeps w.store (submit_claimed env w tenant_id id correlation_id t).1.store
  unfolding submit_claimed
  submit_claimed-Keeps correlation_id t =
      let c = or_else correlation_id t.correlation_id in
      elim (Result-cases (exchange env t c)) [
        | inl ((message, made), e) ↦ rw (e, submit_claimed) (record_exchange-Keeps t c message made)
        | inr (x, e) ↦ rw (e, submit_claimed) (let_go-Keeps x)
      ]

module _ (env : Env) (sound : IsSound env) (w : World) where
  submit_trimmed-Keeps :
      (tenant_id id correlation_id : Text)
      → Keeps w.store (submit_trimmed env w tenant_id id correlation_id).1.store
  unfolding submit_trimmed
  submit_trimmed-Keeps tenant_id id correlation_id =
      let s = env.meanwhile 0 w.store in
      let token = claim_token env in
      let until = env.now 0 + spi_claim_ttl in
      elim (Bool-cases (is_empty tenant_id || is_empty id)) [
        | inl missing ↦ rw missing (Keeps-refl w.store)
        | inr named ↦
            elim (Result-cases (
              Store.claim_spi_submission (env.ctx 0) s tenant_id id token until
                (env.store_now 0))) [
                  | inr (x, e) ↦ rw (named, e, submit_trimmed) (sound 0 w.store)
                  | inl ((u, true, s'), e) ↦
                      rw (named, e, submit_trimmed)
                        (Keeps-trans w.store s s' (sound 0 w.store) (
                          Keeps-Change s s' (λ _.
                            claim-Change (env.ctx 0) s tenant_id id token until (env.store_now 0) u
                              true s' e)))
                  | inl ((u, false, s'), e) ↦
                      rw (named, e, submit_trimmed)
                        (Keeps-trans w.store s' _
                          (Keeps-trans w.store s s' (sound 0 w.store) (
                            Keeps-Change s s' (λ _.
                              claim-Change (env.ctx 0) s tenant_id id token until (env.store_now 0)
                                u false s' e)))
                          (submit_claimed-Keeps env sound (with_store w s') tenant_id id
                            correlation_id u))
                ]
      ]

  pub submit_to_spi-Keeps :
      (tenant_id id correlation_id : Text)
      → Keeps w.store (submit_to_spi env w tenant_id id correlation_id).1.store
  unfolding submit_to_spi
  submit_to_spi-Keeps tenant_id id correlation_id =
      submit_trimmed-Keeps (trim tenant_id) (trim id) (trim correlation_id)
