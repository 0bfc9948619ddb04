-- ===== src/Switch/Submit/Laws/Kept.antt =====
-- `SubmitPendingSPI` of internal/switcher/service.go keeps the store.
use pixrail_go_payment_switc.Prelude.{
  ℕ, suc, List, [], ◌∷◌, Option, Error, Result-cases, inl, inr, ℤ,
}
use pixrail_go_payment_switc.Rail.{Transfer, Time}
use pixrail_go_payment_switc.Store.Pending.{pending_spi_submissions}
use pixrail_go_payment_switc.Switch.{Env, World}
use pixrail_go_payment_switc.Switch.Sound.{Keeps, IsSound, Keeps-refl, Keeps-trans}
use pixrail_go_payment_switc.Switch.Submit.{
  submit_to_spi, submit_all, submit_pending_spi, BatchResult, count_one,
}
use pixrail_go_payment_switc.Switch.Submit.Laws.Safe.{submit_to_spi-Keeps}

module _ (envs : ℕ → Env) where
  submit_all-Keeps :
      ((n : ℕ) → IsSound (envs n))
      → (ts : List Transfer) (n : ℕ) (w : World) (b : BatchResult)
      → Keeps w.store (submit_all envs n w b ts).1.store
  unfolding submit_all
  submit_all-Keeps sound [] n w b = Keeps-refl w.store
  submit_all-Keeps sound (t ∷ ts) n w b =
      let done = submit_to_spi (envs n) w t.tenant_id t.id t.correlation_id in
      let first = submit_to_spi-Keeps (envs n) (sound n) w t.tenant_id t.id t.correlation_id in
      elim (Result-cases (count_one done.0 b)) [
        | inr (x, e) ↦ rw (e, submit_all) first
        | inl (b', e) ↦
            rw (e, submit_all)
              (Keeps-trans w.store done.1.store _ first
                (submit_all-Keeps sound ts (suc n) done.1 b'))
      ]

  pub submit_pending_spi-Keeps :
      (walk : List Transfer → List Transfer) (ctx : Option Error) (w : World) (limit : ℤ)
      (now : Time)
      → ((n : ℕ) → IsSound (envs n))
      → Keeps w.store (submit_pending_spi walk envs ctx w limit now).1.store
  unfolding submit_pending_spi
  submit_pending_spi-Keeps walk ctx w limit now sound =
      elim (Result-cases (pending_spi_submissions walk ctx w.store limit now)) [
        | inr (x, e) ↦ rw (e, submit_pending_spi) (Keeps-refl w.store)
        | inl (pending, e) ↦ rw (e, submit_pending_spi) (submit_all-Keeps sound pending 0 w _)
      ]
