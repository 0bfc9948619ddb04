-- ===== src/Switch/Submit/Laws/Batch.antt =====
-- What `SubmitPendingSPI` of internal/switcher/service.go does to each pending submission, and what it
-- counts.
use pixrail_go_payment_switc.Prelude.{
  ℕ, suc, ◌+◌, ◌≤◌, ◌≡◌, ◌≢◌, refl, ap, ◌∙◌, true, false, List, [], ◌∷◌, Option, none, some, ok,
  err, Error, Kind, Result-cases, Bool-cases, inl, inr, arith, ℤ, length,
}
use pixrail_go_payment_switc.Rail.{Transfer, Time}
use pixrail_go_payment_switc.Store.Pending.{pending_spi_submissions}
use pixrail_go_payment_switc.Switch.{Env, World, Reply}
use pixrail_go_payment_switc.Switch.Create.{is_conflict}
use pixrail_go_payment_switc.Switch.Submit.{
  submit_to_spi, submit_all, submit_pending_spi, BatchResult,
}

-- The runs of a batch from its n-th submission on, with how many submissions were new, replays and
-- conflicts, and the error that ended the run.
pub data Submits (envs : ℕ → Env)
    : ℕ → World → List Transfer → ℕ → ℕ → ℕ → Option Error → World → Type 0 where
  all_done : {n : ℕ} {w : World} → Submits envs n w [] 0 0 0 none w
  new :
      {n a b c : ℕ} {w w' w'' : World} {t : Transfer} {ts : List Transfer} {e : Option Error}
      {r : Reply}
      → submit_to_spi (envs n) w t.tenant_id t.id t.correlation_id ≡ (ok r, w')
      → r.idempotent_replay ≡ false
      → Submits envs (suc n) w' ts a b c e w''
      → Submits envs n w (t ∷ ts) (suc a) b c e w''
  replay :
      {n a b c : ℕ} {w w' w'' : World} {t : Transfer} {ts : List Transfer} {e : Option Error}
      {r : Reply}
      → submit_to_spi (envs n) w t.tenant_id t.id t.correlation_id ≡ (ok r, w')
      → r.idempotent_replay ≡ true
      → Submits envs (suc n) w' ts a b c e w''
      → Submits envs n w (t ∷ ts) a (suc b) c e w''
  conflict :
      {n a b c : ℕ} {w w' w'' : World} {t : Transfer} {ts : List Transfer} {e : Option Error}
      {x : Error}
      → submit_to_spi (envs n) w t.tenant_id t.id t.correlation_id ≡ (err x, w')
      → x.kind ≡ Kind.conflict
      → Submits envs (suc n) w' ts a b c e w''
      → Submits envs n w (t ∷ ts) a b (suc c) e w''
  -- Any other error ends the run, and its submission is not counted.
  stopped :
      {n : ℕ} {w w' : World} {t : Transfer} {ts : List Transfer} {x : Error}
      → submit_to_spi (envs n) w t.tenant_id t.id t.correlation_id ≡ (err x, w')
      → x.kind ≢ Kind.conflict
      → Submits envs n w (t ∷ ts) 0 0 0 (some x) w'

-- All submissions were dealt with, or fewer and an error ended the run.
abbrev pub Accounted : ℕ → ℕ → Option Error → Type 0
Accounted handled size none = handled ≡ size
Accounted handled size (some e) = suc handled ≤ size

one_more :
    (handled more size larger : ℕ) (e : Option Error)
    → more ≡ suc handled
    → larger ≡ suc size
    → Accounted handled size e
    → Accounted more larger e
one_more handled more size larger none m l h = omega arith
one_more handled more size larger (some e) m l h = omega arith

-- What came out of a batch whose counters stood at `start`: a run that adds what it counts.
pub record Batched (envs : ℕ → Env) (n : ℕ) (start : BatchResult) (w : World) (ts : List Transfer)
    (out : (BatchResult × Option Error) × World) : Type 0 where
  pub news : ℕ
  pub replays : ℕ
  pub conflicts : ℕ
  pub run : Submits envs n w ts news replays conflicts out.0.1 out.1
  pub counts : out.0.0 ≡ record start {
    submitted = start.submitted + news;
    replayed = start.replayed + replays;
    skipped = start.skipped + conflicts;
  }
  pub accounted : Accounted (news + replays + conflicts) (length ts) out.0.1

kind_conflict : (k : Kind) → is_conflict k ≡ true → k ≡ Kind.conflict
kind_conflict Kind.conflict e = refl
kind_conflict k e = ground arith

other_kind : (k : Kind) → is_conflict k ≡ false → k ≢ Kind.conflict
other_kind k e same = ground arith

module _ (envs : ℕ → Env) where
  submit_all-Batched :
      (ts : List Transfer) (n : ℕ) (w : World) (b : BatchResult)
      → Batched envs n b w ts (submit_all envs n w b ts)
  unfolding submit_all
  submit_all-Batched [] n w b = record {
    news = 0;
    replays = 0;
    conflicts = 0;
    run = all_done;
    counts = ground arith;
    accounted = refl;
  }
  submit_all-Batched (t ∷ ts) n w b =
      let done = submit_to_spi (envs n) w t.tenant_id t.id t.correlation_id in
      elim (Result-cases done.0) [
        | inl (r, e) ↦ elim (Bool-cases r.idempotent_replay) [
          | inl again ↦
              let rest =
                submit_all-Batched ts (suc n) done.1 (record b { replayed = suc b.replayed }) in
              rw (e, again, submit_all)
                (record {
                  news = rest.news;
                  replays = suc rest.replays;
                  conflicts = rest.conflicts;
                  run = replay (ap (λ o. (o, done.1)) e) again rest.run;
                  counts = rest.counts ∙ ground arith;
                  accounted =
                      one_more _ _ (length ts) _ _ (omega arith) (omega arith) rest.accounted;
                })
          | inr first ↦
              let rest =
                submit_all-Batched ts (suc n) done.1 (record b { submitted = suc b.submitted }) in
              rw (e, first, submit_all)
                (record {
                  news = suc rest.news;
                  replays = rest.replays;
                  conflicts = rest.conflicts;
                  run = new (ap (λ o. (o, done.1)) e) first rest.run;
                  counts = rest.counts ∙ ground arith;
                  accounted =
                      one_more _ _ (length ts) _ _ (omega arith) (omega arith) rest.accounted;
                })
        ]
        | inr (x, e) ↦ elim (Bool-cases (is_conflict x.kind)) [
          | inl refused ↦
              let rest =
                submit_all-Batched ts (suc n) done.1 (record b { skipped = suc b.skipped }) in
              rw (e, refused, submit_all)
                (record {
                  news = rest.news;
                  replays = rest.replays;
                  conflicts = suc rest.conflicts;
                  run = conflict (ap (λ o. (o, done.1)) e) (kind_conflict x.kind refused) rest.run;
                  counts = rest.counts ∙ ground arith;
                  accounted =
                      one_more _ _ (length ts) _ _ (omega arith) (omega arith) rest.accounted;
                })
          | inr other ↦
              rw (e, other, submit_all)
                (record {
                  news = 0;
                  replays = 0;
                  conflicts = 0;
                  run = stopped (ap (λ o. (o, done.1)) e) (other_kind x.kind other);
                  counts = ground arith;
                  accounted = omega arith;
                })
        ]
      ]

  -- When the pending submissions can be read, the batch is a run over them in their order. Each
  -- is submitted in turn, and counted as submitted when the reply is new, as replayed when it is
  -- a replay and as skipped when it is a conflict; any other error ends the run, and its
  -- submission is not counted. All of them are scanned, and all are counted when no error ends
  -- the run, fewer when one does.
  pub submit_pending_spi-Batched :
      (walk : List Transfer → List Transfer) (ctx : Option Error) (w : World) (limit : ℤ)
      (now : Time) (pending : List Transfer)
      → pending_spi_submissions walk ctx w.store limit now ≡ ok pending
      → Batched envs 0
          (record { scanned = length pending; submitted = 0; replayed = 0; skipped = 0 })
          w
          pending
          (submit_pending_spi walk envs ctx w limit now)
  unfolding submit_pending_spi
  submit_pending_spi-Batched walk ctx w limit now pending e =
      rw (e, submit_pending_spi)
        (submit_all-Batched pending 0 w
          (record { scanned = length pending; submitted = 0; replayed = 0; skipped = 0 }))
