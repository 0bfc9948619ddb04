-- ===== src/Relay/Runs.antt =====
-- The steps of `Drain` of internal/messaging/relay.go as a relation.
use pixrail_go_payment_switc.Prelude.{
  err, str, ℕ, suc, ◌+◌, ◌≤◌, ◌≡◌, refl, List, [], ◌∷◌, Option, none, some, arith, ok, Error,
  length, inc64, add_time,
}
use pixrail_go_payment_switc.Events.{OutboxRecord}
use pixrail_go_payment_switc.Store.{MemoryStore}
use pixrail_go_payment_switc.Store.Outbox.{mark_outbox_published, mark_outbox_failed}
use pixrail_go_payment_switc.Relay.{wrap_error, RelayEnv, RetryPolicy, backoff, new_claim_token}

-- The runs of a drain under the claim's token from its n-th record on, with how many records were
-- published and how many are to be retried, and the error that ended the run.
pub data Drains (env : RelayEnv) (p : RetryPolicy)
    : ℕ → MemoryStore → List OutboxRecord → ℕ → ℕ → Option Error → MemoryStore → Type 0 where
  drained : {n : ℕ} {s : MemoryStore} → Drains env p n s [] 0 0 none s
  -- Sent, and marked as published.
  published :
      {n a b : ℕ} {s s' s'' : MemoryStore} {r : OutboxRecord} {rs : List OutboxRecord}
      {e : Option Error}
      → env.publish n r.event ≡ none
      → mark_outbox_published
          (env.ctx (suc n))
          (env.meanwhile (suc n) s)
          r.sequence
          (new_claim_token env)
          (env.now (suc n))
        ≡ ok s'
      → Drains env p (suc n) s' rs a b e s''
      → Drains env p n s (r ∷ rs) (suc a) b e s''
  -- Sent, but the mark failed: the run ends, and the record is not counted.
  unmarked :
      {n : ℕ} {s : MemoryStore} {r : OutboxRecord} {rs : List OutboxRecord} {x : Error}
      → env.publish n r.event ≡ none
      → mark_outbox_published
          (env.ctx (suc n))
          (env.meanwhile (suc n) s)
          r.sequence
          (new_claim_token env)
          (env.now (suc n))
        ≡ err x
      → Drains env p n s
          (r ∷ rs)
          0
          0
          (some (wrap_error (str "mark outbox published: ") x))
          (env.meanwhile (suc n) s)
  -- Refused by the publisher, and marked to be tried again after the backoff.
  retried :
      {n a b : ℕ} {s s' s'' : MemoryStore} {r : OutboxRecord} {rs : List OutboxRecord}
      {e : Option Error} {refusal : Error}
      → env.publish n r.event ≡ some refusal
      → mark_outbox_failed
          (env.ctx (suc n))
          (env.meanwhile (suc n) s)
          r.sequence
          (new_claim_token env)
          refusal.message
          (add_time (env.now (suc n)) (backoff p (inc64 r.attempts)))
        ≡ ok s'
      → Drains env p (suc n) s' rs a b e s''
      → Drains env p n s (r ∷ rs) a (suc b) e s''
  -- Refused by the publisher, and the mark failed: the run ends, and the record is counted.
  unretried :
      {n : ℕ} {s : MemoryStore} {r : OutboxRecord} {rs : List OutboxRecord} {refusal x : Error}
      → env.publish n r.event ≡ some refusal
      → mark_outbox_failed
          (env.ctx (suc n))
          (env.meanwhile (suc n) s)
          r.sequence
          (new_claim_token env)
          refusal.message
          (add_time (env.now (suc n)) (backoff p (inc64 r.attempts)))
        ≡ err x
      → Drains env p n s
          (r ∷ rs)
          0
          1
          (some (wrap_error (str "mark outbox failed: ") x))
          (env.meanwhile (suc n) s)

-- All records were handled, or an error ended the run before that.
abbrev pub Complete : ℕ → ℕ → Option Error → Type 0
Complete handled size none = handled ≡ size
Complete handled size (some e) = handled ≤ size

complete_suc :
    (handled more size larger : ℕ) (e : Option Error)
    → more ≡ suc handled
    → larger ≡ suc size
    → Complete handled size e
    → Complete more larger e
complete_suc handled more size larger none m l h = omega arith
complete_suc handled more size larger (some e) m l h = omega arith

pub Drains-Complete :
    (env : RelayEnv) (p : RetryPolicy) {n a b : ℕ} {s s' : MemoryStore} {rs : List OutboxRecord}
    {e : Option Error}
    → Drains env p n s rs a b e s'
    → Complete (a + b) (length rs) e
Drains-Complete env p drained = refl
Drains-Complete env p (published {n} {a} {b} {r = r} {rs = rs} {e = e} sent marked rest) =
    complete_suc (a + b) (suc a + b) (length rs) (length (r ∷ rs)) e (omega arith) (omega arith)
      (Drains-Complete env p rest)
Drains-Complete env p (unmarked sent failed) = omega arith
Drains-Complete env p (retried {n} {a} {b} {r = r} {rs = rs} {e = e} refused marked rest) =
    complete_suc (a + b) (a + suc b) (length rs) (length (r ∷ rs)) e (omega arith) (omega arith)
      (Drains-Complete env p rest)
Drains-Complete env p (unretried refused failed) = omega arith
