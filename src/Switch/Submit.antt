-- ===== src/Switch/Submit.antt =====
-- internal/switcher/service.go: `SubmitToSPI` and `SubmitPendingSPI`.
pub mod Laws
use pixrail_go_payment_switc.Prelude.{
  ℕ, zero, suc, ◌+◌, ◌*◌, Bool, true, false, ◌||◌, List, [], ◌∷◌, Option, none, some, Text, str,
  is_empty, trim, ℤ, pos, inc64, if◌then◌else◌, Result, ok, err, ◌>>=◌, Error, Kind, fault, length,
}
use pixrail_go_payment_switc.Rail.{Time, Transfer, SpiMessage, AuditRecord}
use pixrail_go_payment_switc.Events.{Event, Subject}
use pixrail_go_payment_switc.Store
use pixrail_go_payment_switc.Store.{MemoryStore, Replayable}
use pixrail_go_payment_switc.Store.Pending.{pending_spi_submissions}
use pixrail_go_payment_switc.Switch.{
  Env, World, Reply, Outcome, text, with_store, new_id, make_event, or_else,
}
use pixrail_go_payment_switc.Switch.Create.{is_conflict}

abbrev pub second : ℕ
second = 1000000000

-- `spiClaimTTL`
abbrev pub spi_claim_ttl : ℕ
spi_claim_ttl = 30 * second

-- The token of the claim that a use case makes.
abbrev pub claim_token : Env → Text
claim_token env = new_id env (str "spiclaim") 0

-- The subject of the events: the claimed transfer, under the request's correlation.
abbrev pub spi_subject : Transfer → Text → Subject
spi_subject t correlation_id = record {
  tenant_id = t.tenant_id;
  account_id = t.account_id;
  transfer_id = t.id;
  correlation_id = correlation_id;
}

unfoldable pub submission_events : Env → Transfer → Text → SpiMessage → Result (List Event)
submission_events env t correlation_id message = do
  created ←
      make_event env 1 (str "spi_message_created") (spi_subject t correlation_id) (env.now 1) (
        (str "spi_message_id", text message.message_id)
        ∷ (str "end_to_end_id", text message.end_to_end_id)
        ∷ [])
  approved ←
      make_event env 2 (str "pix_transfer_approved") (spi_subject t correlation_id) (env.now 2) (
        (str "end_to_end_id", text message.end_to_end_id)
        ∷ (str "spi_message_id", text message.message_id)
        ∷ (str "decision_reason", text t.decision_reason)
        ∷ [])
  ok (created ∷ approved ∷ [])

unfoldable pub submission_audit : Transfer → Text → SpiMessage → AuditRecord
submission_audit t correlation_id message = record {
  tenant_id = t.tenant_id;
  account_id = t.account_id;
  transfer_id = t.id;
  action = str "spi_submission_recorded";
  correlation_id = correlation_id;
  metadata =
      (str "spi_message_id", message.message_id)
      ∷ (str "end_to_end_id", message.end_to_end_id)
      ∷ [];
  created_at = message.submitted_at;
}

-- The message of the SPI with the events about it, or the error that makes the worker let go.
unfoldable pub exchange : Env → Transfer → Text → Result (SpiMessage × List Event)
exchange env t correlation_id = do
  message ← env.submit t
  made ← submission_events env t correlation_id message
  ok (message, made)

abbrev store_or : MemoryStore → Result MemoryStore → MemoryStore
store_or s (ok s') = s'
store_or s (err e) = s

-- `_ = s.store.ReleaseSPISubmission(…)`: its own error is dropped.
unfoldable pub let_go : Env → World → Text → Text → Error → World
let_go env w tenant_id transfer_id e =
    let s = env.meanwhile 1 w.store in
    with_store w (
      store_or s (
        Store.release_spi_submission (env.ctx 1) s tenant_id transfer_id (claim_token env) e.message
          (env.now 3 + second) (env.store_now 1)))

abbrev reply_of : List Event → Transfer × Bool × MemoryStore → Reply
reply_of events (t, true, s) = record { transfer = t; idempotent_replay = true; events = [] }
reply_of events (t, false, s) = record { transfer = t; idempotent_replay = false; events = events }

-- `RecordSPISubmission` and the reply.
unfoldable pub record_exchange :
    Env → World → Text → Text → Transfer → Text → SpiMessage × List Event → Outcome Reply
record_exchange env w tenant_id transfer_id t correlation_id (message, made) =
    let s = env.meanwhile 1 w.store in
    elim (Store.record_spi_submission (env.ctx 1) s tenant_id transfer_id (claim_token env) message
      made (submission_audit t correlation_id message)) [
        | err e ↦ (err e, with_store w s)
        | ok done ↦ (ok (reply_of made done), with_store w done.2)
      ]

-- With the claim in hand.
unfoldable pub submit_claimed : Env → World → Text → Text → Text → Transfer → Outcome Reply
submit_claimed env w tenant_id transfer_id correlation_id t =
    let correlation = or_else correlation_id t.correlation_id in
    elim (exchange env t correlation) [
      | err e ↦ (err e, let_go env w tenant_id transfer_id e)
      | ok done ↦ record_exchange env w tenant_id transfer_id t correlation done
    ]

abbrev submit_or_replay :
    Env → World → Text → Text → Text → Transfer × Bool × MemoryStore → Outcome Reply
submit_or_replay env w tenant_id transfer_id correlation_id (t, true, s) =
    (ok (record { transfer = t; idempotent_replay = true; events = [] }), with_store w s)
submit_or_replay env w tenant_id transfer_id correlation_id (t, false, s) =
    submit_claimed env (with_store w s) tenant_id transfer_id correlation_id t

unfoldable pub submit_trimmed : Env → World → Text → Text → Text → Outcome Reply
submit_trimmed env w tenant_id transfer_id correlation_id =
    let s = env.meanwhile 0 w.store in
    if is_empty tenant_id || is_empty transfer_id
    then (err (fault Kind.validation (str "tenant_id and transfer_id are required")), w)
    else elim (Store.claim_spi_submission (env.ctx 0) s tenant_id transfer_id (claim_token env)
        (env.now 0 + spi_claim_ttl) (env.store_now 0)) [
          | err e ↦ (err e, with_store w s)
          | ok claimed ↦ submit_or_replay env w tenant_id transfer_id correlation_id claimed
        ]

unfoldable pub submit_to_spi : Env → World → Text → Text → Text → Outcome Reply
submit_to_spi env w tenant_id transfer_id correlation_id =
    submit_trimmed env w (trim tenant_id) (trim transfer_id) (trim correlation_id)

pub record BatchResult : Type 0 where
  pub scanned : ℕ
  pub submitted : ℕ
  pub replayed : ℕ
  pub skipped : ℕ

-- What one submission adds to the counters, or the error that stops the batch.
abbrev pub count_one : Result Reply → BatchResult → Result BatchResult
count_one (ok r) b = ok (
    if r.idempotent_replay
    then record b { replayed = suc b.replayed }
    else record b { submitted = suc b.submitted })
count_one (err e) b =
    if is_conflict e.kind then ok (record b { skipped = suc b.skipped }) else err e

-- The loop of `SubmitPendingSPI`; the n-th submission runs in `envs n`. With the result so far
-- comes the error that stopped the loop.
unfoldable pub submit_all :
    (ℕ → Env) → ℕ → World → BatchResult → List Transfer → (BatchResult × Option Error) × World
submit_all envs n w b [] = ((b, none), w)
submit_all envs n w b (t ∷ ts) =
    let done = submit_to_spi (envs n) w t.tenant_id t.id t.correlation_id in
    elim (count_one done.0 b) [
      | ok b' ↦ submit_all envs (suc n) done.1 b' ts
      | err e ↦ ((b, some e), done.1)
    ]

abbrev nothing_scanned : BatchResult
nothing_scanned = record { scanned = 0; submitted = 0; replayed = 0; skipped = 0 }

unfoldable pub submit_pending_spi :
    (List Transfer → List Transfer)
    → (ℕ → Env)
    → Option Error
    → World
    → ℤ
    → Time
    → (BatchResult × Option Error) × World
submit_pending_spi walk envs ctx w limit now =
    elim (pending_spi_submissions walk ctx w.store limit now) [
      | err e ↦ ((nothing_scanned, some e), w)
      | ok pending ↦
          submit_all envs 0 w (record nothing_scanned { scanned = length pending }) pending
    ]
