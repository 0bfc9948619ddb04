-- ===== src/Relay.antt =====
-- internal/messaging/relay.go: the relay that drains the outbox. The publisher is a port: `publish n`
-- is what it answers to the n-th event of a drain. The store is the in-memory one; `meanwhile n` is
-- what others did to it before the relay's n-th call.
pub mod Backoff
pub mod Runs
pub mod Drained
use pixrail_go_payment_switc.Prelude.{
  ℕ, zero, suc, ◌-◌, List, [], ◌∷◌, ◌++◌, Option, none, some, Text, str, ℤ, pos, pos_part, ◌*ℤ◌,
  wrap64, inc64, leb_ℤ, add_time, if◌then◌else◌, ok, err, Error, length,
}
use pixrail_go_payment_switc.Rail.{Time}
use pixrail_go_payment_switc.Events.{Event, OutboxRecord}
use pixrail_go_payment_switc.Store.{MemoryStore}
use pixrail_go_payment_switc.Store.Outbox.{
  claim_pending_outbox, mark_outbox_published, mark_outbox_failed,
}
use pixrail_go_payment_switc.RateLimit.TokenBucket.{or_default}

pub record RetryPolicy : Type 0 where
  pub initial_backoff : ℤ
  pub max_backoff : ℤ
  pub claim_ttl : ℤ

pub record RelayStats : Type 0 where
  pub scanned : ℕ
  pub published : ℕ
  pub retried : ℕ

pub record RelayEnv : Type 0 where
  -- What follows the prefix in `newClaimToken`.
  pub random : Text
  -- The n-th reading of the relay's clock, and of the store's.
  pub now : ℕ → Time
  pub store_now : ℕ → Time
  pub ctx : ℕ → Option Error
  pub meanwhile : ℕ → MemoryStore → MemoryStore
  pub publish : ℕ → Event → Option Error

-- `NewRelay`: a second, a minute and 30 seconds stand for what is not positive.
unfoldable pub new_relay : RetryPolicy → RetryPolicy
new_relay p = record {
  initial_backoff = or_default p.initial_backoff (pos 1000000000);
  max_backoff = or_default p.max_backoff (pos 60000000000);
  claim_ttl = or_default p.claim_ttl (pos 30000000000);
}

-- The loop of `backoff`, with `n` rounds to go.
unfoldable pub backoff_loop : ℕ → ℤ → ℤ → ℤ
backoff_loop zero max_backoff backoff = backoff
backoff_loop (suc n) max_backoff backoff =
    let doubled = wrap64 (backoff *ℤ pos 2) in
    let rest = backoff_loop n max_backoff doubled in
    if leb_ℤ max_backoff doubled then max_backoff else rest

-- `if attempt <= 0 { attempt = 1 }`, less the first attempt.
abbrev pub rounds : ℤ → ℕ
rounds attempt = if leb_ℤ attempt (pos 0) then 0 else pos_part attempt - 1

unfoldable pub backoff : RetryPolicy → ℤ → ℤ
unfolding backoff_loop
backoff p attempt = backoff_loop (rounds attempt) p.max_backoff p.initial_backoff

-- `fmt.Errorf("…: %w", err)`
abbrev pub wrap_error : Text → Error → Error
wrap_error prefix e = record { kind = e.kind; message = prefix ++ e.message }

-- The relay's claim token.
unfoldable pub new_claim_token : RelayEnv → Text
new_claim_token env = str "outbox" ++ (b'_' ∷ env.random)

abbrev pub count_published : RelayStats → RelayStats
count_published s = record s { published = suc s.published }

abbrev pub count_retried : RelayStats → RelayStats
count_retried s = record s { retried = suc s.retried }

-- The loop of `Drain`, from the n-th record on. With the statistics comes the error that ended it.
unfoldable pub drain_all :
    RelayEnv
    → RetryPolicy
    → ℕ
    → RelayStats
    → MemoryStore
    → List OutboxRecord
    → (RelayStats × Option Error) × MemoryStore
unfolding new_claim_token backoff
drain_all env p n stats s [] = ((stats, none), s)
drain_all env p n stats s (r ∷ rs) =
    let before = env.meanwhile (suc n) s in
    let token = new_claim_token env in
    let at = env.now (suc n) in
    elim (env.publish n r.event) [
      | some e ↦
          elim (mark_outbox_failed (env.ctx (suc n)) before r.sequence token e.message
            (add_time at (backoff p (inc64 r.attempts)))) [
              | err x ↦
                  ((count_retried stats, some (wrap_error (str "mark outbox failed: ") x)), before)
              | ok s' ↦ drain_all env p (suc n) (count_retried stats) s' rs
            ]
      | none ↦ elim (mark_outbox_published (env.ctx (suc n)) before r.sequence token at) [
        | err x ↦ ((stats, some (wrap_error (str "mark outbox published: ") x)), before)
        | ok s' ↦ drain_all env p (suc n) (count_published stats) s' rs
      ]
    ]

abbrev pub no_stats : RelayStats
no_stats = record { scanned = 0; published = 0; retried = 0 }

-- `Drain`
unfoldable pub drain :
    RelayEnv → RetryPolicy → MemoryStore → ℤ → (RelayStats × Option Error) × MemoryStore
unfolding new_claim_token
drain env p s limit =
    let before = env.meanwhile 0 s in
    elim (claim_pending_outbox (env.ctx 0) before limit (new_claim_token env)
      (add_time (env.now 0) p.claim_ttl) (env.store_now 0) (env.store_now 1)) [
        | err e ↦ ((no_stats, some e), before)
        | ok (records, s') ↦
            drain_all env p 0 (record no_stats { scanned = length records }) s' records
      ]

-- `InMemoryPublisher.Publish`
abbrev pub in_memory_publish : List Event → Event → List Event
in_memory_publish events event = events ++ (event ∷ [])
