-- ===== src/Tests/Relayed.antt =====
-- The relay, the pending submissions and the windows on concrete data.
use pixrail_go_payment_switc.Prelude.{
  text_eq, str, lookup, ◌+◌, ◌*◌, ◌^◌, ◌≤◌, ◌<◌, ◌≡◌, refl, false, List, [], ◌∷◌, some, none, arith,
  pos, Text, length, add_time, ok, min, suc, ltb, if◌then◌else◌,
}
use pixrail_go_payment_switc.Rail.{Time, Transfer}
use pixrail_go_payment_switc.Events.{Event, OutboxRecord}
use pixrail_go_payment_switc.Store.{MemoryStore, new_memory_store}
use pixrail_go_payment_switc.Store.Outbox.{followers, claim_pending_outbox}
use pixrail_go_payment_switc.Store.Outbox.Exclusive.{
  left_over, answered_with, claim_excludes_others,
}
use pixrail_go_payment_switc.Store.Pending.{pending_spi_submissions, limit_or_100}
use pixrail_go_payment_switc.Store.Pending.Ready.{IsReady, pending_spi_submissions-IsReady}
use pixrail_go_payment_switc.RateLimit.FixedWindow.{FixedWindow}
use pixrail_go_payment_switc.RateLimit.FixedWindow.Rate.{grants, IsWithin, plain, grants_within}
use pixrail_go_payment_switc.RateLimit.SlidingWindow.{enter}
use pixrail_go_payment_switc.RateLimit.SlidingWindow.Exact.{IsSorted, young, enter-exact}
use pixrail_go_payment_switc.RateLimit.LeakyBucket
use pixrail_go_payment_switc.RateLimit.LeakyBucket.Level.{left, enter-level}
use pixrail_go_payment_switc.RateLimit.TokenBucket.Bounds.{periods}
use pixrail_go_payment_switc.Relay.{RelayEnv, RetryPolicy, backoff, drain, new_claim_token}
use pixrail_go_payment_switc.Relay.Backoff.{policy, backoff-min}
use pixrail_go_payment_switc.Relay.Drained.{Drained, drain-Drained}
use pixrail_go_payment_switc.Tests.{a_transfer}

abbrev an_event : Event
an_event = record {
  event_id = b'e' ∷ [];
  event_type = b't' ∷ [];
  schema_version = b'1' ∷ [];
  occurred_at = 5;
  producer = [];
  tenant_id = b'a' ∷ [];
  account_id = b'x' ∷ [];
  transfer_id = b't' ∷ [];
  correlation_id = [];
  payload = [];
}

abbrev a_record : OutboxRecord
a_record = record {
  sequence = pos 1;
  event = an_event;
  published = false;
  attempts = pos 0;
  last_error = [];
  available_at = 5;
  claim_token = [];
  claimed_until = none;
  dispatched_at = none;
}

abbrev one_event : MemoryStore
one_event = record new_memory_store { events = a_record ∷ []; next_seq = pos 1 }

abbrev a_relay : RelayEnv
a_relay = record {
  random = b'0' ∷ [];
  now = λ n. 100;
  store_now = λ n. 100;
  ctx = λ n. none;
  meanwhile = λ n s. s;
  publish = λ n e. none;
}

abbrev a_policy : RetryPolicy
a_policy = policy 1000 60000 30000

abbrev claimed_record : OutboxRecord
claimed_record = record a_record {
  claim_token = new_claim_token a_relay;
  claimed_until = some 30100;
}

claim_run :
    claim_pending_outbox
      (a_relay.ctx 0)
      (a_relay.meanwhile 0 one_event)
      (pos 10)
      (new_claim_token a_relay)
      (add_time (a_relay.now 0) a_policy.claim_ttl)
      (a_relay.store_now 0)
      (a_relay.store_now 1)
    ≡ ok (claimed_record ∷ [], record one_event { events = claimed_record ∷ [] })
unfolding claim_pending_outbox new_claim_token str add_time
claim_run = refl

drain-Drained_example :
    Drained a_relay a_policy 0
      (record { scanned = length (claimed_record ∷ []); published = 0; retried = 0 })
      (record one_event { events = claimed_record ∷ [] })
      (claimed_record ∷ [])
      (drain a_relay a_policy one_event (pos 10))
drain-Drained_example =
    drain-Drained a_relay a_policy one_event (record one_event { events = claimed_record ∷ [] })
      (pos 10) (claimed_record ∷ []) claim_run

below_limit : 1000 ≤ 60000
below_limit = omega arith

limit_fits : 60000 < 2 ^ 62
limit_fits = omega arith

backoff-min_example : backoff a_policy (pos (suc 3)) ≡ pos (min (1000 * 2 ^ 3) 60000)
backoff-min_example = backoff-min 1000 60000 30000 3 below_limit limit_fits

abbrev as_stored : List Transfer → List Transfer
as_stored ts = ts

abbrev one_transfer : MemoryStore
one_transfer = record new_memory_store { transfers = (b't' ∷ [], a_transfer) ∷ [] }

pending_run :
    pending_spi_submissions as_stored none one_transfer (pos 10) 100 ≡ ok (a_transfer ∷ [])
unfolding pending_spi_submissions
pending_run = refl

pending_spi_submissions-IsReady_example :
    IsReady 100 0 (a_transfer ∷ []) × (length (a_transfer ∷ []) ≤ limit_or_100 (pos 10))
pending_spi_submissions-IsReady_example =
    pending_spi_submissions-IsReady as_stored none one_transfer (pos 10) 100 (a_transfer ∷ [])
      pending_run

abbrev one_window : FixedWindow
one_window = record {
  config = plain 2 60;
  windows = (b'k' ∷ [], record { start = 5; count = pos 1 }) ∷ [];
}

abbrev some_calls : List (Text × Time)
some_calls = (b'k' ∷ [], 6) ∷ (b'j' ∷ [], 7) ∷ (b'k' ∷ [], 30) ∷ []

limit_small : 2 < 2 ^ 63
limit_small = omega arith

window_short : 60 < 2 ^ 63
window_short = omega arith

begun : 0 < 5
begun = omega arith

one_below : 1 ≤ 2
one_below = omega arith

calls-IsWithin : IsWithin 5 60 some_calls
calls-IsWithin =
    (omega arith, omega arith, (omega arith, omega arith, (omega arith, omega arith, tt)))

grants_within_example : grants (b'k' ∷ []) one_window some_calls + 1 ≤ 2
unfolding lookup text_eq
grants_within_example =
    grants_within 2 60 limit_small window_short 5 begun (b'k' ∷ []) some_calls one_window 1 refl
      refl one_below calls-IsWithin

old-IsSorted : IsSorted 5 (5 ∷ 70 ∷ [])
old-IsSorted = (omega arith, (omega arith, tt))

enter-exact_example :
    (enter (record { limit = pos 2; window = pos 60 }) 80 (5 ∷ 70 ∷ [])).0
    ≡ ltb (young 60 80 (5 ∷ 70 ∷ [])) 2
enter-exact_example = enter-exact 2 60 80 5 (5 ∷ 70 ∷ []) old-IsSorted

level_fits : 3 < 2 ^ 63
level_fits = omega arith

every_positive : 0 < 10
every_positive = omega arith

in_time : 5 ≤ 28
in_time = omega arith

enter-level_example :
    LeakyBucket.enter
      (record { capacity = pos 3; leak_every = pos 10 })
      28
      (record { level = pos 3; seen_at = 5 })
    ≡ (
      ltb (left 10 3 28 5) 3,
      record {
        level = pos (if ltb (left 10 3 28 5) 3 then suc (left 10 3 28 5) else left 10 3 28 5);
        seen_at = 5 + periods 10 28 5 * 10;
      },
    )
enter-level_example = enter-level 3 10 level_fits every_positive 28 5 begun in_time 3 (omega arith)

still_claimed : 200 < 30100
still_claimed = omega arith

first_claim :
    claim_pending_outbox none one_event (pos 10) (b'w' ∷ []) 30100 100 100
    ≡ ok (
      record a_record { claim_token = b'w' ∷ []; claimed_until = some 30100 } ∷ [],
      record one_event {
        events = record a_record { claim_token = b'w' ∷ []; claimed_until = some 30100 } ∷ [];
      },
    )
unfolding claim_pending_outbox
first_claim = refl

claim_excludes_others_example :
    answered_with (
      claim_pending_outbox none
        (record one_event {
          events = record a_record { claim_token = b'w' ∷ []; claimed_until = some 30100 } ∷ [];
        })
        (pos 10)
        (b'v' ∷ [])
        40000
        200
        200)
    ≡ answered_with (
        claim_pending_outbox none
          (record one_event { events = left_over (followers (pos 10)) 100 one_event.events })
          (pos 10)
          (b'v' ∷ [])
          40000
          200
          200)
claim_excludes_others_example =
    claim_excludes_others none none one_event
      (record one_event {
        events = record a_record { claim_token = b'w' ∷ []; claimed_until = some 30100 } ∷ [];
      })
      (pos 10) (pos 10) (b'w' ∷ []) (b'v' ∷ []) 30100 40000 100 200 100 200
      (record a_record { claim_token = b'w' ∷ []; claimed_until = some 30100 } ∷ []) first_claim
      still_claimed
