-- ===== src/Relay/Drained.antt =====
-- What `Drain` of internal/messaging/relay.go does to each record that it claimed, and what it counts.
use pixrail_go_payment_switc.Prelude.{
  ◌∙◌, ℕ, suc, ◌+◌, ◌≡◌, refl, List, [], ◌∷◌, Option, Option-cases, Result-cases, inl, inr, arith,
  ok, Error, length, inc64, add_time, ℤ,
}
use pixrail_go_payment_switc.Events.{OutboxRecord}
use pixrail_go_payment_switc.Store.{MemoryStore}
use pixrail_go_payment_switc.Store.Outbox.{
  claim_pending_outbox, mark_outbox_published, mark_outbox_failed,
}
use pixrail_go_payment_switc.Relay.Runs.{
  Drains, drained, published, unmarked, retried, unretried, Complete, Drains-Complete,
}
use pixrail_go_payment_switc.Relay.{
  RelayEnv, RelayStats, RetryPolicy, backoff, new_claim_token, count_published, count_retried,
  drain_all, drain,
}

-- What came out of a drain whose counters stood at `stats`: a run that adds what it counts.
pub record Drained (env : RelayEnv) (p : RetryPolicy) (n : ℕ) (stats : RelayStats) (s : MemoryStore)
    (rs : List OutboxRecord) (out : (RelayStats × Option Error) × MemoryStore) : Type 0 where
  pub sent : ℕ
  pub put_off : ℕ
  pub run : Drains env p n s rs sent put_off out.0.1 out.1
  pub counts :
      out.0.0
      ≡ record stats { published = stats.published + sent; retried = stats.retried + put_off }
  pub complete : Complete (sent + put_off) (length rs) out.0.1

module _ (env : RelayEnv) (p : RetryPolicy) where
  drain_all-Drained :
      (rs : List OutboxRecord) (n : ℕ) (stats : RelayStats) (s : MemoryStore)
      → Drained env p n stats s rs (drain_all env p n stats s rs)
  unfolding drain_all
  drain_all-Drained [] n stats s = record {
    sent = 0;
    put_off = 0;
    run = drained;
    counts = ground arith;
    complete = refl;
  }
  drain_all-Drained (r ∷ rs) n stats s =
      let before = env.meanwhile (suc n) s in
      let token = new_claim_token env in
      let at = env.now (suc n) in
      elim (Option-cases (env.publish n r.event)) [
        | inl sent ↦
            elim (Result-cases
              (mark_outbox_published (env.ctx (suc n)) before r.sequence token at)) [
                | inr (x, e) ↦
                    rw (sent, e, drain_all)
                      (record {
                        sent = 0;
                        put_off = 0;
                        run = unmarked sent e;
                        counts = ground arith;
                        complete = omega arith;
                      })
                | inl (s', e) ↦
                    let rest = drain_all-Drained rs (suc n) (count_published stats) s' in
                    let run = published sent e rest.run in
                    rw (sent, e, drain_all)
                      (record {
                        sent = suc rest.sent;
                        put_off = rest.put_off;
                        run = run;
                        counts = rest.counts ∙ ground arith;
                        complete = Drains-Complete env p run;
                      })
              ]
        | inr (x, refused) ↦
            elim (Result-cases (
              mark_outbox_failed (env.ctx (suc n)) before r.sequence token x.message
                (add_time at (backoff p (inc64 r.attempts))))) [
                  | inr (y, e) ↦
                      rw (refused, e, drain_all)
                        (record {
                          sent = 0;
                          put_off = 1;
                          run = unretried refused e;
                          counts = ground arith;
                          complete = omega arith;
                        })
                  | inl (s', e) ↦
                      let rest = drain_all-Drained rs (suc n) (count_retried stats) s' in
                      let run = retried refused e rest.run in
                      rw (refused, e, drain_all)
                        (record {
                          sent = rest.sent;
                          put_off = suc rest.put_off;
                          run = run;
                          counts = rest.counts ∙ ground arith;
                          complete = Drains-Complete env p run;
                        })
                ]
      ]

  -- When the claim of the outbox succeeds, the drain is a run over the records that it claimed,
  -- in their order and under the claim's token. A record whose event is sent is marked and
  -- counted as published, one that the publisher refuses is counted as retried and marked to be
  -- tried again after its backoff, and a mark that fails ends the run with its error. All of them
  -- are scanned, and all are counted when no error ends the run, no more than that when one does.
  pub drain-Drained :
      (s s' : MemoryStore) (limit : ℤ) (records : List OutboxRecord)
      → claim_pending_outbox
          (env.ctx 0)
          (env.meanwhile 0 s)
          limit
          (new_claim_token env)
          (add_time (env.now 0) p.claim_ttl)
          (env.store_now 0)
          (env.store_now 1)
        ≡ ok (records, s')
      → Drained env p 0
          (record { scanned = length records; published = 0; retried = 0 })
          s'
          records
          (drain env p s limit)
  unfolding drain
  drain-Drained s s' limit records e =
      let start : RelayStats = record { scanned = length records; published = 0; retried = 0 } in
      rw (e, drain) (drain_all-Drained records 0 start s')
