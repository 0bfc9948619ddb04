-- ===== src/Switch/Submit/Laws/Exchange.antt =====
-- `SubmitToSPI` of internal/switcher/service.go: claim first, then the SPI, then the record of it; and
-- the way back when the SPI fails.
use pixrail_go_payment_switc.Prelude.{
  true, false, ◌||◌, ◌≡◌, sym, ap, ◌∙◌, List, Text, ok, Result-cases, Bool-cases, inl, inr, arith,
  is_empty, trim, ◌+◌, [], ◌∷◌, str,
}
use pixrail_go_payment_switc.Rail.{Transfer, TransferStatus, SpiMessage, AuditRecord}
use pixrail_go_payment_switc.Rail.Transitions
use pixrail_go_payment_switc.Events.{Event}
use pixrail_go_payment_switc.Store
use pixrail_go_payment_switc.Store.{MemoryStore, put_transfer, get_transfer, log}
use pixrail_go_payment_switc.Store.Steps.{record_inv}
use pixrail_go_payment_switc.Switch.{Env, World, Reply, with_store, or_else}
use pixrail_go_payment_switc.Switch.Announce.{event_types}
use pixrail_go_payment_switc.Switch.Submit.Laws.Approved.{
  approved_by, submission_events-types, approve_move,
}
use pixrail_go_payment_switc.Switch.Submit.{
  claim_token, spi_claim_ttl, submission_audit, submission_events, exchange, record_exchange,
  submit_claimed, submit_trimmed, submit_to_spi,
}

-- A first success: the transfer was claimed under the worker's token, the SPI answered, and its
-- answer was recorded against that token with the two events.
pub record Submitted (env : Env) (w : World) (tenant_id id correlation_id : Text) (r : Reply)
    (s' : MemoryStore) : Type 0 where
  pub claimed : Transfer
  pub message : SpiMessage
  pub during : MemoryStore
  pub claims :
      Store.claim_spi_submission
        (env.ctx 0)
        (env.meanwhile 0 w.store)
        tenant_id
        id
        (claim_token env)
        (env.now 0 + spi_claim_ttl)
        (env.store_now 0)
      ≡ ok (claimed, false, during)
  pub answers : env.submit claimed ≡ ok message
  pub events :
      submission_events env claimed (or_else correlation_id claimed.correlation_id) message
      ≡ ok r.events
  pub records :
      Store.record_spi_submission
        (env.ctx 1)
        (env.meanwhile 1 during)
        tenant_id
        id
        (claim_token env)
        message
        r.events
        (submission_audit claimed (or_else correlation_id claimed.correlation_id) message)
      ≡ ok (r.transfer, false, s')
  pub held : Transfer
  pub found : get_transfer (env.meanwhile 1 during) tenant_id id ≡ ok held
  pub waited : held.status ≡ TransferStatus.accepted
  pub same_claim : held.spi_claim_token ≡ claim_token env
  pub approved : r.transfer ≡ approved_by message held
  pub two_events :
      event_types r.events ≡ str "spi_message_created" ∷ str "pix_transfer_approved" ∷ []
  pub trail : AuditRecord
  pub written : s' ≡ log r.events (trail ∷ []) (put_transfer r.transfer (env.meanwhile 1 during))

record_exchange-fresh :
    (env : Env) (w : World) (tenant_id id : Text) (t : Transfer) (correlation_id : Text)
    (message : SpiMessage) (made : List Event) (r : Reply) (w' : World)
    → record_exchange env w tenant_id id t correlation_id (message, made) ≡ (ok r, w')
    → r.idempotent_replay ≡ false
    → (r.events ≡ made)
      × (Store.record_spi_submission
            (env.ctx 1)
            (env.meanwhile 1 w.store)
            tenant_id
            id
            (claim_token env)
            message
            made
            (submission_audit t correlation_id message)
          ≡ ok (r.transfer, false, w'.store))
unfolding record_exchange
record_exchange-fresh env w tenant_id id t correlation_id message made r w' e first =
    elim (Result-cases (
      Store.record_spi_submission (env.ctx 1) (env.meanwhile 1 w.store) tenant_id id
        (claim_token env) message made (submission_audit t correlation_id message))) [
          | inr (x, d) ↦ absurd (ground arith)
          | inl ((u, true, s'), d) ↦ absurd (ground arith)
          | inl ((u, false, s'), d) ↦ (ground arith, ground arith)
        ]

exchange-ok :
    (env : Env) (t : Transfer) (correlation_id : Text) (message : SpiMessage) (made : List Event)
    → exchange env t correlation_id ≡ ok (message, made)
    → (env.submit t ≡ ok message) × (submission_events env t correlation_id message ≡ ok made)
unfolding exchange
exchange-ok env t correlation_id message made e = elim (Result-cases (env.submit t)) [
  | inr (x, d) ↦ absurd (ground arith)
  | inl (m, d) ↦ elim (Result-cases (submission_events env t correlation_id m)) [
    | inr (x, f) ↦ absurd (ground arith)
    | inl (es, f) ↦ (ground arith, ground arith)
  ]
]

submit_trimmed-Submitted :
    (env : Env) (w : World) (tenant_id id correlation_id : Text) (r : Reply) (w' : World)
    → submit_trimmed env w tenant_id id correlation_id ≡ (ok r, w')
    → r.idempotent_replay ≡ false
    → Submitted env w tenant_id id correlation_id r w'.store
unfolding submit_trimmed submit_claimed
submit_trimmed-Submitted env w tenant_id id correlation_id r w' e first =
    let s = env.meanwhile 0 w.store in
    elim (Bool-cases (is_empty tenant_id || is_empty id)) [
      | inl missing ↦ absurd (ground arith)
      | inr named ↦
          elim (Result-cases (
            Store.claim_spi_submission (env.ctx 0) s tenant_id id (claim_token env)
              (env.now 0 + spi_claim_ttl) (env.store_now 0))) [
                | inr (x, c) ↦ absurd (ground arith)
                | inl ((u, true, during), c) ↦ absurd (ground arith)
                | inl ((u, false, during), c) ↦
                    let corr = or_else correlation_id u.correlation_id in
                    elim (Result-cases (exchange env u corr)) [
                      | inr (x, d) ↦ absurd (ground arith)
                      | inl ((message, made), d) ↦
                          let (same, done) =
                            record_exchange-fresh env (with_store w during) tenant_id id u corr
                              message made r w' (ground arith) first in
                          let (answered, made_is) = exchange-ok env u corr message made d in
                          let types = submission_events-types env u corr message made made_is in
                          let (t, got, how) =
                            record_inv (env.ctx 1) (env.meanwhile 1 during) tenant_id id
                              (claim_token env) message made (submission_audit u corr message)
                              r.transfer false w'.store done in
                          let (moved, new) : (Transitions.record_spi_submission t (claim_token env)
                                  message
                                ≡ ok r.transfer)
                              × (w'.store
                                  ≡ log made (submission_audit u corr message ∷ [])
                                      (put_transfer r.transfer (env.meanwhile 1 during))) =
                            elim how [
                              | inl (replayed, _, _) ↦ absurd (ground arith)
                              | inr (_, moved, new) ↦ (moved, new)
                            ] in
                          let (waits, held_by, approved) =
                            approve_move t (claim_token env) message r.transfer moved in
                          record {
                            claimed = u;
                            message = message;
                            during = during;
                            claims = c;
                            answers = answered;
                            events = made_is ∙ ap ok (sym same);
                            records = rw same done;
                            held = t;
                            found = got;
                            waited = waits;
                            same_claim = held_by;
                            approved = approved;
                            two_events = rw same types;
                            trail = submission_audit u corr message;
                            written = rw same new;
                          }
                    ]
              ]
    ]

-- A submission that is answered as new claimed the transfer under its token before it asked the
-- SPI about it. The answer was recorded while the transfer was accepted and under the same token:
-- it is approved under the SPI's identifiers and free of any claim, and an event of the message,
-- an event of the approval and one audit record are written with it.
pub submit_to_spi-Submitted :
    (env : Env) (w : World) (tenant_id id correlation_id : Text) (r : Reply) (w' : World)
    → submit_to_spi env w tenant_id id correlation_id ≡ (ok r, w')
    → r.idempotent_replay ≡ false
    → Submitted env w (trim tenant_id) (trim id) (trim correlation_id) r w'.store
unfolding submit_to_spi
submit_to_spi-Submitted env w tenant_id id correlation_id r w' e first =
    submit_trimmed-Submitted env w (trim tenant_id) (trim id) (trim correlation_id) r w' e first
