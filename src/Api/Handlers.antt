-- ===== src/Api/Handlers.antt =====
-- The handlers of internal/api/server.go.
pub mod Entitled
pub mod Signed
pub mod Own
use pixrail_go_payment_switc.Prelude.{
  ℕ, Bool, true, false, List, [], ◌∷◌, Text, str, text_eq, Option, none, some, Result, ok, err,
  Error, if◌then◌else◌, length,
}
use pixrail_go_payment_switc.Rail.{Transfer}
use pixrail_go_payment_switc.Events.{OutboxRecord}
use pixrail_go_payment_switc.Store
use pixrail_go_payment_switc.Store.Outbox
use pixrail_go_payment_switc.Switch.{Env, World, Reply, Outcome}
use pixrail_go_payment_switc.Switch.Draft.{status_text}
use pixrail_go_payment_switc.Switch.Create
use pixrail_go_payment_switc.Switch.Submit
use pixrail_go_payment_switc.Switch.Review
use pixrail_go_payment_switc.Switch.Settle
use pixrail_go_payment_switc.Config.{ApiKeyRole, ApiKey}
use pixrail_go_payment_switc.Metrics.{Metrics, observe_decision, observe_events}
use pixrail_go_payment_switc.Api.{
  Server, Endpoint, role_for, Request, Libraries, Response, Body, State, CreatePayload,
  ReviewPayload, SettlementPayload, transfer_view, write_error, domain_error,
}
use pixrail_go_payment_switc.Api.Auth.{Checked, passed, answered, auth_role, read_and_verify}

abbrev pub Answer : Type 0
Answer = Response × State

abbrev invalid_json : Response
invalid_json = write_error 400 (str "invalid_json") (str "request body must be valid JSON")

-- How a handler ends that has called a use case; `status_of` gives the status of a success.
unfoldable pub answer_outcome : (Bool → ℕ) → Metrics → Outcome Reply → Answer
answer_outcome status_of m (err e, w) = (domain_error e, record { world = w; metrics = m })
answer_outcome status_of m (ok reply, w) = (
  record {
    status = status_of reply.idempotent_replay;
    body = Body.shown (transfer_view reply.transfer) reply.idempotent_replay;
  },
  record {
    world = w;
    metrics =
        observe_events (observe_decision m (status_text reply.transfer.status))
          (length reply.events);
  },
)

module _ (env : Env) (lib : Libraries) where
  unfoldable pub create_transfer : State → Text → Request → Answer
  create_transfer st tenant_id r = elim (lib.decode_create r) [
    | none ↦ (invalid_json, st)
    | some payload ↦
        answer_outcome (λ replay. if replay then 200 else 201) st.metrics
          (Create.create_transfer env st.world (record {
            tenant_id = tenant_id;
            account_id = payload.account_id;
            idempotency_key = r.idempotency_key;
            correlation_id = r.correlation_id;
            amount_cents = payload.amount_cents;
            currency = payload.currency;
            receiver_key = payload.receiver_key;
            receiver_key_type = payload.receiver_key_type;
            description = payload.description;
            requested_at = lib.received_at;
          }))
  ]

  unfoldable pub get_transfer : State → Text → Text → Answer
  get_transfer st tenant_id id = elim (Store.get_transfer st.world.store tenant_id id) [
    | err e ↦ (domain_error e, st)
    | ok t ↦ (record { status = 200; body = Body.shown (transfer_view t) false }, st)
  ]

  unfoldable pub submit_to_spi : State → Text → Text → Request → Answer
  submit_to_spi st tenant_id id r =
      answer_outcome (λ replay. 200) st.metrics
        (Submit.submit_to_spi env st.world tenant_id id r.correlation_id)

  unfoldable pub record_review : State → Text → Text → Request → Answer
  record_review st tenant_id id r = elim (lib.decode_review r) [
    | none ↦ (invalid_json, st)
    | some payload ↦
        answer_outcome (λ replay. 200) st.metrics
          (Review.record_review env st.world (record {
            tenant_id = tenant_id;
            transfer_id = id;
            decision = payload.decision;
            reason = payload.reason;
            correlation_id = r.correlation_id;
            reviewed_at = lib.received_at;
          }))
  ]

  -- The part of `recordSettlement` behind the signature.
  unfoldable pub settle_signed : State → Text → Text → Request → Text → Answer
  settle_signed st tenant_id id r raw = elim (lib.decode_settlement raw) [
    | none ↦ (invalid_json, st)
    | some payload ↦
        answer_outcome (λ replay. 200) st.metrics
          (Settle.record_settlement env st.world (record {
            tenant_id = tenant_id;
            transfer_id = id;
            spi_message_id = payload.spi_message_id;
            status = payload.status;
            code = payload.code;
            callback_hash = [];
            correlation_id = r.correlation_id;
            received_at = lib.received_at;
          }))
  ]

  unfoldable pub record_settlement : Server → State → Text → Text → Request → Answer
  unfolding settle_signed
  record_settlement s st tenant_id id r = elim (read_and_verify lib s r) [
    | answered response ↦ (response, st)
    | passed raw ↦ settle_signed st tenant_id id r raw
  ]

  -- The loop of `outbox`.
  unfoldable pub of_tenant : Text → List OutboxRecord → List OutboxRecord
  of_tenant tenant_id [] = []
  of_tenant tenant_id (x ∷ xs) =
      let rest = of_tenant tenant_id xs in
      if text_eq x.event.tenant_id tenant_id then x ∷ rest else rest

  unfoldable pub outbox : State → Text → Answer
  unfolding of_tenant
  outbox st tenant_id = elim (Outbox.outbox (env.ctx 0) st.world.store) [
    | err e ↦ (write_error 500 (str "outbox_read_failed") e.message, st)
    | ok xs ↦ (record { status = 200; body = Body.records (of_tenant tenant_id xs) }, st)
  ]

  -- `ready`; its context has a deadline of its own.
  unfoldable pub ready : State → Answer
  ready st = elim (Store.health (env.ctx 0)) [
    | err e ↦ (record { status = 503; body = Body.unavailable e.message }, st)
    | ok _ ↦ (record { status = 200; body = Body.ready_body }, st)
  ]

  -- The handler behind `authRole`, with the tenant of the key.
  unfoldable pub handle : Server → State → Endpoint → Text → Request → Answer
  unfolding create_transfer get_transfer submit_to_spi record_review record_settlement outbox ready
  handle s st Endpoint.health tenant_id r = (record { status = 200; body = Body.alive }, st)
  handle s st Endpoint.ready tenant_id r = ready st
  handle s st Endpoint.metrics_page tenant_id r =
      (record { status = 200; body = Body.prometheus }, st)
  handle s st Endpoint.outbox tenant_id r = outbox st tenant_id
  handle s st Endpoint.create_transfer tenant_id r = create_transfer st tenant_id r
  handle s st (Endpoint.get_transfer id) tenant_id r = get_transfer st tenant_id id
  handle s st (Endpoint.submit_to_spi id) tenant_id r = submit_to_spi st tenant_id id r
  handle s st (Endpoint.record_review id) tenant_id r = record_review st tenant_id id r
  handle s st (Endpoint.record_settlement id) tenant_id r = record_settlement s st tenant_id id r

  -- A request to an endpoint, as `routes` has it.
  unfoldable pub serve : Server → State → Endpoint → Request → Answer
  unfolding handle
  serve s st endpoint r = elim (role_for endpoint) [
    | none ↦ handle s st endpoint [] r
    | some role ↦ elim (auth_role s role r) [
      | answered response ↦ (response, st)
      | passed key ↦ handle s st endpoint key.tenant_id r
    ]
  ]
