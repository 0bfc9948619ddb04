-- ===== src/Api/Safe.antt =====
-- The store under all requests to internal/api/server.go, one after the other.
use pixrail_go_payment_switc.Prelude.{
  ℤ, ℕ, ◌≡◌, refl, sym, ap, subst, inl, inr, Bool, Option-cases, List, [], ◌∷◌, Text, some, ok, err,
  arith, All,
}
use pixrail_go_payment_switc.Store.Invariant.{IsValid}
use pixrail_go_payment_switc.Store.Changes.{Grows}
use pixrail_go_payment_switc.Switch.{Env, World, Reply, Outcome}
use pixrail_go_payment_switc.Switch.Sound.{Keeps, IsSound, Keeps-refl, Keeps-trans}
use pixrail_go_payment_switc.Switch.Create.Accept.{create_transfer-Keeps}
use pixrail_go_payment_switc.Switch.Submit.Laws.{submit_to_spi-Keeps}
use pixrail_go_payment_switc.Switch.Review.Safe.{record_review-Keeps}
use pixrail_go_payment_switc.Switch.Settle.Laws.{record_settlement-Keeps}
use pixrail_go_payment_switc.Config.{ApiKeyRole}
use pixrail_go_payment_switc.Metrics.{Metrics}
use pixrail_go_payment_switc.Api.Middleware.{Mux, dispatch, arrive, arrive-world}
use pixrail_go_payment_switc.Api.Handlers.Entitled.{serve-refused, serve-passed, open_endpoint-same}
use pixrail_go_payment_switc.Api.Handlers.Signed.{handle-verified, handle-refused}
use pixrail_go_payment_switc.Api.Handlers.Own.{get_transfer-OnlyReads, outbox-OnlyReads}
use pixrail_go_payment_switc.Api.{Server, Endpoint, role_for, Request, Libraries, State}
use pixrail_go_payment_switc.Api.Auth.{Checked-cases, auth_role, read_and_verify}
use pixrail_go_payment_switc.Api.Handlers.{
  Answer, answer_outcome, create_transfer, submit_to_spi, record_review, settle_signed,
  record_settlement, handle, serve,
}

answer_outcome-world :
    (status_of : Bool → ℕ) (m : Metrics) (o : Outcome Reply)
    → (answer_outcome status_of m o).1.world ≡ o.1
unfolding answer_outcome
answer_outcome-world status_of m (err e, w) = refl
answer_outcome-world status_of m (ok reply, w) = refl

-- A use case that keeps the store is answered by a handler that does.
answer_outcome-Keeps :
    (status_of : Bool → ℕ) (st : State) (o : Outcome Reply)
    → Keeps st.world.store o.1.store
    → Keeps st.world.store (answer_outcome status_of st.metrics o).1.world.store
answer_outcome-Keeps status_of st o h =
    subst (λ (w : World). Keeps st.world.store w.store)
      (sym (answer_outcome-world status_of st.metrics o)) h

module _ (env : Env) (lib : Libraries) (sound : IsSound env) (s : Server) (st : State) where
  settle_signed-Keeps :
      (tenant_id id raw : Text) (r : Request)
      → Keeps st.world.store (settle_signed env lib st tenant_id id r raw).1.world.store
  unfolding settle_signed
  settle_signed-Keeps tenant_id id raw r = elim (Option-cases (lib.decode_settlement raw)) [
    | inl unreadable ↦ rw (unreadable, settle_signed) (Keeps-refl st.world.store)
    | inr (payload, decoded) ↦
        rw (decoded, settle_signed)
          (answer_outcome-Keeps (λ replay. 200) st _ (record_settlement-Keeps env sound st.world _))
  ]

  create_transfer-Kept :
      (tenant_id : Text) (r : Request)
      → Keeps st.world.store (create_transfer env lib st tenant_id r).1.world.store
  unfolding create_transfer
  create_transfer-Kept tenant_id r = elim (Option-cases (lib.decode_create r)) [
    | inl unreadable ↦ rw (unreadable, create_transfer) (Keeps-refl st.world.store)
    | inr (payload, decoded) ↦
        rw (decoded, create_transfer)
          (answer_outcome-Keeps _ st _ (create_transfer-Keeps env st.world _ sound))
  ]

  record_review-Kept :
      (tenant_id id : Text) (r : Request)
      → Keeps st.world.store (record_review env lib st tenant_id id r).1.world.store
  unfolding record_review
  record_review-Kept tenant_id id r = elim (Option-cases (lib.decode_review r)) [
    | inl unreadable ↦ rw (unreadable, record_review) (Keeps-refl st.world.store)
    | inr (payload, decoded) ↦
        rw (decoded, record_review)
          (answer_outcome-Keeps (λ replay. 200) st _ (record_review-Keeps env sound st.world _))
  ]

  record_settlement-Kept :
      (tenant_id id : Text) (r : Request)
      → Keeps st.world.store (record_settlement env lib s st tenant_id id r).1.world.store
  record_settlement-Kept tenant_id id r = elim (Checked-cases (read_and_verify lib s r)) [
    | inr (response, refused) ↦
        rw (handle-refused env lib s st id r response tenant_id refused) (Keeps-refl st.world.store)
    | inl (raw, verified) ↦
        rw (handle-verified env lib s st id r raw tenant_id verified)
          (settle_signed-Keeps tenant_id id raw r)
  ]

  -- A state that is left as it is.
  same-Keeps : (st' : State) → st' ≡ st → Keeps st.world.store st'.world.store
  same-Keeps st' h =
      subst (λ (x : State). Keeps st.world.store x.world.store) (sym h) (Keeps-refl st.world.store)

  handle-Keeps :
      (endpoint : Endpoint) (role : ApiKeyRole) (tenant_id : Text) (r : Request)
      → role_for endpoint ≡ some role
      → Keeps st.world.store (handle env lib s st endpoint tenant_id r).1.world.store
  unfolding handle role_for submit_to_spi
  handle-Keeps Endpoint.health role tenant_id r h = ground arith
  handle-Keeps Endpoint.ready role tenant_id r h = ground arith
  handle-Keeps Endpoint.metrics_page role tenant_id r h = ground arith
  handle-Keeps Endpoint.outbox role tenant_id r h =
      same-Keeps _ (outbox-OnlyReads env lib st tenant_id).same
  handle-Keeps Endpoint.create_transfer role tenant_id r h = create_transfer-Kept tenant_id r
  handle-Keeps (Endpoint.get_transfer id) role tenant_id r h =
      same-Keeps _ (get_transfer-OnlyReads env lib st tenant_id id).same
  handle-Keeps (Endpoint.submit_to_spi id) role tenant_id r h =
      answer_outcome-Keeps (λ replay. 200) st _
        (submit_to_spi-Keeps env sound st.world tenant_id id r.correlation_id)
  handle-Keeps (Endpoint.record_review id) role tenant_id r h = record_review-Kept tenant_id id r
  handle-Keeps (Endpoint.record_settlement id) role tenant_id r h =
      record_settlement-Kept tenant_id id r

  serve-Keeps :
      (endpoint : Endpoint) (r : Request)
      → Keeps st.world.store (serve env lib s st endpoint r).1.world.store
  serve-Keeps endpoint r = elim (Option-cases (role_for endpoint)) [
    | inl is_open ↦ same-Keeps _ (open_endpoint-same env lib s st endpoint r is_open)
    | inr (role, asks) ↦ elim (Checked-cases (auth_role s role r)) [
      | inr (response, refused) ↦ same-Keeps _ (
          ap (λ (a : Answer). a.1)
            (serve-refused env lib s st endpoint r role response asks refused))
      | inl (key, let_in) ↦
          rw (serve-passed env lib s st endpoint r role key asks let_in)
            (handle-Keeps endpoint role key.tenant_id r asks)
    ]
  ]

  dispatch-Keeps :
      (mux : Mux) (method path : Text) (r : Request)
      → Keeps st.world.store (dispatch env lib mux s st method path r).1.world.store
  unfolding dispatch
  dispatch-Keeps mux method path r = elim (Option-cases (mux.endpoint method path)) [
    | inl nowhere ↦ rw (nowhere, dispatch) (Keeps-refl st.world.store)
    | inr (endpoint, found) ↦ rw (found, dispatch) (serve-Keeps endpoint r)
  ]

  arrive-Keeps :
      (mux : Mux) (method path : Text) (elapsed : ℤ) (r : Request)
      → Keeps st.world.store (arrive env lib mux s st method path elapsed r).1.world.store
  arrive-Keeps mux method path elapsed r =
      subst (λ (w : World). Keeps st.world.store w.store)
        (sym (arrive-world env lib mux s st method path elapsed r))
        (dispatch-Keeps mux method path _)

-- A request with its surroundings.
pub record Arrival : Type 0 where
  pub env : Env
  pub lib : Libraries
  pub mux : Mux
  pub server : Server
  pub method : Text
  pub path : Text
  pub elapsed : ℤ
  pub request : Request

abbrev pub serve_arrival : State → Arrival → State
serve_arrival st a = (arrive a.env a.lib a.mux a.server st a.method a.path a.elapsed a.request).1

abbrev pub serve_arrivals : State → List Arrival → State
serve_arrivals st [] = st
serve_arrivals st (a ∷ more) = serve_arrivals (serve_arrival st a) more

serve_arrivals-Keeps :
    (st : State) (arrivals : List Arrival)
    → All (λ (a : Arrival). IsSound a.env) arrivals
    → Keeps st.world.store (serve_arrivals st arrivals).world.store
serve_arrivals-Keeps st [] h = Keeps-refl st.world.store
serve_arrivals-Keeps st (a ∷ more) h =
    Keeps-trans st.world.store (serve_arrival st a).world.store _
      (arrive-Keeps a.env a.lib h.0 a.server st a.mux a.method a.path a.elapsed a.request)
      (serve_arrivals-Keeps (serve_arrival st a) more h.1)

-- Whatever requests reach the server, one after the other, each between others that keep the
-- store: from a store whose maps agree they lead to one whose maps agree, and they lose no
-- transfer, no idempotency key and no callback, and change no transfer that is final.
pub requests_safe :
    (st : State) (arrivals : List Arrival)
    → IsValid st.world.store
    → All (λ (a : Arrival). IsSound a.env) arrivals
    → IsValid (serve_arrivals st arrivals).world.store
      × Grows st.world.store (serve_arrivals st arrivals).world.store
requests_safe st arrivals v sound = serve_arrivals-Keeps st arrivals sound v
