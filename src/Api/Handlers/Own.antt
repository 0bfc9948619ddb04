-- ===== src/Api/Handlers/Own.antt =====
-- What the handlers of internal/api/server.go show belongs to the key's tenant.
use pixrail_go_payment_switc.Prelude.{
  ◌≡◌, refl, sym, ap, ◌∙◌, subst, inl, inr, Bool-cases, Option-cases, Result-cases, List, [], ◌∷◌,
  Text, str, text_eq, text_eq_iff, lookup, some, Error, Kind, arith, All,
}
use pixrail_go_payment_switc.Events.{OutboxRecord}
use pixrail_go_payment_switc.Store
use pixrail_go_payment_switc.Store.Outbox
use pixrail_go_payment_switc.Store.Steps.{get_transfer-ok}
use pixrail_go_payment_switc.Switch.{Env}
use pixrail_go_payment_switc.Config.{ApiKeyRole, ApiKey}
use pixrail_go_payment_switc.Api.Handlers.Entitled.{
  auth_role-IsAuthorized, serve-refused, serve-passed,
}
use pixrail_go_payment_switc.Api.{
  Server, Endpoint, role_for, Request, Libraries, Response, Body, State, transfer_view,
  domain_error, write_error,
}
use pixrail_go_payment_switc.Api.Auth.{answered, Checked-cases, token_of, auth_role}
use pixrail_go_payment_switc.Api.Handlers.{Answer, get_transfer, of_tenant, outbox, handle, serve}

-- A body that shows nothing of another tenant.
abbrev pub IsOwn : Text → Body → Type 0
IsOwn tenant_id (Body.shown view replay) = view.tenant_id ≡ tenant_id
IsOwn tenant_id (Body.records xs) = All (λ (x : OutboxRecord). x.event.tenant_id ≡ tenant_id) xs
IsOwn tenant_id _ = Unit

of_tenant-IsOwn :
    (env : Env) (lib : Libraries) (tenant_id : Text) (xs : List OutboxRecord)
    → All (λ (x : OutboxRecord). x.event.tenant_id ≡ tenant_id) (of_tenant env lib tenant_id xs)
unfolding of_tenant
of_tenant-IsOwn env lib tenant_id [] = tt
of_tenant-IsOwn env lib tenant_id (x ∷ xs) =
    let rest = of_tenant-IsOwn env lib tenant_id xs in
    elim (Bool-cases (text_eq x.event.tenant_id tenant_id)) [
      | inl its ↦ rw its ((text_eq_iff x.event.tenant_id tenant_id).0 its, rest)
      | inr other ↦ rw other rest
    ]

domain_error-IsOwn : (tenant_id : Text) (e : Error) → IsOwn tenant_id (domain_error e).body
unfolding domain_error
domain_error-IsOwn tenant_id e = by_kind e.kind e.message
  where
    by_kind :
        (k : Kind) (message : Text)
        → IsOwn tenant_id (domain_error (record { kind = k; message = message })).body
    by_kind Kind.validation message = tt
    by_kind Kind.unauthorized message = tt
    by_kind Kind.rate_limited message = tt
    by_kind Kind.not_found message = tt
    by_kind Kind.conflict message = tt
    by_kind Kind.dependency_failed message = tt
    by_kind Kind.deadline_exceeded message = tt
    by_kind Kind.canceled message = tt
    by_kind Kind.other message = tt

-- The answer to a request that only reads: it shows what is the tenant's own, and changes nothing.
pub record OnlyReads (tenant_id : Text) (st : State) (a : Answer) : Type 0 where
  pub own : IsOwn tenant_id a.0.body
  pub same : a.1 ≡ st

pub get_transfer-OnlyReads :
    (env : Env) (lib : Libraries) (st : State) (tenant_id id : Text)
    → OnlyReads tenant_id st (get_transfer env lib st tenant_id id)
unfolding get_transfer transfer_view
get_transfer-OnlyReads env lib st tenant_id id =
    elim (Result-cases (Store.get_transfer st.world.store tenant_id id)) [
      | inl (t, found) ↦
          rw (found, get_transfer)
            (record { own = (get_transfer-ok st.world.store tenant_id id t found).1; same = refl })
      | inr (e, missing) ↦
          rw (missing, get_transfer) (record { own = domain_error-IsOwn tenant_id e; same = refl })
    ]

pub outbox-OnlyReads :
    (env : Env) (lib : Libraries) (st : State) (tenant_id : Text)
    → OnlyReads tenant_id st (outbox env lib st tenant_id)
unfolding outbox
outbox-OnlyReads env lib st tenant_id =
    elim (Result-cases (Outbox.outbox (env.ctx 0) st.world.store)) [
      | inl (xs, read) ↦
          rw (read, outbox) (record { own = of_tenant-IsOwn env lib tenant_id xs; same = refl })
      | inr (e, failing) ↦ rw (failing, outbox) (record { own = tt; same = refl })
    ]

-- A refusal shows nothing.
auth_role-IsOwn :
    (tenant_id : Text) (s : Server) (role : ApiKeyRole) (r : Request) (response : Response)
    → auth_role s role r ≡ answered response
    → IsOwn tenant_id response.body
unfolding auth_role
auth_role-IsOwn tenant_id s role r response h = elim (Option-cases (lookup (token_of r) s.keys)) [
  | inl missing ↦
      let it : write_error 401 (str "unauthorized") (str "valid API key is required") ≡ response =
        ground arith in
      subst (λ (a : Response). IsOwn tenant_id a.body) it tt
  | inr (key, found) ↦
      let it : write_error 403 (str "forbidden")
            (str "API key is not allowed to access this endpoint")
          ≡ response =
        ground arith in
      subst (λ (a : Response). IsOwn tenant_id a.body) it tt
]

serve-OnlyReads :
    (env : Env) (lib : Libraries) (s : Server) (st : State) (endpoint : Endpoint) (r : Request)
    (role : ApiKeyRole) (key : ApiKey)
    → role_for endpoint ≡ some role
    → lookup (token_of r) s.keys ≡ some key
    → OnlyReads key.tenant_id st (handle env lib s st endpoint key.tenant_id r)
    → OnlyReads key.tenant_id st (serve env lib s st endpoint r)
serve-OnlyReads env lib s st endpoint r role key asks found reads =
    elim (Checked-cases (auth_role s role r)) [
      | inr (response, refused) ↦
          subst (OnlyReads key.tenant_id st)
            (sym (serve-refused env lib s st endpoint r role response asks refused))
            (record { own = auth_role-IsOwn key.tenant_id s role r response refused; same = refl })
      | inl (it, let_in) ↦
          let same_one : it ≡ key =
            ground (arith, (auth_role-IsAuthorized s role r it let_in).found, found) in
          let served = serve-passed env lib s st endpoint r role it asks let_in in
          let all =
            served ∙ ap (λ (k : ApiKey). handle env lib s st endpoint k.tenant_id r) same_one in
          subst (OnlyReads key.tenant_id st) (sym all) reads
    ]

-- A request for a transfer or for the outbox whose token leads to a key changes nothing, and is
-- shown nothing but what belongs to the tenant of the key.
pub reads_own :
    (env : Env) (lib : Libraries) (s : Server) (st : State) (id : Text) (r : Request) (key : ApiKey)
    → lookup (token_of r) s.keys ≡ some key
    → OnlyReads key.tenant_id st (serve env lib s st (Endpoint.get_transfer id) r)
      × OnlyReads key.tenant_id st (serve env lib s st Endpoint.outbox r)
unfolding role_for handle
reads_own env lib s st id r key found = (
  serve-OnlyReads env lib s st (Endpoint.get_transfer id) r ApiKeyRole.role_tenant key refl found
      (get_transfer-OnlyReads env lib st key.tenant_id id),
  serve-OnlyReads env lib s st Endpoint.outbox r ApiKeyRole.role_tenant key refl found
      (outbox-OnlyReads env lib st key.tenant_id),
)
