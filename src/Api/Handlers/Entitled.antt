-- ===== src/Api/Handlers/Entitled.antt =====
-- What a request to internal/api/server.go can change, and what it is shown.
use pixrail_go_payment_switc.Prelude.{
  List, ◌∷◌, Text, Bool-cases, ◌≡◌, ◌≢◌, refl, ap, ◌∙◌, subst, inl, inr, true, Option-cases,
  Result-cases, [], lookup, none, some, ok, arith,
}
use pixrail_go_payment_switc.Store
use pixrail_go_payment_switc.Switch.{Env}
use pixrail_go_payment_switc.Config.{ApiKeyRole, ApiKey, role_eq, member, has_role, Config}
use pixrail_go_payment_switc.Config.Keys.Apart.{lookup-IsKeyed}
use pixrail_go_payment_switc.Config.Load.{Surroundings, load}
use pixrail_go_payment_switc.Config.Load.Sound.{load-IsUsable}
use pixrail_go_payment_switc.Api.{Server, Endpoint, role_for, Request, Libraries, Response, State}
use pixrail_go_payment_switc.Api.Auth.{passed, answered, Checked-cases, token_of, auth_role}
use pixrail_go_payment_switc.Api.Handlers.{Answer, ready, handle, serve}

-- A role stands in a list.
pub data Listed (role : ApiKeyRole) : List ApiKeyRole → Type 0 where
  first : {rs : List ApiKeyRole} → Listed role (role ∷ rs)
  further : {r : ApiKeyRole} {rs : List ApiKeyRole} → Listed role rs → Listed role (r ∷ rs)

-- The role is one of those that a key lists; a key without a list has that of a tenant.
abbrev pub Holds : List ApiKeyRole → ApiKeyRole → Type 0
Holds [] role = role ≡ ApiKeyRole.role_tenant
Holds (r ∷ rs) role = Listed role (r ∷ rs)

role_eq_when : (q r : ApiKeyRole) → role_eq q r ≡ true → q ≡ r
unfolding role_eq
role_eq_when ApiKeyRole.role_tenant ApiKeyRole.role_tenant e = refl
role_eq_when ApiKeyRole.role_provider ApiKeyRole.role_provider e = refl
role_eq_when ApiKeyRole.role_risk ApiKeyRole.role_risk e = refl
role_eq_when ApiKeyRole.role_worker ApiKeyRole.role_worker e = refl
role_eq_when q r e = absurd (ground arith)

member-Listed : (role : ApiKeyRole) (rs : List ApiKeyRole) → member role rs ≡ true → Listed role rs
unfolding member
member-Listed role [] e = absurd (ground arith)
member-Listed role (r ∷ rs) e = elim (Bool-cases (role_eq r role)) [
  | inl same ↦ rw (role_eq_when r role same) Listed.first
  | inr other ↦ Listed.further (member-Listed role rs (ground arith))
]

has_role-Holds :
    (key : ApiKey) (role : ApiKeyRole) → has_role key role ≡ true → Holds key.roles role
unfolding has_role
has_role-Holds key role e = of_list key.roles e
  where
    of_list :
        (rs : List ApiKeyRole)
        → (elim rs [ [] ↦ role_eq role ApiKeyRole.role_tenant | r ∷ rs' ↦ member role (r ∷ rs') ])
          ≡ true
        → Holds rs role
    of_list [] e = role_eq_when role ApiKeyRole.role_tenant e
    of_list (r ∷ rs) e = member-Listed role (r ∷ rs) e

-- A key with the role, found under the request's token.
pub record IsAuthorized (s : Server) (role : ApiKeyRole) (r : Request) (key : ApiKey) : Type 0 where
  pub found : lookup (token_of r) s.keys ≡ some key
  pub has_it : Holds key.roles role

pub auth_role-IsAuthorized :
    (s : Server) (role : ApiKeyRole) (r : Request) (key : ApiKey)
    → auth_role s role r ≡ passed key
    → IsAuthorized s role r key
unfolding auth_role
auth_role-IsAuthorized s role r key h = elim (Option-cases (lookup (token_of r) s.keys)) [
  | inl missing ↦ ground arith
  | inr (k, found) ↦
      let it : k ≡ key = ground arith in
      record {
        found = found ∙ ap some it;
        has_it =
            has_role-Holds key role
              (subst (λ (q : ApiKey). has_role q role ≡ true) it (ground arith));
      }
]

-- An endpoint without a role leaves the state as it is.
pub open_endpoint-same :
    (env : Env) (lib : Libraries) (s : Server) (st : State) (endpoint : Endpoint) (r : Request)
    → role_for endpoint ≡ none
    → (serve env lib s st endpoint r).1 ≡ st
unfolding serve handle ready role_for
open_endpoint-same env lib s st Endpoint.health r h = refl
open_endpoint-same env lib s st Endpoint.ready r h =
    elim (Result-cases (Store.health (env.ctx 0))) [
      | inl (live, up) ↦ rw (up, ready) refl
      | inr (e, down) ↦ rw (down, ready) refl
    ]
open_endpoint-same env lib s st Endpoint.metrics_page r h = refl
open_endpoint-same env lib s st Endpoint.outbox r h = ground arith
open_endpoint-same env lib s st Endpoint.create_transfer r h = ground arith
open_endpoint-same env lib s st (Endpoint.get_transfer id) r h = ground arith
open_endpoint-same env lib s st (Endpoint.submit_to_spi id) r h = ground arith
open_endpoint-same env lib s st (Endpoint.record_review id) r h = ground arith
open_endpoint-same env lib s st (Endpoint.record_settlement id) r h = ground arith

pub serve-refused :
    (env : Env) (lib : Libraries) (s : Server) (st : State) (endpoint : Endpoint) (r : Request)
    (role : ApiKeyRole) (response : Response)
    → role_for endpoint ≡ some role
    → auth_role s role r ≡ answered response
    → serve env lib s st endpoint r ≡ (response, st)
unfolding serve
serve-refused env lib s st endpoint r role response asks refused =
    rw (asks, serve) (rw refused refl)

pub serve-passed :
    (env : Env) (lib : Libraries) (s : Server) (st : State) (endpoint : Endpoint) (r : Request)
    (role : ApiKeyRole) (key : ApiKey)
    → role_for endpoint ≡ some role
    → auth_role s role r ≡ passed key
    → serve env lib s st endpoint r ≡ handle env lib s st endpoint key.tenant_id r
unfolding serve
serve-passed env lib s st endpoint r role key asks let_in = rw (asks, serve) (rw let_in refl)

-- The role that each endpoint asks for, where it asks for one.
pub data Asks : Endpoint → ApiKeyRole → Type 0 where
  outbox : Asks Endpoint.outbox ApiKeyRole.role_tenant
  create_transfer : Asks Endpoint.create_transfer ApiKeyRole.role_tenant
  get_transfer : {id : Text} → Asks (Endpoint.get_transfer id) ApiKeyRole.role_tenant
  submit_to_spi : {id : Text} → Asks (Endpoint.submit_to_spi id) ApiKeyRole.role_worker
  record_review : {id : Text} → Asks (Endpoint.record_review id) ApiKeyRole.role_risk
  record_settlement : {id : Text} → Asks (Endpoint.record_settlement id) ApiKeyRole.role_provider

role_for-Asks :
    (endpoint : Endpoint) (role : ApiKeyRole) → role_for endpoint ≡ some role → Asks endpoint role
unfolding role_for
role_for-Asks Endpoint.health role e = absurd (ground arith)
role_for-Asks Endpoint.ready role e = absurd (ground arith)
role_for-Asks Endpoint.metrics_page role e = absurd (ground arith)
role_for-Asks Endpoint.outbox role e = subst (Asks Endpoint.outbox) (ground arith) Asks.outbox
role_for-Asks Endpoint.create_transfer role e =
    subst (Asks Endpoint.create_transfer) (ground arith) Asks.create_transfer
role_for-Asks (Endpoint.get_transfer id) role e =
    subst (Asks (Endpoint.get_transfer id)) (ground arith) Asks.get_transfer
role_for-Asks (Endpoint.submit_to_spi id) role e =
    subst (Asks (Endpoint.submit_to_spi id)) (ground arith) Asks.submit_to_spi
role_for-Asks (Endpoint.record_review id) role e =
    subst (Asks (Endpoint.record_review id)) (ground arith) Asks.record_review
role_for-Asks (Endpoint.record_settlement id) role e =
    subst (Asks (Endpoint.record_settlement id)) (ground arith) Asks.record_settlement

-- Who may have changed the state: a key with the endpoint's role, under a token that is not empty.
pub record IsEntitled (s : Server) (endpoint : Endpoint) (r : Request) : Type 0 where
  pub role : ApiKeyRole
  pub asks : Asks endpoint role
  pub key : ApiKey
  pub authorized : IsAuthorized s role r key
  pub token : token_of r ≢ []

-- When the server has the keys of a configuration that was loaded, a request that changes the
-- state goes to an endpoint that asks for a role, that of a worker for a submission, of risk for
-- a review, of a provider for a settlement and of a tenant for the others, and carries a token,
-- not empty, that leads to a key which holds this role.
pub changes_need_role :
    (settings : Surroundings) (c : Config) (env : Env) (lib : Libraries) (s : Server) (st : State)
    (endpoint : Endpoint) (r : Request)
    → load settings ≡ ok c
    → s.keys ≡ c.api_keys
    → (serve env lib s st endpoint r).1 ≢ st
    → IsEntitled s endpoint r
changes_need_role settings c env lib s st endpoint r loaded its_keys changed =
    elim (Option-cases (role_for endpoint)) [
      | inl is_open ↦ elim (changed (open_endpoint-same env lib s st endpoint r is_open)) [ ]
      | inr (role, asks) ↦ elim (Checked-cases (auth_role s role r)) [
        | inr (response, refused) ↦
            elim (changed (
              ap (λ (a : Answer). a.1)
                (serve-refused env lib s st endpoint r role response asks refused))) [ ]
        | inl (key, let_in) ↦
            let authorized = auth_role-IsAuthorized s role r key let_in in
            let keyed = (load-IsUsable settings c loaded).keyed in
            let found : lookup (token_of r) c.api_keys ≡ some key =
              rw (← its_keys) authorized.found in
            let (secret, it) = lookup-IsKeyed c.api_keys (token_of r) key keyed found in
            record {
              role = role;
              asks = role_for-Asks endpoint role asks;
              key = key;
              authorized = authorized;
              token = λ e. it.secret (secret ∙ e);
            }
      ]
    ]
