-- ===== src/Api/Handlers/Signed.antt =====
-- A settlement comes from a provider that has signed it: internal/api/server.go.
use pixrail_go_payment_switc.Prelude.{
  str, ◌++◌, not_empty, ◌^◌, ◌≤◌, ◌≡◌, ◌≢◌, refl, ap, ◌∙◌, subst, inl, inr, true, false,
  Option-cases, [], Text, is_empty, trim, text_eq, text_eq_iff, ℤ, pos, ◌-ℤ◌, ◌≤ℤ◌, some, length,
  arith,
}
use pixrail_go_payment_switc.Switch.{Env}
use pixrail_go_payment_switc.Config.{ApiKeyRole, ApiKey}
use pixrail_go_payment_switc.Api.{Server, Endpoint, role_for, Request, Libraries, Response, State}
use pixrail_go_payment_switc.Api.Auth.{
  passed, answered, Checked-cases, auth_role, read_body, provider_callback_signature,
  verify_signature, read_and_verify,
}
use pixrail_go_payment_switc.Api.Handlers.{Answer, settle_signed, record_settlement, handle, serve}
use pixrail_go_payment_switc.Api.Handlers.Entitled.{
  IsAuthorized, auth_role-IsAuthorized, serve-refused, serve-passed,
}

-- A body that was signed under the provider's secret, not too long ago and not too far ahead.
pub record IsSigned (lib : Libraries) (s : Server) (r : Request) (raw : Text) : Type 0 where
  pub body : r.body ≡ some raw
  pub size : length raw ≤ 2 ^ 20
  pub secret : trim s.security.provider_callback_secret ≢ []
  pub epoch : ℤ
  pub stamped : lib.parse_int (trim r.timestamp) ≡ some epoch
  pub not_late : lib.since_epoch lib.now epoch ≤ℤ s.security.signature_tolerance
  pub not_ahead : pos 0 -ℤ s.security.signature_tolerance ≤ℤ lib.since_epoch lib.now epoch
  pub signed :
      trim r.signature
      ≡ str "sha256="
        ++ lib.hmac
            (trim s.security.provider_callback_secret)
            (trim r.timestamp ++ (str "." ++ raw))

read_body-within :
    (r : Request) (raw : Text)
    → read_body r ≡ some raw
    → (r.body ≡ some raw) × (length raw ≤ 2 ^ 20)
unfolding read_body
read_body-within r raw h = elim (Option-cases r.body) [
  | inl missing ↦ ground arith
  | inr (b, there) ↦
      let it : b ≡ raw = ground arith in
      (there ∙ ap some it, subst (λ (t : Text). length t ≤ 2 ^ 20) it (ground arith))
]

verify_signature-IsSigned :
    (lib : Libraries) (s : Server) (r : Request) (b raw : Text)
    → read_body r ≡ some b
    → verify_signature lib s.security r b ≡ passed raw
    → IsSigned lib s r raw
unfolding verify_signature provider_callback_signature
verify_signature-IsSigned lib s r b raw there h =
    let secret = trim s.security.provider_callback_secret in
    let expected = provider_callback_signature lib secret (trim r.timestamp) in
    let given : is_empty secret ≡ false = ground arith in
    elim (Option-cases (lib.parse_int (trim r.timestamp))) [
      | inl unreadable ↦ ground arith
      | inr (epoch, stamped) ↦
          let it : b ≡ raw = ground arith in
          let equal : text_eq (trim r.signature) (expected b) ≡ true = ground arith in
          let within = read_body-within r b there in
          subst (IsSigned lib s r) it (record {
            body = within.0;
            size = within.1;
            secret = not_empty secret given;
            epoch = epoch;
            stamped = stamped;
            not_late = ground arith;
            not_ahead = ground arith;
            signed = (text_eq_iff (trim r.signature) (expected b)).0 equal;
          })
    ]

read_and_verify-IsSigned :
    (lib : Libraries) (s : Server) (r : Request) (raw : Text)
    → read_and_verify lib s r ≡ passed raw
    → IsSigned lib s r raw
unfolding read_and_verify
read_and_verify-IsSigned lib s r raw h = elim (Option-cases (read_body r)) [
  | inl missing ↦ ground arith
  | inr (b, there) ↦ verify_signature-IsSigned lib s r b raw there (ground arith)
]

pub handle-verified :
    (env : Env) (lib : Libraries) (s : Server) (st : State) (id : Text) (r : Request)
    (raw tenant_id : Text)
    → read_and_verify lib s r ≡ passed raw
    → record_settlement env lib s st tenant_id id r ≡ settle_signed env lib st tenant_id id r raw
unfolding record_settlement
handle-verified env lib s st id r raw tenant_id verified = rw (verified, record_settlement) refl

pub handle-refused :
    (env : Env) (lib : Libraries) (s : Server) (st : State) (id : Text) (r : Request)
    (response : Response) (tenant_id : Text)
    → read_and_verify lib s r ≡ answered response
    → record_settlement env lib s st tenant_id id r ≡ (response, st)
unfolding record_settlement
handle-refused env lib s st id r response tenant_id refused = rw (refused, record_settlement) refl

-- The payload that is carried out is decoded from the bytes that were signed.
pub record IsCarriedOut (env : Env) (lib : Libraries) (s : Server) (st : State) (id : Text)
    (r : Request) : Type 0 where
  pub key : ApiKey
  pub authorized : IsAuthorized s ApiKeyRole.role_provider r key
  pub raw : Text
  pub signed : IsSigned lib s r raw
  pub answer :
      serve env lib s st (Endpoint.record_settlement id) r
      ≡ settle_signed env lib st key.tenant_id id r raw

-- A settlement that changes the state comes under a provider's key, with a body of 2 ^ 20 bytes
-- at most whose signature is the HMAC of the timestamp, a dot and the body under a secret that is
-- not empty, the timestamp within the tolerance; and what is carried out is decoded from the
-- signed bytes.
pub settlement_signed :
    (env : Env) (lib : Libraries) (s : Server) (st : State) (id : Text) (r : Request)
    → (serve env lib s st (Endpoint.record_settlement id) r).1 ≢ st
    → IsCarriedOut env lib s st id r
settlement_signed env lib s st id r changed =
    let role = ApiKeyRole.role_provider in
    let asks : role_for (Endpoint.record_settlement id) ≡ some role = unfold role_for in refl in
    elim (Checked-cases (auth_role s role r)) [
      | inr (response, refused) ↦
          elim (changed (
            ap (λ (a : Answer). a.1)
              (serve-refused env lib s st (Endpoint.record_settlement id) r role response asks
                refused))) [ ]
      | inl (key, let_in) ↦
          let served =
            serve-passed env lib s st (Endpoint.record_settlement id) r role key asks let_in in
          elim (Checked-cases (read_and_verify lib s r)) [
            | inr (response, refused) ↦
                let same : serve env lib s st (Endpoint.record_settlement id) r ≡ (response, st) =
                  served
                  ∙ unfold handle in
                    handle-refused env lib s st id r response key.tenant_id refused in
                elim (changed (ap (λ (a : Answer). a.1) same)) [ ]
            | inl (raw, verified) ↦ record {
              key = key;
              authorized = auth_role-IsAuthorized s role r key let_in;
              raw = raw;
              signed = read_and_verify-IsSigned lib s r raw verified;
              answer =
                  served
                  ∙ unfold handle in handle-verified env lib s st id r raw key.tenant_id verified;
            }
          ]
    ]
