-- ===== src/Api/Auth.antt =====
-- `authRole` and `readAndVerifyProviderCallback` in internal/api/server.go.
use pixrail_go_payment_switc.Prelude.{
  ◌^◌, ◌≡◌, refl, ◌⊎◌, inl, inr, ◌||◌, not, [], ◌∷◌, ◌++◌, Text, str, is_empty, trim, text_eq, pos,
  ◌-ℤ◌, ltb, ltb_ℤ, length, lookup, Option, none, some, if◌then◌else◌, ◌==◌,
}
use pixrail_go_payment_switc.Config.{ApiKeyRole, ApiKey, has_role}
use pixrail_go_payment_switc.Api.{Server, SecurityConfig, Request, Libraries, Response, write_error}

-- A step of a handler goes on with a value, or has written a response.
pub data Checked {ℓ} (A : Type ℓ) : Type ℓ where
  passed : A → Checked A
  answered : Response → Checked A

pub Checked-cases {ℓ} :
    {A : Type ℓ} (c : Checked A)
    → ((a : A) × (c ≡ passed a)) ⊎ ((response : Response) × (c ≡ answered response))
Checked-cases (passed a) = inl (a, refl)
Checked-cases (answered response) = inr (response, refl)

-- `strings.TrimPrefix`
unfoldable pub after_prefix : Text → Text → Option Text
after_prefix [] s = some s
after_prefix (p ∷ ps) [] = none
after_prefix (p ∷ ps) (x ∷ s) = let rest = after_prefix ps s in if p == x then rest else none

unfoldable pub trim_prefix : Text → Text → Text
unfolding after_prefix
trim_prefix s prefix = elim (after_prefix prefix s) [ none ↦ s | some rest ↦ rest ]

-- The token of a request: that of the Authorization header, else that of X-API-Key.
unfoldable pub token_of : Request → Text
unfolding trim_prefix
token_of r =
    let token = trim_prefix r.authorization (str "Bearer ") in
    if is_empty token then r.api_key else token

-- `authRole`, up to the call of the next handler.
unfoldable pub auth_role : Server → ApiKeyRole → Request → Checked ApiKey
unfolding token_of
auth_role s role r = elim (lookup (token_of r) s.keys) [
  | none ↦ answered (write_error 401 (str "unauthorized") (str "valid API key is required"))
  | some key ↦
      if not (has_role key role)
      then answered
          (write_error 403 (str "forbidden") (str "API key is not allowed to access this endpoint"))
      else passed key
]

-- `io.ReadAll(http.MaxBytesReader(w, r.Body, 1<<20))`
unfoldable pub read_body : Request → Option Text
read_body r = elim r.body [
  | none ↦ none
  | some raw ↦ if ltb (2 ^ 20) (length raw) then none else some raw
]

-- `providerCallbackSignature`
unfoldable pub provider_callback_signature : Libraries → Text → Text → Text → Text
provider_callback_signature lib secret timestamp body =
    str "sha256=" ++ lib.hmac secret (timestamp ++ (str "." ++ body))

abbrev refuse : Text → Checked Text
refuse message = answered (write_error 401 (str "unauthorized") message)

-- The tests on the signature of a body that has been read.
unfoldable pub verify_signature : Libraries → SecurityConfig → Request → Text → Checked Text
unfolding provider_callback_signature
verify_signature lib security r raw =
    let secret = trim security.provider_callback_secret in
    let timestamp = trim r.timestamp in
    let signature = trim r.signature in
    if is_empty secret
    then refuse (str "provider callback signature is required")
    else if is_empty timestamp || is_empty signature
    then refuse (str "provider callback signature is required")
    else elim (lib.parse_int timestamp) [
      | none ↦ refuse (str "provider callback timestamp is invalid")
      | some epoch ↦
          let delta = lib.since_epoch lib.now epoch in
          if ltb_ℤ security.signature_tolerance delta
            || ltb_ℤ delta (pos 0 -ℤ security.signature_tolerance)
          then refuse (str "provider callback timestamp is outside tolerance")
          else if not (text_eq signature (provider_callback_signature lib secret timestamp raw))
          then refuse (str "provider callback signature is invalid")
          else passed raw
    ]

-- `readAndVerifyProviderCallback`
unfoldable pub read_and_verify : Libraries → Server → Request → Checked Text
unfolding read_body verify_signature
read_and_verify lib s r = elim (read_body r) [
  | none ↦
      answered
        (write_error 400 (str "invalid_json") (str "request body is too large or unreadable"))
  | some raw ↦ verify_signature lib s.security r raw
]
