-- ===== src/Config/Keys.antt =====
-- The list of API keys in internal/config/config.go: `tenant_id:secret[:role|role]`, with commas.
pub mod Apart
use pixrail_go_payment_switc.Prelude.{
  ℕ, zero, suc, Bool, true, false, ◌||◌, ◌==◌, List, [], ◌∷◌, ◌++◌, Text, str, is_empty, trim,
  text_eq, Map, lookup, insert, Option, none, some, if◌then◌else◌, Result, ok, err, Error, ◌>>=◌,
  plain_error,
}
use pixrail_go_payment_switc.Config.{ApiKeyRole, ApiKey}

-- `strings.Split` at a byte.
abbrev head_on : ℕ → List Text → List Text
head_on x [] = (x ∷ []) ∷ []
head_on x (s ∷ ss) = (x ∷ s) ∷ ss

unfoldable pub split : ℕ → Text → List Text
split sep [] = [] ∷ []
split sep (x ∷ s) = if x == sep then [] ∷ split sep s else head_on x (split sep s)

-- What stands before the first such byte, and what after it, when there is one.
unfoldable pub cut : ℕ → Text → Text × Option Text
cut sep [] = ([], none)
cut sep (x ∷ s) = let rest = cut sep s in if x == sep then ([], some s) else (x ∷ rest.0, rest.1)

-- `strings.SplitN` into one piece more than the number.
unfoldable pub split_n : ℕ → ℕ → Text → List Text
unfolding cut
split_n zero sep s = s ∷ []
split_n (suc n) sep s = elim (cut sep s).1 [
  | none ↦ (cut sep s).0 ∷ []
  | some rest ↦ (cut sep s).0 ∷ split_n n sep rest
]

unfoldable pub role_named : Text → Option ApiKeyRole
role_named s =
    if text_eq s (str "tenant")
    then some ApiKeyRole.role_tenant
    else if text_eq s (str "worker")
    then some ApiKeyRole.role_worker
    else if text_eq s (str "risk")
    then some ApiKeyRole.role_risk
    else if text_eq s (str "provider")
    then some ApiKeyRole.role_provider
    else none

module _ (quote : Text → Text) where
  -- The loop of `parseRoles`.
  unfoldable pub read_roles : List Text → Result (List ApiKeyRole)
  unfolding role_named
  read_roles [] = ok []
  read_roles (s ∷ ss) = elim (role_named (trim s)) [
    | none ↦ err (plain_error (str "invalid PIXRAIL_API_KEYS role " ++ quote s))
    | some role ↦ read_roles ss >>= λ roles. ok (role ∷ roles)
  ]

  unfoldable pub parse_roles : Text → Result (List ApiKeyRole)
  unfolding split read_roles
  parse_roles raw = do
    roles ← read_roles (split b'|' raw)
    elim roles [
      | [] ↦ err (plain_error (str "PIXRAIL_API_KEYS role list cannot be empty"))
      | r ∷ rs ↦ ok (r ∷ rs)
    ]

  abbrev invalid_entry : Text → Result ApiKey
  invalid_entry pair = err (
      plain_error (
        str "invalid PIXRAIL_API_KEYS entry "
        ++ (quote pair ++ str ", expected tenant_id:secret[:role|role]")))

  -- A pass of the loop of `parseAPIKeys`, up to the test for a duplicate.
  unfoldable pub read_parts : Text → List Text → Result ApiKey
  unfolding parse_roles
  read_parts pair (tenant_id ∷ secret ∷ []) =
      if is_empty (trim tenant_id) || is_empty (trim secret)
      then invalid_entry pair
      else ok (record {
        tenant_id = trim tenant_id;
        secret = trim secret;
        roles = ApiKeyRole.role_tenant ∷ [];
      })
  read_parts pair (tenant_id ∷ secret ∷ roles ∷ []) =
      if is_empty (trim tenant_id) || (is_empty (trim secret) || is_empty (trim roles))
      then invalid_entry pair
      else (parse_roles roles >>= λ rs.
          ok (record { tenant_id = trim tenant_id; secret = trim secret; roles = rs }))
  read_parts pair _ = invalid_entry pair

  unfoldable pub read_entry : Text → Result ApiKey
  unfolding split_n read_parts
  read_entry pair = read_parts pair (split_n 2 b':' (trim pair))

  unfoldable pub add_key : Map ApiKey → ApiKey → Result (Map ApiKey)
  add_key keys key = elim (lookup key.secret keys) [
    | none ↦ ok (insert key.secret key keys)
    | some _ ↦
        err
          (plain_error (str "duplicate PIXRAIL_API_KEYS secret for tenant " ++ quote key.tenant_id))
  ]

  unfoldable pub read_entries : Map ApiKey → List Text → Result (Map ApiKey)
  unfolding read_entry add_key
  read_entries keys [] = ok keys
  read_entries keys (pair ∷ pairs) = do
    key ← read_entry pair
    more ← add_key keys key
    read_entries more pairs

  -- `parseAPIKeys`
  unfoldable pub parse_api_keys : Text → Result (Map ApiKey)
  unfolding split read_entries
  parse_api_keys raw =
      if is_empty (trim raw) then ok [] else read_entries [] (split b',' (trim raw))
