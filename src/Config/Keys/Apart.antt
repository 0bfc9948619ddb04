-- ===== src/Config/Keys/Apart.antt =====
-- What the list of API keys in internal/config/config.go comes to: every key has a tenant, a secret
-- and a role, and no tenant has a colon, with which the store separates a tenant from what is its.
use pixrail_go_payment_switc.Prelude.{
  not_empty, ℕ, suc, ◌≡◌, ◌≢◌, refl, sym, ap, ◌∙◌, subst, false, ◌||◌, ◌==◌, List, [], ◌∷◌, Text,
  str, is_empty, trim, text_eq, text_eq_iff, Map, lookup, insert, Option, some, Result, ok, err,
  plain_error, then-Returns, any-Returns, if-Returns, All-trim, Returns, All, arith, Bool-cases,
  inl, inr, Option-cases,
}
use pixrail_go_payment_switc.Store.{scoped}
use pixrail_go_payment_switc.Config.{ApiKeyRole, ApiKey}
use pixrail_go_payment_switc.Config.Keys.{
  split, cut, split_n, read_roles, parse_roles, read_parts, read_entry, add_key, read_entries,
  parse_api_keys,
}

-- No byte of the text is this one.
abbrev pub IsFree : ℕ → Text → Type 0
IsFree sep s = All (λ b. (b == sep) ≡ false) s

cut-IsFree : (sep : ℕ) (s : Text) → IsFree sep (cut sep s).0
unfolding cut
cut-IsFree sep [] = tt
cut-IsFree sep (x ∷ s) =
    let rest = cut-IsFree sep s in
    elim (Bool-cases (x == sep)) [ inl here ↦ rw here tt | inr later ↦ rw later (later, rest) ]

-- A tenant without a colon can be told from what follows.
cut-scoped :
    (tenant_id key : Text)
    → IsFree b':' tenant_id
    → cut b':' (scoped tenant_id key) ≡ (tenant_id, some key)
unfolding cut scoped
cut-scoped [] key h = refl
cut-scoped (x ∷ tenant_id) key h = let rest = cut-scoped tenant_id key h.1 in rw (h.0, rest) refl

pub scoped_apart :
    (tenant_id other_id key other_key : Text)
    → IsFree b':' tenant_id
    → IsFree b':' other_id
    → scoped tenant_id key ≡ scoped other_id other_key
    → (tenant_id ≡ other_id) × (key ≡ other_key)
scoped_apart tenant_id other_id key other_key h k same =
    let both =
      sym (cut-scoped tenant_id key h) ∙ (ap (cut b':') same ∙ cut-scoped other_id other_key k) in
    (
      ap (λ (p : Text × Option Text). p.0) both,
      ground (arith, ap (λ (p : Text × Option Text). p.1) both),
    )

-- What a key must be.
pub record IsApiKey (key : ApiKey) : Type 0 where
  pub tenant : key.tenant_id ≢ []
  pub secret : key.secret ≢ []
  pub roles : key.roles ≢ []
  pub free : IsFree b':' key.tenant_id

parse_roles-some :
    (quote : Text → Text) (raw : Text) → Returns (λ roles. roles ≢ []) (parse_roles quote raw)
unfolding parse_roles
parse_roles-some quote raw =
    then-Returns (any-Returns (read_roles quote (split b'|' raw))) (λ roles _. some_left roles)
  where
    some_left :
        (roles : List ApiKeyRole)
        → Returns
            (λ (rs : List ApiKeyRole). rs ≢ [])
            (elim roles as (λ _. Result (List ApiKeyRole)) [
              | [] ↦ err (plain_error (str "PIXRAIL_API_KEYS role list cannot be empty"))
              | r ∷ rs ↦ ok (r ∷ rs)
            ])
    some_left [] = record { holds = tt }
    some_left (r ∷ rs) = record { holds = λ e. ground (arith, e) }

HeadIsFree : List Text → Type 0
HeadIsFree [] = Unit
HeadIsFree (p ∷ ps) = IsFree b':' p

read_parts-IsApiKey :
    (quote : Text → Text) (pair : Text) (parts : List Text)
    → HeadIsFree parts
    → Returns IsApiKey (read_parts quote pair parts)
unfolding read_parts HeadIsFree
read_parts-IsApiKey quote pair [] h = record { holds = tt }
read_parts-IsApiKey quote pair (t ∷ []) h = record { holds = tt }
read_parts-IsApiKey quote pair (t ∷ s ∷ []) h =
    if-Returns (is_empty (trim t) || is_empty (trim s)) (λ _. record { holds = tt })
      (λ given. record {
        holds = record {
          tenant = not_empty (trim t) (ground arith);
          secret = not_empty (trim s) (ground arith);
          roles = λ e. ground (arith, e);
          free = All-trim (λ b. (b == b':') ≡ false) t h;
        };
      })
read_parts-IsApiKey quote pair (t ∷ s ∷ r ∷ []) h =
    if-Returns (is_empty (trim t) || (is_empty (trim s) || is_empty (trim r)))
      (λ _. record { holds = tt })
      (λ given. then-Returns (parse_roles-some quote r) (λ roles has_some. record {
        holds = record {
          tenant = not_empty (trim t) (ground arith);
          secret = not_empty (trim s) (ground arith);
          roles = has_some;
          free = All-trim (λ b. (b == b':') ≡ false) t h;
        };
      }))
read_parts-IsApiKey quote pair (t ∷ s ∷ r ∷ x ∷ xs) h = record { holds = tt }

split_n-HeadIsFree : (n : ℕ) (s : Text) → HeadIsFree (split_n (suc n) b':' s)
unfolding split_n HeadIsFree
split_n-HeadIsFree n s = elim (Option-cases (cut b':' s).1) [
  | inl whole ↦ rw (whole, HeadIsFree, split_n) (cut-IsFree b':' s)
  | inr (rest, found) ↦ rw (found, HeadIsFree, split_n) (cut-IsFree b':' s)
]

read_entry-IsApiKey : (quote : Text → Text) (pair : Text) → Returns IsApiKey (read_entry quote pair)
unfolding read_entry
read_entry-IsApiKey quote pair =
    read_parts-IsApiKey quote pair (split_n 2 b':' (trim pair)) (split_n-HeadIsFree 1 (trim pair))

-- Every entry of the map is a key under its secret.
abbrev pub IsKeyed : Text × ApiKey → Type 0
IsKeyed entry = (entry.0 ≡ entry.1.secret) × IsApiKey entry.1

insert-IsKeyed :
    (key : ApiKey) (keys : Map ApiKey)
    → IsApiKey key
    → All IsKeyed keys
    → All IsKeyed (insert key.secret key keys)
unfolding insert
insert-IsKeyed key [] h all = ((refl, h), tt)
insert-IsKeyed key ((s, k) ∷ keys) h all =
    let rest = insert-IsKeyed key keys h all.1 in
    elim (Bool-cases (text_eq s key.secret)) [
      | inl same ↦ rw same ((refl, h), all.1)
      | inr other ↦ rw other (all.0, rest)
    ]

add_key-IsKeyed :
    (quote : Text → Text) (keys : Map ApiKey) (key : ApiKey)
    → IsApiKey key
    → All IsKeyed keys
    → Returns (All IsKeyed) (add_key quote keys key)
unfolding add_key
add_key-IsKeyed quote keys key h all = elim (Option-cases (lookup key.secret keys)) [
  | inl new ↦ rw (new, add_key) (record { holds = insert-IsKeyed key keys h all })
  | inr (old, found) ↦ rw (found, add_key) (record { holds = tt })
]

read_entries-IsKeyed :
    (quote : Text → Text) (keys : Map ApiKey) (pairs : List Text)
    → All IsKeyed keys
    → Returns (All IsKeyed) (read_entries quote keys pairs)
unfolding read_entries
read_entries-IsKeyed quote keys [] all = record { holds = all }
read_entries-IsKeyed quote keys (pair ∷ pairs) all =
    then-Returns (read_entry-IsApiKey quote pair) (λ key h.
      then-Returns (add_key-IsKeyed quote keys key h all)
        (λ more all'. read_entries-IsKeyed quote more pairs all'))

pub parse_api_keys-IsKeyed :
    (quote : Text → Text) (raw : Text) → Returns (All IsKeyed) (parse_api_keys quote raw)
unfolding parse_api_keys
parse_api_keys-IsKeyed quote raw =
    if-Returns (is_empty (trim raw)) (λ _. record { holds = tt })
      (λ _. read_entries-IsKeyed quote [] (split b',' (trim raw)) tt)

-- A key that is found is a key, and the one with that secret.
pub lookup-IsKeyed :
    (keys : Map ApiKey) (secret : Text) (key : ApiKey)
    → All IsKeyed keys
    → lookup secret keys ≡ some key
    → (key.secret ≡ secret) × IsApiKey key
unfolding lookup
lookup-IsKeyed [] secret key all found = ground arith
lookup-IsKeyed ((s, k) ∷ keys) secret key all found = elim (Bool-cases (text_eq s secret)) [
  | inl same ↦
      let it : k ≡ key = ground arith in
      subst (λ (q : ApiKey). (q.secret ≡ secret) × IsApiKey q) it
        (sym all.0.0 ∙ (text_eq_iff s secret).0 same, all.0.1)
  | inr other ↦
      let later : lookup secret keys ≡ some key = ground arith in
      lookup-IsKeyed keys secret key all.1 later
]
