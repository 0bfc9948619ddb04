-- ===== src/Config/Load/Sound.antt =====
-- What a configuration that internal/config/config.go loads can be relied on for.
use pixrail_go_payment_switc.Prelude.{
  not_empty, lookup, some, ◌≡◌, ◌≢◌, refl, ◌∙◌, subst, Bool, true, false, ◌&&◌, not, [], ◌∷◌, Text,
  str, is_empty, text_eq, text_eq_iff, Map, ok, then-Returns, All, ◌⊎◌, ok-Returns, Returns-of_ok,
  Returns, arith,
}
use pixrail_go_payment_switc.Store.{scoped}
use pixrail_go_payment_switc.Config.{ApiKeyRole, ApiKey, Config}
use pixrail_go_payment_switc.Config.Keys.{parse_api_keys}
use pixrail_go_payment_switc.Config.Keys.Apart.{
  IsKeyed, lookup-IsKeyed, scoped_apart, parse_api_keys-IsKeyed,
}
use pixrail_go_payment_switc.Config.Load.{
  Surroundings, is_production, demo_key, demo_keys, keys_or_demo, check_settings, load,
}
use pixrail_go_payment_switc.Config.Load.Range.{InRange, read_settings-InRange, InRange-with_keys}

demo_key-IsKeyed :
    (secret : Text) (role : ApiKeyRole) → secret ≢ [] → IsKeyed (secret, demo_key secret role)
unfolding demo_key str
demo_key-IsKeyed secret role h = (
  refl,
  record {
    tenant = λ e. ground (arith, e);
    secret = h;
    roles = λ e. ground (arith, e);
    free =
        (refl, (refl, (refl, (refl, (refl, (refl, (refl, (refl, (refl, (refl, (refl, tt)))))))))));
  },
)

demo_keys-IsKeyed : All IsKeyed demo_keys
unfolding demo_keys str
demo_keys-IsKeyed = (
  demo_key-IsKeyed _ ApiKeyRole.role_tenant (λ e. ground (arith, e)),
  (
    demo_key-IsKeyed _ ApiKeyRole.role_worker (λ e. ground (arith, e)),
    (
      demo_key-IsKeyed _ ApiKeyRole.role_risk (λ e. ground (arith, e)),
      (demo_key-IsKeyed _ ApiKeyRole.role_provider (λ e. ground (arith, e)), tt),
    ),
  ),
)

some_demo_key : demo_keys ≢ []
unfolding demo_keys
some_demo_key e = ground (arith, e)

-- Keys to begin with: there are some, each is one, and those that must be given are.
record AreGiven (env : Surroundings) (required : Bool) (keys : Map ApiKey) : Type 0 where
  some_key : keys ≢ []
  keyed : All IsKeyed keys
  given : required ≡ true → parse_api_keys env.quote (env.getenv (str "PIXRAIL_API_KEYS")) ≡ ok keys

keys_or_demo-AreGiven :
    (env : Surroundings) (required : Bool) (keys : Map ApiKey)
    → All IsKeyed keys
    → parse_api_keys env.quote (env.getenv (str "PIXRAIL_API_KEYS")) ≡ ok keys
    → Returns (AreGiven env required) (keys_or_demo required keys)
unfolding keys_or_demo
keys_or_demo-AreGiven env true [] h parsed = record { holds = tt }
keys_or_demo-AreGiven env false [] h parsed = record {
  holds = record {
    some_key = some_demo_key;
    keyed = demo_keys-IsKeyed;
    given = λ e. ground (arith, e);
  };
}
keys_or_demo-AreGiven env required (k ∷ ks) h parsed = record {
  holds = record { some_key = λ e. ground (arith, e); keyed = h; given = λ _. parsed };
}

-- What holds of every configuration that is loaded.
pub record IsUsable (c : Config) : Type 0 where
  pub in_range : InRange c
  pub some_key : c.api_keys ≢ []
  pub keyed : All IsKeyed c.api_keys
  pub driver : (c.store_driver ≡ str "memory") ⊎ (c.store_driver ≡ str "postgres")
  pub exporter : (c.tracing_exporter ≡ str "none") ⊎ (c.tracing_exporter ≡ str "stdout")

-- What holds of one for production besides.
pub record IsHardened (env : Surroundings) (c : Config) : Type 0 where
  pub keys : parse_api_keys env.quote (env.getenv (str "PIXRAIL_API_KEYS")) ≡ ok c.api_keys
  pub secret : c.provider_callback_secret ≢ []
  pub driver : c.store_driver ≡ str "postgres"
  pub database : c.database_url ≢ []

record IsLoaded (env : Surroundings) (c : Config) : Type 0 where
  usable : IsUsable c
  hardened : c.environment ≡ str "production" → IsHardened env c

one_of : (s a b : Text) → (not (text_eq s a) && not (text_eq s b)) ≡ false → (s ≡ a) ⊎ (s ≡ b)
one_of s a b h = ground (arith, text_eq_iff s a, text_eq_iff s b)

-- The tests that a configuration has passed.
record Passes (c : Config) (keys : Map ApiKey) (d : Config) : Type 0 where
  it : record c { api_keys = keys } ≡ d
  secret : (c.require_configured_secrets && is_empty c.provider_callback_secret) ≡ false
  driver :
      (not (text_eq c.store_driver (str "memory")) && not (text_eq c.store_driver (str "postgres")))
      ≡ false
  database : (text_eq c.store_driver (str "postgres") && is_empty c.database_url) ≡ false
  production :
      (is_production c.environment && not (text_eq c.store_driver (str "postgres"))) ≡ false
  exporter :
      (not (text_eq c.tracing_exporter (str "none"))
        && not (text_eq c.tracing_exporter (str "stdout")))
      ≡ false

check_settings-Passes :
    (c : Config) (keys : Map ApiKey) (d : Config) → check_settings c keys ≡ ok d → Passes c keys d
unfolding check_settings
check_settings-Passes c keys d h = record {
  it = ground arith;
  secret = ground arith;
  driver = ground arith;
  database = ground arith;
  production = ground arith;
  exporter = ground arith;
}

Passes-IsLoaded :
    (env : Surroundings) (c : Config) (keys : Map ApiKey) (d : Config)
    → InRange c
    → AreGiven env c.require_configured_secrets keys
    → Passes c keys d
    → IsLoaded env d
unfolding is_production
Passes-IsLoaded env c keys d h g p = subst (IsLoaded env) p.it (record {
  usable = record {
    in_range = InRange-with_keys c keys h;
    some_key = g.some_key;
    keyed = g.keyed;
    driver = one_of c.store_driver (str "memory") (str "postgres") p.driver;
    exporter = one_of c.tracing_exporter (str "none") (str "stdout") p.exporter;
  };
  hardened = λ e.
      let required : c.require_configured_secrets ≡ true =
        h.marked ∙ (text_eq_iff c.environment (str "production")).1 e in
      let production : is_production c.environment ≡ true =
        (text_eq_iff c.environment (str "production")).1 e in
      let passed = p.production in
      let with_secret = p.secret in
      let with_database = p.database in
      let driven : text_eq c.store_driver (str "postgres") ≡ true = ground arith in
      record {
        keys = g.given required;
        secret = not_empty c.provider_callback_secret (ground arith);
        driver = (text_eq_iff c.store_driver (str "postgres")).0 driven;
        database = not_empty c.database_url (ground arith);
      };
})

load-IsLoaded : (env : Surroundings) → Returns (IsLoaded env) (load env)
unfolding load
load-IsLoaded env =
    let given = env.getenv (str "PIXRAIL_API_KEYS") in
    let keyed = parse_api_keys-IsKeyed env.quote given in
    then-Returns (read_settings-InRange env) (λ c h.
      then-Returns
        (Returns-of_ok {P = λ ks. All IsKeyed ks × (parse_api_keys env.quote given ≡ ok ks)}
          (parse_api_keys env.quote given) (λ ks parsed. (ok-Returns keyed parsed, parsed)))
        (λ parsed found.
          then-Returns
            (keys_or_demo-AreGiven env c.require_configured_secrets parsed found.0 found.1)
            (λ keys g. Returns-of_ok (check_settings c keys) (λ d passed.
              Passes-IsLoaded env c keys d h g (check_settings-Passes c keys d passed)))))

pub load-IsUsable : (env : Surroundings) (c : Config) → load env ≡ ok c → IsUsable c
load-IsUsable env c done = (ok-Returns (load-IsLoaded env) done).usable

-- A configuration for production.
pub record IsForProduction (env : Surroundings) (c : Config) : Type 0 where
  pub usable : IsUsable c
  pub hardened : IsHardened env c

-- A configuration that is loaded for production has the keys that the environment lists, at least
-- one, each with a tenant, a role and a secret of its own under which it stands; a callback
-- secret, PostgreSQL with a database, a known tracing exporter, and every number at least at its
-- minimum.
pub load-IsForProduction :
    (env : Surroundings) (c : Config)
    → load env ≡ ok c
    → c.environment ≡ str "production"
    → IsForProduction env c
load-IsForProduction env c done production = record {
  usable = load-IsUsable env c done;
  hardened = (ok-Returns (load-IsLoaded env) done).hardened production;
}

-- The tenants of two keys of a configuration that was loaded share no scoped key of the store,
-- neither of idempotency nor of callbacks, unless they are one tenant and the key is the same.
pub tenants_apart :
    (env : Surroundings) (c : Config) (secret other_secret : Text) (key other : ApiKey) (a b : Text)
    → load env ≡ ok c
    → lookup secret c.api_keys ≡ some key
    → lookup other_secret c.api_keys ≡ some other
    → scoped key.tenant_id a ≡ scoped other.tenant_id b
    → (key.tenant_id ≡ other.tenant_id) × (a ≡ b)
tenants_apart env c secret other_secret key other a b done found found' same =
    let keyed = (load-IsUsable env c done).keyed in
    let (s, it) = lookup-IsKeyed c.api_keys secret key keyed found in
    let (s', it') = lookup-IsKeyed c.api_keys other_secret other keyed found' in
    scoped_apart key.tenant_id other.tenant_id a b it.free it'.free same
