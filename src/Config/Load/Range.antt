-- ===== src/Config/Load/Range.antt =====
-- The numbers of a configuration that internal/config/config.go loads.
use pixrail_go_payment_switc.Prelude.{
  ◌≡◌, refl, Text, trim, ℤ, pos, ◌≤ℤ◌, Map, then-Returns, Returns, Result-cases, inl, inr, arith,
}
use pixrail_go_payment_switc.Config.{ApiKey, Config}
use pixrail_go_payment_switc.Config.Load.{
  Surroundings, int_at_least, duration_at_least, is_production, read_settings,
}

int_at_least-low :
    (env : Surroundings) (key : Text) (fallback low : ℤ)
    → low ≤ℤ fallback
    → Returns (◌≤ℤ◌ low) (int_at_least env key fallback low)
unfolding int_at_least
int_at_least-low env key fallback low h = elim (Result-cases (env.atoi (trim (env.getenv key)))) [
  | inl (n, parsed) ↦ record { holds = ground arith }
  | inr (e, failing) ↦ record { holds = ground arith }
]

duration_at_least-low :
    (env : Surroundings) (key : Text) (fallback low : ℤ)
    → low ≤ℤ fallback
    → Returns (◌≤ℤ◌ low) (duration_at_least env key fallback low)
unfolding duration_at_least
duration_at_least-low env key fallback low h =
    elim (Result-cases (env.parse_duration (trim (env.getenv key)))) [
      | inl (n, parsed) ↦ record { holds = ground arith }
      | inr (e, failing) ↦ record { holds = ground arith }
    ]

-- The numbers are at least what they must be, and production is marked.
pub record InRange (c : Config) : Type 0 where
  pub postgres_min_conns : pos 0 ≤ℤ c.postgres_min_conns
  pub postgres_max_conns : pos 1 ≤ℤ c.postgres_max_conns
  pub postgres_max_conn_lifetime : pos 1 ≤ℤ c.postgres_max_conn_lifetime
  pub tenant_bucket_size : pos 1 ≤ℤ c.tenant_bucket_size
  pub dict_bucket_size : pos 1 ≤ℤ c.dict_bucket_size
  pub dict_timeout : pos 1 ≤ℤ c.dict_timeout
  pub worker_batch_size : pos 1 ≤ℤ c.worker_batch_size
  pub worker_interval : pos 1 ≤ℤ c.worker_interval
  pub provider_signature_tolerance : pos 1 ≤ℤ c.provider_signature_tolerance
  pub shutdown_timeout : pos 1 ≤ℤ c.shutdown_timeout
  pub marked : c.require_configured_secrets ≡ is_production c.environment

pub read_settings-InRange : (env : Surroundings) → Returns InRange (read_settings env)
unfolding read_settings
read_settings-InRange env =
    then-Returns (int_at_least-low env _ (pos 0) (pos 0) (omega arith)) (λ min_conns h1.
      then-Returns (int_at_least-low env _ (pos 10) (pos 1) (omega arith)) (λ max_conns h2.
        then-Returns (duration_at_least-low env _ (pos 1800000000000) (pos 1) (omega arith))
          (λ lifetime h3.
            then-Returns (int_at_least-low env _ (pos 120) (pos 1) (omega arith)) (λ tenant h4.
              then-Returns (int_at_least-low env _ (pos 60) (pos 1) (omega arith)) (λ dict h5.
                then-Returns (duration_at_least-low env _ (pos 300000000) (pos 1) (omega arith))
                  (λ timeout h6.
                    then-Returns (int_at_least-low env _ (pos 100) (pos 1) (omega arith))
                      (λ batch h7.
                        then-Returns
                          (duration_at_least-low env _ (pos 1000000000) (pos 1) (omega arith))
                          (λ interval h8.
                            then-Returns
                              (duration_at_least-low env _ (pos 300000000000) (pos 1) (omega arith))
                              (λ tolerance h9.
                                then-Returns
                                  (duration_at_least-low env _ (pos 5000000000) (pos 1)
                                    (omega arith))
                                  (λ shutdown h10. record {
                                    holds = record {
                                      postgres_min_conns = h1;
                                      postgres_max_conns = h2;
                                      postgres_max_conn_lifetime = h3;
                                      tenant_bucket_size = h4;
                                      dict_bucket_size = h5;
                                      dict_timeout = h6;
                                      worker_batch_size = h7;
                                      worker_interval = h8;
                                      provider_signature_tolerance = h9;
                                      shutdown_timeout = h10;
                                      marked = refl;
                                    };
                                  }))))))))))

pub InRange-with_keys :
    (c : Config) (keys : Map ApiKey) → InRange c → InRange (record c { api_keys = keys })
InRange-with_keys c keys h = record {
  postgres_min_conns = h.postgres_min_conns;
  postgres_max_conns = h.postgres_max_conns;
  postgres_max_conn_lifetime = h.postgres_max_conn_lifetime;
  tenant_bucket_size = h.tenant_bucket_size;
  dict_bucket_size = h.dict_bucket_size;
  dict_timeout = h.dict_timeout;
  worker_batch_size = h.worker_batch_size;
  worker_interval = h.worker_interval;
  provider_signature_tolerance = h.provider_signature_tolerance;
  shutdown_timeout = h.shutdown_timeout;
  marked = h.marked;
}
