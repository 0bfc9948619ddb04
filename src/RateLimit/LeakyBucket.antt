-- ===== src/RateLimit/LeakyBucket.antt =====
-- internal/ratelimit/strategies.go: the leaky bucket.
pub mod Level
use pixrail_go_payment_switc.Prelude.{
  Bool, true, false, ◌==◌, Option, none, some, [], Text, ℤ, pos, ◌-ℤ◌, ◌*ℤ◌, wrap64, inc64, quot_ℤ,
  sub_time, add_time, leb_ℤ, ltb_ℤ, Map, lookup, insert, if◌then◌else◌,
}
use pixrail_go_payment_switc.Rail.{Time}
use pixrail_go_payment_switc.RateLimit.TokenBucket.{or_default}

pub record LeakyConfig : Type 0 where
  pub capacity : ℤ
  pub leak_every : ℤ

pub record LeakyBucket : Type 0 where
  pub level : ℤ
  pub seen_at : Time

pub record LeakyLimiter : Type 0 where
  pub config : LeakyConfig
  pub buckets : Map LeakyBucket

-- `NewLeakyBucket`: 60 calls, one leaking each second.
unfoldable pub new : LeakyConfig → LeakyLimiter
new config = record {
  config = record {
    capacity = or_default config.capacity (pos 60);
    leak_every = or_default config.leak_every (pos 1000000000);
  };
  buckets = [];
}

-- The zero bucket of a key that the map lacks.
abbrev pub bucket_of : Option LeakyBucket → LeakyBucket
bucket_of none = record { level = pos 0; seen_at = 0 }
bucket_of (some b) = b

-- What has leaked out since the bucket was last seen.
unfoldable pub leak : LeakyConfig → Time → LeakyBucket → LeakyBucket
leak c now b =
    let elapsed = sub_time now b.seen_at in
    let leaked = quot_ℤ elapsed c.leak_every in
    let level = wrap64 (b.level -ℤ leaked) in
    if leb_ℤ c.leak_every elapsed
    then record {
      level = if ltb_ℤ level (pos 0) then pos 0 else level;
      seen_at = add_time b.seen_at (wrap64 (leaked *ℤ c.leak_every));
    }
    else b

unfoldable pub pour : LeakyConfig → LeakyBucket → Bool × LeakyBucket
pour c b =
    if leb_ℤ c.capacity b.level then (false, b) else (true, record b { level = inc64 b.level })

-- One call on one bucket.
unfoldable pub enter : LeakyConfig → Time → LeakyBucket → Bool × LeakyBucket
unfolding leak pour
enter c now b =
    if b.seen_at == 0
    then (true, record { level = pos 1; seen_at = now })
    else pour c (leak c now b)

-- `Allow`
unfoldable pub allow : LeakyLimiter → Text → Time → Bool × LeakyLimiter
unfolding enter
allow l key now =
    let r = enter l.config now (bucket_of (lookup key l.buckets)) in
    (r.0, record l { buckets = insert key r.1 l.buckets })
