-- ===== src/RateLimit/TokenBucket.antt =====
-- internal/ratelimit/limiter.go: the token bucket.
pub mod Bounds
pub mod Rate
use pixrail_go_payment_switc.Prelude.{
  ℕ, Bool, true, false, Option, none, some, [], Text, ℤ, pos, ◌+ℤ◌, ◌-ℤ◌, ◌*ℤ◌, wrap64, quot_ℤ,
  sub_time, add_time, leb_ℤ, ltb_ℤ, Map, lookup, insert, if◌then◌else◌,
}
use pixrail_go_payment_switc.Rail.{Time}

pub record BucketConfig : Type 0 where
  pub capacity : ℤ
  pub refill_tokens : ℤ
  pub refill_every : ℤ

pub record Bucket : Type 0 where
  pub tokens : ℤ
  pub seen_at : Time

pub record Limiter : Type 0 where
  pub config : BucketConfig
  pub buckets : Map Bucket

-- `if value <= 0 { value = fallback }`
abbrev pub or_default : ℤ → ℤ → ℤ
or_default value fallback = if leb_ℤ value (pos 0) then fallback else value

-- `New`: 60 tokens, refilled whole, once a minute.
unfoldable pub new : BucketConfig → Limiter
new config = record {
  config = record {
    capacity = or_default config.capacity (pos 60);
    refill_tokens = or_default config.refill_tokens (or_default config.capacity (pos 60));
    refill_every = or_default config.refill_every (pos 60000000000);
  };
  buckets = [];
}

-- The whole periods since the bucket was last filled, and what they bring.
unfoldable pub refill : BucketConfig → Time → Bucket → Bucket
refill c now b =
    let elapsed = sub_time now b.seen_at in
    let periods = quot_ℤ elapsed c.refill_every in
    let tokens = wrap64 (b.tokens +ℤ wrap64 (periods *ℤ c.refill_tokens)) in
    if leb_ℤ c.refill_every elapsed
    then record {
      tokens = if ltb_ℤ c.capacity tokens then c.capacity else tokens;
      seen_at = add_time b.seen_at (wrap64 (periods *ℤ c.refill_every));
    }
    else b

unfoldable pub spend : Bucket → Bool × Bucket
spend b =
    if leb_ℤ b.tokens (pos 0)
    then (false, b)
    else (true, record b { tokens = wrap64 (b.tokens -ℤ pos 1) })

-- One call on one bucket, which may be new.
unfoldable pub allow_bucket : BucketConfig → Time → Option Bucket → Bool × Bucket
unfolding refill spend
allow_bucket c now none = (true, record { tokens = wrap64 (c.capacity -ℤ pos 1); seen_at = now })
allow_bucket c now (some b) = spend (refill c now b)

-- `Allow`. The bucket is shared by pointer, so a refusal keeps what the refill wrote.
unfoldable pub allow : Limiter → Text → Time → Bool × Limiter
unfolding allow_bucket
allow l key now =
    let r = allow_bucket l.config now (lookup key l.buckets) in
    (r.0, record l { buckets = insert key r.1 l.buckets })
