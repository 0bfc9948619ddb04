-- ===== src/RateLimit/TokenBucket/Rate.antt =====
-- How many calls the limiter of internal/ratelimit/limiter.go lets through for one key, among calls
-- for any keys.
use native.Mathlib.Nat.{le-div_iff_mul-le, div-mul-le_self, mul-le-mul_right}
use pixrail_go_payment_switc.Prelude.{
  ℕ, ◌+◌, ◌-◌, ◌*◌, ◌/◌, ◌≤◌, ◌≡◌, refl, Bool, true, false, ◌&&◌, List, [], ◌∷◌, none, some, Text,
  text_eq, text_eq_iff, pos, lookup, lookup-insert, if◌then◌else◌, arith, min, ap, ◌∙◌, pos--ℤ,
  wrap64-pos, ltb, Bool-cases, inl, inr,
}
use pixrail_go_payment_switc.Rail.{Time}
use pixrail_go_payment_switc.RateLimit.TokenBucket.{Bucket, Limiter, spend, allow_bucket, allow}
use pixrail_go_payment_switc.RateLimit.TokenBucket.Bounds.{
  plain, IsRoomy, periods, periods_fit, refill-pos, div_mono,
}

abbrev pub one_if : Bool → ℕ
one_if true = 1
one_if false = 0

-- The calls that were allowed for the key `k`.
unfoldable pub grants : Text → Limiter → List (Text × Time) → ℕ
grants k l [] = 0
grants k l ((j, now) ∷ calls) =
    let r = allow l j now in one_if (text_eq j k && r.0) + grants k r.1 calls

-- A clock that does not run backwards, from one reading to another.
abbrev pub Ascending : Time → Time → List (Text × Time) → Type 0
Ascending from until [] = Unit {0}
Ascending from until ((j, now) ∷ calls) = (from ≤ now) × (now ≤ until) × Ascending now until calls

-- A call for a key reads and writes the bucket of that key alone.
pub allow-lookup :
    (l : Limiter) (j k : Text) (now : Time)
    → let r = allow_bucket l.config now (lookup j l.buckets) in
      ((allow l j now).0 ≡ r.0)
      × ((allow l j now).1.config ≡ l.config)
      × (lookup k (allow l j now).1.buckets
          ≡ (if text_eq j k then some r.1 else lookup k l.buckets))
unfolding allow
allow-lookup l j k now = (refl, refl, lookup-insert j k _ l.buckets)

module _ (cap tok every : ℕ) (roomy : IsRoomy cap tok every) where
  spend-pos :
      (t seen : ℕ)
      → t ≤ cap
      → spend (record { tokens = pos t; seen_at = seen })
        ≡ (ltb 0 t, record { tokens = pos (t - 1); seen_at = seen })
  unfolding spend
  spend-pos t seen below = ground (arith, pos--ℤ t 1, wrap64-pos (t - 1), roomy.room)

  -- The tokens after the refill, of which the call takes one.
  abbrev filled : ℕ → Time → Time → ℕ
  filled t now seen = min (t + periods every now seen * tok) cap

  abbrev at : ℕ → Time → Bucket
  at t seen = record { tokens = pos t; seen_at = seen }

  allow_bucket-pos :
      (t : ℕ) (now seen : Time)
      → t ≤ cap
      → seen ≤ now
      → allow_bucket (plain cap tok every) now (some (at t seen)) ≡ (
        ltb 0 (filled t now seen),
        at (filled t now seen - 1) (seen + periods every now seen * every),
      )
  unfolding allow_bucket
  allow_bucket-pos t now seen below le =
      rw (refill-pos cap tok every roomy now seen le t below)
        (spend-pos (filled t now seen) _ (omega arith))

  allow_bucket-new :
      (now : Time) → allow_bucket (plain cap tok every) now none ≡ (true, at (cap - 1) now)
  unfolding allow_bucket
  allow_bucket-new now =
      ground (arith, pos--ℤ cap 1, wrap64-pos (cap - 1), roomy.room, roomy.capacity_pos)

  -- What the rate leaves for the time that is left.
  periods_split :
      (until now seen : Time)
      → seen ≤ now
      → now ≤ until
      → periods every now seen + (until - (seen + periods every now seen * every)) / every
        ≤ (until - seen) / every
  periods_split until now seen le end =
      let m = periods every now seen in
      let left = until - (seen + m * every) in
      (le-div_iff_mul-le roomy.every_pos).1
        (omega (arith, div-mul-le_self left every, periods_fit every now seen roomy.every_pos))

  module _ (k : Text) where
    abbrev bound : ℕ → Time → Time → ℕ
    bound t until seen = t + (until - seen) / every * tok

    -- A key whose bucket holds some tokens gets, among calls for any keys in the order of the
    -- clock, no more than these tokens and the refills of the whole periods since the bucket was
    -- last filled, when the configuration is positive and its refill fits an int.
    pub grants-known :
        (calls : List (Text × Time)) (l : Limiter) (from until : Time) (t seen : ℕ)
        → l.config ≡ plain cap tok every
        → lookup k l.buckets ≡ some (at t seen)
        → t ≤ cap
        → seen ≤ from
        → Ascending from until calls
        → grants k l calls ≤ bound t until seen
    unfolding grants
    grants-known [] l from until t seen c found below le up = omega arith
    grants-known ((j, now) ∷ calls) l from until t seen c found below le up =
        elim (Bool-cases (text_eq j k)) [
          | inl own ↦
              let jk : j ≡ k = (text_eq_iff j k).0 own in
              let (given, kept, at_k) = allow-lookup l j k now in
              let m = periods every now seen in
              let was : allow_bucket l.config now (lookup j l.buckets)
                  ≡ (ltb 0 (filled t now seen), at (filled t now seen - 1) (seen + m * every)) =
                rw (jk, c, found) (allow_bucket-pos t now seen below (omega arith)) in
              let rest =
                grants-known calls (allow l j now).1 now until (filled t now seen - 1)
                  (seen + m * every) (kept ∙ c) (at_k ∙ rw (own, was)) (omega arith)
                  (omega (arith, periods_fit every now seen roomy.every_pos)) up.2 in
              let granted : (allow l j now).0 ≡ ltb 0 (filled t now seen) =
                given ∙ ap (λ r. r.0) was in
              let rate =
                mul-le-mul_right tok (periods_split until now seen (omega arith) (omega arith)) in
              rw (own, granted) (ground (arith, rest, rate))
          | inr other ↦
              let (given, kept, at_k) = allow-lookup l j k now in
              let rest =
                grants-known calls (allow l j now).1 now until t seen (kept ∙ c)
                  (at_k ∙ rw other found) below (omega arith) up.2 in
              rw other (omega arith)
        ]

    -- A key that the limiter has not seen gets, among calls for any keys in the order of the
    -- clock, no more than a full bucket and the refills of the whole periods in that time, when
    -- the configuration is positive and its refill fits an int.
    pub grants-new :
        (calls : List (Text × Time)) (l : Limiter) (from until : Time)
        → l.config ≡ plain cap tok every
        → lookup k l.buckets ≡ none
        → Ascending from until calls
        → grants k l calls ≤ bound cap until from
    unfolding grants
    grants-new [] l from until c unseen up = omega arith
    grants-new ((j, now) ∷ calls) l from until c unseen up = elim (Bool-cases (text_eq j k)) [
      | inl own ↦
          let jk : j ≡ k = (text_eq_iff j k).0 own in
          let (given, kept, at_k) = allow-lookup l j k now in
          let was : allow_bucket l.config now (lookup j l.buckets) ≡ (true, at (cap - 1) now) =
            rw (jk, c, unseen) (allow_bucket-new now) in
          let rest =
            grants-known calls (allow l j now).1 now until (cap - 1) now (kept ∙ c)
              (at_k ∙ rw (own, was)) (omega arith) (omega arith) up.2 in
          let granted : (allow l j now).0 ≡ true = given ∙ ap (λ r. r.0) was in
          let rate =
            mul-le-mul_right tok
              (div_mono (until - now) (until - from) every (omega arith) roomy.every_pos) in
          rw (own, granted) (omega (arith, rest, rate, roomy.capacity_pos))
      | inr other ↦
          let (given, kept, at_k) = allow-lookup l j k now in
          let rest =
            grants-new calls (allow l j now).1 now until (kept ∙ c) (at_k ∙ rw other unseen) up.2 in
          let rate =
            mul-le-mul_right tok
              (div_mono (until - now) (until - from) every (omega arith) roomy.every_pos) in
          rw other (omega (arith, rest, rate))
    ]
