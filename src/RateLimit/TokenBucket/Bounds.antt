-- ===== src/RateLimit/TokenBucket/Bounds.antt =====
-- The token bucket of internal/ratelimit/limiter.go keeps its level and its rate.
use native.Mathlib.Nat.{
  div-add-mod, div-mul-le_self, div-eq_of_lt, le-div_iff_mul-le, mul-le-mul_right,
}
use pixrail_go_payment_switc.Prelude.{
  ℕ, ◌+◌, ◌-◌, ◌*◌, ◌/◌, ◌^◌, ◌≤◌, ◌<◌, ◌≡◌, pos, arith, min, sub_time-pos, quot_ℤ-pos, pos-*ℤ,
  wrap64-pos, pos-+ℤ, add_time-pos,
}
use pixrail_go_payment_switc.Rail.{Time}
use pixrail_go_payment_switc.RateLimit.TokenBucket.{BucketConfig, refill}

-- A configuration as `New` leaves it.
abbrev pub plain : ℕ → ℕ → ℕ → BucketConfig
plain capacity tokens every = record {
  capacity = pos capacity;
  refill_tokens = pos tokens;
  refill_every = pos every;
}

-- Positive, and its refill cannot overflow an `int` however long a key rested.
pub record IsRoomy (capacity tokens every : ℕ) : Type 0 where
  pub capacity_pos : 0 < capacity
  pub every_pos : 0 < every
  pub room : (2 ^ 63 - 1) / every * tokens + capacity < 2 ^ 63

-- The nanoseconds that the code sees elapsed, and the whole periods in them.
abbrev pub elapsed : Time → Time → ℕ
elapsed now seen = min (now - seen) (2 ^ 63 - 1)

abbrev pub periods : ℕ → Time → Time → ℕ
periods every now seen = elapsed now seen / every

pub periods_fit :
    (every now seen : ℕ) → 0 < every → periods every now seen * every ≤ elapsed now seen
periods_fit every now seen h = omega (arith, div-add-mod (elapsed now seen) every)

pub div_mono : (a b k : ℕ) → a ≤ b → 0 < k → a / k ≤ b / k
div_mono a b k h pos_k = (le-div_iff_mul-le pos_k).1 (omega (arith, div-mul-le_self a k))

module _ (cap tok every : ℕ) (roomy : IsRoomy cap tok every) (now seen : Time)
    (le : seen ≤ now) where
  periods_room : periods every now seen * tok + cap < 2 ^ 63
  periods_room = omega (
    arith,
    roomy.room,
    mul-le-mul_right tok
        (div_mono (elapsed now seen) (2 ^ 63 - 1) every (omega arith) roomy.every_pos),
  )

  no_period : (n : ℕ) → elapsed now seen < every → periods every now seen * n ≡ 0
  no_period n h = let e : periods every now seen ≡ 0 = div-eq_of_lt h in rw e (omega arith)

  pub refill-pos :
      (t : ℕ)
      → t ≤ cap
      → refill (plain cap tok every) now (record { tokens = pos t; seen_at = seen }) ≡ record {
        tokens = pos (min (t + periods every now seen * tok) cap);
        seen_at = seen + periods every now seen * every;
      }
  unfolding refill
  refill-pos t below =
      let p = periods every now seen in
      let fits = periods_fit every now seen roomy.every_pos in
      rw
        (
          sub_time-pos now seen le,
          quot_ℤ-pos (elapsed now seen) every,
          pos-*ℤ p tok,
          pos-*ℤ p every,
          wrap64-pos (p * tok) (omega (arith, periods_room)),
          wrap64-pos (p * every) (omega arith),
          pos-+ℤ t (p * tok),
          wrap64-pos (t + p * tok) (omega (arith, periods_room)),
          add_time-pos seen (p * every),
        )
        (ground (arith, no_period tok, no_period every))
