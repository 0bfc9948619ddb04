-- ===== src/RateLimit/LeakyBucket/Level.antt =====
-- The level of the leaky bucket of internal/ratelimit/strategies.go, on the natural numbers.
use native.Mathlib.Nat.{div-eq_of_lt, div-le_self}
use pixrail_go_payment_switc.Prelude.{
  ℕ, suc, ◌+◌, ◌-◌, ◌*◌, ◌^◌, ◌≤◌, ◌<◌, ◌≡◌, refl, ℤ, pos, ◌-ℤ◌, wrap64, wrap64_id, wrap64-pos,
  IsInt64, inc64-pos, quot_ℤ-pos, sub_time-pos, add_time-pos, pos-*ℤ, leb_ℤ, ltb_ℤ, ltb,
  if◌then◌else◌, arith, ap, ◌∙◌, Bool-cases, inl, inr,
}
use pixrail_go_payment_switc.Rail.{Time}
use pixrail_go_payment_switc.RateLimit.TokenBucket.Bounds.{elapsed, periods, periods_fit}
use pixrail_go_payment_switc.RateLimit.LeakyBucket.{LeakyConfig, leak, pour, enter}

abbrev level_of : ℤ → ℤ
level_of z = if ltb_ℤ z (pos 0) then pos 0 else z

drained : (n p : ℕ) → n < 2 ^ 63 → p < 2 ^ 63 → level_of (wrap64 (pos n -ℤ pos p)) ≡ pos (n - p)
unfolding ◌-ℤ◌
drained n p hn hp =
    let fits : IsInt64 (pos n -ℤ pos p) = ground arith in
    ap level_of (wrap64_id (pos n -ℤ pos p) fits) ∙ ground arith

-- What is left of a level after the whole periods that have passed.
abbrev pub left : ℕ → ℕ → Time → Time → ℕ
left every n now seen = n - periods every now seen

module _ (cap every : ℕ) (room : cap < 2 ^ 63) (every_pos : 0 < every) (now seen : Time)
    (begun : 0 < seen) (le : seen ≤ now) where
  abbrev config : LeakyConfig
  config = record { capacity = pos cap; leak_every = pos every }

  periods-small : periods every now seen < 2 ^ 63
  periods-small = omega (arith, div-le_self (elapsed now seen) every)

  no_period : elapsed now seen < every → periods every now seen ≡ 0
  no_period h = div-eq_of_lt h

  leak-pos :
      (n : ℕ)
      → n ≤ cap
      → leak config now (record { level = pos n; seen_at = seen }) ≡ record {
        level = pos (left every n now seen);
        seen_at = seen + periods every now seen * every;
      }
  unfolding leak
  leak-pos n below =
      let p = periods every now seen in
      let fits = periods_fit every now seen every_pos in
      let low = drained n p (omega arith) periods-small in
      rw
        (
          sub_time-pos now seen le,
          quot_ℤ-pos (elapsed now seen) every,
          pos-*ℤ p every,
          wrap64-pos (p * every) (omega arith),
          add_time-pos seen (p * every),
        )
        (elim (Bool-cases (leb_ℤ (pos every) (pos (elapsed now seen)))) [
          | inl passed ↦ rw (passed, low) refl
          | inr early ↦
              let none_passed : periods every now seen ≡ 0 = no_period (ground arith) in
              rw (early, none_passed) (ground arith)
        ])

  -- A call on a bucket in use, at a level up to a capacity that fits an int and at a time not
  -- before it was last seen: the level first drops by the whole periods that have passed, at most
  -- to zero, and the call is let through, and counted, exactly when that is below the capacity.
  pub enter-level :
      (n : ℕ)
      → n ≤ cap
      → enter config now (record { level = pos n; seen_at = seen }) ≡ (
        ltb (left every n now seen) cap,
        record {
          level = pos (
              if ltb (left every n now seen) cap
              then suc (left every n now seen)
              else left every n now seen);
          seen_at = seen + periods every now seen * every;
        },
      )
  unfolding enter pour
  enter-level n below =
      let after = leak-pos n below in
      let next = inc64-pos (left every n now seen) in rw after (ground (arith, next))
