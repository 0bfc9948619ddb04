-- ===== src/Tests/Rated.antt =====
-- The token bucket on concrete data.
use pixrail_go_payment_switc.Prelude.{
  lookup, ◌+◌, ◌-◌, ◌*◌, ◌/◌, ◌≤◌, refl, List, [], ◌∷◌, Text, arith, pos,
}
use pixrail_go_payment_switc.Rail.{Time}
use pixrail_go_payment_switc.RateLimit.TokenBucket.{Limiter}
use pixrail_go_payment_switc.RateLimit.TokenBucket.Bounds.{IsRoomy, plain}
use pixrail_go_payment_switc.RateLimit.TokenBucket.Rate.{grants, Ascending, grants-new}

abbrev small_limiter : Limiter
small_limiter = record { config = plain 2 1 10; buckets = [] }

abbrev used_limiter : Limiter
used_limiter = record {
  config = plain 2 1 10;
  buckets = (b'k' ∷ [], record { tokens = pos 1; seen_at = 5 }) ∷ [];
}

abbrev some_calls : List (Text × Time)
some_calls = (b'k' ∷ [], 5) ∷ (b'k' ∷ [], 6) ∷ (b'j' ∷ [], 7) ∷ (b'k' ∷ [], 30) ∷ []

small-IsRoomy : IsRoomy 2 1 10
small-IsRoomy = record { capacity_pos = omega arith; every_pos = omega arith; room = omega arith }

in_order : Ascending 5 40 some_calls
in_order = (
  omega arith,
  omega arith,
  (omega arith, omega arith, (omega arith, omega arith, (omega arith, omega arith, tt))),
)

grants-new_example : grants (b'k' ∷ []) small_limiter some_calls ≤ 2 + (40 - 5) / 10 * 1
unfolding lookup
grants-new_example =
    grants-new 2 1 10 small-IsRoomy (b'k' ∷ []) some_calls small_limiter 5 40 refl refl in_order
