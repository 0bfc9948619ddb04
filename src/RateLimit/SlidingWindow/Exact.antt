-- ===== src/RateLimit/SlidingWindow/Exact.antt =====
-- The sliding window of internal/ratelimit/strategies.go counts the calls of the last window.
use pixrail_go_payment_switc.Prelude.{
  ℕ, suc, ◌+◌, ◌≤◌, ◌<◌, ◌≡◌, List, [], ◌∷◌, pos, ltb, if◌then◌else◌, arith, length, Bool-cases,
  inl, inr,
}
use pixrail_go_payment_switc.Rail.{Time}
use pixrail_go_payment_switc.RateLimit.SlidingWindow.{expire, enter}

-- The events, in the order of the clock, none before `from`.
abbrev pub IsSorted : Time → List Time → Type 0
IsSorted from [] = Unit {0}
IsSorted from (e ∷ es) = (from ≤ e) × IsSorted e es

-- The events that are younger than the window.
unfoldable pub young : ℕ → Time → List Time → ℕ
young window now [] = 0
young window now (e ∷ es) =
    let rest = young window now es in if ltb now (e + window) then suc rest else rest

young_all :
    (window : ℕ) (now from : Time) (es : List Time)
    → IsSorted from es
    → now < from + window
    → young window now es ≡ length es
unfolding young
young_all window now from [] sorted live = ground arith
young_all window now from (e ∷ es) sorted live =
    let rest = young_all window now e es sorted.1 (omega (arith, sorted.0)) in
    ground (arith, rest, sorted.0)

expire-length :
    (window : ℕ) (now from : Time) (es : List Time)
    → IsSorted from es
    → length (expire (pos window) now es) ≡ young window now es
unfolding expire young
expire-length window now from [] sorted = ground arith
expire-length window now from (e ∷ es) sorted =
    let rest = expire-length window now e es sorted.1 in
    elim (Bool-cases (ltb now (e + window))) [
      | inl live ↦
          let all = young_all window now e es sorted.1 (ground arith) in ground (arith, all)
      | inr old ↦ ground (arith, rest)
    ]

-- On events in the order of the clock, the sliding window lets a call through exactly when fewer
-- than the limit of them are younger than the window.
pub enter-exact :
    (limit window : ℕ) (now from : Time) (es : List Time)
    → IsSorted from es
    → (enter (record { limit = pos limit; window = pos window }) now es).0
      ≡ ltb (young window now es) limit
unfolding enter
enter-exact limit window now from es sorted =
    let n = expire-length window now from es sorted in ground (arith, n)
