-- ===== src/RateLimit/FixedWindow/Rate.antt =====
-- How many calls the fixed window of internal/ratelimit/strategies.go lets through in one window.
use pixrail_go_payment_switc.Prelude.{
  ℕ, suc, ◌+◌, ◌-◌, ◌^◌, ◌≤◌, ◌<◌, ◌≡◌, false, ◌&&◌, List, [], ◌∷◌, none, some, Text, text_eq,
  text_eq_iff, pos, ltb, inc64-pos, sub_time-pos, lookup, lookup-insert, if◌then◌else◌, arith,
  Option-cases, Bool-cases, inl, inr, ap, sym, ◌∙◌,
}
use pixrail_go_payment_switc.Rail.{Time}
use pixrail_go_payment_switc.RateLimit.TokenBucket.Rate.{one_if}
use pixrail_go_payment_switc.RateLimit.FixedWindow.{
  WindowConfig, Window, FixedWindow, window_of, enter, allow,
}

-- The calls that were allowed for the key `k`.
unfoldable pub grants : Text → FixedWindow → List (Text × Time) → ℕ
grants k l [] = 0
grants k l ((j, now) ∷ calls) =
    let r = allow l j now in one_if (text_eq j k && r.0) + grants k r.1 calls

-- Every call falls into the window that begins at `start`.
abbrev pub IsWithin : Time → ℕ → List (Text × Time) → Type 0
IsWithin start window [] = Unit {0}
IsWithin start window ((j, now) ∷ calls) =
    (start ≤ now) × (now - start < window) × IsWithin start window calls

abbrev pub plain : ℕ → ℕ → WindowConfig
plain limit window = record { limit = pos limit; window = pos window }

module _ (limit window : ℕ) (small : limit < 2 ^ 63) (short : window < 2 ^ 63) (start : Time)
    (begun : 0 < start) where
  abbrev at : ℕ → Window
  at n = record { start = start; count = pos n }

  -- In a live window a call counts up to the limit.
  enter_live :
      (now : Time) (n : ℕ)
      → start ≤ now
      → now - start < window
      → n ≤ limit
      → enter (plain limit window) now (at n) ≡ (if ltb n limit then some (at (suc n)) else none)
  unfolding enter
  enter_live now n le live below = ground (arith, sub_time-pos now start le, inc64-pos n)

  allow_own :
      (l : FixedWindow) (k : Text) (now : Time) (n : ℕ)
      → l.config ≡ plain limit window
      → lookup k l.windows ≡ some (at n)
      → start ≤ now
      → now - start < window
      → n ≤ limit
      → (m : ℕ) × (m ≤ limit)
        × (one_if (allow l k now).0 + n ≡ m)
        × ((allow l k now).1.config ≡ plain limit window)
        × (lookup k (allow l k now).1.windows ≡ some (at m))
  unfolding allow
  allow_own l k now n c found le live below =
      let entered = enter_live now n le live below in
      elim (Bool-cases (ltb n limit)) [
        | inl room ↦ (
          suc n,
          ground arith,
          ground (arith, entered),
          ground (arith, entered),
          ground (arith, entered, lookup-insert k k (at (suc n)) l.windows, text_eq_iff k k),
        )
        | inr full ↦
            (n, below, ground (arith, entered), ground (arith, entered), ground (arith, entered))
      ]

  -- A call for another key leaves the window alone.
  allow_other :
      (l : FixedWindow) (j k : Text) (now : Time)
      → text_eq j k ≡ false
      → ((allow l j now).1.config ≡ l.config)
        × (lookup k (allow l j now).1.windows ≡ lookup k l.windows)
  unfolding allow
  allow_other l j k now other =
      elim (Option-cases (enter l.config now (window_of (lookup j l.windows)))) [
        | inl refused ↦ (ground arith, ground arith)
        | inr (w, e) ↦ (ground arith, ground (arith, lookup-insert j k w l.windows))
      ]

  -- While all calls, for any keys, fall into a key's window, and the limit and the window fit an
  -- int, the calls for that key that are let through and those that its window has counted come
  -- to no more than the limit.
  pub grants_within :
      (k : Text) (calls : List (Text × Time)) (l : FixedWindow) (n : ℕ)
      → l.config ≡ plain limit window
      → lookup k l.windows ≡ some (at n)
      → n ≤ limit
      → IsWithin start window calls
      → grants k l calls + n ≤ limit
  unfolding grants
  grants_within k [] l n c found below within = omega arith
  grants_within k ((j, now) ∷ calls) l n c found below within = elim (Bool-cases (text_eq j k)) [
    | inl own ↦
        let jk : j ≡ k = (text_eq_iff j k).0 own in
        let (m, le, counted, kept, there) =
          allow_own l j now n c (ap (λ x. lookup x l.windows) jk ∙ found) within.0 within.1 below in
        let rest =
          grants_within k calls (allow l j now).1 m kept
            (ap (λ x. lookup x (allow l j now).1.windows) (sym jk) ∙ there) le within.2 in
        rw own (omega (arith, rest, counted))
    | inr other ↦
        let (kept, there) = allow_other l j k now other in
        let rest =
          grants_within k calls (allow l j now).1 n (kept ∙ c) (there ∙ found) below within.2 in
        rw other (omega (arith, rest))
  ]
