-- ===== src/Metrics/Samples.antt =====
-- internal/observability/metrics.go keeps the last samples of a route, in their order.
use mathlib.Core.List.{append_assoc, append-nil}
use pixrail_go_payment_switc.Prelude.{
  ℕ, zero, suc, ◌-◌, ◌≤◌, ◌≡◌, refl, sym, ap, subst, ◌∙◌, Bool-cases, inl, inr, List, [], ◌∷◌, ◌++◌,
  Text, ℤ, Map, insert, lookup-insert_self, ltb, length, length-append, drop, arith,
}
use pixrail_go_payment_switc.Metrics.{
  Metrics, max_latency_samples, latency_key, samples_of, keep_last, observe_request,
}

-- The last `n` of a list, or all of it.
abbrev pub last : ℕ → List ℤ → List ℤ
last n xs = drop (length xs - n) xs

keep_last-last : (xs : List ℤ) → keep_last xs ≡ last max_latency_samples xs
unfolding keep_last
keep_last-last xs = elim (Bool-cases (ltb 1024 (length xs))) [
  | inl more ↦ rw more refl
  | inr few ↦ let all : length xs - 1024 ≡ 0 = ground arith in rw (few, all) refl
]

-- One after the other, requests of one method to one route.
abbrev pub observe_all : Metrics → Text → Text → List (ℕ × ℤ) → Metrics
observe_all m method route [] = m
observe_all m method route ((status, elapsed) ∷ rest) =
    observe_all (observe_request m method route status elapsed) method route rest

abbrev pub durations : List (ℕ × ℤ) → List ℤ
durations [] = []
durations ((status, elapsed) ∷ rest) = elapsed ∷ durations rest

samples_of-insert :
    (key : Text) (samples : List ℤ) (m : Map (List ℤ))
    → samples_of key (insert key samples m) ≡ samples
samples_of-insert key samples m = ground (arith, lookup-insert_self key samples m)

observe_request-samples :
    (m : Metrics) (method route : Text) (status : ℕ) (elapsed : ℤ)
    → samples_of (latency_key method route) (observe_request m method route status elapsed).latency
      ≡ last max_latency_samples (samples_of (latency_key method route) m.latency ++ (elapsed ∷ []))
unfolding observe_request
observe_request-samples m method route status elapsed =
    let key = latency_key method route in
    let samples = samples_of key m.latency ++ (elapsed ∷ []) in
    samples_of-insert key (keep_last samples) m.latency ∙ keep_last-last samples

last-cons : (n : ℕ) (x : ℤ) (xs : List ℤ) → n ≤ length xs → last n (x ∷ xs) ≡ last n xs
last-cons n x xs h =
    let more : suc (length xs) - n ≡ suc (length xs - n) = omega arith in rw more refl

last-all : (n : ℕ) (xs : List ℤ) → length xs ≤ n → last n xs ≡ xs
last-all n xs h = let none_over : length xs - n ≡ 0 = omega arith in rw none_over refl

length-drop : (n : ℕ) (xs : List ℤ) → length (drop n xs) ≡ length xs - n
length-drop zero xs = omega arith
length-drop (suc n) [] = omega arith
length-drop (suc n) (x ∷ xs) = let rest = length-drop n xs in omega arith

-- Dropping early changes nothing about the last ones.
last-append : (n : ℕ) (xs ys : List ℤ) → last n (last n xs ++ ys) ≡ last n (xs ++ ys)
last-append n [] ys = rw (last-all n [] (omega arith)) refl
last-append n (x ∷ xs) ys = elim (Bool-cases (ltb (length xs) n)) [
  | inl few ↦ rw (last-all n (x ∷ xs) (ground arith)) refl
  | inr more ↦
      let first = last-cons n x xs (ground arith) in
      let both = last-cons n x (xs ++ ys) (ground (arith, length-append xs ys)) in
      ap (λ (s : List ℤ). last n (s ++ ys)) first ∙ (last-append n xs ys ∙ sym both)
]

-- When at most 1024 samples of a route are there, then after any requests to it its samples are
-- the last 1024 of those and the new ones, or all when they are fewer, in their order.
pub observe_all-samples :
    (m : Metrics) (method route : Text) (seen : List (ℕ × ℤ))
    → length (samples_of (latency_key method route) m.latency) ≤ max_latency_samples
    → samples_of (latency_key method route) (observe_all m method route seen).latency
      ≡ last max_latency_samples (samples_of (latency_key method route) m.latency ++ durations seen)
observe_all-samples m method route [] h =
    let before = samples_of (latency_key method route) m.latency in
    sym (rw (append-nil before) (last-all max_latency_samples before h))
observe_all-samples m method route ((status, elapsed) ∷ rest) h =
    let before = samples_of (latency_key method route) m.latency in
    let m' = observe_request m method route status elapsed in
    let step = observe_request-samples m method route status elapsed in
    let few : length (samples_of (latency_key method route) m'.latency) ≤ max_latency_samples =
      subst (λ (s : List ℤ). length s ≤ 1024) (sym step)
        (omega (
          arith,
          length-drop (length (before ++ (elapsed ∷ [])) - 1024) (before ++ (elapsed ∷ [])),
        )) in
    observe_all-samples m' method route rest few
    ∙ (ap (λ (s : List ℤ). last max_latency_samples (s ++ durations rest)) step
        ∙ (last-append max_latency_samples (before ++ (elapsed ∷ [])) (durations rest)
            ∙ ap (last max_latency_samples) (append_assoc before (elapsed ∷ []) (durations rest))))
