-- ===== src/Relay/Backoff.antt =====
-- The waits of the relay of internal/messaging/relay.go.
use native.Mathlib.Nat.{mul-le-mul_right, pow-succ', mul_assoc}
use pixrail_go_payment_switc.Prelude.{
  ℕ, zero, suc, ◌*◌, ◌^◌, ◌≤◌, ◌<◌, ◌≡◌, pos, leb_ℤ, wrap64, wrap64-pos, ◌*ℤ◌, pos-*ℤ, arith, min,
  ap, sym, ◌∙◌, Bool-cases, inl, inr,
}
use pixrail_go_payment_switc.Relay.{RetryPolicy, rounds, backoff_loop, backoff}

power_pos : (n : ℕ) → 1 ≤ 2 ^ n
power_pos zero = omega arith
power_pos (suc n) = omega (arith, power_pos n)

doubles : (b n : ℕ) → b * 2 ^ suc n ≡ (b * 2) * 2 ^ n
doubles b n = ap (λ k. b * k) (pow-succ' 2 n) ∙ sym (mul_assoc b 2 (2 ^ n))

backoff_loop-min :
    (n b m : ℕ) → b ≤ m → m < 2 ^ 62 → backoff_loop n (pos m) (pos b) ≡ pos (min (b * 2 ^ n) m)
unfolding backoff_loop
backoff_loop-min zero b m le room = ap pos (omega arith)
backoff_loop-min (suc n) b m le room =
    let twice : wrap64 (pos b *ℤ pos 2) ≡ pos (b * 2) =
      ap wrap64 (pos-*ℤ b 2) ∙ wrap64-pos (b * 2) (omega arith) in
    let large = mul-le-mul_right (b * 2) (power_pos n) in
    elim (Bool-cases (leb_ℤ (pos m) (pos (b * 2)))) [
      | inl high ↦
          let above : m ≤ b * 2 = ground arith in
          rw (twice, high) (ap pos (omega (arith, doubles b n, large, above)))
      | inr low ↦
          rw (twice, low)
            (backoff_loop-min n (b * 2) m (ground arith) room
              ∙ ap (λ k. pos (min k m)) (omega (arith, doubles b n)))
    ]

abbrev pub policy : ℕ → ℕ → ℕ → RetryPolicy
policy initial most ttl = record {
  initial_backoff = pos initial;
  max_backoff = pos most;
  claim_ttl = pos ttl;
}

rounds-suc : (k : ℕ) → rounds (pos (suc k)) ≡ k
rounds-suc k = ground arith

-- With an initial wait up to the longest and a longest wait below 2 ^ 62, the wait before the
-- attempt k + 1 is the initial wait doubled k times, or the longest wait if that is less.
pub backoff-min :
    (initial most ttl k : ℕ)
    → initial ≤ most
    → most < 2 ^ 62
    → backoff (policy initial most ttl) (pos (suc k)) ≡ pos (min (initial * 2 ^ k) most)
unfolding backoff
backoff-min initial most ttl k le room =
    ap (λ n. backoff_loop n (pos most) (pos initial)) (rounds-suc k)
    ∙ backoff_loop-min k initial most le room
