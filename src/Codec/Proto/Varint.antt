-- ===== src/Codec/Proto/Varint.antt =====
-- The varints of internal/codec/proto_wire.go.
use mathlib.Core.List.{append_assoc}
use native.Mathlib.Nat.{add-mul, mul_assoc, pow-succ'}
use pixrail_go_payment_switc.Prelude.{
  ℕ, zero, suc, ◌+◌, ◌*◌, ◌/◌, ◌%◌, ◌^◌, ◌<◌, ◌≡◌, refl, sym, ap, subst, ◌∙◌, true, false, ◌==◌,
  ltb, [], ◌∷◌, ◌++◌, Text, length, if◌then◌else◌, arith, Bool-cases, inl, inr, some,
}
use pixrail_go_payment_switc.Codec.Bytes.{byte}
use pixrail_go_payment_switc.Codec.Proto.{
  append_groups, append_varint_raw, read_groups, read_varint,
}

-- A varint on its own.
unfoldable pub varint : ℕ → Text
varint v = append_varint_raw [] v

module _ (k : ℕ) (out : Text) (v : ℕ) where
  append_groups-last : ltb v 0x80 ≡ true → append_groups (suc k) out v ≡ out ++ (byte v ∷ [])
  unfolding append_groups
  append_groups-last last = rw (last, append_groups) refl

  append_groups-more :
      ltb v 0x80 ≡ false
      → append_groups (suc k) out v ≡ append_groups k (out ++ ((v % 128 + 128) ∷ [])) (v / 128)
  unfolding append_groups
  append_groups-more more = rw (more, append_groups) refl

append_groups-append :
    (k : ℕ) (out : Text) (v : ℕ) → append_groups k out v ≡ out ++ append_groups k [] v
append_groups-append zero out v = unfold append_groups in refl
append_groups-append (suc k) out v = elim (Bool-cases (ltb v 0x80)) [
  | inl last ↦ rw (append_groups-last k out v last, append_groups-last k [] v last) refl
  | inr more ↦
      rw
        (
          append_groups-more k out v more,
          append_groups-more k [] v more,
          append_groups-append k (out ++ ((v % 128 + 128) ∷ [])) (v / 128),
          append_groups-append k ((v % 128 + 128) ∷ []) (v / 128),
        )
        (append_assoc out ((v % 128 + 128) ∷ []) (append_groups k [] (v / 128)))
]

pub append_varint_raw-varint : (out : Text) (v : ℕ) → append_varint_raw out v ≡ out ++ varint v
unfolding append_varint_raw varint
append_varint_raw-varint out v = append_groups-append 10 out v

double : (n : ℕ) → 2 ^ suc n ≡ 2 * 2 ^ n
double n = pow-succ' 2 n

power_step : (i : ℕ) → 2 ^ (7 * suc i) ≡ 128 * 2 ^ (7 * i)
power_step i =
    let n = 7 * i in
    let next : 7 * suc i ≡ suc (suc (suc (suc (suc (suc (suc n)))))) = omega arith in
    rw next (
      rw
        (
          double (suc (suc (suc (suc (suc (suc n)))))),
          double (suc (suc (suc (suc (suc n))))),
          double (suc (suc (suc (suc n)))),
          double (suc (suc (suc n))),
          double (suc (suc n)),
          double (suc n),
          double n,
        )
        (omega arith))

split_product : (v w : ℕ) → v * w ≡ v % 128 * w + v / 128 * (128 * w)
split_product v w =
    let parts : v ≡ v % 128 + v / 128 * 128 = omega arith in
    ap (λ (n : ℕ). n * w) parts
    ∙ (add-mul (v % 128) (v / 128 * 128) w ∙ rw (mul_assoc (v / 128) 128 w) refl)

module _ (i acc b : ℕ) (raw : Text) (in_range : i < 10) where
  read_groups-last :
      b < 128
      → b * 2 ^ (7 * i) < 2 ^ 64
      → read_groups i acc (b ∷ raw) ≡ some (acc + b * 2 ^ (7 * i), raw)
  unfolding read_groups
  read_groups-last small fits =
      let before : (i == 10) ≡ false = ground arith in
      let last : ltb b 0x80 ≡ true = ground arith in
      let same : b % 128 ≡ b = omega arith in
      let whole : b * 2 ^ (7 * i) % 2 ^ 64 ≡ b * 2 ^ (7 * i) = omega arith in
      rw (before, last, read_groups) (rw (same, whole) refl)

  read_groups-more :
      (v : ℕ)
      → b ≡ v % 128 + 128
      → v % 128 * 2 ^ (7 * i) < 2 ^ 64
      → read_groups i acc (b ∷ raw) ≡ read_groups (suc i) (acc + v % 128 * 2 ^ (7 * i)) raw
  unfolding read_groups
  read_groups-more v is_more fits =
      let before : (i == 10) ≡ false = ground arith in
      let more : ltb b 0x80 ≡ false = ground arith in
      let low : b % 128 ≡ v % 128 = omega arith in
      let group : b % 128 * 2 ^ (7 * i) % 2 ^ 64 ≡ v % 128 * 2 ^ (7 * i) = rw low (omega arith) in
      rw (before, more, read_groups) (ap (λ (n : ℕ). read_groups (suc i) (acc + n) raw) group)

read_groups-append_groups :
    (k i acc v : ℕ) (rest : Text)
    → i + suc k ≡ 10
    → v * 2 ^ (7 * i) < 2 ^ 64
    → read_groups i acc (append_groups (suc k) [] v ++ rest) ≡ some (acc + v * 2 ^ (7 * i), rest)
read_groups-append_groups zero i acc v rest hk hv =
    let nine : i ≡ 9 = omega arith in
    let bound : v * 2 ^ (7 * 9) < 2 ^ 64 = subst (λ (n : ℕ). v * 2 ^ (7 * n) < 2 ^ 64) nine hv in
    let same : byte v ≡ v = omega arith in
    rw (append_groups-last 0 [] v (ground arith), same)
      (read_groups-last i acc v rest (omega arith) (omega arith) hv)
read_groups-append_groups (suc k) i acc v rest hk hv = elim (Bool-cases (ltb v 0x80)) [
  | inl last ↦
      let same : byte v ≡ v = ground arith in
      rw (append_groups-last (suc k) [] v last, same)
        (read_groups-last i acc v rest (omega arith) (ground arith) hv)
  | inr more ↦
      let w = 2 ^ (7 * i) in
      let split = split_product v w in
      let power = power_step i in
      let first : v % 128 * w < 2 ^ 64 = omega arith in
      let then_on : v / 128 * 2 ^ (7 * suc i) < 2 ^ 64 = rw power (omega arith) in
      let total : acc + v % 128 * w + v / 128 * 2 ^ (7 * suc i) ≡ acc + v * w =
        rw power (omega arith) in
      rw
        (
          append_groups-more (suc k) [] v more,
          append_groups-append (suc k) ((v % 128 + 128) ∷ []) (v / 128),
        )
        (read_groups-more i acc (v % 128 + 128) (append_groups (suc k) [] (v / 128) ++ rest)
            (omega arith) v refl first
          ∙ (read_groups-append_groups k (suc i) (acc + v % 128 * w) (v / 128) rest (omega arith)
                then_on
              ∙ ap (λ (n : ℕ). some (n, rest)) total))
]

pub read_varint-varint :
    (v : ℕ) (rest : Text) → v < 2 ^ 64 → read_varint (varint v ++ rest) ≡ some (v, rest)
unfolding read_varint varint append_varint_raw
read_varint-varint v rest h =
    read_groups-append_groups 9 0 0 v rest refl (omega arith)
    ∙ ap (λ (n : ℕ). some (n, rest)) (omega arith)

-- A number below 128 is its own varint.
pub varint-small : (v : ℕ) → v < 128 → varint v ≡ v ∷ []
unfolding varint append_varint_raw
varint-small v h =
    let same : byte v ≡ v = omega arith in rw (append_groups-last 9 [] v (ground arith), same) refl

-- The bytes that a reading takes.
read_groups-shrinks :
    (i acc : ℕ) (raw : Text) (v : ℕ) (rest : Text)
    → read_groups i acc raw ≡ some (v, rest)
    → length rest < length raw
unfolding read_groups
read_groups-shrinks i acc [] v rest h = ground arith
read_groups-shrinks i acc (b ∷ raw) v rest h = elim (Bool-cases (i == 10)) [
  | inl spent ↦ ground arith
  | inr before ↦ elim (Bool-cases (ltb b 0x80)) [
    | inl last ↦ ground arith
    | inr more ↦
        let so_far = acc + b % 128 * 2 ^ (7 * i) % 2 ^ 64 in
        let onward : read_groups (suc i) so_far raw ≡ some (v, rest) =
          ground (arith, h, before, more) in
        let fewer = read_groups-shrinks (suc i) so_far raw v rest onward in omega arith
  ]
]

pub read_varint-shrinks :
    (raw : Text) (v : ℕ) (rest : Text) → read_varint raw ≡ some (v, rest) → length rest < length raw
unfolding read_varint
read_varint-shrinks raw v rest h = read_groups-shrinks 0 0 raw v rest h

append_groups-enough :
    (k : ℕ) (out : Text) (v : ℕ)
    → v < 2 ^ (7 * k)
    → append_groups (suc k) out v ≡ append_groups k out v
append_groups-enough zero out v h =
    append_groups-last 0 out v (ground arith) ∙ unfold append_groups in refl
append_groups-enough (suc k) out v h = elim (Bool-cases (ltb v 0x80)) [
  | inl last ↦ rw (append_groups-last (suc k) out v last, append_groups-last k out v last) refl
  | inr more ↦
      let power = power_step k in
      let fewer : v / 128 < 2 ^ (7 * k) = omega arith in
      rw (append_groups-more (suc k) out v more, append_groups-more k out v more)
        (append_groups-enough k (out ++ ((v % 128 + 128) ∷ [])) (v / 128) fewer)
]

pub append_varint_raw_lem :
    (out : Text) (v : ℕ)
    → v < 2 ^ 64
    → append_varint_raw out v ≡ (
        if ltb v 0x80
        then out ++ (byte v ∷ [])
        else append_varint_raw (out ++ ((v % 128 + 128) ∷ [])) (v / 128))
unfolding append_varint_raw
append_varint_raw_lem out v h = elim (Bool-cases (ltb v 0x80)) [
  | inl last ↦ rw (append_groups-last 9 out v last, last) refl
  | inr more ↦
      let fewer : v / 128 < 2 ^ (7 * 9) = omega arith in
      rw (append_groups-more 9 out v more, more)
        (sym (append_groups-enough 9 (out ++ ((v % 128 + 128) ∷ [])) (v / 128) fewer))
]
