-- ===== src/Codec/Proto/Loop.antt =====
-- The loop of `ProtoWireCodec.Unmarshal` in internal/codec/proto_wire.go ends: each pass takes a byte.
use pixrail_go_payment_switc.Prelude.{
  Bool-cases, inl, inr, Bool, true, false, ◌^◌, ltb, ◌==◌, if◌then◌else◌, ◌%◌, ℕ, zero, suc, ◌-◌,
  ◌/◌, ◌≤◌, ◌≡◌, refl, [], ◌∷◌, Text, drop, length, arith, Option, none, some,
}
use pixrail_go_payment_switc.Codec.{PaymentEvent}
use pixrail_go_payment_switc.Codec.Bytes.{Read, value, failed, panicked, ◌>>=◌, slices}
use pixrail_go_payment_switc.Codec.Proto.{
  read_varint, after, with_varint, take_text, read_string, set_number, set_text, read_field, step,
  loop, no_event, unmarshal,
}
use pixrail_go_payment_switc.Codec.Proto.Varint.{read_varint-shrinks}

drop-shrinks : (n : ℕ) (s : Text) → length (drop n s) ≤ length s
drop-shrinks zero s = omega arith
drop-shrinks (suc n) [] = omega arith
drop-shrinks (suc n) (x ∷ s) = let rest = drop-shrinks n s in omega arith

-- Bytes left over by a reading that gave a value.
abbrev left {ℓ} : {A : Type ℓ} → Read (A × Text) → ℕ
left (value p) = length p.1
left (failed e) = 0
left panicked = 0

varint_left : Option (ℕ × Text) → ℕ
varint_left none = 0
varint_left (some p) = length p.1

take_text-shrinks : (n : ℕ) (rest : Text) → left (take_text n rest) ≤ length rest
unfolding take_text slices
take_text-shrinks n rest = let fewer = drop-shrinks n rest in ground arith

-- What follows a varint takes no more than it left.
with_varint-shrinks {ℓ} :
    {A : Type ℓ} (raw : Text) (f : ℕ → Text → Read (A × Text))
    → ((n : ℕ) (rest : Text) → left (f n rest) ≤ length rest)
    → left (with_varint (read_varint raw) f) ≤ length raw - 1
with_varint-shrinks raw f h = of_varint (read_varint raw) refl
  where
    of_varint :
        (r : Option (ℕ × Text)) → read_varint raw ≡ r → left (with_varint r f) ≤ length raw - 1
    of_varint none e = omega arith
    of_varint (some p) e =
        let fewer = read_varint-shrinks raw p.0 p.1 e in let taken = h p.0 p.1 in omega arith

read_string-shrinks : (raw : Text) → left (read_string raw) ≤ length raw
unfolding read_string
read_string-shrinks raw =
    let fewer = with_varint-shrinks raw take_text take_text-shrinks in omega arith

left_then {ℓ κ} :
    {A : Type ℓ} {B : Type κ} (r : Read (A × Text)) (f : A → B)
    → left (r >>= λ p. value (f p.0, p.1)) ≡ left r
left_then (value p) f = refl
left_then (failed e) f = refl
left_then panicked f = refl

read_field-shrinks :
    (e : PaymentEvent) (key : ℕ) (raw : Text) → left (read_field e key raw) ≤ length raw
unfolding read_field
read_field-shrinks e key raw =
    let keep : ℕ → Text → Read (PaymentEvent × Text) =
      λ v rest. value (set_number (key / 8) v e, rest) in
    let number = with_varint-shrinks raw keep (λ v rest. omega arith) in
    let text = read_string-shrinks raw in
    let texted = left_then (read_string raw) (λ s. set_text (key / 8) s e) in ground arith

step-shrinks : (e : PaymentEvent) (raw : Text) → left (step e raw) ≤ length raw - 1
unfolding step
step-shrinks e raw = with_varint-shrinks raw (read_field e) (read_field-shrinks e)

after_same {ℓ} :
    {A : Type ℓ} (r : Read (A × Text)) (f g : A → Text → Option (Read A))
    → ((a : A) (rest : Text) → length rest ≤ left r → f a rest ≡ g a rest)
    → after r f ≡ after r g
after_same (value p) f g h = h p.0 p.1 (omega arith)
after_same (failed e) f g h = refl
after_same panicked f g h = refl

pub loop-enough :
    (j k : ℕ) (e : PaymentEvent) (raw : Text)
    → length raw ≤ j
    → length raw ≤ k
    → loop j e raw ≡ loop k e raw
unfolding loop
loop-enough j k e [] hj hk = refl
loop-enough zero k e (b ∷ raw) hj hk = ground arith
loop-enough (suc j) zero e (b ∷ raw) hj hk = ground arith
loop-enough (suc j) (suc k) e (b ∷ raw) hj hk =
    let fewer = step-shrinks e (b ∷ raw) in
    after_same (step e (b ∷ raw)) (loop j) (loop k)
      (λ a rest h. loop-enough j k a rest (omega arith) (omega arith))

-- A reading that does not panic.
abbrev pub IsCalm {ℓ} : {A : Type ℓ} → Read A → Type 0
IsCalm (value a) = Unit
IsCalm (failed e) = Unit
IsCalm panicked = ⊥

with_varint-IsCalm {ℓ} :
    {A : Type ℓ} (r : Option (ℕ × Text)) (f : ℕ → Text → Read A)
    → ((n : ℕ) (rest : Text) → IsCalm (f n rest))
    → IsCalm (with_varint r f)
with_varint-IsCalm none f h = tt
with_varint-IsCalm (some p) f h = h p.0 p.1

then-IsCalm {ℓ κ} :
    {A : Type ℓ} {B : Type κ} (r : Read A) (f : A → B) → IsCalm r → IsCalm (r >>= λ a. value (f a))
then-IsCalm (value a) f h = tt
then-IsCalm (failed e) f h = tt
then-IsCalm panicked f h = h

if-IsCalm {ℓ} :
    {A : Type ℓ} (b : Bool) (x y : Read A) → IsCalm x → IsCalm y → IsCalm (if b then x else y)
if-IsCalm true x y h k = h
if-IsCalm false x y h k = k

take_text-IsCalm : (n : ℕ) (rest : Text) → IsCalm (take_text n rest)
unfolding take_text slices
take_text-IsCalm n rest = elim (Bool-cases (ltb (length rest) n)) [
  | inl short ↦ rw (short, take_text) tt
  | inr enough ↦ rw (enough, take_text) (if-IsCalm (ltb (2 ^ 63 - 1) n) _ _ tt tt)
]

read_string-IsCalm : (raw : Text) → IsCalm (read_string raw)
unfolding read_string
read_string-IsCalm raw = with_varint-IsCalm (read_varint raw) take_text take_text-IsCalm

read_field-IsCalm : (e : PaymentEvent) (key : ℕ) (raw : Text) → IsCalm (read_field e key raw)
unfolding read_field
read_field-IsCalm e key raw =
    if-IsCalm (key % 8 == 0) _ _ (with_varint-IsCalm (read_varint raw) _ (λ v rest. tt)) (
      if-IsCalm (key % 8 == 2) _ _
        (then-IsCalm (read_string raw) (λ (p : Text × Text). (set_text (key / 8) p.0 e, p.1))
          (read_string-IsCalm raw))
        tt)

step-IsCalm : (e : PaymentEvent) (raw : Text) → IsCalm (step e raw)
unfolding step
step-IsCalm e raw = with_varint-IsCalm (read_varint raw) (read_field e) (read_field-IsCalm e)

after_ends {ℓ} :
    {A : Type ℓ} (r : Read (A × Text)) (f : A → Text → Option (Read A))
    → IsCalm r
    → ((a : A) (rest : Text) → length rest ≤ left r → (x : Read A) × (f a rest ≡ some x) × IsCalm x)
    → (x : Read A) × (after r f ≡ some x) × IsCalm x
after_ends (value p) f calm h = h p.0 p.1 (omega arith)
after_ends (failed e) f calm h = (failed e, refl, tt)
after_ends panicked f calm h = (panicked, refl, calm)

loop_ends :
    (k : ℕ) (e : PaymentEvent) (raw : Text)
    → length raw ≤ k
    → (r : Read PaymentEvent) × (loop k e raw ≡ some r) × IsCalm r
unfolding loop
loop_ends k e [] h = (value e, refl, tt)
loop_ends zero e (b ∷ raw) h = let impossible : ⊥ = omega arith in elim impossible [ ]
loop_ends (suc k) e (b ∷ raw) h =
    let fewer = step-shrinks e (b ∷ raw) in
    after_ends (step e (b ∷ raw)) (loop k) (step-IsCalm e (b ∷ raw))
      (λ a rest few. loop_ends k a rest (omega arith))

-- On any bytes the loop that reads a protobuf event ends within as many passes as there are
-- bytes, with a value or an error, and never with the panic of a slice that is out of range.
pub unmarshal_ends : (raw : Text) → (r : Read PaymentEvent) × (unmarshal raw ≡ some r) × IsCalm r
unfolding unmarshal
unmarshal_ends raw = loop_ends (length raw) no_event raw (omega arith)
