-- ===== src/Codec/Proto/Fields.antt =====
-- A field that internal/codec/proto_wire.go writes, and the passes of its loop that read it.
use mathlib.Core.List.{append_assoc, append-nil}
use pixrail_go_payment_switc.Prelude.{
  ℕ, ◌+◌, ◌*◌, ◌^◌, ◌/◌, ◌%◌, ◌≤◌, ◌<◌, ◌≡◌, refl, sym, ap, subst, ◌∙◌, true, false, ◌==◌, List, [],
  ◌∷◌, ◌++◌, Text, ℤ, to_u64, to_u64-lt, take-append, drop-append, length, length-append, arith,
  Bool-cases, inl, inr, Option, some,
}
use pixrail_go_payment_switc.Codec.{PaymentEvent}
use pixrail_go_payment_switc.Codec.Bytes.{Read, value, slices}
use pixrail_go_payment_switc.Codec.Cbor.Heads.{Fits}
use pixrail_go_payment_switc.Codec.Proto.{
  append_varint, append_string, append_rules, read_varint, take_text, read_string, set_number,
  set_text, read_field, step, loop,
}
use pixrail_go_payment_switc.Codec.Proto.Varint.{
  varint, append_varint_raw-varint, varint-small, read_varint-varint,
}
use pixrail_go_payment_switc.Codec.Proto.Loop.{loop-enough}

-- A field on its own.
unfoldable pub text_field : ℕ → Text → Text
text_field field s = append_string [] field s

unfoldable pub number_field : ℕ → ℤ → Text
number_field field z = append_varint [] field (to_u64 z)

unfoldable pub rules_fields : List Text → Text
rules_fields [] = []
rules_fields (s ∷ ss) = text_field 15 s ++ rules_fields ss

pub append_string-field :
    (out : Text) (field : ℕ) (s : Text) → append_string out field s ≡ out ++ text_field field s
unfolding append_string text_field
append_string-field out field [] = sym (append-nil out)
append_string-field out field (x ∷ s) = simp (append_varint_raw-varint, append_assoc)

pub append_varint-field :
    (out : Text) (field : ℕ) (z : ℤ)
    → append_varint out field (to_u64 z) ≡ out ++ number_field field z
unfolding append_varint number_field
append_varint-field out field z = elim (Bool-cases (to_u64 z == 0)) [
  | inl none_written ↦ rw none_written (sym (append-nil out))
  | inr some_written ↦ rw some_written (simp (append_varint_raw-varint, append_assoc))
]

pub append_rules-fields :
    (out : Text) (ss : List Text) → append_rules out ss ≡ out ++ rules_fields ss
unfolding append_rules rules_fields
append_rules-fields out [] = sym (append-nil out)
append_rules-fields out (s ∷ ss) =
    append_rules-fields (append_string out 15 s) ss
    ∙ rw (append_string-field out 15 s) (append_assoc out (text_field 15 s) (rules_fields ss))

-- The event at the end of a message, when the loop has `e` before it.
unfoldable pub run : PaymentEvent → Text → Option (Read PaymentEvent)
run e raw = loop (length raw) e raw

run-step :
    (e next : PaymentEvent) (b : ℕ) (raw rest : Text)
    → step e (b ∷ raw) ≡ value (next, rest)
    → length rest ≤ length raw
    → run e (b ∷ raw) ≡ run next rest
unfolding run loop
run-step e next b raw rest h fewer =
    rw h (loop-enough (length raw) (length rest) next rest fewer (omega arith))

take_text-append : (s rest : Text) → Fits s → take_text (length s) (s ++ rest) ≡ value (s, rest)
unfolding take_text slices
take_text-append s rest h =
    rw (take-append s rest, drop-append s rest) (ground (arith, length-append s rest))

read_varint-key : (key : ℕ) (tail : Text) → key < 128 → read_varint (key ∷ tail) ≡ some (key, tail)
read_varint-key key tail h =
    subst (λ (bytes : Text). read_varint (bytes ++ tail) ≡ some (key, tail)) (varint-small key h)
      (read_varint-varint key tail (omega arith))

step-text :
    (field : ℕ) (s rest : Text) (e : PaymentEvent)
    → field < 16
    → Fits s
    → step e ((field * 8 + 2) ∷ (varint (length s) ++ (s ++ rest)))
      ≡ value (set_text field s e, rest)
unfolding step read_field read_string
step-text field s rest e small fits =
    let not_number : ((field * 8 + 2) % 8 == 0) ≡ false = ground arith in
    let is_text : ((field * 8 + 2) % 8 == 2) ≡ true = ground arith in
    let its_field : (field * 8 + 2) / 8 ≡ field = omega arith in
    rw
      (
        read_varint-key (field * 8 + 2) (varint (length s) ++ (s ++ rest)) (omega arith),
        not_number,
        is_text,
        its_field,
        read_varint-varint (length s) (s ++ rest) (omega arith),
        take_text-append s rest fits,
      )
      refl

step-number :
    (field v : ℕ) (rest : Text) (e : PaymentEvent)
    → field < 16
    → v < 2 ^ 64
    → step e ((field * 8) ∷ (varint v ++ rest)) ≡ value (set_number field v e, rest)
unfolding step read_field
step-number field v rest e small fits =
    let is_number : (field * 8 % 8 == 0) ≡ true = ground arith in
    let its_field : field * 8 / 8 ≡ field = omega arith in
    rw
      (
        read_varint-key (field * 8) (varint v ++ rest) (omega arith),
        is_number,
        its_field,
        read_varint-varint v rest fits,
      )
      refl

text_field-bytes :
    (field x : ℕ) (s : Text)
    → field < 16
    → text_field field (x ∷ s) ≡ (field * 8 + 2) ∷ (varint (length (x ∷ s)) ++ (x ∷ s))
unfolding text_field append_string
text_field-bytes field x s h =
    rw (append_varint_raw-varint [] (field * 8 + 2), varint-small (field * 8 + 2) (omega arith))
      (ap (λ (t : Text). t ++ (x ∷ s))
        (append_varint_raw-varint ((field * 8 + 2) ∷ []) (length (x ∷ s))))

number_field-bytes :
    (field : ℕ) (z : ℤ)
    → field < 16
    → (to_u64 z == 0) ≡ false
    → number_field field z ≡ (field * 8) ∷ varint (to_u64 z)
unfolding number_field append_varint
number_field-bytes field z h nonzero =
    rw (nonzero, append_varint_raw-varint [] (field * 8), varint-small (field * 8) (omega arith))
      (append_varint_raw-varint ((field * 8) ∷ []) (to_u64 z))

length-skip : (xs ys : Text) → length ys ≤ length (xs ++ ys)
length-skip xs ys = omega (arith, length-append xs ys)

pub run-nonempty :
    (field x : ℕ) (s rest : Text) (e : PaymentEvent)
    → field < 16
    → Fits (x ∷ s)
    → run e (text_field field (x ∷ s) ++ rest) ≡ run (set_text field (x ∷ s) e) rest
run-nonempty field x s rest e small fits =
    let tail = varint (length (x ∷ s)) ++ ((x ∷ s) ++ rest) in
    let skipped = length-skip (varint (length (x ∷ s)) ++ (x ∷ s)) rest in
    let taken = step-text field (x ∷ s) rest e small fits in
    rw (text_field-bytes field x s small, append_assoc (varint (length (x ∷ s))) (x ∷ s) rest)
      (run-step e (set_text field (x ∷ s) e) (field * 8 + 2) tail rest taken (
        subst (λ (t : Text). length rest ≤ length t)
          (append_assoc (varint (length (x ∷ s))) (x ∷ s) rest) skipped))

pub run-text_field :
    (field : ℕ) (s rest : Text) (e : PaymentEvent)
    → field < 16
    → Fits s
    → set_text field [] e ≡ e
    → run e (text_field field s ++ rest) ≡ run (set_text field s e) rest
run-text_field field [] rest e small fits same = unfold text_field append_string in rw same refl
run-text_field field (x ∷ s) rest e small fits same = run-nonempty field x s rest e small fits

pub run-number_field :
    (field : ℕ) (z : ℤ) (rest : Text) (e : PaymentEvent)
    → field < 16
    → set_number field 0 e ≡ e
    → run e (number_field field z ++ rest) ≡ run (set_number field (to_u64 z) e) rest
run-number_field field z rest e small same = elim (Bool-cases (to_u64 z == 0)) [
  | inl zero_value ↦
      let is_zero : to_u64 z ≡ 0 = ground arith in
      unfold number_field append_varint in rw (zero_value, is_zero, same) refl
  | inr nonzero ↦ rw (number_field-bytes field z small nonzero) (
      run-step e (set_number field (to_u64 z) e) (field * 8) (varint (to_u64 z) ++ rest) rest
        (step-number field (to_u64 z) rest e small (to_u64-lt z))
        (length-skip (varint (to_u64 z)) rest))
]
