-- ===== src/Codec/Cbor/Heads.antt =====
-- What each writer of internal/codec/cbor.go appends, and that its reader takes it off again.
use mathlib.Core.List.{append_assoc, append-nil}
use pixrail_go_payment_switc.Prelude.{
  ℕ, ◌+◌, ◌*◌, ◌/◌, ◌%◌, ◌^◌, ◌<◌, ◌≡◌, refl, sym, ◌∙◌, ltb, leb, List, [], ◌∷◌, ◌++◌, Text, str, ℤ,
  pos, Bool-cases, inl, inr, to_u64, from_u64, to_u64-lt, length, arith, All,
}
use pixrail_go_payment_switc.Codec.Bytes.{
  value, byte, be16, be32, be64, read8, read16, read32, read64, read16-be16, read32-be32,
  read64-be64, read_bytes-append,
}
use pixrail_go_payment_switc.Codec.Cbor.{
  append_major, append_array, append_text, append_uint, append_texts, with_major, read_head,
  read_major, read_array_len, read_text, read_uint, read_texts,
}

-- A head on its own.
abbrev pub head : ℕ → ℕ → Text
head major v = append_major [] major v

append_major-append : (out : Text) (major v : ℕ) → append_major out major v ≡ out ++ head major v
unfolding append_major
append_major-append out major v = ground (
  arith,
  append_assoc out ((major * 32 + 26) ∷ []) (be32 v),
  append_assoc out ((major * 32 + 27) ∷ []) (be64 v),
)

major_of : (major low : ℕ) → low < 32 → (major * 32 + low) / 32 ≡ major
major_of major low h = omega arith

low_of : (major low : ℕ) → low < 32 → (major * 32 + low) % 32 ≡ low
low_of major low h = omega arith

module _ (major : ℕ) (raw : Text) where
  read_head-tiny : (v : ℕ) → v < 24 → read_head ((major * 32 + v) ∷ raw) ≡ value (major, v, raw)
  unfolding read_head
  read_head-tiny v h =
      rw (major_of major v (omega arith), low_of major v (omega arith)) (ground arith)

  read_head-one : read_head ((major * 32 + 24) ∷ raw) ≡ with_major major (read8 raw)
  unfolding read_head
  read_head-one = rw (major_of major 24 (omega arith), low_of major 24 (omega arith)) refl

  read_head-two : read_head ((major * 32 + 25) ∷ raw) ≡ with_major major (read16 raw)
  unfolding read_head
  read_head-two = rw (major_of major 25 (omega arith), low_of major 25 (omega arith)) refl

  read_head-four : read_head ((major * 32 + 26) ∷ raw) ≡ with_major major (read32 raw)
  unfolding read_head
  read_head-four = rw (major_of major 26 (omega arith), low_of major 26 (omega arith)) refl

  read_head-eight : read_head ((major * 32 + 27) ∷ raw) ≡ with_major major (read64 raw)
  unfolding read_head
  read_head-eight = rw (major_of major 27 (omega arith), low_of major 27 (omega arith)) refl

read_head-head :
    (major v : ℕ) (rest : Text)
    → v < 2 ^ 64
    → read_head (head major v ++ rest) ≡ value (major, v, rest)
unfolding append_major
read_head-head major v rest hv = elim (Bool-cases (ltb v 24)) [
  | inl tiny ↦ rw tiny (read_head-tiny major rest v (ground arith))
  | inr above ↦ elim (Bool-cases (leb v 0xff)) [
    | inl one ↦
        let same : byte v ≡ v = ground arith in
        rw (above, one) (read_head-one major (byte v ∷ rest) ∙ unfold read8 in rw same refl)
    | inr more ↦ elim (Bool-cases (leb v 0xffff)) [
      | inl two ↦
          let low : v < 2 ^ 16 = ground arith in
          rw (above, more, two)
            (read_head-two major (be16 v ++ rest) ∙ rw (read16-be16 v rest low) refl)
      | inr wide ↦ elim (Bool-cases (leb v 0xffffffff)) [
        | inl four ↦
            let low : v < 2 ^ 32 = ground arith in
            rw (above, more, wide, four)
              (read_head-four major (be32 v ++ rest) ∙ rw (read32-be32 v rest low) refl)
        | inr eight ↦
            rw (above, more, wide, eight)
              (read_head-eight major (be64 v ++ rest) ∙ rw (read64-be64 v rest hv) refl)
      ]
    ]
  ]
]

pub read_major-head :
    (major v : ℕ) (name rest : Text)
    → v < 2 ^ 64
    → read_major major name (head major v ++ rest) ≡ value (v, rest)
unfolding read_major
read_major-head major v name rest hv = rw (read_head-head major v rest hv) (ground arith)

-- What each field is written as.
abbrev pub text_bytes : Text → Text
text_bytes s = head 3 (length s) ++ s

abbrev pub uint_bytes : ℤ → Text
uint_bytes z = head 0 (to_u64 z)

abbrev pub texts_bytes : List Text → Text
texts_bytes [] = []
texts_bytes (s ∷ ss) = text_bytes s ++ texts_bytes ss

pub append_text-bytes : (out s : Text) → append_text out s ≡ out ++ text_bytes s
unfolding append_text
append_text-bytes out s =
    rw (append_major-append out 3 (length s)) (append_assoc out (head 3 (length s)) s)

pub append_uint-bytes : (out : Text) (z : ℤ) → append_uint out (to_u64 z) ≡ out ++ uint_bytes z
unfolding append_uint
append_uint-bytes out z = append_major-append out 0 (to_u64 z)

pub append_array-bytes : (out : Text) (n : ℕ) → append_array out n ≡ out ++ head 4 n
unfolding append_array
append_array-bytes out n = append_major-append out 4 n

pub append_texts-bytes : (out : Text) (ss : List Text) → append_texts out ss ≡ out ++ texts_bytes ss
unfolding append_texts
append_texts-bytes out [] = sym (append-nil out)
append_texts-bytes out (s ∷ ss) =
    append_texts-bytes (append_text out s) ss
    ∙ rw (append_text-bytes out s) (append_assoc out (text_bytes s) (texts_bytes ss))

-- A Go string is shorter than 2 ^ 63.
abbrev pub Fits : Text → Type 0
Fits s = length s < 2 ^ 63

pub read_text-bytes : (s rest : Text) → Fits s → read_text (text_bytes s ++ rest) ≡ value (s, rest)
unfolding read_text
read_text-bytes s rest h =
    rw
      (
        append_assoc (head 3 (length s)) s rest,
        read_major-head 3 (length s) (str "text") (s ++ rest) (omega arith),
      )
      (read_bytes-append s rest)

pub read_uint-bytes :
    (z : ℤ) (rest : Text) → read_uint (uint_bytes z ++ rest) ≡ value (to_u64 z, rest)
unfolding read_uint
read_uint-bytes z rest = read_major-head 0 (to_u64 z) (str "uint") rest (to_u64-lt z)

pub read_array_len-head :
    (n : ℕ) (rest : Text) → n < 2 ^ 63 → read_array_len (head 4 n ++ rest) ≡ value (pos n, rest)
unfolding read_array_len from_u64
read_array_len-head n rest h =
    rw (read_major-head 4 n (str "array") rest (omega arith)) (ground arith)

pub read_texts-bytes :
    (ss : List Text) (rest : Text)
    → All Fits ss
    → read_texts (length ss) (texts_bytes ss ++ rest) ≡ value (ss, rest)
unfolding read_texts
read_texts-bytes [] rest h = refl
read_texts-bytes (s ∷ ss) rest h =
    rw
      (
        append_assoc (text_bytes s) (texts_bytes ss) rest,
        read_text-bytes s (texts_bytes ss ++ rest) h.0,
        read_texts-bytes ss rest h.1,
      )
      refl
