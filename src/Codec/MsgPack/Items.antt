-- ===== src/Codec/MsgPack/Items.antt =====
-- What each writer of internal/codec/msgpack.go appends, and what its reader takes off again.
use mathlib.Core.List.{append_assoc, append-nil}
use pixrail_go_payment_switc.Prelude.{
  ℕ, ◌+◌, ◌%◌, ◌^◌, ◌≤◌, ◌<◌, ◌≡◌, refl, sym, ap, ◌∙◌, leb, leb_ℤ, ◌&&◌, List, [], ◌∷◌, ◌++◌, Text,
  ℤ, pos, Bool-cases, inl, inr, to_u64, from_u64-to_u64, to_u64-lt, IsInt64, if◌then◌else◌, length,
  take, drop, arith, All,
}
use pixrail_go_payment_switc.Codec.Bytes.{
  value, be16, be64, read16, read_bytes, read16-be16, read64-be64, read_bytes_within,
}
use pixrail_go_payment_switc.Codec.MsgPack.{
  append_string, append_int64, append_strings, append_string_array, read_array_len, read_string_len,
  read_string, read_int64, read_strings, read_string_array,
}

unfoldable pub string_bytes : Text → Text
string_bytes s = append_string [] s

unfoldable pub int_bytes : ℤ → Text
int_bytes z = append_int64 [] z

abbrev pub strings_bytes : List Text → Text
strings_bytes [] = []
strings_bytes (s ∷ ss) = string_bytes s ++ strings_bytes ss

abbrev pub array_bytes : ℕ → Text
array_bytes n = if leb n 15 then (0x90 + n) ∷ [] else 0xdc ∷ be16 n

pub append_string-bytes : (out s : Text) → append_string out s ≡ out ++ string_bytes s
unfolding append_string string_bytes
append_string-bytes out s = ground (
  arith,
  append_assoc out ((0xa0 + length s) ∷ []) s,
  append_assoc out (0xda ∷ be16 (length s)) s,
)

pub append_int64-bytes : (out : Text) (z : ℤ) → append_int64 out z ≡ out ++ int_bytes z
unfolding append_int64 int_bytes
append_int64-bytes out z = ground (arith, append_assoc out (0xd3 ∷ []) (be64 (to_u64 z)))

pub append_strings-bytes :
    (out : Text) (ss : List Text) → append_strings out ss ≡ out ++ strings_bytes ss
unfolding append_strings
append_strings-bytes out [] = sym (append-nil out)
append_strings-bytes out (s ∷ ss) =
    append_strings-bytes (append_string out s) ss
    ∙ rw (append_string-bytes out s) (append_assoc out (string_bytes s) (strings_bytes ss))

pub append_string_array-bytes :
    (out : Text) (ss : List Text)
    → append_string_array out ss ≡ out ++ (array_bytes (length ss) ++ strings_bytes ss)
unfolding append_string_array
append_string_array-bytes out ss = ground (
  arith,
  append_strings-bytes (out ++ ((0x90 + length ss) ∷ [])) ss,
  append_strings-bytes (out ++ (0xdc ∷ be16 (length ss))) ss,
  append_assoc out ((0x90 + length ss) ∷ []) (strings_bytes ss),
  append_assoc out (0xdc ∷ be16 (length ss)) (strings_bytes ss),
)

-- A length that MessagePack can hold.
abbrev pub Short : Text → Type 0
Short s = length s < 2 ^ 16

read_string_len-tiny :
    (n : ℕ) (rest : Text) → n ≤ 31 → read_string_len ((0xa0 + n) ∷ rest) ≡ value (n, rest)
unfolding read_string_len
read_string_len-tiny n rest h = let low : (0xa0 + n) % 32 ≡ n = omega arith in ground (arith, low)

-- Two bytes hold a number modulo 2 ^ 16.
read16_wraps : (n : ℕ) (rest : Text) → read16 (be16 n ++ rest) ≡ value (n % 2 ^ 16, rest)
unfolding read16 be16
read16_wraps n rest = ap (λ (m : ℕ). value (m, rest)) (omega arith)

read_string-wide :
    (n : ℕ) (raw : Text) → read_string (0xda ∷ (be16 n ++ raw)) ≡ read_bytes (n % 2 ^ 16) raw
unfolding read_string read_string_len
read_string-wide n raw = rw (read16_wraps n raw) refl

-- What the MessagePack codec reads of a string that it wrote: the first bytes of it, as many as
-- its length modulo 2 ^ 16; the others are left to be read as what comes next.
pub read_string-append_string :
    (s rest : Text)
    → read_string (append_string [] s ++ rest)
      ≡ value (take (length s % 2 ^ 16) s, drop (length s % 2 ^ 16) s ++ rest)
unfolding append_string read_string
read_string-append_string s rest = elim (Bool-cases (leb (length s) 31)) [
  | inl tiny ↦
      let whole : length s % 2 ^ 16 ≡ length s = ground arith in
      let counted = read_string_len-tiny (length s) (s ++ rest) (ground arith) in
      rw (tiny, counted, whole) (read_bytes_within (length s) s rest (omega arith))
  | inr wide ↦
      rw (wide, append_assoc (be16 (length s)) s rest, read_string-wide (length s) (s ++ rest))
        (read_bytes_within (length s % 2 ^ 16) s rest (omega arith))
]

take_all : (s : Text) → take (length s) s ≡ s
take_all [] = refl
take_all (x ∷ s) = ap (◌∷◌ x) (take_all s)

drop_all : (s : Text) → drop (length s) s ≡ []
drop_all [] = refl
drop_all (x ∷ s) = drop_all s

pub read_string-bytes :
    (s rest : Text) → Short s → read_string (string_bytes s ++ rest) ≡ value (s, rest)
unfolding string_bytes
read_string-bytes s rest h =
    let whole : length s % 2 ^ 16 ≡ length s = omega arith in
    read_string-append_string s rest ∙ rw (whole, take_all s, drop_all s) refl

pub read_int64-bytes :
    (z : ℤ) (rest : Text) → IsInt64 z → read_int64 (int_bytes z ++ rest) ≡ value (z, rest)
unfolding read_int64 append_int64 int_bytes
read_int64-bytes z rest h = elim (Bool-cases (leb_ℤ (pos 0) z && leb_ℤ z (pos 127))) [
  | inl tiny ↦ rw tiny (ground arith)
  | inr wide ↦ rw (wide, read64-be64 (to_u64 z) rest (to_u64-lt z), from_u64-to_u64 z h) refl
]

pub read_array_len-bytes :
    (n : ℕ) (rest : Text) → n < 2 ^ 16 → read_array_len (array_bytes n ++ rest) ≡ value (n, rest)
unfolding read_array_len
read_array_len-bytes n rest h = elim (Bool-cases (leb n 15)) [
  | inl tiny ↦ let low : (0x90 + n) % 16 ≡ n = ground arith in rw tiny (ground (arith, low))
  | inr wide ↦ rw (wide, read16-be16 n rest h) refl
]

pub read_strings-bytes :
    (ss : List Text) (rest : Text)
    → All Short ss
    → read_strings (length ss) (strings_bytes ss ++ rest) ≡ value (ss, rest)
unfolding read_strings
read_strings-bytes [] rest h = refl
read_strings-bytes (s ∷ ss) rest h =
    rw
      (
        append_assoc (string_bytes s) (strings_bytes ss) rest,
        read_string-bytes s (strings_bytes ss ++ rest) h.0,
        read_strings-bytes ss rest h.1,
      )
      refl

pub read_string_array-bytes :
    (ss : List Text) (rest : Text)
    → All Short ss
    → length ss < 2 ^ 16
    → read_string_array (array_bytes (length ss) ++ (strings_bytes ss ++ rest)) ≡ value (ss, rest)
unfolding read_string_array
read_string_array-bytes ss rest fit few =
    rw
      (
        read_array_len-bytes (length ss) (strings_bytes ss ++ rest) few,
        read_strings-bytes ss rest fit,
      )
      refl
