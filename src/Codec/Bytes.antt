-- ===== src/Codec/Bytes.antt =====
-- What the readers and writers of internal/codec share: Go's outcomes of a read, and big-endian
-- numbers.
use pixrail_go_payment_switc.Prelude.{
  plain_error, ℕ, ◌+◌, ◌*◌, ◌/◌, ◌%◌, ◌^◌, ◌<◌, ◌≡◌, refl, [], ◌∷◌, ◌++◌, Text, str, Error, ltb,
  if◌then◌else◌, length, take, drop, take-append, drop-append, arith, ap, length-append, not, zero,
  suc, ◌≤◌, ◌==◌, pos,
}
use pixrail_go_payment_switc.Rail.Request.{decimal}

-- A reader returns, fails with an error, or panics.
pub data Read {ℓ} (A : Type ℓ) : Type ℓ where
  value : A → Read A
  failed : Error → Read A
  panicked : Read A

infixl 5 ◌>>=◌
abbrev pub ◌>>=◌ {ℓ κ} : {A : Type ℓ} {B : Type κ} → Read A → (A → Read B) → Read B
value a >>= f = f a
failed e >>= f = failed e
panicked >>= f = panicked

-- `io.ErrUnexpectedEOF`
abbrev pub unexpected_eof : Error
unexpected_eof = plain_error (str "unexpected EOF")

-- `byte(v)`, and `byte(v >> k)`.
abbrev pub byte : ℕ → ℕ
byte v = v % 256

abbrev pub byte_at : ℕ → ℕ → ℕ
byte_at k v = v / 2 ^ k % 256

-- `binary.BigEndian.AppendUint16`, `AppendUint32` and `AppendUint64`.
unfoldable pub be16 : ℕ → Text
be16 v = byte_at 8 v ∷ byte v ∷ []

unfoldable pub be32 : ℕ → Text
be32 v = byte_at 24 v ∷ byte_at 16 v ∷ byte_at 8 v ∷ byte v ∷ []

unfoldable pub be64 : ℕ → Text
be64 v =
    byte_at 56 v
    ∷ byte_at 48 v
    ∷ byte_at 40 v
    ∷ byte_at 32 v
    ∷ byte_at 24 v
    ∷ byte_at 16 v
    ∷ byte_at 8 v
    ∷ byte v
    ∷ []

-- The number in so many bytes, and what follows them.
unfoldable pub read8 : Text → Read (ℕ × Text)
read8 (a ∷ r) = value (a, r)
read8 [] = failed unexpected_eof

unfoldable pub read16 : Text → Read (ℕ × Text)
read16 (a ∷ b ∷ r) = value (a * 2 ^ 8 + b, r)
read16 _ = failed unexpected_eof

unfoldable pub read32 : Text → Read (ℕ × Text)
read32 (a ∷ b ∷ c ∷ d ∷ r) = value (a * 2 ^ 24 + b * 2 ^ 16 + c * 2 ^ 8 + d, r)
read32 _ = failed unexpected_eof

unfoldable pub read64 : Text → Read (ℕ × Text)
read64 (a ∷ b ∷ c ∷ d ∷ e ∷ f ∷ g ∷ h ∷ r) =
    value (
      a * 2 ^ 56 + b * 2 ^ 48 + c * 2 ^ 40 + d * 2 ^ 32 + e * 2 ^ 24 + f * 2 ^ 16 + g * 2 ^ 8 + h,
      r,
    )
read64 _ = failed unexpected_eof

-- `raw[:n]` and `raw[n:]`: Go panics when there are not that many.
unfoldable pub slices : ℕ → Text → Read (Text × Text)
slices n raw = if ltb (length raw) n then panicked else value (take n raw, drop n raw)

-- `raw[:n]` and `raw[n:]`, when there are that many.
unfoldable pub read_bytes : ℕ → Text → Read (Text × Text)
unfolding slices
read_bytes n raw = if ltb (length raw) n then failed unexpected_eof else slices n raw

-- `0x%x` of a byte, after the 0x.
unfoldable pub hex_digit : ℕ → ℕ
hex_digit d = if ltb d 10 then 48 + d else 87 + d

unfoldable pub hex_byte : ℕ → Text
unfolding hex_digit
hex_byte v = if ltb v 16 then hex_digit v ∷ [] else hex_digit (v / 16) ∷ hex_digit (v % 16) ∷ []

-- What each `Unmarshal` ends with: nothing may follow the last field.
unfoldable pub finish {ℓ} : {A : Type ℓ} → Text → A → Text → Read A
finish name a rest =
    if not (length rest == 0)
    then failed (plain_error (name ++ (str " trailing bytes " ++ decimal (pos (length rest)))))
    else value a

pub read16-be16 : (v : ℕ) (rest : Text) → v < 2 ^ 16 → read16 (be16 v ++ rest) ≡ value (v, rest)
unfolding read16 be16
read16-be16 v rest h = ap (λ (n : ℕ). value (n, rest)) (omega arith)

pub read32-be32 : (v : ℕ) (rest : Text) → v < 2 ^ 32 → read32 (be32 v ++ rest) ≡ value (v, rest)
unfolding read32 be32
read32-be32 v rest h = ap (λ (n : ℕ). value (n, rest)) (omega arith)

pub read64-be64 : (v : ℕ) (rest : Text) → v < 2 ^ 64 → read64 (be64 v ++ rest) ≡ value (v, rest)
unfolding read64 be64
read64-be64 v rest h = ap (λ (n : ℕ). value (n, rest)) (omega arith)

pub read_bytes-append : (s rest : Text) → read_bytes (length s) (s ++ rest) ≡ value (s, rest)
unfolding read_bytes
read_bytes-append s rest =
    rw (take-append s rest, drop-append s rest) (ground (arith, length-append s rest))

pub bind_assoc {ℓ κ μ} :
    {A : Type ℓ} {B : Type κ} {C : Type μ} (r : Read A) (f : A → Read B) (g : B → Read C)
    → ((r >>= f) >>= g) ≡ (r >>= λ x. f x >>= g)
bind_assoc (value a) f g = refl
bind_assoc (failed e) f g = refl
bind_assoc panicked f g = refl

take_within : (n : ℕ) (s rest : Text) → n ≤ length s → take n (s ++ rest) ≡ take n s
take_within zero s rest h = refl
take_within (suc n) [] rest h = ground arith
take_within (suc n) (x ∷ s) rest h = ap (◌∷◌ x) (take_within n s rest (omega arith))

drop_within : (n : ℕ) (s rest : Text) → n ≤ length s → drop n (s ++ rest) ≡ drop n s ++ rest
drop_within zero s rest h = refl
drop_within (suc n) [] rest h = ground arith
drop_within (suc n) (x ∷ s) rest h = drop_within n s rest (omega arith)

pub read_bytes_within :
    (n : ℕ) (s rest : Text)
    → n ≤ length s
    → read_bytes n (s ++ rest) ≡ value (take n s, drop n s ++ rest)
unfolding read_bytes
read_bytes_within n s rest h =
    rw (take_within n s rest h, drop_within n s rest h) (ground (arith, length-append s rest))
