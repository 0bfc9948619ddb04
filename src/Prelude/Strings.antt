-- ===== src/Prelude/Strings.antt =====
-- A Go string is a sequence of bytes: equality, and `strings.TrimSpace`.
use Prim.Native.Char.{code}
use Prim.Native.String.{String}
use Prim.Native.Nat.{ℕ, zero, suc}
use mathlib.Core.Path.{◌≡◌, refl, sym, subst, ap}
use mathlib.Core.Logic.{◌↔◌, ◌≢◌}
use mathlib.Core.Bool.{Bool, true, false, ◌&&◌, ◌||◌}
use mathlib.Core.List.{List, [], ◌∷◌, reverse, reverse-cons}
use pixrail_go_payment_switc.Prelude.Lists.{All, All-append}
use native.Mathlib.Omega.{arith}
use pixrail_go_payment_switc.Prelude.Tests.{◌==◌, leb, if◌then◌else◌}

abbrev pub Text : Type 0
Text = List ℕ

-- The bytes of an ASCII literal.
unfoldable pub str : String → Text
str String.[] = []
str (String.◌∷◌ c s) = code c ∷ str s

unfoldable pub text_eq : Text → Text → Bool
text_eq [] [] = true
text_eq [] (y ∷ ys) = false
text_eq (x ∷ xs) [] = false
text_eq (x ∷ xs) (y ∷ ys) = (x == y) && text_eq xs ys

text_eq_refl : (a : Text) → text_eq a a ≡ true
unfolding text_eq
text_eq_refl [] = refl
text_eq_refl (x ∷ xs) = ground (arith, text_eq_refl xs)

eq_of-text_eq : (a b : Text) → text_eq a b ≡ true → a ≡ b
unfolding text_eq
eq_of-text_eq [] [] h = refl
eq_of-text_eq [] (y ∷ ys) h = cc
eq_of-text_eq (x ∷ xs) [] h = cc
eq_of-text_eq (x ∷ xs) (y ∷ ys) h = ground (arith, eq_of-text_eq xs ys)

pub text_eq_iff : (a b : Text) → (text_eq a b ≡ true) ↔ (a ≡ b)
text_eq_iff a b = (eq_of-text_eq a b, λ e. rw e (text_eq_refl b))

abbrev pub is_empty : Text → Bool
is_empty [] = true
is_empty (x ∷ xs) = false

pub not_empty : (s : Text) → is_empty s ≡ false → s ≢ []
not_empty s h e = ground (arith, ap is_empty e)

is_ascii_space : ℕ → Bool
is_ascii_space b = b == 32 || (leb 9 b && leb b 13)

-- The characters of `unicode.IsSpace` above ASCII, by their UTF-8 bytes.
is_space2 : ℕ → ℕ → Bool
is_space2 a b = a == 0xc2 && (b == 0x85 || b == 0xa0)

is_space3 : ℕ → ℕ → ℕ → Bool
is_space3 a b c =
    (a == 0xe1 && (b == 0x9a && c == 0x80))
    || ((a == 0xe2
          && (b == 0x80 && (leb 0x80 c && leb c 0x8a || (c == 0xa8 || (c == 0xa9 || c == 0xaf)))))
        || ((a == 0xe2 && (b == 0x81 && c == 0x9f)) || (a == 0xe3 && (b == 0x80 && c == 0x80))))

-- Bytes of the space that the text begins with; 0 when it begins with none.
leading : Text → ℕ
unfolding is_ascii_space is_space2 is_space3
leading [] = 0
leading (a ∷ []) = if is_ascii_space a then 1 else 0
leading (a ∷ b ∷ []) = if is_ascii_space a then 1 else if is_space2 a b then 2 else 0
leading (a ∷ b ∷ c ∷ r) =
    if is_ascii_space a then 1 else if is_space2 a b then 2 else if is_space3 a b c then 3 else 0

-- The same at the end, on the reversed text.
trailing : Text → ℕ
unfolding is_ascii_space is_space2 is_space3
trailing [] = 0
trailing (a ∷ []) = if is_ascii_space a then 1 else 0
trailing (b ∷ a ∷ []) = if is_ascii_space b then 1 else if is_space2 a b then 2 else 0
trailing (c ∷ b ∷ a ∷ r) =
    if is_ascii_space c then 1 else if is_space2 b c then 2 else if is_space3 a b c then 3 else 0

-- Drops spaces from the front; `k` bytes of the space under way are still to be dropped.
strip : (Text → ℕ) → ℕ → Text → Text
strip width k [] = []
strip width (suc k) (x ∷ xs) = strip width k xs
strip width zero (x ∷ xs) = elim (width (x ∷ xs)) [ zero ↦ x ∷ xs | suc k ↦ strip width k xs ]

unfoldable pub trim : Text → Text
unfolding strip leading trailing
trim s = reverse (strip trailing 0 (reverse (strip leading 0 s)))

module _ (P : ℕ → Type 0) where
  All-reverse : (s : Text) → All P s → All P (reverse s)
  All-reverse [] h = tt
  All-reverse (x ∷ s) h =
      subst (All P) (sym (reverse-cons x s))
        (All-append P (reverse s) (x ∷ []) (All-reverse s h.1) (h.0, tt))

  All-strip : (width : Text → ℕ) (k : ℕ) (s : Text) → All P s → All P (strip width k s)
  unfolding strip
  All-strip width k [] h = tt
  All-strip width (suc k) (x ∷ s) h = All-strip width k s h.1
  All-strip width zero (x ∷ s) h = of_width (width (x ∷ s)) (λ k. All-strip width k s h.1)
    where
      of_width :
          (n : ℕ)
          → ((k : ℕ) → All P (strip width k s))
          → All P (elim n as (λ _. Text) [ zero ↦ x ∷ s | suc k ↦ strip width k s ])
      of_width zero rest = h
      of_width (suc k) rest = rest k

  -- `strings.TrimSpace` only leaves bytes out.
  pub All-trim : (s : Text) → All P s → All P (trim s)
  unfolding trim
  All-trim s h = All-reverse (strip trailing 0 (reverse (strip leading 0 s))) (
      All-strip trailing 0 (reverse (strip leading 0 s))
        (All-reverse (strip leading 0 s) (All-strip leading 0 s h)))

trim_run : trim (str " a b\n") ≡ str "a b"
unfolding trim str
trim_run = refl

trim_nbsp : trim (0xc2 ∷ 0xa0 ∷ 97 ∷ 0xe2 ∷ 0x80 ∷ 0xa9 ∷ []) ≡ 97 ∷ []
unfolding trim
trim_nbsp = refl
