-- ===== src/Prelude/Errors.antt =====
-- Go's (value, error) pairs. An error is the sentinel that `errors.Is` finds in it, and its text.
use mathlib.Core.Path.{◌≡◌, refl, subst}
use mathlib.Core.Logic.{◌⊎◌, inl, inr}
use mathlib.Core.List.{◌++◌}
use native.Mathlib.Omega.{arith}
use mathlib.Core.Bool.{Bool, true, false}
use pixrail_go_payment_switc.Prelude.Tests.{if◌then◌else◌}
use pixrail_go_payment_switc.Prelude.Strings.{Text, str}

-- The sentinels of internal/rail/model.go and those of `context`; `other` is any other error.
pub data Kind : Type 0 where
  validation unauthorized not_found conflict rate_limited dependency_failed : Kind
  deadline_exceeded canceled other : Kind

pub record Error : Type 0 where
  pub kind : Kind
  pub message : Text

pub data Result {ℓ} (A : Type ℓ) : Type ℓ where
  ok : A → Result A
  err : Error → Result A

infixl 5 ◌>>=◌
abbrev pub ◌>>=◌ {ℓ κ} : {A : Type ℓ} {B : Type κ} → Result A → (A → Result B) → Result B
ok a >>= f = f a
err e >>= f = err e

unfoldable pub sentinel_text : Kind → Text
sentinel_text validation = str "validation failed"
sentinel_text unauthorized = str "unauthorized"
sentinel_text not_found = str "not found"
sentinel_text conflict = str "conflict"
sentinel_text rate_limited = str "rate limited"
sentinel_text dependency_failed = str "dependency failed"
sentinel_text deadline_exceeded = str "context deadline exceeded"
sentinel_text canceled = str "context canceled"
sentinel_text other = str "error"

-- The sentinel itself, and `fmt.Errorf("%w: …", sentinel)`.
abbrev pub sentinel : Kind → Error
sentinel k = record { kind = k; message = sentinel_text k }

abbrev pub fault : Kind → Text → Error
fault k detail = record { kind = k; message = sentinel_text k ++ (str ": " ++ detail) }

-- An error without a sentinel.
abbrev pub plain_error : Text → Error
plain_error message = record { kind = other; message = message }

pub Result-cases {ℓ} :
    {A : Type ℓ} (r : Result A) → ((a : A) × (r ≡ ok a)) ⊎ ((e : Error) × (r ≡ err e))
Result-cases (ok a) = inl (a, refl)
Result-cases (err e) = inr (e, refl)

-- What succeeds after another has succeeded.
pub then-ok {ℓ κ} :
    {A : Type ℓ} {B : Type κ} (r : Result A) (f : A → Result B) (b : B)
    → (r >>= f) ≡ ok b
    → (a : A) × (r ≡ ok a) × (f a ≡ ok b)
then-ok (ok a) f b h = (a, refl, h)
then-ok (err e) f b h = ground arith

-- A property of what is returned, if anything is.
abbrev pub Holds {ℓ κ} : {A : Type ℓ} → (A → Type κ) → Result A → Type κ
Holds P (ok a) = P a
Holds P (err e) = Unit

pub record Returns {ℓ κ} {A : Type ℓ} (P : A → Type κ) (r : Result A) : Type κ where
  pub holds : Holds P r

then-Holds {ℓ κ μ ν} :
    {A : Type ℓ} {B : Type κ} (P : A → Type μ) (Q : B → Type ν) (r : Result A) (f : A → Result B)
    → Holds P r
    → ((a : A) → P a → Returns Q (f a))
    → Holds Q (r >>= f)
then-Holds P Q (ok a) f h next = (next a h).holds
then-Holds P Q (err e) f h next = tt

pub then-Returns {ℓ κ μ ν} :
    {A : Type ℓ} {B : Type κ} {P : A → Type μ} {Q : B → Type ν} {r : Result A} {f : A → Result B}
    → Returns P r
    → ((a : A) → P a → Returns Q (f a))
    → Returns Q (r >>= f)
then-Returns {P = P} {Q = Q} {r = r} {f = f} h next = record {
  holds = then-Holds P Q r f h.holds next;
}

pub ok-Returns {ℓ κ} :
    {A : Type ℓ} {P : A → Type κ} {r : Result A} {a : A} → Returns P r → r ≡ ok a → P a
ok-Returns {P = P} h e = subst (Holds P) e h.holds

pub any-Returns {ℓ} : {A : Type ℓ} (r : Result A) → Returns (λ (a : A). Unit {0}) r
any-Returns (ok a) = record { holds = tt }
any-Returns (err e) = record { holds = tt }

pub if-Returns {ℓ κ} :
    {A : Type ℓ} {P : A → Type κ} {x y : Result A} (b : Bool)
    → (b ≡ true → Returns P x)
    → (b ≡ false → Returns P y)
    → Returns P (if b then x else y)
if-Returns true then_so else_so = then_so refl
if-Returns false then_so else_so = else_so refl

pub Returns-of_ok {ℓ κ} :
    {A : Type ℓ} {P : A → Type κ} (r : Result A) → ((a : A) → r ≡ ok a → P a) → Returns P r
Returns-of_ok (ok a) h = record { holds = h a refl }
Returns-of_ok (err e) h = record { holds = tt }
