-- ===== src/Prelude/Tests.antt =====
-- Boolean tests on numbers and texts, the conditional, and how to split on them.
use Prim.Native.Nat.{ℕ, compare, Ordering}
use Prim.Native.String.{String}
use mathlib.Core.Path.{◌≡◌, refl}
use mathlib.Core.Logic.{◌↔◌, ◌⊎◌, inl, inr}
use mathlib.Core.Bool.{Bool, true, false, false≢true}
use mathlib.Core.Option.{Option, none, some}
use native.Mathlib.Omega.{arith}
use text.Mathlib.Text.{◌==◌ as text_eq}
use text.Mathlib.TextEquality.{eq_iff}

abbrev pub ltb : ℕ → ℕ → Bool
ltb a b = elim (compare a b) [ Ordering.lt ↦ true | _ ↦ false ]

abbrev pub leb : ℕ → ℕ → Bool
leb a b = elim (compare a b) [ Ordering.gt ↦ false | _ ↦ true ]

abbrev pub nat_eq : ℕ → ℕ → Bool
nat_eq a b = elim (compare a b) [ Ordering.eq ↦ true | _ ↦ false ]

abbrev pub dec_of {ℓ} : {A : Type ℓ} (b : Bool) → ((b ≡ true) ↔ A) → Dec A
dec_of true h = yes (h.0 refl)
dec_of false h = no (λ a. false≢true (h.1 a))

-- The answer of a decision.
abbrev pub holds {ℓ} : {A : Type ℓ} → Dec A → Bool
holds (yes a) = true
holds (no n) = false

-- Equality of texts is decided, so that a case split has the equation at hand.
unfoldable pub text_dec : Discrete String
text_dec s t = dec_of (text_eq s t) (eq_iff s t)

-- `===` on strings.
infix 50 ◌==◌
abbrev pub ◌==◌ : String → String → Bool
s == t = holds (text_dec s t)

infix 1 if◌then◌else◌
abbrev pub if◌then◌else◌ {ℓ} : {A : Type ℓ} → Bool → A → A → A
if true then x else y = x
if false then x else y = y

pub Bool-cases : (b : Bool) → (b ≡ true) ⊎ (b ≡ false)
Bool-cases true = inl refl
Bool-cases false = inr refl

pub Option-cases {ℓ} : {A : Type ℓ} (o : Option A) → (o ≡ none) ⊎ ((a : A) × (o ≡ some a))
Option-cases none = inl refl
Option-cases (some a) = inr (a, refl)

-- `x ?? d`
abbrev pub or_else {ℓ} : {A : Type ℓ} → Option A → A → A
or_else none d = d
or_else (some a) d = a

-- `x === undefined`
abbrev pub is_none {ℓ} : {A : Type ℓ} → Option A → Bool
is_none none = true
is_none (some _) = false

pub nat_eq_refl : (n : ℕ) → nat_eq n n ≡ true
nat_eq_refl n = ground arith

pub text_eq_refl : (s : String) → (s == s) ≡ true
text_eq_refl s = ground arith
