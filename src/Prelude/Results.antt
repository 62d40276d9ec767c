-- ===== src/Prelude/Results.antt =====
-- A computation that may throw: the value, or the error that is thrown.
use mathlib.Core.Path.{◌≡◌, refl, subst}
use mathlib.Core.Bool.{Bool, true, false}
use mathlib.Core.Option.{Option, none, some}
use atlas_mcp.Prelude.Tests.{if◌then◌else◌}

pub data Result {ℓ κ} (E : Type κ) (A : Type ℓ) : Type (ℓ ⊔ κ) where
  ok : A → Result E A
  err : E → Result E A

infixl 5 ◌>>=◌ ◌>>◌
abbrev pub ◌>>=◌ {ℓ κ μ} :
    {E : Type κ} {A : Type ℓ} {B : Type μ} → Result E A → (A → Result E B) → Result E B
ok a >>= f = f a
err e >>= f = err e

abbrev pub ◌>>◌ {ℓ κ} : {E : Type κ} {B : Type ℓ} → Result E (Unit {0}) → Result E B → Result E B
m >> k = m >>= λ _. k

-- `if (!test) throw e`
abbrev pub guard {κ} : {E : Type κ} → Bool → E → Result E (Unit {0})
guard true e = ok tt
guard false e = err e

-- `if (x === undefined) throw e`
abbrev pub require {ℓ κ} : {E : Type κ} {A : Type ℓ} → Option A → E → Result E A
require none e = err e
require (some a) e = ok a

abbrev pub map_ok {ℓ κ μ} :
    {E : Type κ} {A : Type ℓ} {B : Type μ} → (A → B) → Result E A → Result E B
map_ok f (ok a) = ok (f a)
map_ok f (err e) = err e

-- A block that returned has gone through its first step, and its rest has returned the same.
pub >>=-eq-ok {ℓ κ μ} :
    {E : Type κ} {A : Type ℓ} {B : Type μ} (first : Result E A) (rest : A → Result E B) {y : B}
    → (first >>= rest) ≡ ok y
    → (x : A) × (first ≡ ok x) × (rest x ≡ ok y)
>>=-eq-ok (err thrown) rest returned = cc
>>=-eq-ok (ok x) rest returned = (x, refl, returned)

pub guard-eq-ok {κ} : {E : Type κ} (b : Bool) (e : E) {u : Unit {0}} → guard b e ≡ ok u → b ≡ true
guard-eq-ok true e h = refl
guard-eq-ok false e h = cc

pub require-eq-ok {ℓ κ} :
    {E : Type κ} {A : Type ℓ} (o : Option A) (e : E) {a : A} → require o e ≡ ok a → o ≡ some a
require-eq-ok none e h = cc
require-eq-ok (some x) e h = cc

-- What holds of the value, if one is returned.
abbrev pub OnOk {ℓ κ μ} : {E : Type κ} {A : Type ℓ} → (A → Type μ) → Result E A → Type μ
OnOk P (ok a) = P a
OnOk P (err e) = Unit

module _ {ℓ κ μ} {E : Type κ} {A : Type ℓ} where
  pub OnOk-at : (P : A → Type μ) (m : Result E A) (a : A) → OnOk P m → m ≡ ok a → P a
  OnOk-at P m a h e = subst (OnOk P) e h

  pub OnOk-intro : (P : A → Type μ) (m : Result E A) → ((a : A) → m ≡ ok a → P a) → OnOk P m
  OnOk-intro P (ok a) h = h a refl
  OnOk-intro P (err e) h = tt

  pub OnOk-weaken {ν} :
      {P : A → Type μ} (Q : A → Type ν) (m : Result E A)
      → OnOk P m
      → ((a : A) → P a → Q a)
      → OnOk Q m
  OnOk-weaken Q (ok a) h f = f a h
  OnOk-weaken Q (err e) h f = tt

  -- The rule for one step of a block.
  pub OnOk-bind {ν ξ} :
      {B : Type ξ} {P : A → Type μ} (Q : B → Type ν) (m : Result E A) (f : A → Result E B)
      → OnOk P m
      → ((a : A) → P a → OnOk Q (f a))
      → OnOk Q (m >>= f)
  OnOk-bind Q (ok a) f h k = k a h
  OnOk-bind Q (err e) f h k = tt

-- The rule for a step whose equation the rest uses.
pub OnOk-then {ℓ κ ν ξ} :
    {E : Type κ} {A : Type ℓ} {B : Type ξ} (Q : B → Type ν) (m : Result E A) (f : A → Result E B)
    → ((a : A) → m ≡ ok a → OnOk Q (f a))
    → OnOk Q (m >>= f)
OnOk-then Q (ok a) f k = k a refl
OnOk-then Q (err e) f k = tt

pub >>=-cong {ℓ κ μ} :
    {E : Type κ} {A : Type ℓ} {B : Type μ} (m : Result E A) (f g : A → Result E B)
    → ((a : A) → f a ≡ g a)
    → (m >>= f) ≡ (m >>= g)
>>=-cong (ok a) f g h = h a
>>=-cong (err e) f g h = refl

pub >>=_assoc {ℓ κ μ ν} :
    {E : Type κ} {A : Type ℓ} {B : Type μ} {C : Type ν} (m : Result E A) (f : A → Result E B)
    (g : B → Result E C)
    → ((m >>= f) >>= g) ≡ (m >>= λ a. f a >>= g)
>>=_assoc (ok a) f g = refl
>>=_assoc (err e) f g = refl

-- The rule for a test.
pub OnOk-if {ℓ κ ν} :
    {E : Type κ} {A : Type ℓ} (Q : A → Type ν) (b : Bool) (m n : Result E A)
    → (b ≡ true → OnOk Q m)
    → (b ≡ false → OnOk Q n)
    → OnOk Q (if b then m else n)
OnOk-if Q true m n h k = h refl
OnOk-if Q false m n h k = k refl

-- What a block goes on with, after an error and after a value.
unfoldable pub handle {ℓ κ μ} :
    {E : Type κ} {A : Type ℓ} {B : Type μ} → Result E A → (E → B) → (A → B) → B
handle (ok a) f g = g a
handle (err e) f g = f e

pub handle-cases {ℓ κ μ ν} :
    {E : Type κ} {A : Type ℓ} {B : Type μ} (Q : B → Type ν) (m : Result E A) (f : E → B) (g : A → B)
    → ((e : E) → m ≡ err e → Q (f e))
    → ((a : A) → m ≡ ok a → Q (g a))
    → Q (handle m f g)
unfolding handle
handle-cases Q (ok a) f g h k = k a refl
handle-cases Q (err e) f g h k = h e refl
