-- ===== src/Workflow/Actions.antt =====
-- An asynchronous call: on the state of the task controller it returns or throws, and leaves a state.
use atlas_mcp.Prelude.{Option, none, some, List, [], ◌∷◌, Result, ok, err}
use atlas_mcp.Protocol.Failure.{Failure}

abbrev pub Action {ℓ κ} : Type ℓ → Type κ → Type (ℓ ⊔ κ)
Action T A = T → Result Failure A × T

module _ {T : Type 0} where
  abbrev pub pure {ℓ} : {A : Type ℓ} → A → Action T A
  pure a t = (ok a, t)

  abbrev pub throw {ℓ} : {A : Type ℓ} → Failure → Action T A
  throw e t = (err e, t)

  -- The rest of a block, after its first call.
  unfoldable pub after {ℓ κ} :
      {A : Type ℓ} {B : Type κ} → Result Failure A × T → (A → Action T B) → Result Failure B × T
  after (ok a, t) f = f a t
  after (err e, t) f = (err e, t)

  infixl 5 ◌>>=◌ ◌>>◌
  abbrev pub ◌>>=◌ {ℓ κ} : {A : Type ℓ} {B : Type κ} → Action T A → (A → Action T B) → Action T B
  m >>= f = λ t. after (m t) f

  abbrev pub ◌>>◌ {ℓ} : {B : Type ℓ} → Action T (Unit {0}) → Action T B → Action T B
  m >> k = m >>= λ _. k

  -- `if (x === undefined) throw e`
  abbrev pub require_some {ℓ} : {A : Type ℓ} → Option A → Failure → Action T A
  require_some none e = throw e
  require_some (some a) e = pure a

  -- One call per element, in their order.
  unfoldable pub for_each {ℓ κ} :
      {A : Type ℓ} {B : Type κ} → (A → Action T B) → List A → Action T (List B)
  for_each f [] = pure []
  for_each f (a ∷ xs) = do b ← f a; bs ← for_each f xs; pure (b ∷ bs)
