-- ===== src/Guards/Gate/Duty.antt =====
-- When packages/runtime-core/src/verification-gate.ts asks for a verification.
use atlas_mcp.Prelude.{
  ◌≡◌, refl, ◌∙◌, Bool, true, false, not, ◌&&◌, ◌||◌, List, [], ◌∷◌, ◌++◌, All, some_of, arith,
}
use atlas_mcp.Guards.Gate.{
  read, mutate, Observation, GateState, create, observe, observe_as, requires_verification,
  mark_prompted,
}

unfoldable pub observe_all : GateState → List Observation → GateState
observe_all s [] = s
observe_all s (o ∷ os) = observe_all (observe s o) os

abbrev pub is_verification : Observation → Bool
is_verification o = o.structured_verification && o.expectation_provided

abbrev pub IsRead : Observation → Type 0
IsRead o = o.effect ≡ read

observe_reads :
    (s : GateState) (os : List Observation)
    → s.mutated ≡ true
    → All IsRead os
    → requires_verification (observe_all s os)
      ≡ (not (s.verified_after_mutation || some_of is_verification os) && not s.prompted)
unfolding observe_all requires_verification observe observe_as
observe_reads s [] m h = ground arith
observe_reads s (o ∷ os) m (e, h) = ground (arith, observe_reads (observe s o) os)

idle :
    (s : GateState) (os : List Observation)
    → s.mutated ≡ false
    → All IsRead os
    → requires_verification (observe_all s os) ≡ false
unfolding observe_all requires_verification observe observe_as
idle s [] m h = ground arith
idle s (o ∷ os) m (e, h) = ground (arith, idle (observe s o) os)

prompted_before : (s : GateState) (os : List Observation) → (observe_all s os).prompted ≡ s.prompted
unfolding observe_all observe observe_as
prompted_before s [] = refl
prompted_before s (o ∷ os) = ground (arith, prompted_before (observe s o) os)

observe_all-append :
    (s : GateState) (xs ys : List Observation)
    → observe_all s (xs ++ ys) ≡ observe_all (observe_all s xs) ys
unfolding observe_all
observe_all-append s [] ys = refl
observe_all-append s (x ∷ xs) ys = observe_all-append (observe s x) xs ys

after_mutation :
    (s : GateState) (m : Observation) (os : List Observation)
    → m.effect ≡ mutate
    → s.prompted ≡ false
    → All IsRead os
    → requires_verification (observe_all s (m ∷ os)) ≡ not (some_of is_verification os)
unfolding observe_all observe observe_as
after_mutation s m os e p h = ground (arith, observe_reads (observe s m) os)

-- A verification is due exactly when no verification with an expectation has come after the last
-- mutation: for calls `before`, a mutation, and only reads after it, with no prompt so far. With no
-- mutation at all none is due.
pub requires_verification_lem :
    (before after : List Observation) (m : Observation)
    → m.effect ≡ mutate
    → All IsRead after
    → (requires_verification (observe_all create (before ++ m ∷ after))
        ≡ not (some_of is_verification after))
      × (requires_verification (observe_all create after) ≡ false)
requires_verification_lem before after m e h = (
  rw (observe_all-append create before (m ∷ after)) (
      after_mutation (observe_all create before) m after e
        (prompted_before create before ∙ unfold create in refl) h),
  idle create after (unfold create in refl) h,
)

-- Once the caller was prompted, no further verification is asked for.
pub mark_prompted-silences :
    (s : GateState) (os : List Observation)
    → requires_verification (observe_all (mark_prompted s) os) ≡ false
unfolding requires_verification mark_prompted
mark_prompted-silences s os = ground (arith, prompted_before (mark_prompted s) os)
