-- ===== src/Policy/Evaluate/Safety.antt =====
-- What each outcome of `evaluatePolicy` of packages/policy-core/src/index.ts implies.
use mathlib.Core.Logic.{◌⊎◌}
use atlas_mcp.Prelude.{ℕ, String, ◌≡◌, ◌↔◌, true, false, Option, none, some, arith}
use atlas_mcp.Protocol.Effect.{PolicyOutcome, ApprovalChallenge}
use atlas_mcp.Protocol.Task.{TaskRequest}
use atlas_mcp.Policy.Platform.{Platform}
use atlas_mcp.Policy.Classify.{Classified, classify}
use atlas_mcp.Policy.Grants.{has_effect}
use atlas_mcp.Policy.Evaluate.{
  LocalPolicy, command_allowed, domain_allowed, decide_at, challenge_for, is_read, denies_all,
  no_items, denied_trait, admit, apply_rules, refusal, evaluate,
}

-- The request has no free-form constraint, and does not itself forbid the effect of its operation.
abbrev pub Admissible : Platform → TaskRequest → Type 0
Admissible p request =
    (no_items request.constraints ≡ true)
    × (has_effect (classify p request.operation).effect request.forbidden_effects ≡ false)

-- What the rules ask of an operation: no trait of it is denied, its command and its domain are
-- allowed, and a grant covers it where the policy lists any.
abbrev pub Permitted : Platform → LocalPolicy → String → String → ℕ → TaskRequest → Type 0
Permitted p policy task_id approval_id now request =
    (refusal p policy task_id approval_id now request ≡ none)
    × (denied_trait p policy task_id approval_id now request ≡ none)
    × (command_allowed p policy request.operation ≡ true)
    × (domain_allowed p policy request.operation ≡ true)

-- The challenge that goes with an outcome: `expected` when it is `confirm`, and none otherwise.
abbrev pub Answers : ApprovalChallenge → PolicyOutcome → Option ApprovalChallenge → Type 0
Answers expected PolicyOutcome.confirm challenge = challenge ≡ some expected
Answers expected _ challenge = challenge ≡ none

module _ (p : Platform) (policy : LocalPolicy) (task_id approval_id : String) (now : ℕ)
    (request : TaskRequest) where
  abbrev c : Classified
  c = classify p request.operation

  abbrev outcome : PolicyOutcome
  outcome = (evaluate p policy task_id approval_id now request).decision.outcome

  -- An operation that is allowed without approval has an admissible request, and either the policy is
  -- unhinged or it is a read that the rules permit.
  pub evaluate-allow :
      outcome ≡ PolicyOutcome.allow
      → Admissible p request
        × ((policy.unhinged ≡ true)
            ⊎ ((is_read c.effect ≡ true) × Permitted p policy task_id approval_id now request))
  unfolding evaluate apply_rules admit decide_at
  evaluate-allow h = ground arith

  -- An operation waits for an approval exactly when the policy is not unhinged, its request is
  -- admissible and requires evidence, it is no read, mutations are confirmed one by one, and the
  -- rules permit it.
  pub evaluate-confirm : (outcome ≡ PolicyOutcome.confirm) ↔ (
      (policy.unhinged ≡ false)
      × Admissible p request
      × Permitted p policy task_id approval_id now request
      × (is_read c.effect ≡ false)
      × (no_items request.required_evidence ≡ false)
      × (denies_all policy.mutations ≡ false))
  unfolding evaluate apply_rules admit decide_at
  evaluate-confirm = ground arith

  -- A decision to confirm carries the challenge for this task and for the digest of this operation; a
  -- decision to allow or to deny carries none.
  pub evaluate-challenge :
      Answers
        (challenge_for p policy task_id request.operation approval_id now)
        outcome
        (evaluate p policy task_id approval_id now request).challenge
  unfolding evaluate apply_rules admit decide_at
  evaluate-challenge = ground arith

  -- An operation with an effect that its request forbids is denied, also when the policy is unhinged.
  pub evaluate-forbidden :
      has_effect c.effect request.forbidden_effects ≡ true → outcome ≡ PolicyOutcome.deny
  unfolding evaluate apply_rules admit decide_at
  evaluate-forbidden h = ground arith

  -- The decision reports the class of the operation and the version of the policy, whatever it is.
  pub evaluate-effect :
      ((evaluate p policy task_id approval_id now request).decision.effect ≡ c.effect)
      × ((evaluate p policy task_id approval_id now request).decision.policy_version
          ≡ policy.version)
  unfolding evaluate apply_rules admit decide_at
  evaluate-effect = ground arith
