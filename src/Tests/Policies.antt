-- ===== src/Tests/Policies.antt =====
-- Concrete decisions of packages/policy-core/src/index.ts.
use atlas_mcp.Prelude.{◌≡◌, ◌↔◌, ◌⊎◌, refl, true, false, none, some, List, [], ◌∷◌, some_of, ◌&&◌}
use atlas_mcp.Protocol.Effect.{Effect, PolicyOutcome, ApprovalChallenge, ApprovalResponse}
use atlas_mcp.Protocol.Operation.{FileAction, Operation}
use atlas_mcp.Protocol.Task.{TaskRequest, EvidencePredicate, file_exists, local_identity}
use atlas_mcp.Policy.Platform.{Platform, concat}
use atlas_mcp.Policy.Classify.{classify, classify_file}
use atlas_mcp.Policy.Grants.{Grant, covers, usable, capability_refusal, principal_ref}
use atlas_mcp.Policy.Grants.Coverage.{capability_refusal_iff}
use atlas_mcp.Policy.Evaluate.{
  default_policy, evaluate, is_read, no_items, denies_all, apply_rules, command_allowed,
  domain_allowed, admit, decide_at,
}
use atlas_mcp.Policy.Evaluate.Safety.{Admissible, Permitted, evaluate-allow, evaluate-confirm}

abbrev pub platform : Platform
platform = record {
  to_lower = λ s. s;
  basename = λ s. s;
  protocol = λ u. "https:";
  hostname = λ u. u;
  without_query = λ u. u;
  digest = λ id o. concat ("digest of " ∷ id ∷ []);
  digest_prefix = λ d. d;
}

abbrev pub request_for : FileAction → List Effect → List EvidencePredicate → TaskRequest
request_for action forbidden evidence = record {
  goal = "g";
  operation = Operation.file (record { action = action; path = "a.txt"; destination = none });
  constraints = [];
  forbidden_effects = forbidden;
  budget = record { max_steps = 10; max_duration_ms = 1000; max_retries = 2 };
  required_evidence = evidence;
  identity = none;
}

abbrev pub reading : TaskRequest
reading = request_for FileAction.read [] []

abbrev pub writing : TaskRequest
writing = request_for FileAction.write [] (file_exists "a.txt" ∷ [])

evaluate-allow_example :
    Admissible platform reading
    × ((default_policy.unhinged ≡ true)
        ⊎ ((is_read (classify platform reading.operation).effect ≡ true)
            × Permitted platform default_policy "i" "a" 0 reading))
unfolding evaluate default_policy capability_refusal apply_rules classify classify_file
    command_allowed domain_allowed admit decide_at
evaluate-allow_example = evaluate-allow platform default_policy "i" "a" 0 reading refl

evaluate-confirm_example :
    ((evaluate platform default_policy "i" "a" 0 writing).decision.outcome ≡ PolicyOutcome.confirm)
    ↔ ((default_policy.unhinged ≡ false)
        × Admissible platform writing
        × Permitted platform default_policy "i" "a" 0 writing
        × (is_read (classify platform writing.operation).effect ≡ false)
        × (no_items writing.required_evidence ≡ false)
        × (denies_all default_policy.mutations ≡ false))
evaluate-confirm_example = evaluate-confirm platform default_policy "i" "a" 0 writing

abbrev challenge : ApprovalChallenge
challenge = record {
  approval_id = "a";
  task_id = "i";
  action_digest = "d";
  phrase = "APPROVE d";
  expires_at = 100;
}

abbrev response : ApprovalResponse
response = record { approval_id = "a"; phrase = "APPROVE d" }

abbrev grant : Grant
grant = record {
  id = "g";
  capability = "file.*";
  effects = Effect.mutate ∷ [];
  target = "*";
  principal = "*";
  valid_until = some 100;
  policy_version = none;
}

capability_refusal_iff_example :
    (capability_refusal (classify platform writing.operation) local_identity "1" (grant ∷ []) 5
      ≡ none)
    ↔ ((grant ∷ [] ≡ [])
        ⊎ (some_of
              (λ g.
                covers
                  (classify platform writing.operation)
                  (principal_ref local_identity.principal)
                  g
                && usable 5 "1" g)
              (grant ∷ [])
            ≡ true))
capability_refusal_iff_example =
    capability_refusal_iff (classify platform writing.operation) local_identity "1" (grant ∷ []) 5
