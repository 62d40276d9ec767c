-- ===== src/Policy/Evaluate.antt =====
-- `evaluatePolicy` of packages/policy-core/src/index.ts, with the parts of `LocalPolicy` that it
-- reads.
pub mod Safety
use Prim.Native.Char.{code}
use Prim.Native.String as Text
use atlas_mcp.Prelude.{
  ℕ, ◌+◌, String, Bool, true, false, not, ◌&&◌, ◌||◌, Option, none, some, is_none, or_else, List,
  [], ◌∷◌, ◌==◌, if◌then◌else◌, some_of, find_of, includes, holds,
}
use atlas_mcp.Protocol.Effect.{
  Effect, Risk, PolicyOutcome, CapabilityTrait, package_install, network, ApprovalChallenge,
}
use atlas_mcp.Protocol.Operation.{TerminalAction, TerminalOperation, BrowserOperation, Operation}
use atlas_mcp.Protocol.Task.{TaskRequest, PolicyDecision, Identity, local_identity}
use atlas_mcp.Policy.Platform.{Platform, concat}
use atlas_mcp.Policy.Commands.{normalize_command, strip_suffix, has_trait}
use atlas_mcp.Policy.Classify.{Classified, classify}
use atlas_mcp.Policy.Grants.{
  Grant, Refusal, not_granted, version_mismatch, expired, capability_refusal, has_effect,
}

pub data Mutations : Type 0 where
  deny_all confirm_each : Mutations

pub record LocalPolicy : Type 0 where
  pub version : String
  pub allowed_commands : List String
  pub allowed_domains : List String
  pub allow_localhost : Bool
  pub mutations : Mutations
  pub approval_ttl_ms : ℕ
  pub denied_traits : List CapabilityTrait
  pub capabilities : List Grant
  pub breaker_threshold : ℕ
  pub breaker_cooldown_ms : ℕ
  pub unhinged : Bool

-- `createDefaultPolicy`
unfoldable pub default_policy : LocalPolicy
default_policy = record {
  version = "1";
  allowed_commands =
      "cat" ∷ "echo" ∷ "findstr" ∷ "git" ∷ "head" ∷ "ls" ∷ "node" ∷ "npm" ∷ "npx" ∷ "pnpm" ∷ "pwd"
      ∷ "rg" ∷ "tail" ∷ "tasklist" ∷ "wc" ∷ "where" ∷ [];
  allowed_domains = "*" ∷ [];
  allow_localhost = true;
  mutations = confirm_each;
  approval_ttl_ms = 300000;
  denied_traits = [];
  capabilities = [];
  breaker_threshold = 3;
  breaker_cooldown_ms = 60000;
  unhinged = false;
}

pub record PolicyEvaluation : Type 0 where
  pub decision : PolicyDecision
  pub challenge : Option ApprovalChallenge

abbrev pub always_denied_commands : List String
always_denied_commands =
    "bash" ∷ "cmd" ∷ "fish" ∷ "osascript" ∷ "powershell" ∷ "pwsh" ∷ "sh" ∷ "sudo" ∷ "su" ∷ "zsh"
    ∷ []

-- The allowlist, for a command.
unfoldable pub name_allowed : Platform → LocalPolicy → Option String → Bool
name_allowed p policy none = false
name_allowed p policy (some command) =
    let name = normalize_command p command in
    not (includes name always_denied_commands)
    && some_of (λ a. normalize_command p a == name) policy.allowed_commands

unfoldable pub terminal_allowed : TerminalAction → Platform → LocalPolicy → TerminalOperation → Bool
terminal_allowed TerminalAction.status p policy o = not (is_none o.job_id)
terminal_allowed TerminalAction.output p policy o = not (is_none o.job_id)
terminal_allowed TerminalAction.stop p policy o = not (is_none o.job_id)
terminal_allowed TerminalAction.send p policy o = not (is_none o.job_id)
terminal_allowed _ p policy o = name_allowed p policy o.command

-- `isCommandAllowed`
unfoldable pub command_allowed : Platform → LocalPolicy → Operation → Bool
command_allowed p policy (Operation.terminal o) = terminal_allowed o.action p policy o
command_allowed p policy _ = true

abbrev pub ends_with : String → String → Bool
ends_with suffix s = not (is_none (strip_suffix suffix s))

unfoldable pub host_allowed : Platform → LocalPolicy → String → Bool
host_allowed p policy host =
    if (host == "localhost") || ends_with ".localhost" host
    then policy.allow_localhost
    else some_of
        (λ domain.
          (domain == "*")
          || (host == p.to_lower domain)
          || ends_with (concat ("." ∷ p.to_lower domain ∷ [])) host)
        policy.allowed_domains

unfoldable pub url_allowed : Platform → LocalPolicy → Option String → Bool
url_allowed p policy none = true
url_allowed p policy (some url) =
    ((p.protocol url == "http:") || (p.protocol url == "https:"))
    && host_allowed p policy (p.to_lower (p.hostname url))

-- `domainAllowed`
unfoldable pub domain_allowed : Platform → LocalPolicy → Operation → Bool
domain_allowed p policy (Operation.browser o) = url_allowed p policy o.url
domain_allowed p policy _ = true

unfoldable pub refusal_text : Refusal → String
refusal_text (not_granted c) = concat ("capability_not_granted:" ∷ c ∷ [])
refusal_text (version_mismatch id) = concat ("capability_policy_version_mismatch:" ∷ id ∷ [])
refusal_text (expired id) = concat ("capability_expired:" ∷ id ∷ [])

unfoldable pub trait_text : CapabilityTrait → String
trait_text package_install = "package-install"
trait_text network = "network"

-- `decide`, with the risk given
unfoldable pub decide_at :
    LocalPolicy → Classified → PolicyOutcome → String → Risk → PolicyEvaluation
decide_at policy c outcome reason risk = record {
  decision = record {
    outcome = outcome;
    effect = c.effect;
    risk = risk;
    reason = reason;
    policy_version = policy.version;
    traits = c.traits;
  };
  challenge = none;
}

-- The approval that a confirmed mutation waits for; `approval_id` is a fresh UUID.
unfoldable pub challenge_for :
    Platform → LocalPolicy → String → Operation → (approval_id : String) → ℕ → ApprovalChallenge
challenge_for p policy task_id o approval_id now = record {
  approval_id = approval_id;
  task_id = task_id;
  action_digest = p.digest task_id o;
  phrase = concat ("APPROVE " ∷ p.digest_prefix (p.digest task_id o) ∷ []);
  expires_at = now + policy.approval_ttl_ms;
}

abbrev pub is_read : Effect → Bool
is_read Effect.read = true
is_read _ = false

abbrev pub denies_all : Mutations → Bool
denies_all deny_all = true
denies_all confirm_each = false

abbrev pub no_items {ℓ} : {A : Type ℓ} → List A → Bool
no_items [] = true
no_items (_ ∷ _) = false

module _ (p : Platform) (policy : LocalPolicy) (task_id approval_id : String) (now : ℕ)
    (request : TaskRequest) where
  abbrev pub classified : Classified
  classified = classify p request.operation

  -- The last tests, for an operation that the rules admit.
  unfoldable pub admit : PolicyEvaluation
  admit =
      if not (is_read classified.effect) && no_items request.required_evidence
      then decide_at policy classified PolicyOutcome.deny "mutation_requires_evidence"
          classified.risk
      else if is_read classified.effect
      then decide_at policy classified PolicyOutcome.allow "read_only_operation" classified.risk
      else if denies_all policy.mutations
      then decide_at policy classified PolicyOutcome.deny "mutations_disabled" classified.risk
      else record (decide_at policy classified PolicyOutcome.confirm "explicit_approval_required"
          classified.risk) {
            challenge = some (challenge_for p policy task_id request.operation approval_id now);
          }

  abbrev pub denied_trait : Option CapabilityTrait
  denied_trait = find_of (λ t. has_trait t policy.denied_traits) classified.traits

  -- The rules: traits, commands and domains.
  unfoldable pub apply_rules : PolicyEvaluation
  apply_rules = elim denied_trait [
    | some t ↦
        decide_at policy classified PolicyOutcome.deny
          (concat ("trait_denied:" ∷ trait_text t ∷ [])) classified.risk
    | none ↦
        if not (command_allowed p policy request.operation)
        then decide_at policy classified PolicyOutcome.deny "command_not_allowlisted" Risk.critical
        else if not (domain_allowed p policy request.operation)
        then decide_at policy classified PolicyOutcome.deny "browser_domain_not_allowed" Risk.high
        else admit
  ]

  abbrev pub refusal : Option Refusal
  refusal =
      capability_refusal classified (or_else request.identity local_identity) policy.version
        policy.capabilities now

  -- `evaluatePolicy`, at the time `now`
  unfoldable pub evaluate : PolicyEvaluation
  evaluate =
      if not (no_items request.constraints)
      then decide_at policy classified PolicyOutcome.deny "freeform_constraints_not_enforceable"
          classified.risk
      else if has_effect classified.effect request.forbidden_effects
      then decide_at policy classified PolicyOutcome.deny "effect_forbidden_by_request"
          classified.risk
      else if policy.unhinged
      then decide_at policy classified PolicyOutcome.allow "unhinged_mode_no_guardrails"
          classified.risk
      else elim refusal [
        | some r ↦ decide_at policy classified PolicyOutcome.deny (refusal_text r) Risk.critical
        | none ↦ apply_rules
      ]
