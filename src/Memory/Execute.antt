-- ===== src/Memory/Execute.antt =====
-- `LocalMemory.execute` of packages/memory/src/index.ts. The ranking of a search is not modelled: a
-- search answers with the candidates that it ranks.
use atlas_mcp.Prelude.{
  ℕ, String, Bool, true, false, not, ◌&&◌, Option, none, some, List, [], ◌∷◌, ◌++◌, ◌==◌,
  if◌then◌else◌, or_else, includes, Result, ok, err, ◌>>=◌, ◌>>◌, guard, require,
}
use atlas_mcp.Protocol.Failure.{
  Failure, memory_put_requires_key_and_value, memory_scope_mismatch,
  memory_superseded_record_immutable, memory_supersedes_target_invalid,
  memory_search_requires_query, memory_delete_requires_id,
}
use atlas_mcp.Protocol.Operation.{MemoryAction, MemoryScope, MemoryOperation}
use atlas_mcp.Memory.Table.{
  Memory, Memories, in_scope, is_live, put_memory, get_memory, list_memories, supersede_memory,
  delete_memory, clear_memories,
}
use atlas_mcp.Memory.Compact.{Retention, Compacted, compact_memories}

-- `SECRET_PATTERNS`
pub data Secret : Type 0 where
  api_key bearer_token password github_token : Secret

abbrev pub secrets : List Secret
secrets = Secret.api_key ∷ Secret.bearer_token ∷ Secret.password ∷ Secret.github_token ∷ []

abbrev pub replacement_of : Secret → String
replacement_of Secret.api_key = "[REDACTED_API_KEY]"
replacement_of Secret.bearer_token = "Bearer [REDACTED_TOKEN]"
replacement_of Secret.password = "$1=[REDACTED]"
replacement_of Secret.github_token = "[REDACTED_GITHUB_TOKEN]"

pub record Redacted : Type 0 where
  pub value : String
  pub redactions : List String

unfoldable pub redact_with : (Secret → String → String) → List Secret → String → Redacted
redact_with replace [] value = record { value = value; redactions = [] }
redact_with replace (p ∷ ps) value =
    let rest = redact_with replace ps (replace p value) in
    if replace p value == value
    then rest
    else record rest { redactions = replacement_of p ∷ rest.redactions }

-- `redactMemoryValue`, for the `replace` of the patterns
unfoldable pub redact_memory_value : (Secret → String → String) → String → Redacted
redact_memory_value replace value = redact_with replace secrets value

-- The id that `put` draws, the times of its three clock readings, and what it runs with.
pub record MemorySetup : Type 0 where
  pub replace : Secret → String → String
  pub retention : Retention
  pub drawn_id : String
  pub now : ℕ
  pub superseded_at : ℕ
  pub compacted_at : ℕ

pub data Answer : Type 0 where
  stored : (memory : Memory) (redactions : List String) (compacted : Compacted) → Answer
  candidates : (query : String) (limit : ℕ) (memories : List Memory) → Answer
  listed : (memories : List Memory) → Answer
  deleted : (deleted : Bool) (id : String) (scope : MemoryScope) → Answer
  cleared : (count : ℕ) (scope : MemoryScope) → Answer

unfoldable pub redact_option : (Secret → String → String) → Option String → Option Redacted
redact_option replace none = none
redact_option replace (some s) = some (redact_memory_value replace s)

abbrev pub value_of : Option Redacted → Option String
value_of none = none
value_of (some r) = some r.value

abbrev pub redactions_of : Option Redacted → List String
redactions_of none = []
redactions_of (some r) = r.redactions

-- `[...new Set(xs)]`
unfoldable pub unique : List String → List String → List String
unique seen [] = []
unique seen (x ∷ xs) =
    let more = unique (x ∷ seen) xs in
    let rest = unique seen xs in if includes x seen then rest else x ∷ more

-- `id === undefined ? undefined : this.store.getMemory(id)`
unfoldable pub look_up : Memories → Option String → Option Memory
look_up t none = none
look_up t (some id) = get_memory t id

-- The guards on the record that the put replaces
unfoldable pub check_existing : MemoryScope → Option Memory → Result Failure (Unit {0})
check_existing scope none = ok tt
check_existing scope (some m) = do
  guard (in_scope scope m) memory_scope_mismatch
  guard (is_live m) memory_superseded_record_immutable

unfoldable pub same_id : Option String → String → Bool
same_id none id = false
same_id (some i) id = id == i

-- The guard on the record that the put supersedes, `same` if it is the record put
unfoldable pub aimed_row : MemoryScope → (same : Bool) → Option Memory → Result Failure (Unit {0})
aimed_row scope same none = err memory_supersedes_target_invalid
aimed_row scope same (some m) =
    guard (in_scope scope m && not same) memory_supersedes_target_invalid

unfoldable pub check_target :
    Memories → MemoryScope → Option String → Option String → Result Failure (Unit {0})
check_target t scope id none = ok tt
check_target t scope id (some target) = aimed_row scope (same_id id target) (get_memory t target)

unfoldable pub created_at_of : ℕ → Option Memory → ℕ
created_at_of now none = now
created_at_of now (some m) = m.created_at

-- The record that a put stores
unfoldable pub new_memory :
    MemorySetup → MemoryOperation → (key value : String) → Option Memory → Memory
new_memory setup o key value existing = record {
  id = or_else o.id setup.drawn_id;
  scope = o.scope;
  key = key;
  value = (redact_memory_value setup.replace value).value;
  source = or_else o.source "mcp-client";
  confidence = o.confidence;
  tags = o.tags;
  speaker = value_of (redact_option setup.replace o.speaker);
  episode_id = value_of (redact_option setup.replace o.episode_id);
  sequence = o.sequence;
  expires_at = o.expires_at;
  supersedes_id = o.supersedes_id;
  superseded_by = none;
  created_at = created_at_of setup.now existing;
  updated_at = setup.now;
}

-- The `redactions` of the answer
unfoldable pub put_redactions : MemorySetup → MemoryOperation → String → List String
put_redactions setup o value = unique [] (
    (redact_memory_value setup.replace value).redactions
    ++ redactions_of (redact_option setup.replace o.speaker)
    ++ redactions_of (redact_option setup.replace o.episode_id))

-- What a put ends with once its record is stored and the old one superseded
unfoldable pub finish_put :
    MemorySetup → Memory → List String → Memories → Result Failure Answer × Memories
finish_put setup m redactions t =
    let compaction = compact_memories t m.scope setup.retention setup.compacted_at in
    (ok (stored m redactions compaction.0), compaction.1)

-- The supersession after `putMemory`. When no row is changed, the record is deleted again.
unfoldable pub supersede_after :
    MemorySetup → Memory → List String → Bool × Memories → Result Failure Answer × Memories
supersede_after setup m redactions (true, t) = finish_put setup m redactions t
supersede_after setup m redactions (false, t) =
    (err memory_supersedes_target_invalid, (delete_memory t m.id m.scope).1)

unfoldable pub store_with :
    MemorySetup → Memory → List String → Memories → Option String → Result Failure Answer × Memories
store_with setup m redactions t none = finish_put setup m redactions t
store_with setup m redactions t (some target) =
    supersede_after setup m redactions (supersede_memory t target m.scope m.id setup.superseded_at)

unfoldable pub store_put :
    MemorySetup → Memory → List String → Memories → Result Failure Answer × Memories
store_put setup m redactions t = store_with setup m redactions (put_memory t m) m.supersedes_id

-- The checks of a put, and the record that it is about to store
unfoldable pub prepare_put :
    MemorySetup → MemoryOperation → Memories → Result Failure (Memory × List String)
prepare_put setup o t = do
  key ← require o.key memory_put_requires_key_and_value
  value ← require o.value memory_put_requires_key_and_value
  check_existing o.scope (look_up t o.id)
  check_target t o.scope o.id o.supersedes_id
  ok (new_memory setup o key value (look_up t o.id), put_redactions setup o value)

unfoldable pub commit_put :
    MemorySetup
    → Memories
    → Result Failure (Memory × List String)
    → Result Failure Answer × Memories
commit_put setup t (err e) = (err e, t)
commit_put setup t (ok (m, redactions)) = store_put setup m redactions t

unfoldable pub delete_by : Memories → MemoryScope → Option String → Result Failure Answer × Memories
delete_by t scope none = (err memory_delete_requires_id, t)
delete_by t scope (some id) =
    let done = delete_memory t id scope in (ok (deleted done.0 id scope), done.1)

unfoldable pub search_for :
    MemorySetup → MemoryOperation → Memories → Option String → Result Failure Answer × Memories
search_for setup o t none = (err memory_search_requires_query, t)
search_for setup o t (some query) =
    (ok (candidates query o.limit (list_memories t o.scope setup.now 5000 o.include_superseded)), t)

-- The cases of the `switch`
unfoldable pub run_action :
    MemorySetup → MemoryOperation → Memories → MemoryAction → Result Failure Answer × Memories
run_action setup o t MemoryAction.put = commit_put setup t (prepare_put setup o t)
run_action setup o t MemoryAction.search = search_for setup o t o.query
run_action setup o t MemoryAction.list =
    (ok (listed (list_memories t o.scope setup.now o.limit o.include_superseded)), t)
run_action setup o t MemoryAction.delete = delete_by t o.scope o.id
run_action setup o t MemoryAction.clear =
    let done = clear_memories t o.scope in (ok (cleared done.0 o.scope), done.1)

-- `LocalMemory.execute`
unfoldable pub execute_memory :
    MemorySetup → MemoryOperation → Memories → Result Failure Answer × Memories
execute_memory setup o t = run_action setup o t o.action
