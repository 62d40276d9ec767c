-- ===== src/Store/Workflows.antt =====
-- The workflow tables of packages/storage-sqlite/src/index.ts. The columns of a row repeat what its
-- JSON holds, so a row is its record. Event ids are fresh and play no part.
use atlas_mcp.Prelude.{
  ℕ, ◌+◌, String, Bool, true, false, not, ◌&&◌, Option, none, some, List, [], ◌∷◌, ◌++◌, Map, get,
  put, has, ltb, leb, nat_eq, ◌==◌, if◌then◌else◌, length, some_of, every_of, filter_of, find_of,
  sort, Result, ok, err, ◌>>=◌, ◌>>◌, guard, require,
}
use atlas_mcp.Protocol.Failure.{
  Failure, event_sequence_invalid, event_identity_invalid, workflow_not_found,
  workflow_state_conflict, definition_mismatch, projection_id_mismatch,
  projection_identity_mismatch, constraint_failed,
}
use atlas_mcp.Protocol.Workflow.{Run, Event, Snapshot, Definition}
use atlas_mcp.Events.Reduce.{parse_run}

pub record WorkflowStore : Type 0 where
  pub definitions : List Definition  -- redacted
  pub payloads : List Definition  -- what the sealed payloads open to
  pub runs : Map Run
  pub events : List Event
  pub snapshots : List Snapshot

abbrev pub empty_store : WorkflowStore
empty_store = record { definitions = []; payloads = []; runs = []; events = []; snapshots = [] }

abbrev pub is_version : String → ℕ → Definition → Bool
is_version id version d = (d.id == id) && nat_eq d.version version

-- `getWorkflowPayload`, opened
unfoldable pub get_payload : WorkflowStore → String → ℕ → Option Definition
get_payload s id version = find_of (is_version id version) s.payloads

-- `getWorkflowRun`
unfoldable pub get_run : WorkflowStore → String → Option Run
get_run s id = get id s.runs

-- `ORDER BY sequence`
abbrev pub by_sequence : Event → Event → Bool
by_sequence a b = leb a.sequence b.sequence

-- `listWorkflowEvents`
unfoldable pub list_events : WorkflowStore → String → ℕ → List Event
list_events s id after =
    sort by_sequence (filter_of (λ e. (e.aggregate_id == id) && ltb after e.sequence) s.events)

-- The events carry the numbers that follow `n`.
unfoldable pub sequences_follow : ℕ → List Event → Bool
sequences_follow n [] = true
sequences_follow n (e ∷ es) = nat_eq e.sequence (n + 1) && sequences_follow (n + 1) es

abbrev pub is_empty {ℓ} : {A : Type ℓ} → List A → Bool
is_empty [] = true
is_empty (_ ∷ _) = false

-- `assertWorkflowEvents`
unfoldable pub assert_events : String → String → ℕ → ℕ → List Event → Result Failure (Unit {0})
assert_events id trace previous next events = do
  guard (every_of (λ e. (e.aggregate_id == id) && (e.trace_id == trace)) events)
      event_identity_invalid
  guard
      (not (is_empty events)
        && nat_eq next (previous + length events)
        && sequences_follow previous events)
      event_sequence_invalid

-- `insertWorkflowEvent`, under `UNIQUE(aggregate_id, sequence)`
unfoldable pub insert_event : List Event → Event → Result Failure (List Event)
insert_event table e =
    if some_of (λ x. (x.aggregate_id == e.aggregate_id) && nat_eq x.sequence e.sequence) table
    then err constraint_failed
    else ok (table ++ e ∷ [])

unfoldable pub insert_events : List Event → List Event → Result Failure (List Event)
insert_events table [] = ok table
insert_events table (e ∷ es) = insert_event table e >>= λ t. insert_events t es

-- `createWorkflow`; the rows of a definition and of its payload have the key (id, version).
unfoldable pub create_workflow :
    WorkflowStore → (redacted sealed : Definition) → Run → List Event → Result Failure WorkflowStore
create_workflow s redacted sealed run events = do
  projection ← parse_run run
  guard
      ((redacted.id == projection.definition_id)
        && nat_eq redacted.version projection.definition_version)
      definition_mismatch
  assert_events projection.id projection.trace_id 0 projection.state_version events
  guard (not (some_of (is_version redacted.id redacted.version) s.definitions)) constraint_failed
  guard (not (some_of (is_version redacted.id redacted.version) s.payloads)) constraint_failed
  guard (not (has projection.id s.runs)) constraint_failed
  table ← insert_events s.events events
  ok (record s {
    definitions = s.definitions ++ redacted ∷ [];
    payloads = s.payloads ++ record sealed { id = redacted.id; version = redacted.version } ∷ [];
    runs = put projection.id projection s.runs;
    events = table;
  })

-- `transitionWorkflow`: the compare-and-swap on the version of the stored run.
unfoldable pub transition_workflow :
    WorkflowStore → String → (expected : ℕ) → Run → List Event → Result Failure WorkflowStore
transition_workflow s id expected run events = do
  projection ← parse_run run
  assert_events id projection.trace_id expected projection.state_version events
  guard (projection.id == id) projection_id_mismatch
  stored ← require (get id s.runs) workflow_not_found
  guard (nat_eq stored.state_version expected) workflow_state_conflict
  guard
      ((projection.definition_id == stored.definition_id)
        && nat_eq projection.definition_version stored.definition_version
        && (projection.trace_id == stored.trace_id))
      projection_identity_mismatch
  table ← insert_events s.events events
  ok (record s { runs = put id projection s.runs; events = table })

-- `saveWorkflowSnapshot`, under `PRIMARY KEY(workflow_id, sequence)`
unfoldable pub save_snapshot : WorkflowStore → Snapshot → Result Failure WorkflowStore
save_snapshot s snapshot =
    if some_of (λ x. (x.workflow_id == snapshot.workflow_id) && nat_eq x.sequence snapshot.sequence)
      s.snapshots
    then err constraint_failed
    else ok (record s { snapshots = s.snapshots ++ snapshot ∷ [] })

-- `getLatestWorkflowSnapshot`: the one of the greatest sequence
abbrev pub later_snapshot : Snapshot → Option Snapshot → Option Snapshot
later_snapshot a none = some a
later_snapshot a (some b) = if ltb a.sequence b.sequence then some b else some a

unfoldable pub latest_snapshot : String → List Snapshot → Option Snapshot
latest_snapshot id [] = none
latest_snapshot id (x ∷ xs) =
    let rest = latest_snapshot id xs in if x.workflow_id == id then later_snapshot x rest else rest
