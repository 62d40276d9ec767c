-- ===== src/Tests/Samples.antt =====
-- A store with one workflow, for packages/runtime-core/src/workflow-controller.ts.
use atlas_mcp.Prelude.{String, ◌≡◌, sym, ap, ◌∙◌, Option, none, some, [], ◌∷◌, get, ok, arith}
use atlas_mcp.Protocol.Workflow.{WorkflowStatus, Run, Event, EventType, Value}
use atlas_mcp.Events.Reduce.{rebuild}
use atlas_mcp.Store.Workflows.{WorkflowStore}
use atlas_mcp.Workflow.Consistency.{IsConsistent}
use atlas_mcp.Workflow.History.{events_of}

abbrev pub sample_run : WorkflowStatus → Option String → Run
sample_run st er = record {
  id = "w";
  definition_id = "d";
  definition_version = 1;
  status = st;
  state_version = 1;
  nodes = [];
  trace_id = "t";
  error = er;
  created_at = 5;
  updated_at = 5;
}

abbrev pub created_event : Run → Event
created_event r = record {
  aggregate_id = "w";
  sequence = 1;
  trace_id = "t";
  type = EventType.created;
  content = ("run", Value.run r) ∷ [];
  occurred_at = 5;
}

abbrev pub sample_store : Run → WorkflowStore
sample_store r = record {
  definitions = [];
  payloads = [];
  runs = ("w", r) ∷ [];
  events = created_event r ∷ [];
  snapshots = [];
}

module _ (r : Run) (named : r.id ≡ "w") (rebuilt : rebuild none (created_event r ∷ []) ≡ ok r) where
  found : (id : String) (x : Run) → get id (("w", r) ∷ []) ≡ some x → ("w" ≡ id) × (r ≡ x)
  unfolding get
  found id x h = ground arith

  missing : (id : String) → get id (("w", r) ∷ []) ≡ none → events_of id (created_event r ∷ []) ≡ []
  unfolding get
  missing id h = ground arith

  own : (id : String) → "w" ≡ id → events_of id (created_event r ∷ []) ≡ created_event r ∷ []
  own id h = ground arith

  -- A store that holds a created run and its event is consistent.
  pub sample-IsConsistent : IsConsistent (sample_store r)
  sample-IsConsistent = record {
    named = λ id x h. let (p, q) = found id x h in sym (ap (λ (y : Run). y.id) q) ∙ named ∙ p;
    rebuilt =
        λ id x h. let (p, q) = found id x h in ap (rebuild none) (own id p) ∙ rebuilt ∙ ap ok q;
    orphans = missing;
  }
