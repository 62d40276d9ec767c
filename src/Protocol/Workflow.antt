-- ===== src/Protocol/Workflow.antt =====
-- Workflow definitions, runs, events and snapshots of packages/protocol/src/index.ts.
use native.Mathlib.Decide.{ℕ_discrete}
use atlas_mcp.Prelude.{ℕ, String, List, Option, Map, text_dec}
use atlas_mcp.Protocol.Effect.{ApprovalChallenge, ApprovalChallenge-discrete}
use atlas_mcp.Protocol.Task.{TaskRequest, EvidencePredicate}

pub data WorkflowStatus : Type 0 where
  draft planned awaiting_approval awaiting_input running paused suspended : WorkflowStatus
  partially_complete verified_complete recovery_required failed cancelled : WorkflowStatus

unfoldable pub WorkflowStatus-discrete : Discrete WorkflowStatus
WorkflowStatus-discrete = hlevel

pub data NodeStatus : Type 0 where
  pending ready awaiting_approval awaiting_input running verifying verified_complete : NodeStatus
  skipped recovery_required failed cancelled compensated : NodeStatus

unfoldable pub NodeStatus-discrete : Discrete NodeStatus
NodeStatus-discrete = hlevel

pub record NodeState : Type 0 where
  pub status : NodeStatus
  pub task_ids : List String
  pub approval : Option ApprovalChallenge
  pub iterations : Option ℕ
  pub prompt : Option String
  pub input : Option String
  pub error : Option String

unfoldable pub NodeState-discrete : Discrete NodeState
NodeState-discrete = hlevel (NodeStatus-discrete, ApprovalChallenge-discrete, text_dec, ℕ_discrete)

pub record Run : Type 0 where
  pub id : String
  pub definition_id : String
  pub definition_version : ℕ
  pub status : WorkflowStatus
  pub state_version : ℕ
  pub nodes : Map NodeState
  pub trace_id : String
  pub error : Option String
  pub created_at : ℕ
  pub updated_at : ℕ

unfoldable pub Run-discrete : Discrete Run
Run-discrete = hlevel (WorkflowStatus-discrete, NodeState-discrete, text_dec, ℕ_discrete)

-- What a node does, with the fields of its own.
pub data NodeKind : Type 0 where
  operation : TaskRequest → NodeKind
  approval : (for_node_id : String) → NodeKind
  condition :
      (source_node_id : String) (predicate : EvidencePredicate)
      (when_true when_false : List TaskRequest)
      → NodeKind
  parallel : (branches : List (List TaskRequest)) → NodeKind
  bounded_loop :
      (body : List TaskRequest) (max_iterations : ℕ) (until : Option EvidencePredicate) → NodeKind
  checkpoint : NodeKind
  compensation : (for_node_id : String) → TaskRequest → NodeKind
  human_input : (prompt : String) (choices : List String) (max_length : ℕ) → NodeKind
  delegation : (assignee goal : String) (required_evidence : List EvidencePredicate) → NodeKind

pub record Node : Type 0 where
  pub id : String
  pub depends_on : List String
  pub kind : NodeKind

pub record Definition : Type 0 where
  pub id : String
  pub version : ℕ
  pub name : String
  pub nodes : List Node

-- A JSON value, as far as the reducer of workflow events tells values apart: a text, a whole
-- number that is not negative, an object with the fields of a node state or of a run, or anything
-- else.
pub data Value : Type 0 where
  str : String → Value
  num : ℕ → Value
  node_state : NodeState → Value
  run : Run → Value
  other : Value

-- The `type` of an event. `unknown` is any text that the reducer has no case for.
pub data EventType : Type 0 where
  created status_changed workflow_cancelled recovered recovery_needed : EventType
  workflow_paused workflow_suspended resumed node_changed checkpoint_saved : EventType
  unknown : String → EventType

pub record Event : Type 0 where
  pub aggregate_id : String
  pub sequence : ℕ
  pub trace_id : String
  pub type : EventType
  pub content : Map Value
  pub occurred_at : ℕ

pub record Snapshot : Type 0 where
  pub workflow_id : String
  pub sequence : ℕ
  pub run : Run
  pub created_at : ℕ
