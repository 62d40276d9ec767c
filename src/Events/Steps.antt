-- ===== src/Events/Steps.antt =====
-- One event of packages/runtime-core/src/workflow-events.ts.
use atlas_mcp.Prelude.{
  ◌+◌, String, ◌≡◌, true, none, some, [], ◌∷◌, Map, get, put, keys, OnOk, arith,
}
use atlas_mcp.Protocol.Workflow.{Run, Event, NodeState, EventType}
use atlas_mcp.Events.Reduce.{
  apply_event, apply_next, apply_created, created_run, apply_type, apply_status, apply_node,
  apply_checkpoint, stamp, parse_run, run_valid,
}

-- An update of a key that is there keeps the keys and their order.
pub keys-put_there {ℓ} :
    {V : Type ℓ} (k : String) (v w : V) (m : Map V) → get k m ≡ some w → keys (put k v m) ≡ keys m
unfolding get put keys
keys-put_there k v w [] h = cc
keys-put_there k v w ((j, u) ∷ m) h = ground (arith, keys-put_there k v w m)

-- What an event on an existing run leaves alone.
pub record Keeps (old new : Run) : Type 0 where
  pub id : new.id ≡ old.id
  pub trace : new.trace_id ≡ old.trace_id
  pub definition : new.definition_id ≡ old.definition_id
  pub version : new.definition_version ≡ old.definition_version
  pub nodes : keys new.nodes ≡ keys old.nodes

apply_status-Keeps : (r : Run) (e : Event) → OnOk (Keeps r) (apply_status r e)
unfolding apply_status
apply_status-Keeps r e = ground arith

put_node-Keeps :
    (r : Run) (k : String) (v : NodeState) {w : NodeState}
    → get k r.nodes ≡ some w
    → Keeps r (record r { nodes = put k v r.nodes })
put_node-Keeps r k v {w} h = ground (arith, keys-put_there k v w r.nodes)

apply_node-Keeps : (r : Run) (e : Event) → OnOk (Keeps r) (apply_node r e)
unfolding apply_node
apply_node-Keeps r e = grind (arith, put_node-Keeps)

apply_checkpoint-Keeps : (r : Run) (e : Event) → OnOk (Keeps r) (apply_checkpoint r e)
unfolding apply_checkpoint
apply_checkpoint-Keeps r e = ground arith

apply_type-Keeps : (t : EventType) (r : Run) (e : Event) → OnOk (Keeps r) (apply_type t r e)
unfolding apply_type
apply_type-Keeps EventType.node_changed r e = apply_node-Keeps r e
apply_type-Keeps EventType.checkpoint_saved r e = apply_checkpoint-Keeps r e
apply_type-Keeps (EventType.unknown t) r e = tt
apply_type-Keeps _ r e = apply_status-Keeps r e

-- The event that was applied: its number, run and trace are the result's.
pub record Stamped (e : Event) (r : Run) : Type 0 where
  pub version : r.state_version ≡ e.sequence
  pub aggregate : r.id ≡ e.aggregate_id
  pub traced : r.trace_id ≡ e.trace_id
  pub valid : run_valid r ≡ true

apply_created-Stamped : (e : Event) → OnOk (Stamped e) (apply_created e)
unfolding apply_created created_run
apply_created-Stamped e = ground arith

-- An accepted event on a run that exists.
pub apply_next_lem : (r : Run) (e : Event) → OnOk (λ s. Keeps r s × Stamped e s) (apply_next r e)
unfolding apply_next stamp parse_run
apply_next_lem r e = ground (arith, apply_type-Keeps e.type r e)

-- An accepted event has the next number, and stamps its result.
pub apply_event_first :
    (e : Event) → OnOk (λ s. (e.sequence ≡ 1) × Stamped e s) (apply_event none e)
unfolding apply_event
apply_event_first e = ground (arith, apply_created-Stamped e)

pub apply_event_next :
    (r : Run) (e : Event)
    → OnOk
        (λ s. (e.sequence ≡ r.state_version + 1) × (Keeps r s × Stamped e s))
        (apply_event (some r) e)
unfolding apply_event
apply_event_next r e = ground (arith, apply_next_lem r e)
