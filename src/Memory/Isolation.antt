-- ===== src/Memory/Isolation.antt =====
-- What `LocalMemory.execute` leaves alone: the rows of the other scopes, and the primary key.
use atlas_mcp.Prelude.{
  String, ◌≡◌, refl, Bool, true, false, Option, none, some, List, get, or_else, Result, ok, err,
  OnOk, OnOk-then, require, arith, subst,
}
use atlas_mcp.Protocol.Failure.{Failure}
use atlas_mcp.Protocol.Operation.{MemoryAction, MemoryScope, MemoryOperation}
use atlas_mcp.Memory.Table.{
  Memory, Memories, in_scope, put_memory, supersede_memory, clear_memories, get_memory,
}
use atlas_mcp.Memory.Execute.{
  MemorySetup, execute_memory, run_action, commit_put, prepare_put, store_put, finish_put,
  supersede_after, store_with, check_target, delete_by, search_for, new_memory, look_up,
  check_existing,
}
use atlas_mcp.Memory.Frame.{
  foreign, Keeps, Keeps-refl, Keeps-trans, delete_where-Keeps, compact_memories-Keeps,
  put_memory-Keeps, supersede_row-Keeps, delete_memory-Keeps,
}
use atlas_mcp.Memory.Rows.{IsTable, kept}

supersede_after-Keeps :
    (setup : MemorySetup) (m : Memory) (redactions : List String) (t : Memories)
    (done : Bool × Memories)
    → Keeps m.scope t done.1
    → Keeps m.scope t (supersede_after setup m redactions done).1
unfolding supersede_after finish_put
supersede_after-Keeps setup m redactions t (true, s) kept =
    Keeps-trans m.scope t s _ kept
      (compact_memories-Keeps m.scope setup.retention s setup.compacted_at kept.0)
supersede_after-Keeps setup m redactions t (false, s) kept =
    Keeps-trans m.scope t s _ kept (delete_memory-Keeps s m.id m.scope kept.0)

store_with-Keeps :
    (setup : MemorySetup) (m : Memory) (redactions : List String) (t s : Memories)
    (target : Option String)
    → Keeps m.scope t s
    → Keeps m.scope t (store_with setup m redactions s target).1
unfolding store_with finish_put supersede_memory
store_with-Keeps setup m redactions t s none kept =
    Keeps-trans m.scope t s _ kept
      (compact_memories-Keeps m.scope setup.retention s setup.compacted_at kept.0)
store_with-Keeps setup m redactions t s (some target) kept =
    supersede_after-Keeps setup m redactions t
      (supersede_memory s target m.scope m.id setup.superseded_at)
      (Keeps-trans m.scope t s _ kept
        (supersede_row-Keeps m.scope target m.id setup.superseded_at s (get target s) refl kept.0))

-- What a put has checked when it stores the record `m`.
abbrev pub Prepared : MemoryScope → Memories → Memory × List String → Type 0
Prepared scope t prepared =
    (prepared.0.scope ≡ scope) × (foreign scope (get prepared.0.id t) ≡ none)

look_up-foreign :
    (setup : MemorySetup) (scope : MemoryScope) (t : Memories) (id : Option String)
    → get setup.drawn_id t ≡ none
    → check_existing scope (look_up t id) ≡ ok tt
    → foreign scope (get (or_else id setup.drawn_id) t) ≡ none
unfolding look_up get_memory check_existing
look_up-foreign setup scope t none fresh checked = ground arith
look_up-foreign setup scope t (some id) fresh checked = ground arith

pub prepare_put-Prepared :
    (setup : MemorySetup) (o : MemoryOperation) (t : Memories)
    → get setup.drawn_id t ≡ none
    → OnOk (Prepared o.scope t) (prepare_put setup o t)
unfolding prepare_put new_memory
prepare_put-Prepared setup o t fresh = OnOk-then _ (require o.key _) _ λ key has_key.
    OnOk-then _ (require o.value _) _ λ value has_value.
      OnOk-then _ (check_existing o.scope (look_up t o.id)) _ λ u checked.
        OnOk-then _ (check_target t o.scope o.id o.supersedes_id) _
          λ w aimed. (refl, look_up-foreign setup o.scope t o.id fresh checked)

commit_put-Keeps :
    (setup : MemorySetup) (scope : MemoryScope) (t : Memories)
    (prepared : Result Failure (Memory × List String))
    → OnOk (Prepared scope t) prepared
    → IsTable t
    → Keeps scope t (commit_put setup t prepared).1
unfolding commit_put store_put
commit_put-Keeps setup scope t (err e) checked table = Keeps-refl scope t table
commit_put-Keeps setup scope t (ok (m, redactions)) (own, free) table =
    subst (λ s. foreign s (get m.id t) ≡ none → Keeps s t (store_put setup m redactions t).1) own
      (λ free_own.
        store_with-Keeps setup m redactions t (put_memory t m) m.supersedes_id
          (put_memory-Keeps t m free_own table))
      free

delete_by-Keeps :
    (t : Memories) (scope : MemoryScope) (id : Option String)
    → IsTable t
    → Keeps scope t (delete_by t scope id).1
unfolding delete_by
delete_by-Keeps t scope none table = Keeps-refl scope t table
delete_by-Keeps t scope (some id) table = delete_memory-Keeps t id scope table

search_for-Keeps :
    (setup : MemorySetup) (o : MemoryOperation) (t : Memories) (query : Option String)
    → IsTable t
    → Keeps o.scope t (search_for setup o t query).1
unfolding search_for
search_for-Keeps setup o t none table = Keeps-refl o.scope t table
search_for-Keeps setup o t (some query) table = Keeps-refl o.scope t table

run_action-Keeps :
    (setup : MemorySetup) (o : MemoryOperation) (t : Memories) (a : MemoryAction)
    → IsTable t
    → get setup.drawn_id t ≡ none
    → Keeps o.scope t (run_action setup o t a).1
unfolding run_action clear_memories
run_action-Keeps setup o t MemoryAction.put table fresh =
    commit_put-Keeps setup o.scope t (prepare_put setup o t) (prepare_put-Prepared setup o t fresh)
      table
run_action-Keeps setup o t MemoryAction.search table fresh =
    search_for-Keeps setup o t o.query table
run_action-Keeps setup o t MemoryAction.list table fresh = Keeps-refl o.scope t table
run_action-Keeps setup o t MemoryAction.delete table fresh = delete_by-Keeps t o.scope o.id table
run_action-Keeps setup o t MemoryAction.clear table fresh =
    delete_where-Keeps o.scope (in_scope o.scope) t (λ m h. h) table

-- On a table that has each id once, with its row under it, and not the id drawn for a new record: an
-- operation leaves such a table, and whether it returns or throws, for each id the row is the one
-- that was there before, or none if there was none, except where the row is of the operation's
-- scope.
pub execute_memory-Keeps :
    (setup : MemorySetup) (o : MemoryOperation) (t : Memories)
    → IsTable t
    → get setup.drawn_id t ≡ none
    → Keeps o.scope t (execute_memory setup o t).1
unfolding execute_memory
execute_memory-Keeps setup o t table fresh = run_action-Keeps setup o t o.action table fresh
