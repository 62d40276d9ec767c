-- ===== src/Memory/Supersession.antt =====
-- What a put of `LocalMemory.execute` stores, and what it supersedes.
use atlas_mcp.Prelude.{
  String, ◌≡◌, ◌≢◌, refl, sym, subst, Bool, true, false, Option, none, some, List, get,
  if◌then◌else◌, Result, ok, err, OnOk, OnOk-at,
}
use atlas_mcp.Protocol.Failure.{Failure}
use atlas_mcp.Protocol.Operation.{MemoryAction, MemoryScope, MemoryOperation}
use atlas_mcp.Memory.Table.{Memory, Memories, is_live, is_expired, put_memory}
use atlas_mcp.Memory.Compact.{compact_memories, Compacted}
use atlas_mcp.Memory.Execute.{
  MemorySetup, execute_memory, run_action, commit_put, prepare_put, store_put, store_with,
  finish_put, supersede_after, Answer, stored, search_for, delete_by,
}
use atlas_mcp.Memory.Rows.{IsTable}
use atlas_mcp.Memory.Prepared.{Ready, prepare_put-Ready}
use atlas_mcp.Memory.Marked.{marked, Stored, supersede_memory-if, marked-Stored, plain-Stored}

-- The record of an answer to a put.
abbrev pub answered : Answer → Option Memory
answered (stored m redactions compacted) = some m
answered _ = none

-- A put that returned has answered with the record `m`, and stored it.
abbrev Done : MemorySetup → Memories → Memory → Result Failure Answer × Memories → Type 0
Done setup t m result =
    (a : Answer)
    → result.0 ≡ ok a
    → (answered a ≡ some m) × (is_expired setup.compacted_at m ≡ false → Stored setup t result.1 m)

finish_put-answered :
    (setup : MemorySetup) (m : Memory) (redactions : List String) (t : Memories) (a : Answer)
    → (finish_put setup m redactions t).0 ≡ ok a
    → answered a ≡ some m
unfolding finish_put
finish_put-answered setup m redactions t a returned =
    OnOk-at (λ x. answered x ≡ some m) _ a refl returned

same_answer : (w m : Memory) → ◌≡◌ {A = Option Memory} (some m) (some w) → w ≡ m
same_answer w m e = cc

supersede_after-Done :
    (setup : MemorySetup) (t : Memories) (m : Memory) (redactions : List String) (target : String)
    (old : Memory) (live_old : Bool)
    → (is_expired setup.compacted_at m ≡ false
        → Stored setup t
            (compact_memories
              (marked setup t m target old)
              m.scope
              setup.retention
              setup.compacted_at).1
            m)
    → Done setup t m (
        supersede_after setup m redactions
          (if live_old then (true, marked setup t m target old) else (false, put_memory t m)))
unfolding supersede_after finish_put
supersede_after-Done setup t m redactions target old true there = λ a returned.
    (finish_put-answered setup m redactions (marked setup t m target old) a returned, there)
supersede_after-Done setup t m redactions target old false there = λ a returned. cc

store_with-Done :
    (setup : MemorySetup) (t : Memories) (m : Memory) (redactions : List String)
    (aim : Option String)
    → setup.retention.max_per_scope ≡ 0
    → IsTable t
    → Ready t m
    → m.supersedes_id ≡ aim
    → Done setup t m (store_with setup m redactions (put_memory t m) aim)
unfolding store_with finish_put
store_with-Done setup t m redactions none off table (same, live, aims) e = λ a returned. (
  finish_put-answered setup m redactions (put_memory t m) a returned,
  plain-Stored setup t m off table same live e,
)
store_with-Done setup t m redactions (some target) off table (same, live, aims) e =
    let (old, found, inside, apart) = aims target e in
    subst (λ done. Done setup t m (supersede_after setup m redactions done))
      (sym (supersede_memory-if setup t m target old found inside apart))
      (supersede_after-Done setup t m redactions target old (is_live old)
        (marked-Stored setup t m target old off table same live e found apart))

commit_put-Stored :
    (setup : MemorySetup) (t : Memories) (prepared : Result Failure (Memory × List String))
    (m : Memory) (redactions : List String) (compacted : Compacted)
    → setup.retention.max_per_scope ≡ 0
    → IsTable t
    → OnOk (λ p. Ready t p.0) prepared
    → (commit_put setup t prepared).0 ≡ ok (stored m redactions compacted)
    → is_expired setup.compacted_at m ≡ false
    → Stored setup t (commit_put setup t prepared).1 m
unfolding commit_put store_put
commit_put-Stored setup t (err e) m redactions compacted off table ready returned fresh = cc
commit_put-Stored setup t (ok (w, seen)) m redactions compacted off table ready returned fresh =
    let done = store_with-Done setup t w seen w.supersedes_id off table ready refl _ returned in
    let same = same_answer w m done.0 in
    subst
      (λ row.
        is_expired setup.compacted_at row ≡ false → Stored setup t (store_put setup w seen t).1 row)
      same done.1 fresh

search_for-unstored :
    (setup : MemorySetup) (o : MemoryOperation) (t : Memories) (query : Option String) (m : Memory)
    (redactions : List String) (compacted : Compacted)
    → (search_for setup o t query).0 ≢ ok (stored m redactions compacted)
unfolding search_for
search_for-unstored setup o t none m redactions compacted = λ e. cc
search_for-unstored setup o t (some query) m redactions compacted = λ e. cc

delete_by-unstored :
    (t : Memories) (scope : MemoryScope) (id : Option String) (m : Memory)
    (redactions : List String) (compacted : Compacted)
    → (delete_by t scope id).0 ≢ ok (stored m redactions compacted)
unfolding delete_by
delete_by-unstored t scope none m redactions compacted = λ e. cc
delete_by-unstored t scope (some id) m redactions compacted = λ e. cc

run_action-Stored :
    (setup : MemorySetup) (o : MemoryOperation) (t : Memories) (action : MemoryAction) (m : Memory)
    (redactions : List String) (compacted : Compacted)
    → setup.retention.max_per_scope ≡ 0
    → IsTable t
    → get setup.drawn_id t ≡ none
    → (run_action setup o t action).0 ≡ ok (stored m redactions compacted)
    → is_expired setup.compacted_at m ≡ false
    → Stored setup t (run_action setup o t action).1 m
unfolding run_action
run_action-Stored setup o t MemoryAction.put m redactions compacted off table free returned =
    commit_put-Stored setup t (prepare_put setup o t) m redactions compacted off table
      (prepare_put-Ready setup o t free) returned
run_action-Stored setup o t MemoryAction.search m redactions compacted off table free returned =
    elim (search_for-unstored setup o t o.query m redactions compacted returned) [ ]
run_action-Stored setup o t MemoryAction.list m redactions compacted off table free returned =
    λ fresh. cc
run_action-Stored setup o t MemoryAction.delete m redactions compacted off table free returned =
    elim (delete_by-unstored t o.scope o.id m redactions compacted returned) [ ]
run_action-Stored setup o t MemoryAction.clear m redactions compacted off table free returned =
    λ fresh. cc

-- Without a limit per scope, on a table that has each id once, with its row under it, and not the id
-- drawn for a new record: if a put answers that it stored a record that has not expired when the
-- table is compacted, then the record stands under its id, and the row that it supersedes, unless
-- that has expired by then, names it as its successor, has the time of the supersession as its last update, and is
-- otherwise as it was.
pub execute_memory-Stored :
    (setup : MemorySetup) (o : MemoryOperation) (t : Memories) (m : Memory)
    (redactions : List String) (compacted : Compacted)
    → setup.retention.max_per_scope ≡ 0
    → IsTable t
    → get setup.drawn_id t ≡ none
    → (execute_memory setup o t).0 ≡ ok (stored m redactions compacted)
    → is_expired setup.compacted_at m ≡ false
    → Stored setup t (execute_memory setup o t).1 m
unfolding execute_memory
execute_memory-Stored setup o t m redactions compacted off table free returned fresh =
    run_action-Stored setup o t o.action m redactions compacted off table free returned fresh
