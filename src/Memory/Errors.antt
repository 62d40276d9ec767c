-- ===== src/Memory/Errors.antt =====
-- What a call of `LocalMemory.execute` that throws leaves of the table.
use atlas_mcp.Prelude.{
  String, ◌≡◌, refl, sym, subst, Bool, true, false, Option, none, some, List, get, put, get-put,
  ◌==◌, if◌then◌else◌, ◌⊎◌, inl, inr, arith, Result, ok, err, OnOk, OnOk-then, require, or_else,
}
use atlas_mcp.Protocol.Failure.{Failure}
use atlas_mcp.Protocol.Operation.{MemoryAction, MemoryScope, MemoryOperation}
use atlas_mcp.Memory.Table.{
  Memory, Memories, in_scope, is_live, put_memory, upserted, delete_memory, row_is,
}
use atlas_mcp.Memory.Execute.{
  MemorySetup, execute_memory, run_action, commit_put, prepare_put, store_put, store_with,
  finish_put, supersede_after, search_for, delete_by, look_up, check_existing, check_target,
  new_memory,
}
use atlas_mcp.Memory.Rows.{IsTable, kept, get-delete_where, get-IsTable}
use atlas_mcp.Memory.Prepared.{Ready, prepare_put-Ready}
use atlas_mcp.Memory.Marked.{put_memory-IsTable, marked, supersede_memory-if}

-- The table `s` is `t` without the row of `id`, and the row of the id `aim`, which was to be
-- superseded, is there and superseded already.
abbrev pub Dropped : Option String → Memories → Memories → String → Type 0
Dropped aim t s id =
    ((target : String) × (old : Memory) × (aim ≡ some target)
      × (get target t ≡ some old)
      × (is_live old ≡ false))
    × ((j : String) → get j s ≡ (if id == j then none else get j t))

row_is-own : (m : Memory) (old : Option Memory) → row_is m.id m.scope (upserted old m) ≡ true
unfolding row_is upserted in_scope
row_is-own m none = ground arith
row_is-own m (some w) = ground arith

kept-apart :
    (id : String) (scope : MemoryScope) (t : Memories) (j : String) (row : Option Memory)
    → IsTable t
    → get j t ≡ row
    → (id == j) ≡ false
    → kept (row_is id scope) row ≡ row
unfolding row_is
kept-apart id scope t j none table found apart = refl
kept-apart id scope t j (some w) table found apart =
    let named = get-IsTable t j w table found in ground arith

get-delete_put :
    (t : Memories) (m : Memory) (j : String)
    → IsTable t
    → get j (delete_memory (put_memory t m) m.id m.scope).1 ≡ (if m.id == j then none else get j t)
unfolding delete_memory put_memory
get-delete_put t m j table =
    let row = upserted (get m.id t) m in
    let whole = put_memory-IsTable t m table in
    let shown = get-delete_where (row_is m.id m.scope) (put m.id row t) whole j in
    let looked = get-put m.id j row t in
    let own = row_is-own m (get m.id t) in
    let apart = kept-apart m.id m.scope t j (get j t) table refl in ground arith

-- A call that threw has left the table, or dropped the row of `id`.
abbrev pub Failed : Option String → Memories → Memories → String → Type 0
Failed aim t s id = (s ≡ t) ⊎ Dropped aim t s id

supersede_after-Failed :
    (setup : MemorySetup) (t : Memories) (m : Memory) (redactions : List String) (target : String)
    (old : Memory) (live_old : Bool) (e : Failure)
    → IsTable t
    → get target t ≡ some old
    → is_live old ≡ live_old
    → m.supersedes_id ≡ some target
    → (supersede_after setup m redactions
        (if live_old then (true, marked setup t m target old) else (false, put_memory t m))).0
      ≡ err e
    → Failed m.supersedes_id t
        (supersede_after setup m redactions
          (if live_old then (true, marked setup t m target old) else (false, put_memory t m))).1
        m.id
unfolding supersede_after finish_put
supersede_after-Failed setup t m redactions target old true e table found live aim thrown = cc
supersede_after-Failed setup t m redactions target old false e table found live aim thrown =
    inr ((target, old, aim, found, live), λ j. get-delete_put t m j table)

store_with-Failed :
    (setup : MemorySetup) (t : Memories) (m : Memory) (redactions : List String)
    (aim : Option String) (e : Failure)
    → IsTable t
    → Ready t m
    → m.supersedes_id ≡ aim
    → (store_with setup m redactions (put_memory t m) aim).0 ≡ err e
    → Failed m.supersedes_id t (store_with setup m redactions (put_memory t m) aim).1 m.id
unfolding store_with finish_put
store_with-Failed setup t m redactions none e table ready points thrown = cc
store_with-Failed setup t m redactions (some target) e table (same, live, aims) points thrown =
    let (old, found, inside, apart) = aims target points in
    subst
      (λ done.
        (supersede_after setup m redactions done).0 ≡ err e
        → Failed m.supersedes_id t (supersede_after setup m redactions done).1 m.id)
      (sym (supersede_memory-if setup t m target old found inside apart))
      (supersede_after-Failed setup t m redactions target old (is_live old) e table found refl
        points)
      thrown

prepare_put-id :
    (setup : MemorySetup) (o : MemoryOperation) (t : Memories)
    → OnOk
        (λ p. (p.0.id ≡ or_else o.id setup.drawn_id) × (p.0.supersedes_id ≡ o.supersedes_id))
        (prepare_put setup o t)
unfolding prepare_put new_memory
prepare_put-id setup o t = OnOk-then _ (require o.key _) _ λ key has_key.
    OnOk-then _ (require o.value _) _ λ value has_value.
      OnOk-then _ (check_existing o.scope (look_up t o.id)) _ λ u checked.
        OnOk-then _ (check_target t o.scope o.id o.supersedes_id) _ λ w aimed. (refl, refl)

commit_put-Failed :
    (setup : MemorySetup) (t : Memories) (prepared : Result Failure (Memory × List String))
    (id : String) (aim : Option String) (e : Failure)
    → IsTable t
    → OnOk (λ p. Ready t p.0) prepared
    → OnOk (λ p. (p.0.id ≡ id) × (p.0.supersedes_id ≡ aim)) prepared
    → (commit_put setup t prepared).0 ≡ err e
    → Failed aim t (commit_put setup t prepared).1 id
unfolding commit_put store_put
commit_put-Failed setup t (err x) id aim e table ready named thrown = inl refl
commit_put-Failed setup t (ok (m, redactions)) id aim e table ready (named, aimed) thrown =
    subst (λ to. Failed to t (store_put setup m redactions t).1 id) aimed
      (subst (Failed m.supersedes_id t (store_put setup m redactions t).1) named
        (store_with-Failed setup t m redactions m.supersedes_id e table ready refl thrown))

search_for-table :
    (setup : MemorySetup) (o : MemoryOperation) (t : Memories) (query : Option String)
    → (search_for setup o t query).1 ≡ t
unfolding search_for
search_for-table setup o t none = refl
search_for-table setup o t (some query) = refl

delete_by-Failed :
    (t : Memories) (scope : MemoryScope) (id : Option String) (e : Failure)
    → (delete_by t scope id).0 ≡ err e
    → (delete_by t scope id).1 ≡ t
unfolding delete_by
delete_by-Failed t scope none e thrown = refl
delete_by-Failed t scope (some id) e thrown = cc

run_action-Failed :
    (setup : MemorySetup) (o : MemoryOperation) (t : Memories) (action : MemoryAction) (e : Failure)
    → IsTable t
    → get setup.drawn_id t ≡ none
    → (run_action setup o t action).0 ≡ err e
    → Failed o.supersedes_id t (run_action setup o t action).1 (or_else o.id setup.drawn_id)
unfolding run_action
run_action-Failed setup o t MemoryAction.put e table free thrown =
    commit_put-Failed setup t (prepare_put setup o t) (or_else o.id setup.drawn_id) o.supersedes_id
      e table (prepare_put-Ready setup o t free) (prepare_put-id setup o t) thrown
run_action-Failed setup o t MemoryAction.search e table free thrown =
    inl (search_for-table setup o t o.query)
run_action-Failed setup o t MemoryAction.list e table free thrown = inl refl
run_action-Failed setup o t MemoryAction.delete e table free thrown =
    inl (delete_by-Failed t o.scope o.id e thrown)
run_action-Failed setup o t MemoryAction.clear e table free thrown = cc

-- On a table that has each id once, with its row under it, and not the id drawn for a new record: an
-- operation that throws leaves the table as it is, or the record that its `supersedesId`
-- names is in the table and superseded already, and then the table has lost the row of the operation's own id, and no other.
pub execute_memory-Failed :
    (setup : MemorySetup) (o : MemoryOperation) (t : Memories) (e : Failure)
    → IsTable t
    → get setup.drawn_id t ≡ none
    → (execute_memory setup o t).0 ≡ err e
    → Failed o.supersedes_id t (execute_memory setup o t).1 (or_else o.id setup.drawn_id)
unfolding execute_memory
execute_memory-Failed setup o t e table free thrown =
    run_action-Failed setup o t o.action e table free thrown
