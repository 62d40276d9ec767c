-- ===== src/Tests/Memories.antt =====
-- Concrete calls of packages/memory/src/index.ts.
use atlas_mcp.Prelude.{
  ◌≡◌, refl, true, false, none, some, [], ◌∷◌, get, arith, inl, text_dec, sort, insert, text_le,
  put, values, values, insert,
}
use atlas_mcp.Protocol.Failure.{memory_supersedes_target_invalid}
use atlas_mcp.Protocol.Operation.{MemoryAction, MemoryScope, MemoryOperation, MemoryScope-discrete}
use atlas_mcp.Memory.Table.{
  Memory, Memories, clear_memories, count_where, delete_memory, delete_where, is_expired,
  list_memories, newest_first, put_memory, row_is, supersede_memory, supersede_row, superseded,
  upserted, visible, get_memory, in_scope, is_live,
}
use atlas_mcp.Memory.Compact.{
  default_retention, compact_memories, evict, expired_row, kept_ids, later_row, pointed_at,
  reclaimed, stale_in, stale_row, superseded_ids, surplus_row, without_expired,
}
use atlas_mcp.Memory.Execute.{
  MemorySetup, execute_memory, run_action, commit_put, prepare_put, check_existing, look_up,
  check_target, aimed_row, same_id, store_put, store_with, created_at_of, delete_by, finish_put,
  new_memory, put_redactions, redact_memory_value, redact_option, redact_with, search_for,
  supersede_after, unique,
}
use atlas_mcp.Memory.Rows.{IsTable}
use atlas_mcp.Memory.Frame.{Keeps}
use atlas_mcp.Memory.Isolation.{execute_memory-Keeps}
use atlas_mcp.Memory.Marked.{Stored}
use atlas_mcp.Memory.Supersession.{execute_memory-Stored}
use atlas_mcp.Memory.Errors.{Failed, execute_memory-Failed}
use atlas_mcp.Memory.Reads.{list_memories-compact_memories, compact_memories-retains}

abbrev note : Memory
note = record {
  id = "a";
  scope = MemoryScope.workspace;
  key = "port";
  value = "8080";
  source = "mcp-client";
  confidence = "1";
  tags = [];
  speaker = none;
  episode_id = none;
  sequence = none;
  expires_at = none;
  supersedes_id = none;
  superseded_by = none;
  created_at = 10;
  updated_at = 10;
}

abbrev old_note : Memory
old_note = record note { id = "b"; superseded_by = some "a"; updated_at = 5 }

abbrev brief_note : Memory
brief_note = record note { id = "c"; expires_at = some 20 }

abbrev foreign_note : Memory
foreign_note = record note { id = "u"; scope = MemoryScope.user }

abbrev notes : Memories
notes = ("a", note) ∷ ("b", old_note) ∷ ("c", brief_note) ∷ ("u", foreign_note) ∷ []

notes-IsTable : IsTable notes
unfolding get text_dec
notes-IsTable = (refl, refl, (refl, refl, (refl, refl, (refl, refl, tt))))

abbrev memory_setup : MemorySetup
memory_setup = record {
  replace = λ p s. s;
  retention = default_retention;
  drawn_id = "n";
  now = 30;
  superseded_at = 31;
  compacted_at = 32;
}

abbrev put_over : MemoryOperation
put_over = record {
  action = MemoryAction.put;
  id = none;
  scope = MemoryScope.workspace;
  key = some "port";
  value = some "9090";
  query = none;
  source = none;
  confidence = "1";
  tags = [];
  speaker = none;
  episode_id = none;
  sequence = none;
  expires_at = none;
  supersedes_id = some "a";
  include_superseded = false;
  limit = 20;
}

abbrev new_note : Memory
new_note = record note {
  id = "n";
  value = "9090";
  supersedes_id = some "a";
  created_at = 30;
  updated_at = 30;
}

-- A put on the record `a` that is to supersede a record that `a` has superseded already.
abbrev put_again : MemoryOperation
put_again = record put_over { id = some "a"; supersedes_id = some "b" }

execute_memory-Keeps_example :
    Keeps MemoryScope.workspace notes (execute_memory memory_setup put_over notes).1
unfolding get text_dec
execute_memory-Keeps_example = execute_memory-Keeps memory_setup put_over notes notes-IsTable refl

execute_memory-Stored_example :
    Stored memory_setup notes (execute_memory memory_setup put_over notes).1 new_note
unfolding execute_memory run_action commit_put prepare_put check_existing look_up check_target
    aimed_row same_id store_put store_with created_at_of delete_by finish_put new_memory
    put_redactions redact_memory_value redact_option redact_with search_for supersede_after unique
    compact_memories evict expired_row kept_ids later_row pointed_at reclaimed stale_in stale_row
    superseded_ids surplus_row without_expired clear_memories count_where delete_memory delete_where
    is_expired list_memories newest_first put_memory row_is supersede_memory supersede_row
    superseded upserted visible get_memory in_scope is_live get put values text_dec text_le insert
    sort MemoryScope-discrete
execute_memory-Stored_example =
    execute_memory-Stored memory_setup put_over notes new_note []
      (record { expired = 1; superseded = 0; evicted = 0 }) refl notes-IsTable refl refl refl

execute_memory-Failed_example :
    Failed put_again.supersedes_id notes (execute_memory memory_setup put_again notes).1 "a"
unfolding execute_memory run_action commit_put prepare_put check_existing look_up check_target
    aimed_row same_id store_put store_with created_at_of delete_by finish_put new_memory
    put_redactions redact_memory_value redact_option redact_with search_for supersede_after unique
    compact_memories evict expired_row kept_ids later_row pointed_at reclaimed stale_in stale_row
    superseded_ids surplus_row without_expired clear_memories count_where delete_memory delete_where
    is_expired list_memories newest_first put_memory row_is supersede_memory supersede_row
    superseded upserted visible get_memory in_scope is_live get put values text_dec text_le insert
    sort MemoryScope-discrete
execute_memory-Failed_example =
    execute_memory-Failed memory_setup put_again notes memory_supersedes_target_invalid
      notes-IsTable refl refl

-- The live record `a` is gone after that put was refused.
put_again_loses : get "a" (execute_memory memory_setup put_again notes).1 ≡ none
unfolding execute_memory run_action commit_put prepare_put check_existing look_up check_target
    aimed_row same_id store_put store_with created_at_of delete_by finish_put new_memory
    put_redactions redact_memory_value redact_option redact_with search_for supersede_after unique
    compact_memories evict expired_row kept_ids later_row pointed_at reclaimed stale_in stale_row
    superseded_ids surplus_row without_expired clear_memories count_where delete_memory delete_where
    is_expired list_memories newest_first put_memory row_is supersede_memory supersede_row
    superseded upserted visible get_memory in_scope is_live get put values text_dec text_le insert
    sort MemoryScope-discrete
put_again_loses = refl

list_memories-compact_memories_example :
    list_memories
      (compact_memories notes MemoryScope.workspace default_retention 3000000000).1
      MemoryScope.workspace
      3000000001
      20
      false
    ≡ list_memories notes MemoryScope.workspace 3000000001 20 false
list_memories-compact_memories_example =
    list_memories-compact_memories notes MemoryScope.workspace MemoryScope.workspace
      default_retention 3000000000 3000000001 20 refl (omega arith)

compact_memories-retains_example :
    get "a" (compact_memories notes MemoryScope.workspace default_retention 3000000000).1
    ≡ some note
unfolding get is_expired is_live text_dec
compact_memories-retains_example =
    compact_memories-retains notes MemoryScope.workspace default_retention 3000000000 "a" note refl
      notes-IsTable refl refl refl (inl refl)

-- A list that asks for superseded memories does see a compaction.
list_memories_sees :
    list_memories
      (compact_memories notes MemoryScope.workspace default_retention 3000000000).1
      MemoryScope.workspace
      3000000001
      20
      true
    ≡ note ∷ []
unfolding compact_memories evict expired_row kept_ids later_row pointed_at reclaimed stale_in
    stale_row superseded_ids surplus_row without_expired clear_memories count_where delete_memory
    delete_where is_expired list_memories newest_first put_memory row_is supersede_memory
    supersede_row superseded upserted visible get_memory in_scope is_live get put values text_dec
    text_le insert sort MemoryScope-discrete
list_memories_sees = refl

list_memories_before :
    list_memories notes MemoryScope.workspace 3000000001 20 true ≡ note ∷ old_note ∷ []
unfolding compact_memories evict expired_row kept_ids later_row pointed_at reclaimed stale_in
    stale_row superseded_ids surplus_row without_expired clear_memories count_where delete_memory
    delete_where is_expired list_memories newest_first put_memory row_is supersede_memory
    supersede_row superseded upserted visible get_memory in_scope is_live get put values text_dec
    text_le insert sort MemoryScope-discrete
list_memories_before = refl
