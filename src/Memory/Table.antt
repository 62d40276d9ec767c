-- ===== src/Memory/Table.antt =====
-- The table `memories` of packages/storage-sqlite/src/index.ts: its rows by their primary key. Times
-- are milliseconds. A column that no statement computes with is its text.
use atlas_mcp.Prelude.{
  ℕ, String, Bool, true, false, not, ◌&&◌, ◌||◌, Option, none, some, List, Map, get, put, values,
  ◌==◌, ltb, leb, holds, if◌then◌else◌, is_none, filter_of, length, take, sort,
}
use atlas_mcp.Protocol.Operation.{MemoryScope, MemoryScope-discrete}

pub record Memory : Type 0 where
  pub id : String
  pub scope : MemoryScope
  pub key : String
  pub value : String
  pub source : String
  pub confidence : String
  pub tags : List String
  pub speaker : Option String
  pub episode_id : Option String
  pub sequence : Option ℕ
  pub expires_at : Option ℕ
  pub supersedes_id : Option String
  pub superseded_by : Option String
  pub created_at : ℕ
  pub updated_at : ℕ

abbrev pub Memories : Type 0
Memories = Map Memory

unfoldable pub in_scope : MemoryScope → Memory → Bool
in_scope scope m = holds (MemoryScope-discrete m.scope scope)

-- `superseded_by IS NULL`
unfoldable pub is_live : Memory → Bool
is_live m = is_none m.superseded_by

-- `expires_at IS NOT NULL AND expires_at <= ?`
unfoldable pub is_expired : ℕ → Memory → Bool
is_expired now m = elim m.expires_at [ none ↦ false | some t ↦ leb t now ]

-- The row that `ON CONFLICT(id) DO UPDATE` leaves: all columns are the new ones, but `created_at`.
unfoldable pub upserted : Option Memory → Memory → Memory
upserted none m = m
upserted (some old) m = record m { created_at = old.created_at }

-- `putMemory`
unfoldable pub put_memory : Memories → Memory → Memories
put_memory t m = put m.id (upserted (get m.id t) m) t

-- `getMemory`
unfoldable pub get_memory : Memories → String → Option Memory
get_memory t id = get id t

-- The `WHERE` of `listMemories` and `memoryCandidates`
unfoldable pub visible : MemoryScope → ℕ → Bool → Memory → Bool
visible scope now include_superseded m =
    in_scope scope m && (not (is_expired now m) && (include_superseded || is_live m))

-- `ORDER BY updated_at DESC`; rows of one time keep the table's order.
unfoldable pub newest_first : Memory → Memory → Bool
newest_first a b = leb b.updated_at a.updated_at

-- `listMemories` and `memoryCandidates`, at the time `now`
unfoldable pub list_memories : Memories → MemoryScope → ℕ → ℕ → Bool → List Memory
list_memories t scope now limit include_superseded =
    take limit (sort newest_first (filter_of (visible scope now include_superseded) (values t)))

-- The row after the `SET` of `supersedeMemory`
unfoldable pub superseded : String → ℕ → Memory → Memory
superseded by now m = record m { superseded_by = some by; updated_at = now }

unfoldable pub supersede_row :
    String → MemoryScope → String → ℕ → Memories → Option Memory → Bool × Memories
supersede_row id scope by now t none = (false, t)
supersede_row id scope by now t (some m) =
    if in_scope scope m && is_live m then (true, put id (superseded by now m) t) else (false, t)

-- `supersedeMemory`: whether a row was changed, and the table
unfoldable pub supersede_memory : Memories → String → MemoryScope → String → ℕ → Bool × Memories
supersede_memory t id scope by now = supersede_row id scope by now t (get id t)

-- `DELETE FROM memories WHERE p`
unfoldable pub delete_where : (Memory → Bool) → Memories → Memories
delete_where p t = filter_of (λ e. not (p e.1)) t

-- The `changes` of that statement
unfoldable pub count_where : (Memory → Bool) → Memories → ℕ
count_where p t = length (filter_of p (values t))

-- `id = ? AND scope = ?`
unfoldable pub row_is : String → MemoryScope → Memory → Bool
row_is id scope m = (m.id == id) && in_scope scope m

-- `deleteMemory`
unfoldable pub delete_memory : Memories → String → MemoryScope → Bool × Memories
delete_memory t id scope =
    (ltb 0 (count_where (row_is id scope) t), delete_where (row_is id scope) t)

-- `clearMemories`
unfoldable pub clear_memories : Memories → MemoryScope → ℕ × Memories
clear_memories t scope = (count_where (in_scope scope) t, delete_where (in_scope scope) t)
