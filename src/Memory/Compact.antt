-- ===== src/Memory/Compact.antt =====
-- `compactMemories` of packages/storage-sqlite/src/index.ts: three deletions in one transaction.
use atlas_mcp.Prelude.{
  ℕ, ◌+◌, ◌*◌, String, Bool, not, ◌&&◌, ◌||◌, none, some, List, [], ◌∷◌, map, values, ltb, leb,
  nat_eq, if◌then◌else◌, filter_of, includes, take, sort, text_le,
}
use atlas_mcp.Protocol.Operation.{MemoryScope}
use atlas_mcp.Memory.Table.{
  Memory, Memories, in_scope, is_live, is_expired, delete_where, count_where,
}

-- `MemoryRetention`
pub record Retention : Type 0 where
  pub max_age_days : ℕ
  pub max_per_scope : ℕ

-- `DEFAULT_MEMORY_RETENTION`
abbrev pub default_retention : Retention
default_retention = record { max_age_days = 30; max_per_scope = 0 }

pub record Compacted : Type 0 where
  pub expired : ℕ
  pub superseded : ℕ
  pub evicted : ℕ

-- The `WHERE` of the first deletion
unfoldable pub expired_row : MemoryScope → ℕ → Memory → Bool
expired_row scope now m = in_scope scope m && is_expired now m

-- The ids that a list of rows supersedes, a `NULL` left out
unfoldable pub superseded_ids : List Memory → List String
superseded_ids [] = []
superseded_ids (m ∷ ms) = elim m.supersedes_id [
  | none ↦ superseded_ids ms
  | some id ↦ id ∷ superseded_ids ms
]

-- `SELECT supersedes_id FROM memories WHERE … AND superseded_by IS NULL`
unfoldable pub pointed_at : MemoryScope → Memories → List String
pointed_at scope t = superseded_ids (filter_of (λ m. in_scope scope m && is_live m) (values t))

-- The `WHERE` of the second deletion. The cutoff `now - maxAgeDays` stands on the left.
unfoldable pub stale_row : MemoryScope → ℕ → ℕ → List String → Memory → Bool
stale_row scope days now pointed m =
    in_scope scope m
    && (not (is_live m)
        && (leb (m.updated_at + days * 86400000) now && not (includes m.id pointed)))

-- `ORDER BY updated_at DESC, id DESC`
unfoldable pub later_row : Memory → Memory → Bool
later_row a b =
    ltb b.updated_at a.updated_at || (nat_eq a.updated_at b.updated_at && text_le b.id a.id)

-- The ids that the third deletion keeps
unfoldable pub kept_ids : MemoryScope → ℕ → Memories → List String
kept_ids scope limit t =
    map (λ m. m.id)
      (take limit (sort later_row (filter_of (λ m. in_scope scope m && is_live m) (values t))))

-- The `WHERE` of the third deletion
unfoldable pub surplus_row : MemoryScope → List String → Memory → Bool
surplus_row scope kept m = in_scope scope m && (is_live m && not (includes m.id kept))

unfoldable pub evict : MemoryScope → ℕ → Memories → ℕ × Memories
evict scope limit t = if nat_eq limit 0 then (0, t) else (
  count_where (surplus_row scope (kept_ids scope limit t)) t,
  delete_where (surplus_row scope (kept_ids scope limit t)) t,
)

unfoldable pub without_expired : Memories → MemoryScope → ℕ → Memories
without_expired t scope now = delete_where (expired_row scope now) t

unfoldable pub stale_in : Memories → MemoryScope → ℕ → ℕ → Memory → Bool
stale_in t scope days now = stale_row scope days now (pointed_at scope t)

-- The table after the first two deletions
unfoldable pub reclaimed : Memories → MemoryScope → ℕ → ℕ → Memories
reclaimed t scope days now =
    let left = without_expired t scope now in delete_where (stale_in left scope days now) left

-- `compactMemories`
unfoldable pub compact_memories : Memories → MemoryScope → Retention → ℕ → Compacted × Memories
compact_memories t scope retention now =
    let left = without_expired t scope now in
    let rest = reclaimed t scope retention.max_age_days now in
    let last = evict scope retention.max_per_scope rest in
    (
      record {
        expired = count_where (expired_row scope now) t;
        superseded = count_where (stale_in left scope retention.max_age_days now) left;
        evicted = last.0;
      },
      last.1,
    )
