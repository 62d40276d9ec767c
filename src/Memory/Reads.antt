-- ===== src/Memory/Reads.antt =====
-- What compaction of packages/storage-sqlite/src/index.ts takes away, as reads see it, and what it
-- keeps.
use atlas_mcp.Prelude.{
  ℕ, ◌≤◌, String, ◌≡◌, refl, ◌∙◌, ap, Bool, true, false, some, List, [], ◌∷◌, get, values,
  filter_of, take, sort, includes, ◌⊎◌, inl, inr, arith,
}
use atlas_mcp.Protocol.Operation.{MemoryScope}
use atlas_mcp.Memory.Table.{
  Memory, Memories, in_scope, is_live, is_expired, visible, newest_first, list_memories,
  delete_where,
}
use atlas_mcp.Memory.Compact.{
  compact_memories, reclaimed, without_expired, stale_in, evict, expired_row, stale_row, Retention,
  pointed_at, superseded_ids,
}
use atlas_mcp.Memory.Rows.{IsTable, kept, get-delete_where, delete_where-IsTable}

filter_of-delete_where :
    (p q : Memory → Bool) (t : Memories)
    → ((m : Memory) → p m ≡ true → q m ≡ false)
    → filter_of q (values (delete_where p t)) ≡ filter_of q (values t)
unfolding delete_where values
filter_of-delete_where p q [] apart = refl
filter_of-delete_where p q ((k, m) ∷ t) apart =
    ground (arith, filter_of-delete_where p q t apart, apart m)

expired_row-visible :
    (scope read_scope : MemoryScope) (now later : ℕ) (m : Memory)
    → now ≤ later
    → expired_row scope now m ≡ true
    → visible read_scope later false m ≡ false
unfolding expired_row visible is_expired
expired_row-visible scope read_scope now later m order gone = ground arith

stale_row-visible :
    (scope read_scope : MemoryScope) (days now later : ℕ) (pointed : List String) (m : Memory)
    → stale_row scope days now pointed m ≡ true
    → visible read_scope later false m ≡ false
unfolding stale_row visible
stale_row-visible scope read_scope days now later pointed m gone = ground arith

evict-none :
    (scope : MemoryScope) (limit : ℕ) (t : Memories) → limit ≡ 0 → (evict scope limit t).1 ≡ t
unfolding evict
evict-none scope limit t off = ground arith

-- Without a limit per scope, a compaction cannot be seen by a list or a search that does not ask for
-- superseded memories, in any scope and at any later time.
pub list_memories-compact_memories :
    (t : Memories) (scope read_scope : MemoryScope) (retention : Retention) (now later limit : ℕ)
    → retention.max_per_scope ≡ 0
    → now ≤ later
    → list_memories (compact_memories t scope retention now).1 read_scope later limit false
      ≡ list_memories t read_scope later limit false
unfolding list_memories compact_memories reclaimed without_expired stale_in
list_memories-compact_memories t scope read_scope retention now later limit off order =
    let left = without_expired t scope now in
    let rest = reclaimed t scope retention.max_age_days now in
    ap (λ rows. take limit (sort newest_first rows))
      (ap (λ s. filter_of (visible read_scope later false) (values s))
          (evict-none scope retention.max_per_scope rest off)
        ∙ filter_of-delete_where (stale_in left scope retention.max_age_days now)
            (visible read_scope later false) left
            (λ m gone.
              stale_row-visible scope read_scope retention.max_age_days now later
                (pointed_at scope left) m gone)
        ∙ filter_of-delete_where (expired_row scope now) (visible read_scope later false) t
            (λ m gone. expired_row-visible scope read_scope now later m order gone))

-- The row `m` stands in the table, is live, and names `j` as what it supersedes.
abbrev pub Points : MemoryScope → Memories → String → ℕ → Type 0
Points scope t j now =
    (k : String) × (m : Memory) × (get k t ≡ some m)
    × (in_scope scope m ≡ true)
    × (is_live m ≡ true)
    × (is_expired now m ≡ false)
    × (m.supersedes_id ≡ some j)

includes-pointed_at :
    (scope : MemoryScope) (t : Memories) (k j : String) (m : Memory)
    → get k t ≡ some m
    → in_scope scope m ≡ true
    → is_live m ≡ true
    → m.supersedes_id ≡ some j
    → includes j (pointed_at scope t) ≡ true
unfolding pointed_at superseded_ids get values
includes-pointed_at scope [] k j m found inside live points = cc
includes-pointed_at scope ((i, w) ∷ t) k j m found inside live points =
    ground (arith, includes-pointed_at scope t k j m)

kept-false : (p : Memory → Bool) (m : Memory) → p m ≡ false → kept p (some m) ≡ some m
kept-false p m stays = ground arith

get-without_expired :
    (t : Memories) (scope : MemoryScope) (now : ℕ) (j : String) (m : Memory)
    → IsTable t
    → get j t ≡ some m
    → is_expired now m ≡ false
    → get j (without_expired t scope now) ≡ some m
unfolding without_expired expired_row
get-without_expired t scope now j m table found fresh =
    get-delete_where (expired_row scope now) t table j
    ∙ ap (kept (expired_row scope now)) found
    ∙ kept-false (expired_row scope now) m (ground arith)

-- The row is live, or a live row points at it.
abbrev pub Reachable : MemoryScope → Memories → String → Memory → ℕ → Type 0
Reachable scope t j m now = (is_live m ≡ true) ⊎ Points scope t j now

stale_in-Reachable :
    (t : Memories) (scope : MemoryScope) (days now : ℕ) (j : String) (m : Memory)
    → IsTable t
    → m.id ≡ j
    → Reachable scope t j m now
    → stale_in (without_expired t scope now) scope days now m ≡ false
unfolding stale_in stale_row
stale_in-Reachable t scope days now j m table named (inl live) = ground arith
stale_in-Reachable t scope days now j m table named
      (inr (k, v, found, inside, live, fresh, points)) =
    let there =
      includes-pointed_at scope (without_expired t scope now) k j v
        (get-without_expired t scope now k v table found fresh) inside live points in
    ground arith

without_expired-IsTable :
    (t : Memories) (scope : MemoryScope) (now : ℕ)
    → IsTable t
    → IsTable (without_expired t scope now)
unfolding without_expired
without_expired-IsTable t scope now table = delete_where-IsTable (expired_row scope now) t table

-- Without a limit per scope, a compaction keeps each row that has not expired and that is live or
-- that a live row, not expired, of the compacted scope supersedes.
pub compact_memories-retains :
    (t : Memories) (scope : MemoryScope) (retention : Retention) (now : ℕ) (j : String) (m : Memory)
    → retention.max_per_scope ≡ 0
    → IsTable t
    → get j t ≡ some m
    → m.id ≡ j
    → is_expired now m ≡ false
    → Reachable scope t j m now
    → get j (compact_memories t scope retention now).1 ≡ some m
unfolding compact_memories reclaimed
compact_memories-retains t scope retention now j m off table found named fresh reachable =
    let left = without_expired t scope now in
    let stale = stale_in left scope retention.max_age_days now in
    ap (get j) (evict-none scope retention.max_per_scope (delete_where stale left) off)
    ∙ get-delete_where stale left (without_expired-IsTable t scope now table) j
    ∙ ap (kept stale) (get-without_expired t scope now j m table found fresh)
    ∙ kept-false stale m
        (stale_in-Reachable t scope retention.max_age_days now j m table named reachable)
