-- ===== src/Memory/Marked.antt =====
-- The table after the statements of a put: its record, and the row that names it as successor.
use atlas_mcp.Prelude.{
  ℕ, String, ◌≡◌, refl, ◌∙◌, ap, subst, true, false, Option, none, some, get, put, get-put,
  get-put_self, ◌==◌, if◌then◌else◌, inl, inr, arith,
}
use atlas_mcp.Protocol.Operation.{MemoryScope}
use atlas_mcp.Memory.Table.{
  Memory, Memories, in_scope, is_live, is_expired, put_memory, upserted, supersede_memory,
  supersede_row, superseded,
}
use atlas_mcp.Memory.Compact.{compact_memories}
use atlas_mcp.Memory.Execute.{MemorySetup}
use atlas_mcp.Memory.Rows.{IsTable, put-IsTable, get-IsTable}
use atlas_mcp.Memory.Frame.{in_scope-own}
use atlas_mcp.Memory.Reads.{compact_memories-retains}

get-put_memory :
    (t : Memories) (m : Memory) → upserted (get m.id t) m ≡ m → get m.id (put_memory t m) ≡ some m
unfolding put_memory
get-put_memory t m same = get-put_self m.id (upserted (get m.id t) m) t ∙ ap some same

upserted-id : (old : Option Memory) (m : Memory) → (upserted old m).id ≡ m.id
unfolding upserted
upserted-id none m = refl
upserted-id (some w) m = refl

pub put_memory-IsTable : (t : Memories) (m : Memory) → IsTable t → IsTable (put_memory t m)
unfolding put_memory
put_memory-IsTable t m table =
    put-IsTable m.id (upserted (get m.id t) m) t (upserted-id (get m.id t) m) table

get-put_memory_apart :
    (t : Memories) (m : Memory) (j : String)
    → (m.id == j) ≡ false
    → get j (put_memory t m) ≡ get j t
unfolding put_memory
get-put_memory_apart t m j apart = ground (arith, get-put m.id j (upserted (get m.id t) m) t)

-- The table once the row of `target` says that `m` supersedes it.
abbrev pub marked : MemorySetup → Memories → Memory → String → Memory → Memories
marked setup t m target old = put target (superseded m.id setup.superseded_at old) (put_memory t m)

supersede_row-if :
    (id by : String) (scope : MemoryScope) (now : ℕ) (t : Memories) (old : Memory)
    → in_scope scope old ≡ true
    → supersede_row id scope by now t (some old)
      ≡ (if is_live old then (true, put id (superseded by now old) t) else (false, t))
unfolding supersede_row
supersede_row-if id by scope now t old inside = ground arith

-- The supersession of a prepared put changes the row that it aims at exactly if that is live.
pub supersede_memory-if :
    (setup : MemorySetup) (t : Memories) (m : Memory) (target : String) (old : Memory)
    → get target t ≡ some old
    → in_scope m.scope old ≡ true
    → (m.id == target) ≡ false
    → supersede_memory (put_memory t m) target m.scope m.id setup.superseded_at
      ≡ (if is_live old then (true, marked setup t m target old) else (false, put_memory t m))
unfolding supersede_memory
supersede_memory-if setup t m target old found inside apart =
    ap (supersede_row target m.scope m.id setup.superseded_at (put_memory t m))
      (get-put_memory_apart t m target apart ∙ found)
    ∙ supersede_row-if target m.id m.scope setup.superseded_at (put_memory t m) old inside

-- The table `s` has the record put, and what that supersedes names it.
abbrev pub Stored : MemorySetup → Memories → Memories → Memory → Type 0
Stored setup t s m =
    (get m.id s ≡ some m)
    × ((target : String) (old : Memory)
        → m.supersedes_id ≡ some target
        → get target t ≡ some old
        → is_expired setup.compacted_at old ≡ false
        → get target s ≡ some (superseded m.id setup.superseded_at old))

same_target :
    (m : Memory) (target aimed : String)
    → m.supersedes_id ≡ some target
    → m.supersedes_id ≡ some aimed
    → target ≡ aimed
same_target m target aimed aim points = cc

same_found :
    (t : Memories) (target aimed : String) (old row : Memory)
    → target ≡ aimed
    → get target t ≡ some old
    → get aimed t ≡ some row
    → old ≡ row
same_found t target aimed old row same found there = cc

retarget :
    (P : String → Memory → Type 0) (t : Memories) (m : Memory) (target aimed : String)
    (old row : Memory)
    → m.supersedes_id ≡ some target
    → get target t ≡ some old
    → m.supersedes_id ≡ some aimed
    → get aimed t ≡ some row
    → P target old
    → P aimed row
retarget P t m target aimed old row aim found points there holds_old =
    let same = same_target m target aimed aim points in
    let same_row = same_found t target aimed old row same found there in
    subst (P aimed) same_row (subst (λ j. P j old) same holds_old)

superseded-id :
    (setup : MemorySetup) (m : Memory) (target : String) (old : Memory) (t : Memories)
    → IsTable t
    → get target t ≡ some old
    → (superseded m.id setup.superseded_at old).id ≡ target
unfolding superseded
superseded-id setup m target old t table found = get-IsTable t target old table found

get-put_apart :
    (k j : String) (m : Memory) (t : Memories) → (j == k) ≡ false → get j (put k m t) ≡ get j t
get-put_apart k j m t apart = ground (arith, get-put k j m t)

is_expired-superseded :
    (by : String) (at now : ℕ) (old : Memory)
    → is_expired now (superseded by at old) ≡ is_expired now old
unfolding is_expired superseded
is_expired-superseded by at now old = refl

pub marked-Stored :
    (setup : MemorySetup) (t : Memories) (m : Memory) (target : String) (old : Memory)
    → setup.retention.max_per_scope ≡ 0
    → IsTable t
    → upserted (get m.id t) m ≡ m
    → is_live m ≡ true
    → m.supersedes_id ≡ some target
    → get target t ≡ some old
    → (m.id == target) ≡ false
    → is_expired setup.compacted_at m ≡ false
    → Stored setup t
        (compact_memories
          (marked setup t m target old)
          m.scope
          setup.retention
          setup.compacted_at).1
        m
marked-Stored setup t m target old off table same live aim found apart fresh =
    let whole =
      put-IsTable target (superseded m.id setup.superseded_at old) (put_memory t m)
        (superseded-id setup m target old t table found) (put_memory-IsTable t m table) in
    let own =
      get-put_apart target m.id (superseded m.id setup.superseded_at old) (put_memory t m) apart
      ∙ get-put_memory t m same in
    (
      compact_memories-retains (marked setup t m target old) m.scope setup.retention
          setup.compacted_at m.id m off whole own refl fresh (inl live),
      λ aimed row points there.
          retarget
            (λ j w.
              is_expired setup.compacted_at w ≡ false
              → get j
                  (compact_memories (marked setup t m target old) m.scope setup.retention
                    setup.compacted_at).1
                ≡ some (superseded m.id setup.superseded_at w))
            t m target aimed old row aim found points there
            (λ unexpired.
              compact_memories-retains (marked setup t m target old) m.scope setup.retention
                setup.compacted_at target (superseded m.id setup.superseded_at old) off whole
                (get-put_self target (superseded m.id setup.superseded_at old) (put_memory t m))
                (superseded-id setup m target old t table found)
                (is_expired-superseded m.id setup.superseded_at setup.compacted_at old ∙ unexpired)
                (inr (m.id, m, own, in_scope-own m, live, fresh, aim))),
    )

pub plain-Stored :
    (setup : MemorySetup) (t : Memories) (m : Memory)
    → setup.retention.max_per_scope ≡ 0
    → IsTable t
    → upserted (get m.id t) m ≡ m
    → is_live m ≡ true
    → m.supersedes_id ≡ none
    → is_expired setup.compacted_at m ≡ false
    → Stored setup t
        (compact_memories (put_memory t m) m.scope setup.retention setup.compacted_at).1
        m
plain-Stored setup t m off table same live aimless fresh = (
  compact_memories-retains (put_memory t m) m.scope setup.retention setup.compacted_at m.id m off
      (put_memory-IsTable t m table) (get-put_memory t m same) refl fresh (inl live),
  λ aimed row points there unexpired. cc,
)
