-- ===== src/Memory/Frame.antt =====
-- What each statement on the table `memories` leaves alone: the rows of the other scopes, and the
-- primary key.
use atlas_mcp.Prelude.{
  ℕ, String, ◌≡◌, refl, ◌∙◌, ap, Bool, true, false, ◌&&◌, Option, none, some, get, put, get-put,
  nat_eq, if◌then◌else◌, arith,
}
use atlas_mcp.Protocol.Operation.{MemoryScope}
use atlas_mcp.Memory.Table.{
  Memory, Memories, in_scope, is_live, delete_where, put_memory, upserted, supersede_row,
  superseded, delete_memory, row_is,
}
use atlas_mcp.Memory.Compact.{
  compact_memories, reclaimed, without_expired, stale_in, evict, surplus_row, kept_ids, expired_row,
  stale_row, Retention,
}
use atlas_mcp.Memory.Rows.{
  IsTable, kept, get-delete_where, get-IsTable, delete_where-IsTable, put-IsTable,
}

-- The row, if it is of another scope.
abbrev pub foreign : MemoryScope → Option Memory → Option Memory
foreign scope none = none
foreign scope (some m) = if in_scope scope m then none else some m

-- A table that keeps the primary key, and has of the other scopes the rows that `t` has.
abbrev pub Keeps : MemoryScope → Memories → Memories → Type 0
Keeps scope t s = IsTable s × ((j : String) → foreign scope (get j s) ≡ foreign scope (get j t))

pub Keeps-refl : (scope : MemoryScope) (t : Memories) → IsTable t → Keeps scope t t
Keeps-refl scope t table = (table, λ j. refl)

pub Keeps-trans :
    (scope : MemoryScope) (t s r : Memories) → Keeps scope t s → Keeps scope s r → Keeps scope t r
Keeps-trans scope t s r (_, first) (table, second) = (table, λ j. second j ∙ first j)

foreign-kept :
    (scope : MemoryScope) (p : Memory → Bool) (o : Option Memory)
    → ((m : Memory) → p m ≡ true → in_scope scope m ≡ true)
    → foreign scope (kept p o) ≡ foreign scope o
foreign-kept scope p none within = refl
foreign-kept scope p (some m) within = ground (arith, within m)

pub delete_where-Keeps :
    (scope : MemoryScope) (p : Memory → Bool) (t : Memories)
    → ((m : Memory) → p m ≡ true → in_scope scope m ≡ true)
    → IsTable t
    → Keeps scope t (delete_where p t)
delete_where-Keeps scope p t within table = (
  delete_where-IsTable p t table,
  λ j. ap (foreign scope) (get-delete_where p t table j) ∙ foreign-kept scope p (get j t) within,
)

foreign-put :
    (scope : MemoryScope) (k j : String) (m : Memory) (t : Memories)
    → in_scope scope m ≡ true
    → foreign scope (get k t) ≡ none
    → foreign scope (get j (put k m t)) ≡ foreign scope (get j t)
foreign-put scope k j m t inside own = ground (arith, get-put k j m t)

put-Keeps :
    (scope : MemoryScope) (k : String) (m : Memory) (t : Memories)
    → m.id ≡ k
    → in_scope scope m ≡ true
    → foreign scope (get k t) ≡ none
    → IsTable t
    → Keeps scope t (put k m t)
put-Keeps scope k m t named inside own table =
    (put-IsTable k m t named table, λ j. foreign-put scope k j m t inside own)

reclaimed-Keeps :
    (scope : MemoryScope) (t : Memories) (days now : ℕ)
    → IsTable t
    → Keeps scope t (reclaimed t scope days now)
unfolding reclaimed without_expired stale_in expired_row stale_row
reclaimed-Keeps scope t days now table =
    let left = without_expired t scope now in
    let first = delete_where-Keeps scope (expired_row scope now) t (λ m h. ground arith) table in
    Keeps-trans scope t left (reclaimed t scope days now) first
      (delete_where-Keeps scope (stale_in left scope days now) left (λ m h. ground arith) first.0)

Keeps-if :
    {A : Type 0} (scope : MemoryScope) (b : Bool) (t : Memories) (x y : A × Memories)
    → (b ≡ true → Keeps scope t x.1)
    → Keeps scope t y.1
    → Keeps scope t (if b then x else y).1
Keeps-if scope true t x y left right = left refl
Keeps-if scope false t x y left right = right

evict-Keeps :
    (scope : MemoryScope) (limit : ℕ) (t : Memories)
    → IsTable t
    → Keeps scope t (evict scope limit t).1
unfolding evict surplus_row
evict-Keeps scope limit t table =
    Keeps-if scope (nat_eq limit 0) t (0, t)
      (_, delete_where (surplus_row scope (kept_ids scope limit t)) t)
      (λ _. Keeps-refl scope t table)
      (delete_where-Keeps scope (surplus_row scope (kept_ids scope limit t)) t (λ m h. ground arith)
        table)

pub compact_memories-Keeps :
    (scope : MemoryScope) (retention : Retention) (t : Memories) (now : ℕ)
    → IsTable t
    → Keeps scope t (compact_memories t scope retention now).1
unfolding compact_memories
compact_memories-Keeps scope retention t now table =
    let rest = reclaimed t scope retention.max_age_days now in
    let first = reclaimed-Keeps scope t retention.max_age_days now table in
    Keeps-trans scope t rest (compact_memories t scope retention now).1 first
      (evict-Keeps scope retention.max_per_scope rest first.0)

pub in_scope-own : (m : Memory) → in_scope m.scope m ≡ true
unfolding in_scope
in_scope-own m = ground arith

upserted-Keeps :
    (t : Memories) (m : Memory) (old : Option Memory)
    → foreign m.scope (get m.id t) ≡ none
    → IsTable t
    → Keeps m.scope t (put m.id (upserted old m) t)
unfolding upserted
upserted-Keeps t m none own table = put-Keeps m.scope m.id m t refl (in_scope-own m) own table
upserted-Keeps t m (some w) own table =
    let row = record m { created_at = w.created_at } in
    put-Keeps m.scope m.id row t refl (in_scope-own row) own table

pub put_memory-Keeps :
    (t : Memories) (m : Memory)
    → foreign m.scope (get m.id t) ≡ none
    → IsTable t
    → Keeps m.scope t (put_memory t m)
unfolding put_memory
put_memory-Keeps t m own table = upserted-Keeps t m (get m.id t) own table

foreign-own :
    (scope : MemoryScope) (k : String) (t : Memories) (m : Memory)
    → get k t ≡ some m
    → in_scope scope m ≡ true
    → foreign scope (get k t) ≡ none
foreign-own scope k t m found inside = ground arith

superseded-in_scope :
    (scope : MemoryScope) (by : String) (now : ℕ) (m : Memory)
    → in_scope scope m ≡ true
    → in_scope scope (superseded by now m) ≡ true
unfolding superseded in_scope
superseded-in_scope scope by now m inside = inside

superseded-id : (by : String) (now : ℕ) (m : Memory) → (superseded by now m).id ≡ m.id
unfolding superseded
superseded-id by now m = refl

&&-left : (a b : Bool) → (a && b) ≡ true → a ≡ true
&&-left a b h = ground arith

pub supersede_row-Keeps :
    (scope : MemoryScope) (id by : String) (now : ℕ) (t : Memories) (row : Option Memory)
    → get id t ≡ row
    → IsTable t
    → Keeps scope t (supersede_row id scope by now t row).1
unfolding supersede_row
supersede_row-Keeps scope id by now t none found table = Keeps-refl scope t table
supersede_row-Keeps scope id by now t (some m) found table =
    Keeps-if scope (in_scope scope m && is_live m) t (true, put id (superseded by now m) t)
      (false, t)
      (λ both.
        let inside = &&-left (in_scope scope m) (is_live m) both in
        put-Keeps scope id (superseded by now m) t
          (superseded-id by now m ∙ get-IsTable t id m table found)
          (superseded-in_scope scope by now m inside) (foreign-own scope id t m found inside) table)
      (Keeps-refl scope t table)

pub delete_memory-Keeps :
    (t : Memories) (id : String) (scope : MemoryScope)
    → IsTable t
    → Keeps scope t (delete_memory t id scope).1
unfolding delete_memory row_is
delete_memory-Keeps t id scope table =
    delete_where-Keeps scope (row_is id scope) t (λ m h. ground arith) table
