-- ===== src/Memory/Rows.antt =====
-- The primary key of the table `memories`, and what each statement does to the row of an id.
use atlas_mcp.Prelude.{
  String, ◌≡◌, refl, Bool, true, false, not, Option, none, some, [], ◌∷◌, get, put, get-put, ◌==◌,
  if◌then◌else◌, arith,
}
use atlas_mcp.Memory.Table.{Memory, Memories, delete_where}

-- Every row stands under its id, and no id stands twice.
abbrev pub IsTable : Memories → Type 0
IsTable [] = Unit
IsTable ((k, m) ∷ t) = (m.id ≡ k) × (get k t ≡ none) × IsTable t

-- The row of an id after a deletion.
abbrev pub kept : (Memory → Bool) → Option Memory → Option Memory
kept p none = none
kept p (some m) = if p m then none else some m

pub get-delete_where :
    (p : Memory → Bool) (t : Memories)
    → IsTable t
    → (j : String) → get j (delete_where p t) ≡ kept p (get j t)
unfolding get delete_where
get-delete_where p [] table j = refl
get-delete_where p ((k, m) ∷ t) (named, fresh, table) j =
    ground (arith, get-delete_where p t table j)

missing-delete_where :
    (p : Memory → Bool) (t : Memories) (k : String)
    → get k t ≡ none
    → get k (delete_where p t) ≡ none
unfolding get delete_where
missing-delete_where p [] k fresh = refl
missing-delete_where p ((i, m) ∷ t) k fresh = ground (arith, missing-delete_where p t k)

IsTable-if :
    (b : Bool) (s t : Memories)
    → (b ≡ true → IsTable s)
    → (b ≡ false → IsTable t)
    → IsTable (if b then s else t)
IsTable-if true s t whole rest = whole refl
IsTable-if false s t whole rest = rest refl

pub delete_where-IsTable :
    (p : Memory → Bool) (t : Memories) → IsTable t → IsTable (delete_where p t)
unfolding delete_where
delete_where-IsTable p [] table = tt
delete_where-IsTable p ((k, m) ∷ t) (named, fresh, table) =
    let rest = delete_where-IsTable p t table in
    let free = missing-delete_where p t k fresh in
    IsTable-if (not (p m)) ((k, m) ∷ delete_where p t) (delete_where p t) (λ _. (named, free, rest))
      (λ _. rest)

get-put_fresh :
    (k i : String) (m : Memory) (t : Memories)
    → get i t ≡ none
    → (i == k) ≡ false
    → get i (put k m t) ≡ none
get-put_fresh k i m t fresh apart = ground (arith, get-put k i m t)

get-fresh_eq : (k i : String) (t : Memories) → get i t ≡ none → (i == k) ≡ true → get k t ≡ none
get-fresh_eq k i t fresh same = ground arith

pub put-IsTable :
    (k : String) (m : Memory) (t : Memories) → m.id ≡ k → IsTable t → IsTable (put k m t)
unfolding put get
put-IsTable k m [] named table = (named, refl, tt)
put-IsTable k m ((i, w) ∷ t) named (own, fresh, table) =
    IsTable-if (i == k) ((k, m) ∷ t) ((i, w) ∷ put k m t)
      (λ same. (named, get-fresh_eq k i t fresh same, table))
      (λ apart. (own, get-put_fresh k i m t fresh apart, put-IsTable k m t named table))

pub get-IsTable : (t : Memories) (k : String) (m : Memory) → IsTable t → get k t ≡ some m → m.id ≡ k
unfolding get
get-IsTable [] k m table found = cc
get-IsTable ((i, w) ∷ t) k m (own, fresh, table) found = ground (arith, get-IsTable t k m table)
