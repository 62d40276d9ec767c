-- ===== src/Memory/Prepared.antt =====
-- What a put of `LocalMemory.execute` has checked before it stores its record.
use atlas_mcp.Prelude.{
  ℕ, String, ◌≡◌, refl, sym, ◌∙◌, ap, subst, Bool, true, false, not, ◌&&◌, Option, none, some, get,
  ◌==◌, or_else, ok, OnOk, OnOk-then, guard-eq-ok, require, arith,
}
use atlas_mcp.Protocol.Operation.{MemoryScope, MemoryOperation}
use atlas_mcp.Memory.Table.{Memory, Memories, in_scope, is_live, upserted, get_memory}
use atlas_mcp.Memory.Execute.{
  MemorySetup, prepare_put, new_memory, look_up, check_existing, check_target, aimed_row,
  created_at_of, same_id,
}

-- The record `target` that a prepared put supersedes is stored, of the same scope, and not the
-- record put.
abbrev pub Aims : Memories → Memory → Type 0
Aims t m =
    (target : String)
    → m.supersedes_id ≡ some target
    → (old : Memory) × (get target t ≡ some old)
      × (in_scope m.scope old ≡ true)
      × ((m.id == target) ≡ false)

-- A prepared record: an upsert leaves it as it is, it is live, and what it supersedes can be.
abbrev pub Ready : Memories → Memory → Type 0
Ready t m = (upserted (get m.id t) m ≡ m) × (is_live m ≡ true) × Aims t m

upserted-created :
    (now : ℕ) (m : Memory) (old : Option Memory)
    → m.created_at ≡ created_at_of now old
    → upserted old m ≡ m
unfolding upserted created_at_of
upserted-created now m none e = refl
upserted-created now m (some w) e = ap (λ c. record m { created_at = c }) (sym e)

look_up-get :
    (setup : MemorySetup) (t : Memories) (id : Option String)
    → get setup.drawn_id t ≡ none
    → look_up t id ≡ get (or_else id setup.drawn_id) t
unfolding look_up get_memory
look_up-get setup t none free = sym free
look_up-get setup t (some id) free = refl

apart-of :
    (setup : MemorySetup) (t : Memories) (id : Option String) (target : String) (old : Memory)
    → get setup.drawn_id t ≡ none
    → get target t ≡ some old
    → same_id id target ≡ false
    → (or_else id setup.drawn_id == target) ≡ false
unfolding same_id
apart-of setup t none target old free found other = ground arith
apart-of setup t (some i) target old free found other = ground arith

&&-true : (a b : Bool) → (a && b) ≡ true → (a ≡ true) × (b ≡ true)
&&-true true true h = (refl, refl)
&&-true true false h = cc
&&-true false b h = cc

not-true : (b : Bool) → not b ≡ true → b ≡ false
not-true true h = cc
not-true false h = refl

aimed_row-ok :
    (scope : MemoryScope) (same : Bool) (row : Option Memory)
    → aimed_row scope same row ≡ ok tt
    → (old : Memory) × (row ≡ some old) × (in_scope scope old ≡ true) × (same ≡ false)
unfolding aimed_row
aimed_row-ok scope same none passed = cc
aimed_row-ok scope same (some m) passed =
    let both = &&-true (in_scope scope m) (not same) (guard-eq-ok _ _ passed) in
    (m, refl, both.0, not-true same both.1)

check_target-Aims :
    (setup : MemorySetup) (t : Memories) (m : Memory) (id : Option String)
    → get setup.drawn_id t ≡ none
    → m.id ≡ or_else id setup.drawn_id
    → check_target t m.scope id m.supersedes_id ≡ ok tt
    → Aims t m
unfolding check_target get_memory
check_target-Aims setup t m id free named passed target e =
    let aimed =
      aimed_row-ok m.scope (same_id id target) (get target t)
        (subst (λ aim. check_target t m.scope id aim ≡ ok tt) e passed) in
    (
      aimed.0,
      aimed.1,
      aimed.2,
      ap (λ i. i == target) named ∙ apart-of setup t id target aimed.0 free aimed.1 aimed.3,
    )

pub prepare_put-Ready :
    (setup : MemorySetup) (o : MemoryOperation) (t : Memories)
    → get setup.drawn_id t ≡ none
    → OnOk (λ prepared. Ready t prepared.0) (prepare_put setup o t)
unfolding prepare_put new_memory is_live
prepare_put-Ready setup o t free = OnOk-then _ (require o.key _) _ λ key has_key.
    OnOk-then _ (require o.value _) _ λ value has_value.
      OnOk-then _ (check_existing o.scope (look_up t o.id)) _ λ u checked.
        OnOk-then _ (check_target t o.scope o.id o.supersedes_id) _ λ w aimed. (
          upserted-created setup.now (new_memory setup o key value (look_up t o.id))
              (get (or_else o.id setup.drawn_id) t)
              (ap (created_at_of setup.now) (look_up-get setup t o.id free)),
          refl,
          check_target-Aims setup t (new_memory setup o key value (look_up t o.id)) o.id free refl
              aimed,
        )
