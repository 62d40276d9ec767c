-- ===== src/Store/Leases/Exclusion.antt =====
-- Mutual exclusion by the leases of packages/storage-sqlite/src/index.ts.
use atlas_mcp.Prelude.{
  ℕ, ◌<◌, String, ◌≡◌, ◌≢◌, refl, true, false, Option, none, some, List, [], ◌∷◌, get, arith,
  get-put, get-delete, All, get-put_self, text_dec, get-put_ne,
}
use atlas_mcp.Store.Leases.{Lease, Leases, acquire, renew, release, held_by_other, extend}

-- What a process may ask of the table.
pub data LeaseCall : Type 0 where
  try_acquire : (id owner : String) (now expires : ℕ) → LeaseCall
  try_renew : (id owner : String) (expires : ℕ) → LeaseCall
  do_release : (id owner : String) → LeaseCall

unfoldable pub call : Leases → LeaseCall → Leases
call t (try_acquire id owner now expires) = (acquire t id owner now expires).0
call t (try_renew id owner expires) = (renew t id owner expires).0
call t (do_release id owner) = release t id owner

unfoldable pub calls : Leases → List LeaseCall → Leases
calls t [] = t
calls t (c ∷ cs) = calls (call t c) cs

-- A call by another owner, made before the time `until`.
abbrev pub IsRival : String → ℕ → LeaseCall → Type 0
IsRival owner until (try_acquire id other now expires) = (other ≢ owner) × (now < until)
IsRival owner until (try_renew id other expires) = other ≢ owner
IsRival owner until (do_release id other) = other ≢ owner

get-extend_ne :
    (t : Leases) (k id : String) (o : Option Lease) (expires : ℕ)
    → k ≢ id
    → get id (extend t k o expires) ≡ get id t
get-extend_ne t k id none expires h = refl
get-extend_ne t k id (some l) expires h = get-put_ne k id (record l { expires_at = expires }) t h

rival_keeps :
    (t : Leases) (id owner : String) (l : Lease) (c : LeaseCall)
    → get id t ≡ some l
    → l.owner ≡ owner
    → IsRival owner l.expires_at c
    → get id (call t c) ≡ some l
unfolding call acquire renew release held_by_other
rival_keeps t id owner l (try_acquire k other now expires) h o r =
    ground
      (arith, get-put k id (record { owner = other; acquired_at = now; expires_at = expires }) t)
rival_keeps t id owner l (try_renew k other expires) h o r = elim (text_dec k id) [
  | yes p ↦ ground arith
  | no p ↦ ground (arith, get-extend_ne t k id (get k t) expires p)
]
rival_keeps t id owner l (do_release k other) h o r = ground (arith, get-delete k id t)

rivals_keep :
    (t : Leases) (id owner : String) (l : Lease) (cs : List LeaseCall)
    → get id t ≡ some l
    → l.owner ≡ owner
    → All (IsRival owner l.expires_at) cs
    → get id (calls t cs) ≡ some l
unfolding calls
rivals_keep t id owner l [] h o r = h
rivals_keep t id owner l (c ∷ cs) h o (r, rs) =
    rivals_keep (call t c) id owner l cs (rival_keeps t id owner l c h o r) o rs

acquire-get :
    (t : Leases) (id owner : String) (now expires : ℕ)
    → (acquire t id owner now expires).1 ≡ true
    → get id (acquire t id owner now expires).0
      ≡ some (record { owner = owner; acquired_at = now; expires_at = expires })
unfolding acquire
acquire-get t id owner now expires h =
    ground
      (arith, get-put_self id (record { owner = owner; acquired_at = now; expires_at = expires }) t)

refused :
    (t : Leases) (id other : String) (l : Lease) (now expires : ℕ)
    → get id t ≡ some l
    → other ≢ l.owner
    → now < l.expires_at
    → acquire t id other now expires ≡ (t, false)
unfolding acquire held_by_other
refused t id other l now expires h o lt = ground arith

-- After an owner has acquired the lease of a workflow until the time `expires`, and whatever the
-- other owners then try at earlier times (acquire, renew or release, of this or other workflows),
-- an attempt of another owner to acquire it before that time is refused and changes nothing.
pub acquire-excludes :
    (t : Leases) (id owner other : String) (now expires at until : ℕ) (cs : List LeaseCall)
    → (acquire t id owner now expires).1 ≡ true
    → All (IsRival owner expires) cs
    → other ≢ owner
    → at < expires
    → let t' = calls (acquire t id owner now expires).0 cs in
      acquire t' id other at until ≡ (t', false)
acquire-excludes t id owner other now expires at until cs got rivals ne early =
    let l : Lease = record { owner = owner; acquired_at = now; expires_at = expires } in
    refused _ id other l at until
      (rivals_keep _ id owner l cs (acquire-get t id owner now expires got) refl rivals) ne early
