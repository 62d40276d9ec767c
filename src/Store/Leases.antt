-- ===== src/Store/Leases.antt =====
-- The lease table of packages/storage-sqlite/src/index.ts, by which processes share the advances of
-- workflows.
pub mod Exclusion
use atlas_mcp.Prelude.{
  ℕ, String, Bool, true, false, not, ◌&&◌, Option, none, some, List, [], ◌∷◌, Map, get, put, delete,
  ltb, ◌==◌, if◌then◌else◌,
}

pub record Lease : Type 0 where
  pub owner : String
  pub acquired_at : ℕ
  pub expires_at : ℕ

abbrev pub Leases : Type 0
Leases = Map Lease

-- Another owner has the row, and it has not expired.
unfoldable pub held_by_other : Option Lease → String → ℕ → Bool
held_by_other none owner now = false
held_by_other (some l) owner now = not (l.owner == owner) && ltb now l.expires_at

-- `acquireWorkflowLease`
unfoldable pub acquire : Leases → String → String → ℕ → ℕ → Leases × Bool
acquire t id owner now expires =
    if held_by_other (get id t) owner now
    then (t, false)
    else (put id (record { owner = owner; acquired_at = now; expires_at = expires }) t, true)

abbrev pub owned : Option Lease → String → Bool
owned none owner = false
owned (some l) owner = l.owner == owner

abbrev pub extend : Leases → String → Option Lease → ℕ → Leases
extend t id none expires = t
extend t id (some l) expires = put id (record l { expires_at = expires }) t

-- `renewWorkflowLease`: `UPDATE … WHERE workflow_id = ? AND owner = ?`
unfoldable pub renew : Leases → String → String → ℕ → Leases × Bool
renew t id owner expires =
    if owned (get id t) owner then (extend t id (get id t) expires, true) else (t, false)

-- `releaseWorkflowLease`: `DELETE … WHERE workflow_id = ? AND owner = ?`
unfoldable pub release : Leases → String → String → Leases
release t id owner = if owned (get id t) owner then delete id t else t
