-- ===== src/Workflow/Advance/Exclusive.antt =====
-- `leasedAdvance` of packages/runtime-core/src/workflow-controller.ts and the leases.
use atlas_mcp.Prelude.{
  ℕ, ◌+◌, ◌<◌, String, ◌≡◌, ◌≢◌, refl, Bool, true, false, some, List, get, get-delete, handle, err,
  arith, All,
}
use atlas_mcp.Protocol.Effect.{ApprovalResponse}
use atlas_mcp.Protocol.Failure.{workflow_lease_held}
use atlas_mcp.Protocol.Workflow.{Run}
use atlas_mcp.Store.Leases.{Leases, acquire, release, owned, held_by_other}
use atlas_mcp.Store.Leases.Exclusion.{LeaseCall, calls, IsRival, acquire-excludes}
use atlas_mcp.Store.Workflows.{WorkflowStore, get_run}
use atlas_mcp.Workflow.Transition.{Clock, status}
use atlas_mcp.Workflow.Advance.{TaskPort}
use atlas_mcp.Workflow.Advance.Node.{WorkflowInput}
use atlas_mcp.Workflow.Advance.Leased.{leased_advance, with_lease}

owned-release : (t : Leases) (id owner : String) → owned (get id (release t id owner)) owner ≡ false
unfolding release
owned-release t id owner = ground (arith, get-delete id id t)

owned-refused :
    (t : Leases) (id owner : String) (now expires : ℕ)
    → (acquire t id owner now expires).1 ≡ false
    → owned (get id (acquire t id owner now expires).0) owner ≡ false
unfolding acquire held_by_other
owned-refused t id owner now expires refused = ground arith

module _ {T : Type 0} (port : TaskPort T) (clock : Clock) (others : WorkflowStore → WorkflowStore)
    (approvals : List ApprovalResponse) (inputs : List WorkflowInput)
    (lease_others : Leases → Leases) where
  -- While another owner has the lease of a workflow, acquired until the time `expires`, and whatever
  -- the other owners try at earlier times, an advance of the stored run before that time is refused
  -- with `workflow_lease_held`: it runs no task and changes no table.
  pub leased_advance-excludes :
      (leases : Leases) (id owner other : String) (now expires at duration : ℕ)
      (cs : List LeaseCall) (s : WorkflowStore) (t : T) (run : Run)
      → get id s.runs ≡ some run
      → (acquire leases id owner now expires).1 ≡ true
      → All (IsRival owner expires) cs
      → other ≢ owner
      → at < expires
      → let held = calls (acquire leases id owner now expires).0 cs in
        leased_advance port clock others approvals inputs id other at duration lease_others s t held
        ≡ (((err workflow_lease_held, s), t), held)
  unfolding leased_advance status get_run handle with_lease
  leased_advance-excludes leases id owner other now expires at duration cs s t run found got rivals
        apart early =
      rw
        (
          found,
          acquire-excludes leases id owner other now expires at (at + duration) cs got rivals apart
              early,
        )
        refl

  with_lease-releases :
      (id owner : String) (now duration : ℕ) (s : WorkflowStore) (t : T) (leases : Leases)
      (attempt : Leases × Bool)
      → (attempt.1 ≡ false → owned (get id attempt.0) owner ≡ false)
      → owned
          (get id
            (with_lease port clock others approvals inputs id owner now duration lease_others s t
              leases attempt).1)
          owner
        ≡ false
  unfolding with_lease
  with_lease-releases id owner now duration s t leases (held, false) refused = refused refl
  with_lease-releases id owner now duration s t leases (held, true) refused =
      owned-release (lease_others held) id owner

  -- After an advance of a stored run, however it ended, its owner does not hold the lease.
  pub leased_advance-releases :
      (id owner : String) (now duration : ℕ) (s : WorkflowStore) (t : T) (leases : Leases)
      (run : Run)
      → get id s.runs ≡ some run
      → owned
          (get id
            (leased_advance port clock others approvals inputs id owner now duration lease_others s
              t leases).1)
          owner
        ≡ false
  unfolding leased_advance status get_run handle
  leased_advance-releases id owner now duration s t leases run found = rw found (
      with_lease-releases id owner now duration s t leases
        (acquire leases id owner now (now + duration))
        (owned-refused leases id owner now (now + duration)))
