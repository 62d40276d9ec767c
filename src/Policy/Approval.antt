-- ===== src/Policy/Approval.antt =====
-- `validateApproval` of packages/policy-core/src/index.ts.
use atlas_mcp.Prelude.{
  ℕ, ◌<◌, ◌≡◌, ◌↔◌, Option, none, some, ◌==◌, leb, not, if◌then◌else◌, Result, ok, err, arith,
}
use atlas_mcp.Protocol.Effect.{ApprovalChallenge, ApprovalResponse}
use atlas_mcp.Protocol.Failure.{
  Failure, approval_required, approval_id_mismatch, approval_phrase_mismatch, approval_expired,
}

unfoldable pub check_response : ApprovalChallenge → ApprovalResponse → ℕ → Result Failure (Unit {0})
check_response c r now =
    if not (c.approval_id == r.approval_id)
    then err approval_id_mismatch
    else if not (c.phrase == r.phrase)
    then err approval_phrase_mismatch
    else if leb c.expires_at now
    then err approval_expired
    else ok tt

-- `validateApproval`, at the time `now`
unfoldable pub validate_approval :
    Option ApprovalChallenge → Option ApprovalResponse → ℕ → Result Failure (Unit {0})
validate_approval none r now = err approval_required
validate_approval (some c) none now = err approval_required
validate_approval (some c) (some r) now = check_response c r now

-- An approval is valid exactly when it answers a challenge with its id and its phrase, before the
-- challenge expires.
pub validate_approval_iff :
    (c : ApprovalChallenge) (r : ApprovalResponse) (now : ℕ)
    → (validate_approval (some c) (some r) now ≡ ok tt)
      ↔ ((c.approval_id ≡ r.approval_id) × (c.phrase ≡ r.phrase) × (now < c.expires_at))
unfolding validate_approval check_response
validate_approval_iff c r now = ground arith
