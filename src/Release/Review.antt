-- ===== src/Release/Review.antt =====
-- `reviewCapability` (packages/database/src/control-plane.ts).
pub mod Evidence
pub mod Approval
use text.Mathlib.Text.{◌==◌ as str_eq}
use page2web_mcp.Common.{
  ℕ, ◌+◌, String, Bool, true, false, not, ◌&&◌, ◌||◌, Option, none, some, List, [], ◌∷◌, ◌==◌,
  if◌then◌else◌, pure, gets, or_raise, raise_if, modify, ◌>>=◌, ◌>>◌,
}
use page2web_mcp.Common.Dict.{get, set}
use page2web_mcp.Workflow.Types.{Actor, is_viewer}
use page2web_mcp.Workflow.Store.{◌^^◌}
use page2web_mcp.Release.Types.{
  forbidden, not_found, version_conflict, owner_approval_required, CapabilityStatus, reviewed,
  blocked, CapabilityRecord, ReleaseEnv, is_owner, is_r2,
}
use page2web_mcp.Release.Checks.{evidence_resolves, binding_valid}
use page2web_mcp.Release.Tables.{ReleaseMethod, gate, audit_event}

pub data ReviewAction : Type 0 where
  approve block reject : ReviewAction

abbrev pub is_approve : ReviewAction → Bool
is_approve approve = true
is_approve _ = false

abbrev pub action_name : ReviewAction → String
action_name approve = "approve"
action_name block = "block"
action_name reject = "reject"

-- The capability after the review.
abbrev pub reviewed_record : ReviewAction → CapabilityRecord → CapabilityRecord
reviewed_record action c = record c {
  status = if is_approve action then reviewed else blocked;
  reviewed_plan_digest = some c.plan_digest;
  version = c.version + 1;
}

module _ (E : ReleaseEnv) (now : ℕ) where
  -- What an approval asks of the run, its result and the capability's plan.
  unfoldable pub assert_approvable : CapabilityRecord → ReleaseMethod (Unit {0})
  unfolding evidence_resolves
  assert_approvable c = do
    found_run ← gets (λ s. get c.analysis_run_id s.analyses)
    run ← or_raise found_run (gate "CAPABILITY_PLAN_MISMATCH")
    found_result ← gets (λ s. get c.analysis_run_id s.results)
    evidence ← or_raise found_result (gate "CAPABILITY_PLAN_MISMATCH")
    raise_if (not (binding_valid E c)) (gate "CAPABILITY_PLAN_MISMATCH")
    raise_if (not (evidence_resolves E evidence (c.plan ∷ []) run now))
        (gate "EVIDENCE_MISSING_OR_EXPIRED")

  -- `reviewCapability`
  unfoldable pub review_capability :
      Actor → String → ReviewAction → ℕ → ReleaseMethod CapabilityRecord
  unfolding assert_approvable audit_event
  review_capability actor id action expected_version = do
    raise_if (is_viewer actor.role) forbidden
    found ← gets (λ s. get id s.capabilities)
    c ← or_raise found not_found
    raise_if (not (str_eq c.organization_id actor.organization_id)) not_found
    raise_if (not (c.version == expected_version)) version_conflict
    raise_if (is_approve action && is_r2 c.risk_tier && not (is_owner actor.role))
        owner_approval_required
    if is_approve action then assert_approvable c else pure tt
    let updated = reviewed_record action c
    modify (λ s. record s { capabilities = set updated.id updated s.capabilities })
    audit_event E now actor ("capability." ^^ action_name action) updated.id
    pure updated
