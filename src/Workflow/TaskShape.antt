-- ===== src/Workflow/TaskShape.antt =====
-- The shape of a stored task (packages/database/src/control-plane.ts): its key, its attempts and
-- its lease, and how each update of a task keeps it.
pub mod Rules
pub mod Checks
pub mod Leases
pub mod Owners
pub mod History
use page2web_mcp.Common.{
  ℕ, ◌≤◌, ◌≡◌, refl, String, Bool, true, false, Option, none, some, arith, is_some, leb, not, ◌||◌,
}
use page2web_mcp.Workflow.Types.{Task, is_running, Env}
use page2web_mcp.Workflow.Phases.{analysis, same_phase}
use page2web_mcp.Workflow.Retry.{workflow_max_attempts}
use page2web_mcp.Workflow.Store.{holds_lease, new_task}
use page2web_mcp.Workflow.Claim.{leased}
use page2web_mcp.Workflow.Worker.{
  CompleteInput, FailInput, completed_task, failed_task, waiting_task, heartbeat_of,
}
use page2web_mcp.Workflow.Owner.{resumed_task, cancelled_task}
use page2web_mcp.Workflow.Reconcile.{recovered_task, expired_task}

pub record IsShaped (k : String) (t : Task) : Type 0 where
  pub keyed : t.id ≡ k
  pub budget : t.max_attempts ≡ workflow_max_attempts
  pub within : t.attempts ≤ t.max_attempts
  pub fenced : t.lease_generation ≡ t.attempts
  pub owned : is_some t.lease_owner ≡ is_running t.status
  pub timed : is_some t.lease_expires_at ≡ is_running t.status

abbrev pub IsWellShaped : Task → Type 0
IsWellShaped t = IsShaped t.id t

module _ (now : ℕ) (t : Task) (h : IsWellShaped t) where
  pub leased-IsWellShaped :
      (worker : String) → leb t.max_attempts t.attempts ≡ false → IsWellShaped (leased now worker t)
  leased-IsWellShaped worker e = ground arith

  pub heartbeat-IsWellShaped : is_running t.status ≡ true → IsWellShaped (heartbeat_of now t)
  heartbeat-IsWellShaped e = ground arith

  pub completed-IsWellShaped :
      (i : CompleteInput) (hash : String) → IsWellShaped (completed_task now i hash t)
  completed-IsWellShaped i hash = ground arith

  pub failed-IsWellShaped : (draw : ℕ) (i : FailInput) → IsWellShaped (failed_task now draw i t)
  failed-IsWellShaped draw i = ground arith

  pub waiting-IsWellShaped :
      (key reason : String) (expiry : ℕ) → IsWellShaped (waiting_task now key reason expiry t)
  waiting-IsWellShaped key reason expiry = ground arith

  pub resumed-IsWellShaped : is_running t.status ≡ false → IsWellShaped (resumed_task now t)
  resumed-IsWellShaped e = ground arith

  pub cancelled-IsWellShaped : IsWellShaped (cancelled_task now t)
  cancelled-IsWellShaped = ground arith

  pub recovered-IsWellShaped : IsWellShaped (recovered_task now t)
  recovered-IsWellShaped = ground arith

  pub expired-IsWellShaped : IsWellShaped (expired_task now t)
  expired-IsWellShaped = ground arith

  pub reconciled-IsWellShaped : IsWellShaped (record t { reconciled_at = some now })
  reconciled-IsWellShaped = ground arith
