-- ===== src/Workflow/TaskShape/Leases.antt =====
-- Every method that a worker calls keeps each stored task in shape
-- (packages/database/src/control-plane.ts).
use Prim.Native.String.{String}
use page2web_mcp.Common.{
  ℕ, ◌≡◌, Bool, true, false, Option, none, some, arith, leb, head?, All-head?,
}
use page2web_mcp.Common.Dict.{values}
use page2web_mcp.Common.Sort.{All-sort}
use page2web_mcp.Common.Throwing.Keeps.{Keeps, Keeps-bind, Keeps-bind_gets, Keeps-when_some}
use page2web_mcp.Workflow.Phases.{Phase}
use page2web_mcp.Workflow.Types.{Run, Task, Payload, Repository, Env}
use page2web_mcp.Workflow.Store.{assert_idempotency_key}
use page2web_mcp.Workflow.Claim.{
  claim_task, take, candidates, is_candidate, claims_before, active_in,
}
use page2web_mcp.Workflow.Worker.{
  CompleteInput, FailInput, WaitInput, advance, report_failure, heartbeat_task, complete_task,
  fail_task, wait_task,
}
use page2web_mcp.Workflow.SideEffects.{SideEffectEvent, record_task_event}
use page2web_mcp.Workflow.TaskShape.{IsWellShaped, leased-IsWellShaped}
use page2web_mcp.Workflow.TaskShape.Rules.{
  AreShaped, stored-IsWellShaped, with_claim-AreShaped, claimable,
}
use page2web_mcp.Workflow.TaskShape.Checks.{assert_worker_id-AreShaped, parts}

module _ (E : Env) (now : ℕ) where
  pub advance-AreShaped :
      (run project : String) (p : Phase) (hash : String) (next : Option Phase)
      → Keeps AreShaped (advance E now run project p hash next)
  unfolding advance
  advance-AreShaped run project p hash none = search parts depth 10
  advance-AreShaped run project p hash (some next) = search parts depth 10

  pub report_failure-AreShaped :
      (final : Bool) (r : Run) (task code : String)
      → Keeps AreShaped (report_failure E now final r task code)
  unfolding report_failure
  report_failure-AreShaped true r task code = search parts depth 10
  report_failure-AreShaped false r task code = search parts depth 10

  pub heartbeat-AreShaped :
      (worker id : String) (g : ℕ) → Keeps AreShaped (heartbeat_task E now worker id g)
  unfolding heartbeat_task
  heartbeat-AreShaped worker id g = search parts depth 12

  pub record_task_event-AreShaped :
      (worker id : String) (g : ℕ) (t : SideEffectEvent) (p : Payload)
      → Keeps AreShaped (record_task_event E now worker id g t p)
  unfolding record_task_event
  record_task_event-AreShaped worker id g t p = search parts depth 12

  pub complete-AreShaped :
      (worker id : String) (g : ℕ) (i : CompleteInput)
      → Keeps AreShaped (complete_task E now worker id g i)
  unfolding complete_task
  complete-AreShaped worker id g i = search (parts, advance-AreShaped) depth 24

  pub fail-AreShaped :
      (draw : ℕ) (worker id : String) (g : ℕ) (i : FailInput)
      → Keeps AreShaped (fail_task E now draw worker id g i)
  unfolding fail_task
  fail-AreShaped draw worker id g i = search (parts, report_failure-AreShaped) depth 24

  pub wait-AreShaped :
      (worker id : String) (g : ℕ) (i : WaitInput) → Keeps AreShaped (wait_task E now worker id g i)
  unfolding wait_task assert_idempotency_key
  wait-AreShaped worker id g i = search parts depth 24

  -- A candidate has an attempt left.
  spare :
      (s : Repository) (t : Task)
      → is_candidate E now (active_in now s) s t ≡ true
      → leb t.max_attempts t.attempts ≡ false
  unfolding is_candidate
  spare s t e = ground arith

  -- A candidate is a stored task with an attempt left.
  abbrev IsClaimable : Task → Type 0
  IsClaimable t = IsWellShaped t × (leb t.max_attempts t.attempts ≡ false)

  pub candidates-IsClaimable :
      (s : Repository)
      → AreShaped s
      → (t : Task) → head? (candidates E now s) ≡ some t
      → IsClaimable t
  unfolding candidates
  candidates-IsClaimable s h t e = All-head? IsClaimable (candidates E now s) e (
      All-sort (claims_before s) IsClaimable _ (
        claimable (is_candidate E now (active_in now s) s) (values s.tasks) (λ t c. spare s t c)
          (stored-IsWellShaped s h)))

  pub claim-AreShaped : (worker : String) → Keeps AreShaped (claim_task E now worker)
  unfolding claim_task take
  claim-AreShaped worker = Keeps-bind _ _ (assert_worker_id-AreShaped E now worker) λ _.
      Keeps-bind_gets (λ o. (t : Task) → o ≡ some t → IsClaimable t) _ _ candidates-IsClaimable
        λ found claimable. Keeps-when_some _ _ _ λ t e.
          Keeps-bind _ _
            (with_claim-AreShaped _
              (leased-IsWellShaped now t (claimable t e).0 worker (claimable t e).1))
            λ _. search parts depth 10
