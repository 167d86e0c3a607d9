-- ===== src/Workflow/TaskShape/History.antt =====
-- The shape of the stored tasks through histories of calls
-- (packages/database/src/control-plane.ts).
use Prim.Native.String.{String}
use page2web_mcp.Common.{ℕ, List}
use page2web_mcp.Workflow.Types.{Repository, Env}
use page2web_mcp.Workflow.Calls.{
  Leased, heartbeat, report, complete, fail, wait, Call, creates, claims, works, resumes, cancels,
  reconciles, work, step, steps, steps_induction, empty_repository,
}
use page2web_mcp.Workflow.TaskShape.Rules.{AreShaped}
use page2web_mcp.Workflow.TaskShape.Leases.{
  heartbeat-AreShaped, record_task_event-AreShaped, complete-AreShaped, fail-AreShaped,
  wait-AreShaped, claim-AreShaped,
}
use page2web_mcp.Workflow.TaskShape.Owners.{
  resume-AreShaped, cancel-AreShaped, create_run-AreShaped, reconcile-AreShaped,
}

module _ (E : Env) (now : ℕ) where
  work-AreShaped :
      (worker id : String) (g : ℕ) (c : Leased) (s : Repository)
      → AreShaped s
      → AreShaped (work E now worker id g c s)
  unfolding work
  work-AreShaped worker id g heartbeat s h = (heartbeat-AreShaped E now worker id g).at s h
  work-AreShaped worker id g (report t p) s h =
      (record_task_event-AreShaped E now worker id g t p).at s h
  work-AreShaped worker id g (complete i) s h = (complete-AreShaped E now worker id g i).at s h
  work-AreShaped worker id g (fail draw i) s h = (fail-AreShaped E now draw worker id g i).at s h
  work-AreShaped worker id g (wait i) s h = (wait-AreShaped E now worker id g i).at s h

pub step-AreShaped :
    (E : Env) (c : ℕ × Call) (s : Repository) → AreShaped s → AreShaped (step E c s)
unfolding step
step-AreShaped E (now, creates i) s h = (create_run-AreShaped E now i).at s h
step-AreShaped E (now, claims worker) s h = (claim-AreShaped E now worker).at s h
step-AreShaped E (now, works worker id g c) s h = work-AreShaped E now worker id g c s h
step-AreShaped E (now, resumes a i) s h = (resume-AreShaped E now a i).at s h
step-AreShaped E (now, cancels a i) s h = (cancel-AreShaped E now a i).at s h
step-AreShaped E (now, reconciles worker) s h = (reconcile-AreShaped E now worker).at s h

-- After any history of these calls alone, from empty tables (creating a run, claiming a task, the
-- five calls of a leased worker, resuming, cancelling and reconciling, and so without
-- `claimAnalysis`, which writes tasks as well), at whatever times and with whatever results, each
-- stored task stands under its own id, has a budget of 3 attempts and no more attempts than that, has a lease
-- generation that counts its attempts, and has a lease owner and a lease deadline exactly while
-- it runs.
pub steps-AreShaped : (E : Env) (cs : List (ℕ × Call)) → AreShaped (steps E cs empty_repository)
steps-AreShaped E cs =
    steps_induction E AreShaped (step-AreShaped E) cs empty_repository (record { each = tt })
