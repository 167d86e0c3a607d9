-- ===== src/Workflow/Calls.antt =====
-- Calls of the workflow methods and histories of them. A call that throws leaves what it wrote.
use page2web_mcp.Common.{ℕ, String, List, [], ◌∷◌}
use page2web_mcp.Workflow.Types.{Actor, Payload, Repository, Env}
use page2web_mcp.Workflow.Claim.{claim_task}
use page2web_mcp.Workflow.Worker.{
  CompleteInput, FailInput, WaitInput, heartbeat_task, complete_task, fail_task, wait_task,
}
use page2web_mcp.Workflow.SideEffects.{SideEffectEvent, record_task_event}
use page2web_mcp.Workflow.Owner.{
  RunInput, ResumeInput, CancelInput, create_run, resume_task, cancel_workflow,
}
use page2web_mcp.Workflow.Reconcile.{reconcile}

-- What a worker calls with a worker id, a task id and a lease generation.
pub data Leased : Type 0 where
  heartbeat : Leased
  report : SideEffectEvent → Payload → Leased
  complete : CompleteInput → Leased
  fail : ℕ → FailInput → Leased
  wait : WaitInput → Leased

pub data Call : Type 0 where
  creates : RunInput → Call
  claims : String → Call
  works : String → String → ℕ → Leased → Call
  resumes : Actor → ResumeInput → Call
  cancels : Actor → CancelInput → Call
  reconciles : String → Call

module _ (E : Env) where
  -- The tables after a call under the lease.
  unfoldable pub work : ℕ → String → String → ℕ → Leased → Repository → Repository
  work now worker id g heartbeat s = (heartbeat_task E now worker id g s).1
  work now worker id g (report type payload) s =
      (record_task_event E now worker id g type payload s).1
  work now worker id g (complete i) s = (complete_task E now worker id g i s).1
  work now worker id g (fail draw i) s = (fail_task E now draw worker id g i s).1
  work now worker id g (wait i) s = (wait_task E now worker id g i s).1

  -- The tables after a call at a time.
  unfoldable pub step : ℕ × Call → Repository → Repository
  unfolding work
  step (now, creates i) s = (create_run E now i s).1
  step (now, claims worker) s = (claim_task E now worker s).1
  step (now, works worker id g c) s = work now worker id g c s
  step (now, resumes actor i) s = (resume_task E now actor i s).1
  step (now, cancels actor i) s = (cancel_workflow E now actor i s).1
  step (now, reconciles worker) s = (reconcile E now worker s).1

  unfoldable pub steps : List (ℕ × Call) → Repository → Repository
  steps [] s = s
  steps (c ∷ cs) s = steps cs (step c s)

  -- What holds at the start and survives each call holds after every history.
  pub steps_induction :
      (P : Repository → Type 0)
      → ((c : ℕ × Call) (s : Repository) → P s → P (step c s))
      → (cs : List (ℕ × Call)) (s : Repository) → P s
      → P (steps cs s)
  unfolding steps
  steps_induction P keep [] s h = h
  steps_induction P keep (c ∷ cs) s h = steps_induction P keep cs (step c s) (keep c s h)

-- The tables before the first call.
abbrev pub empty_repository : Repository
empty_repository = record {
  projects = [];
  analyses = [];
  analysis_available_at = [];
  checkpoints = [];
  runs = [];
  tasks = [];
  events = [];
  completions = [];
  failures = [];
  resumes = [];
  cancels = [];
  wait_tokens = [];
  claim_order = [];
  claim_sequence = 0;
  uuids = 0;
}
