-- ===== src/Workflow/TaskShape/Owners.antt =====
-- Creating, resuming, cancelling and reconciling workflow runs keeps each stored task in shape
-- (packages/database/src/control-plane.ts).
use Prim.Native.String.{String}
use page2web_mcp.Common.{
  ℕ, ◌≡◌, Bool, true, false, not, ◌&&◌, Option, none, some, none≢some, List, [], ◌∷◌, leb, filter,
  All, All-filter, All-trivial, modify, gets, raise_if, if◌then◌else◌, ◌>>=◌,
}
use page2web_mcp.Common.Dict.{get, values, Entries-get}
use page2web_mcp.Common.Throwing.Keeps.{
  Keeps, Keeps-bind, Keeps-bind_gets, Keeps-bind_raise_if, Keeps-when_some, keeps_rules,
}
use page2web_mcp.Workflow.Types.{
  RepositoryError, Run, Task, Actor, Analysis, Checkpoint, CheckpointState, Repository, Env,
  is_running, is_open,
}
use page2web_mcp.Workflow.Store.{Method}
use page2web_mcp.Workflow.Owner.{
  RunInput, ResumeInput, CancelInput, create_run, resume_task, cancel_tasks, analysis_of,
  cancel_analysis, cancel_workflow, waits_for, is_cancellable,
}
use page2web_mcp.Workflow.Reconcile.{
  expire, reconcile_checkpoint, recover, reconcile_lease, continue_run, reconcile_successor,
  reconcile, parked,
}
use page2web_mcp.Workflow.TaskShape.{
  IsShaped, IsWellShaped, resumed-IsWellShaped, cancelled-IsWellShaped,
}
use page2web_mcp.Workflow.TaskShape.Rules.{
  AreShaped, AreShaped-modify, self-IsWellShaped, stored-IsWellShaped, store_task-AreShaped,
  append_event-AreShaped, close_checkpoint-tasks, cancel_analysis-tasks, waits_for-parked,
  parked_task, sum_each-AreShaped, bind-stored_tasks,
}
use page2web_mcp.Workflow.TaskShape.Checks.{bind-create_task, assert_worker_id-AreShaped, parts}

module _ (E : Env) (now : ℕ) where
  pub bind-waits_for :
      {B : Type 0} (key : String) (t : Task) (x : RepositoryError) (f : Unit {0} → Method B)
      → (is_running t.status ≡ false → (u : Unit {0}) → Keeps AreShaped (f u))
      → Keeps AreShaped (raise_if (not (waits_for key t)) x >>= f)
  bind-waits_for key t x f k = Keeps-bind_raise_if _ _ f λ e. k (waits_for-parked key t e) tt

  pub resume-AreShaped : (a : Actor) (i : ResumeInput) → Keeps AreShaped (resume_task E now a i)
  unfolding resume_task
  resume-AreShaped a i = search (bind-waits_for, parts, resumed-IsWellShaped) depth 24

  pub cancel_tasks-AreShaped :
      (run : String) (ts : List Task)
      → All IsWellShaped ts
      → Keeps AreShaped (cancel_tasks E now run ts)
  unfolding cancel_tasks
  cancel_tasks-AreShaped run [] h = search parts
  cancel_tasks-AreShaped run (t ∷ ts) h =
      Keeps-bind _ _ (store_task-AreShaped _ (cancelled-IsWellShaped now t h.0)) λ _.
        Keeps-bind _ _ (append_event-AreShaped E now _ _ _ _ _)
          λ _. cancel_tasks-AreShaped run ts h.1

  pub cancel_analysis-AreShaped :
      (id : Option String)
      → Keeps {E = RepositoryError} AreShaped
          (modify (λ s. cancel_analysis now (analysis_of id s) s))
  cancel_analysis-AreShaped id =
      AreShaped-modify _ λ s. cancel_analysis-tasks now (analysis_of id s) s

  pub bind-cancellable :
      {B : Type 0} (run : String) (f : List Task → Method B)
      → ((ts : List Task) → All IsWellShaped ts → Keeps AreShaped (f ts))
      → Keeps AreShaped (gets (λ s. filter (is_cancellable run) (values s.tasks)) >>= f)
  bind-cancellable run f k =
      Keeps-bind_gets (All IsWellShaped) _ f
        (λ s h.
          All-filter IsWellShaped (is_cancellable run) (values s.tasks) (stored-IsWellShaped s h))
        k

  pub cancel-AreShaped : (a : Actor) (i : CancelInput) → Keeps AreShaped (cancel_workflow E now a i)
  unfolding cancel_workflow
  cancel-AreShaped a i =
      search (bind-cancellable, parts, cancel_tasks-AreShaped, cancel_analysis-AreShaped) depth 24

  pub create_run-AreShaped : (i : RunInput) → Keeps AreShaped (create_run E now i)
  unfolding create_run
  create_run-AreShaped i = search parts depth 14

  pub expire-AreShaped :
      (a : Analysis) (r : Run) (t : Task) → IsWellShaped t → Keeps AreShaped (expire E now a r t)
  unfolding expire
  expire-AreShaped a r t i =
      Keeps-bind _ _ (AreShaped-modify _ (close_checkpoint-tasks now a.id CheckpointState.expired))
        λ _. search parts depth 16

  pub parked-IsWellShaped :
      (c : Checkpoint) (s : Repository)
      → AreShaped s
      → (x : Analysis × Run × Task)
      → parked
          (get c.analysis_run_id s.analyses)
          (get c.analysis_run_id s.runs)
          (get c.workflow_task_id s.tasks)
        ≡ some x
      → IsWellShaped x.2
  parked-IsWellShaped c s h x e = self-IsWellShaped (
      Entries-get IsShaped c.workflow_task_id s.tasks
        (parked_task (get c.analysis_run_id s.analyses) (get c.analysis_run_id s.runs)
          (get c.workflow_task_id s.tasks) x e)
        h.each)

  pub reconcile_checkpoint-AreShaped :
      (c : Checkpoint) → Keeps AreShaped (reconcile_checkpoint E now c)
  unfolding reconcile_checkpoint
  reconcile_checkpoint-AreShaped c =
      Keeps-bind_gets (λ o. (x : Analysis × Run × Task) → o ≡ some x → IsWellShaped x.2) _ _
        (λ s h x e. expired_parked c s h x (is_open c.state && leb c.expires_at now) e)
        λ found shaped.
          Keeps-when_some found 0 _
            λ x e. Keeps-bind _ _ (expire-AreShaped x.0 x.1 x.2 (shaped x e)) λ _. search parts
    where
      expired_parked :
          (c : Checkpoint) (s : Repository)
          → AreShaped s
          → (x : Analysis × Run × Task) (b : Bool)
          → (if b
              then parked
                  (get c.analysis_run_id s.analyses)
                  (get c.analysis_run_id s.runs)
                  (get c.workflow_task_id s.tasks)
              else none)
            ≡ some x
          → IsWellShaped x.2
      expired_parked c s h x true e = parked-IsWellShaped c s h x e
      expired_parked c s h x false e = absurd (none≢some e)

  pub reconcile_lease-AreShaped :
      (t : Task) → IsWellShaped t → Keeps AreShaped (reconcile_lease E now t)
  unfolding reconcile_lease recover
  reconcile_lease-AreShaped t i = search parts depth 12

  pub reconcile_successor-AreShaped : (t : Task) → Keeps AreShaped (reconcile_successor E now t)
  unfolding reconcile_successor continue_run
  reconcile_successor-AreShaped t = search (bind-create_task, parts) depth 14

  pub reconcile-AreShaped : (worker : String) → Keeps AreShaped (reconcile E now worker)
  unfolding reconcile
  reconcile-AreShaped worker = Keeps-bind _ _ (assert_worker_id-AreShaped E now worker) λ _.
      Keeps-bind _ _ (search keeps_rules) λ checkpoints.
        Keeps-bind _ _
          (sum_each-AreShaped (λ _. Unit {0}) _ checkpoints
            (λ c _. reconcile_checkpoint-AreShaped c) (All-trivial checkpoints))
          λ expired. bind-stored_tasks _ λ running h.
            Keeps-bind _ _ (sum_each-AreShaped IsWellShaped _ running reconcile_lease-AreShaped h)
              λ recovered. Keeps-bind _ _ (search keeps_rules) λ finished.
                Keeps-bind _ _
                  (sum_each-AreShaped (λ _. Unit {0}) _ finished
                    (λ t _. reconcile_successor-AreShaped t) (All-trivial finished))
                  λ continued. search keeps_rules
