-- ===== src/Workflow/TaskShape/Checks.antt =====
-- How the private methods and checks of `InMemoryControlPlaneRepository` keep each stored task in
-- shape (packages/database/src/control-plane.ts).
use Prim.Native.String.{String}
use page2web_mcp.Common.{ℕ, ◌≡◌, Option, some, All-find, ◌>>=◌}
use page2web_mcp.Common.Dict.{Dict, values}
use page2web_mcp.Common.Throwing.Keeps.{
  Keeps, Keeps-bind, Keeps-bind_with, Keeps-or_run, keeps_rules, Returns, Returns-pure,
  Returns-or_run, Returns-bind, Returns-bind_gets,
}
use page2web_mcp.Workflow.Phases.{Phase}
use page2web_mcp.Workflow.Types.{Run, Task, Actor, Command, ProjectStatus, Repository, Env}
use page2web_mcp.Workflow.Store.{
  Method, assert_worker_id, validate_reference, workflow_task, run_for_actor, create_task,
  command_replay, assert_lease, is_task_of,
}
use page2web_mcp.Workflow.Store.Results.{
  workflow_task_state, assert_lease_state, command_replay_state, validate_reference_state,
  run_for_actor_state, assert_worker_id_state,
}
use page2web_mcp.Workflow.Worker.{update_project}
use page2web_mcp.Workflow.TaskShape.{
  IsShaped, IsWellShaped, leased-IsWellShaped, heartbeat-IsWellShaped, completed-IsWellShaped,
  failed-IsWellShaped, waiting-IsWellShaped, resumed-IsWellShaped, cancelled-IsWellShaped,
  recovered-IsWellShaped, expired-IsWellShaped, reconciled-IsWellShaped,
}
use page2web_mcp.Workflow.TaskShape.Rules.{
  AreShaped, AreShaped-frame, AreShaped-modify, self-IsWellShaped, holds_lease-running,
  stored-IsWellShaped, store_task-AreShaped, append_event-AreShaped, update_run-AreShaped,
  random_uuid-AreShaped, shape_rules, close_checkpoint-tasks, cancel_analysis-tasks,
  bind-workflow_task, bind-assert_lease, new-IsWellShaped, with_claim-AreShaped, waits_for-parked,
  claimable, parked_task, sum_each-AreShaped, bind-stored_tasks,
}

module _ (E : Env) (now : ℕ) where
  pub create_task-AreShaped :
      (r : Run) (p : Phase) (hash : String) → Keeps AreShaped (create_task E now r p hash)
  unfolding create_task
  create_task-AreShaped r p hash = Keeps-bind _ _ (search keeps_rules) λ normalized.
      Keeps-bind _ _ (search keeps_rules) λ existing. Keeps-or_run _ _ (
        Keeps-bind _ _ (search shape_rules) λ id. Keeps-bind _ _ (search shape_rules) λ key.
          Keeps-bind _ _ (store_task-AreShaped _ (new-IsWellShaped E now id r p key normalized))
            λ _. search shape_rules)

  -- The task that is found or made is in shape.
  pub create_task-Returns :
      (r : Run) (p : Phase) (hash : String)
      → Returns AreShaped IsWellShaped (create_task E now r p hash)
  unfolding create_task
  create_task-Returns r p hash = Returns-bind _ _ (search keeps_rules) λ normalized.
      Returns-bind_gets (λ o. (t : Task) → o ≡ some t → IsWellShaped t) _ _
        (λ s h t e.
          All-find IsWellShaped (is_task_of E r.id p) (values s.tasks) e (stored-IsWellShaped s h))
        λ existing found. Returns-or_run _ _ found (
          Returns-bind _ _ (search shape_rules) λ id. Returns-bind _ _ (search shape_rules) λ key.
            let i = new-IsWellShaped E now id r p key normalized in
            Returns-bind _ _ (store_task-AreShaped _ i)
              λ _. Returns-bind _ _ (search shape_rules) λ _. Returns-pure _ i)

  pub bind-create_task :
      {B : Type 0} (r : Run) (p : Phase) (hash : String) (f : Task → Method B)
      → ((t : Task) → IsWellShaped t → Keeps AreShaped (f t))
      → Keeps AreShaped (create_task E now r p hash >>= f)
  bind-create_task r p hash f k =
      Keeps-bind_with IsWellShaped (create_task E now r p hash) f (create_task-AreShaped r p hash)
        (create_task-Returns r p hash).at k

  pub command_replay-AreShaped :
      {A : Type 0} (c : Repository → Dict (Command A)) (scope key hash : String)
      → Keeps AreShaped (command_replay E c scope key hash)
  command_replay-AreShaped c scope key hash = record {
    at = λ s h. rw (command_replay_state E c scope key hash s) h;
  }

  pub validate_reference-AreShaped : (r : Option String) → Keeps AreShaped (validate_reference r)
  validate_reference-AreShaped r = record { at = λ s h. rw (validate_reference_state r s) h }

  pub run_for_actor-AreShaped : (a : Actor) (id : String) → Keeps AreShaped (run_for_actor a id)
  run_for_actor-AreShaped a id = record { at = λ s h. rw (run_for_actor_state a id s) h }

  pub assert_worker_id-AreShaped : (worker : String) → Keeps AreShaped (assert_worker_id worker)
  assert_worker_id-AreShaped worker = record { at = λ s h. rw (assert_worker_id_state worker s) h }

  pub workflow_task-AreShaped : (id : String) → Keeps AreShaped (workflow_task id)
  workflow_task-AreShaped id = record { at = λ s h. rw (workflow_task_state id s) h }

  pub assert_lease-AreShaped :
      (worker : String) (t : Task) (g : ℕ) → Keeps AreShaped (assert_lease now worker t g)
  assert_lease-AreShaped worker t g = record {
    at = λ s h. rw (assert_lease_state now worker t g s) h;
  }

  pub update_project-AreShaped :
      (id : String) (status : ProjectStatus) → Keeps AreShaped (update_project id status)
  unfolding update_project
  update_project-AreShaped id status = search shape_rules

pub ruleset parts = (
  bind-workflow_task, bind-assert_lease, shape_rules, create_task-AreShaped,
  command_replay-AreShaped, validate_reference-AreShaped, run_for_actor-AreShaped,
  assert_worker_id-AreShaped, workflow_task-AreShaped, assert_lease-AreShaped,
  update_project-AreShaped, heartbeat-IsWellShaped, completed-IsWellShaped, failed-IsWellShaped,
  waiting-IsWellShaped, cancelled-IsWellShaped, recovered-IsWellShaped, expired-IsWellShaped,
  reconciled-IsWellShaped,
)
