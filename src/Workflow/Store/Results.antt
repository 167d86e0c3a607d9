-- ===== src/Workflow/Store/Results.antt =====
-- What the checks of `InMemoryControlPlaneRepository` tell once they have passed; none of them
-- writes (packages/database/src/control-plane.ts).
use text.Mathlib.Text.{◌==◌ as str_eq}
use page2web_mcp.Common.{ℕ, ◌≡◌, refl, String, true, false, Option, none, some, arith, ok, ◌>>=◌}
use page2web_mcp.Common.Dict.{Dict, get}
use page2web_mcp.Workflow.Types.{Run, Task, Actor, Command, Repository, Env}
use page2web_mcp.Workflow.Store.{
  assert_idempotency_key, assert_worker_id, validate_reference, workflow_task, run_for_actor,
  command_replay, holds_lease, is_stopped, assert_lease,
}

pub workflow_task_ok :
    (id : String) (s : Repository) (t : Task)
    → (workflow_task id s).0 ≡ ok t
    → get id s.tasks ≡ some t
unfolding workflow_task ◌>>=◌
workflow_task_ok id s t e = ground arith

pub workflow_task_state : (id : String) (s : Repository) → (workflow_task id s).1 ≡ s
unfolding workflow_task ◌>>=◌
workflow_task_state id s = ground arith

pub assert_lease_ok :
    (now : ℕ) (worker : String) (t : Task) (g : ℕ) (s : Repository) (u : Unit {0})
    → (assert_lease now worker t g s).0 ≡ ok u
    → (holds_lease now worker g t ≡ true) × (is_stopped (get t.workflow_run_id s.runs) ≡ false)
unfolding assert_lease ◌>>=◌
assert_lease_ok now worker t g s u e = ground arith

pub assert_lease_state :
    (now : ℕ) (worker : String) (t : Task) (g : ℕ) (s : Repository)
    → (assert_lease now worker t g s).1 ≡ s
unfolding assert_lease ◌>>=◌
assert_lease_state now worker t g s = ground arith

pub assert_worker_id_state : (worker : String) (s : Repository) → (assert_worker_id worker s).1 ≡ s
unfolding assert_worker_id ◌>>=◌
assert_worker_id_state worker s = ground arith

pub validate_reference_state : (r : Option String) (s : Repository) → (validate_reference r s).1 ≡ s
unfolding validate_reference ◌>>=◌
validate_reference_state none s = refl
validate_reference_state (some r) s = ground arith

pub run_for_actor_state : (a : Actor) (id : String) (s : Repository) → (run_for_actor a id s).1 ≡ s
unfolding run_for_actor ◌>>=◌
run_for_actor_state a id s = ground arith

pub run_for_actor_ok :
    (a : Actor) (id : String) (s : Repository) (r : Run)
    → (run_for_actor a id s).0 ≡ ok r
    → (get id s.runs ≡ some r) × (str_eq r.organization_id a.organization_id ≡ true)
unfolding run_for_actor ◌>>=◌
run_for_actor_ok a id s r e = ground arith

pub command_replay_state :
    (E : Env) {A : Type 0} (c : Repository → Dict (Command A)) (scope key hash : String)
    (s : Repository)
    → (command_replay E c scope key hash s).1 ≡ s
unfolding command_replay assert_idempotency_key ◌>>=◌
command_replay_state E c scope key hash s = ground arith
