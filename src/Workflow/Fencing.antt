-- ===== src/Workflow/Fencing.antt =====
-- The calls of a worker that does not hold the lease it names
-- (packages/database/src/control-plane.ts).
pub mod Claims
use mathlib.Core.Bool.{true≢false}
use page2web_mcp.Common.{
  ℕ, ◌≡◌, refl, sym, ◌∙◌, ap, subst, String, Bool, true, false, Option, none, some, some_inj,
  Result, ok, err, ◌>>=◌,
}
use page2web_mcp.Common.Throwing.Keeps.{
  Keeps, keeps_rules, bind-Keeps, Keeps-bind_with, Keeps-bind, Keeps-or_run,
}
use page2web_mcp.Common.Dict.{Dict, get}
use page2web_mcp.Workflow.Types.{Task, Command, Payload, Repository, RepositoryError, Env}
use page2web_mcp.Workflow.Store.{
  Method, assert_idempotency_key, validate_reference, workflow_task, command_replay, assert_lease,
  holds_lease,
}
use page2web_mcp.Workflow.Store.Results.{
  workflow_task_ok, workflow_task_state, assert_lease_ok, assert_lease_state,
  validate_reference_state, command_replay_state,
}
use page2web_mcp.Workflow.Worker.{
  CompleteInput, FailInput, WaitInput, heartbeat_task, complete_task, fail_task, wait_task,
}
use page2web_mcp.Workflow.SideEffects.{SideEffectEvent, record_task_event}
use page2web_mcp.Workflow.Calls.{Leased, heartbeat, report, complete, fail, wait, work}

module _ (s : Repository) where
  -- The tables are still those of the beginning.
  abbrev Same : Repository → Type 0
  Same x = x ≡ s

  replay-Same :
      {A : Type 0} (E : Env) (c : Repository → Dict (Command A)) (scope key hash : String)
      → Keeps Same (command_replay E c scope key hash)
  replay-Same E c scope key hash = record {
    at = λ x h. command_replay_state E c scope key hash x ∙ h;
  }

  reference-Same : (r : Option String) → Keeps Same (validate_reference r)
  reference-Same r = record { at = λ x h. validate_reference_state r x ∙ h }

  ruleset checks = (replay-Same, reference-Same, keeps_rules)

  module _ (id : String) (t : Task) (found : get id s.tasks ≡ some t) where
    bind-stored :
        {B : Type 0} (f : Task → Method B) → Keeps Same (f t) → Keeps Same (workflow_task id >>= f)
    bind-stored f k =
        Keeps-bind_with (λ u. t ≡ u) (workflow_task id) f
          (record { at = λ x h. workflow_task_state id x ∙ h })
          (λ x u h e. some_inj (
            sym found
            ∙ ap (λ (y : Repository). get id y.tasks) (sym h)
            ∙ workflow_task_ok id x u e))
          (λ u e. subst (λ v. Keeps Same (f v)) e k)

    module _ (now : ℕ) (worker : String) (g : ℕ) (stale : holds_lease now worker g t ≡ false) where
      bind-stale :
          {B : Type 0} (f : Unit {0} → Method B) → Keeps Same (assert_lease now worker t g >>= f)
      bind-stale f = record {
        at = λ x h.
            bind-Keeps Same (assert_lease now worker t g) f x
              (assert_lease_state now worker t g x ∙ h)
              (λ u e. absurd (true≢false (sym (assert_lease_ok now worker t g x u e).0 ∙ stale)));
      }

      -- While the stored task does not stand under the worker's lease, no call of the worker that
      -- names the task and the generation changes anything, whatever the call is.
      pub work_stale : (E : Env) (c : Leased) → work E now worker id g c s ≡ s
      unfolding work heartbeat_task record_task_event complete_task fail_task wait_task
          assert_idempotency_key
      work_stale E heartbeat = kept.at s refl
        where
          kept : Keeps Same (heartbeat_task E now worker id g)
          kept = search (bind-stored, bind-stale, checks) depth 20
      work_stale E (report type payload) = kept.at s refl
        where
          kept : Keeps Same (record_task_event E now worker id g type payload)
          kept = search (bind-stored, bind-stale, checks) depth 20
      work_stale E (complete i) = kept.at s refl
        where
          kept : Keeps Same (complete_task E now worker id g i)
          kept = search (bind-stored, bind-stale, checks) depth 20
      work_stale E (fail draw i) = kept.at s refl
        where
          kept : Keeps Same (fail_task E now draw worker id g i)
          kept = search (bind-stored, bind-stale, checks) depth 20
      work_stale E (wait i) = kept.at s refl
        where
          kept : Keeps Same (wait_task E now worker id g i)
          kept = search (bind-stored, bind-stale, checks) depth 20
