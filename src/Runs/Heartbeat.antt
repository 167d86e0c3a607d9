-- ===== src/Runs/Heartbeat.antt =====
-- `heartbeatAnalysis` (packages/database/src/control-plane.ts).
use text.Mathlib.Text.{◌==◌ as str_eq}
use page2web_mcp.Common.{
  ℕ, ◌+◌, String, Bool, false, not, ◌&&◌, ◌||◌, Option, none, some, ltb, is_some, some_and, get_or,
  pure, gets, or_raise, raise_if, ◌>>=◌, ◌>>◌,
}
use page2web_mcp.Common.Dict.{get}
use page2web_mcp.Workflow.Types.{
  invalid_state, lease_lost, cancelled_error, is_running, is_cancelled, Analysis, Run, Task,
  task_heartbeat,
}
use page2web_mcp.Workflow.Store.{assert_lease, append_event}
use page2web_mcp.Cleanup.Queue.{CleanupMethod, repository_of, bounded_lease}
use page2web_mcp.Runs.Claim.{
  ClaimEnv, analysis_task, on_workflows, write, store_run, store_run_task,
}

-- `workflow?.cancelRequestedAt || workflow?.status === "cancelled"`
abbrev pub is_called_off : Option Run → Bool
is_called_off none = false
is_called_off (some w) = is_some w.cancel_requested_at || is_cancelled w.status

-- The worker holds the lease of the run.
abbrev pub holds_run : ℕ → String → Analysis → Bool
holds_run now worker r =
    is_running r.status
    && some_and r.lease_owner (λ w. str_eq w worker)
    && some_and r.lease_expires_at (λ at. ltb now at)

abbrev pub prolonged_run : ℕ → ℕ → Analysis → Analysis
prolonged_run now lease_ms r = record r {
  lease_expires_at = some (now + bounded_lease lease_ms);
  updated_at = now;
}

abbrev pub prolonged_task : ℕ → ℕ → Task → Task
prolonged_task now lease_ms t = record t {
  lease_expires_at = some (now + bounded_lease lease_ms);
  updated_at = now;
}

-- `heartbeatAnalysis`; the generation is `none` where none is given.
unfoldable pub heartbeat_analysis :
    ClaimEnv → ℕ → String → String → ℕ → Option ℕ → CleanupMethod (Unit {0})
unfolding on_workflows assert_lease append_event
heartbeat_analysis E now worker id lease_ms generation = do
  workflow ← gets (λ s. get id (repository_of s).runs)
  raise_if (is_called_off workflow) cancelled_error
  found ← gets (λ s. get id (repository_of s).analyses)
  r ← or_raise found lease_lost
  raise_if (not (holds_run now worker r)) lease_lost
  tasks ← gets (λ s. analysis_task E.workflow id (repository_of s))
  t ← or_raise tasks invalid_state
  on_workflows (assert_lease now worker t (get_or generation t.lease_generation))
  write (store_run (prolonged_run now lease_ms r))
  write (store_run_task (prolonged_task now lease_ms t))
  on_workflows (append_event E.workflow now t.workflow_run_id task_heartbeat (some t.id) none none)
  pure tt
