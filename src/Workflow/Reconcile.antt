-- ===== src/Workflow/Reconcile.antt =====
-- `reconcileWorkflows` of `InMemoryControlPlaneRepository`
-- (packages/database/src/control-plane.ts): its three loops, each over the values that it found
-- when it began.
use text.Mathlib.Text.{◌==◌ as str_eq}
use page2web_mcp.Common.{
  ℕ, ◌+◌, String, Bool, not, ◌&&◌, Option, none, some, List, [], ◌∷◌, leb, if◌then◌else◌, get_or,
  some_and, any, pure, gets, when_some, modify, ◌>>=◌, ◌>>◌,
}
use page2web_mcp.Common.Dict.{get, set, delete, values}
use page2web_mcp.Workflow.Phases.{Phase, analysis, same_phase, next_phase}
use page2web_mcp.Workflow.Types.{
  queued, failed, is_parked, is_running, is_succeeded, permanent, Run, Task, Analysis, Checkpoint,
  CheckpointState, is_open, task_reconciled, workflow_reconciled, project_failed, Repository, Env,
}
use page2web_mcp.Workflow.Store.{
  Method, assert_worker_id, store_task, update_run, append_event, create_task,
}
use page2web_mcp.Workflow.Claim.{is_over}
use page2web_mcp.Workflow.Worker.{update_project}
use page2web_mcp.Workflow.Owner.{close_checkpoint, stopped_analysis}

abbrev pub auth_expired : String
auth_expired = "AUTHENTICATION_WAIT_EXPIRED"

abbrev pub attempts_exhausted : String
attempts_exhausted = "ATTEMPTS_EXHAUSTED"

-- The three records that an expired checkpoint belongs to, if all of them are still parked.
abbrev pub parked : Option Analysis → Option Run → Option Task → Option (Analysis × Run × Task)
parked (some a) (some r) (some t) =
    if is_parked a.status && is_parked r.status && is_parked t.status then some (a, r, t) else none
parked _ _ _ = none

abbrev pub expired_task : ℕ → Task → Task
expired_task now t = record t {
  status = failed;
  lease_owner = none;
  lease_expires_at = none;
  retry_classification = some permanent;
  error_code = some auth_expired;
  reconciled_at = some now;
  updated_at = now;
}

-- The body of the first loop, past its guards.
unfoldable pub expire : Env → ℕ → Analysis → Run → Task → Method (Unit {0})
unfolding store_task update_run append_event close_checkpoint update_project
expire E now a r t = do
  modify (close_checkpoint now a.id CheckpointState.expired)
  modify (λ s. record s {
    analyses = set a.id (stopped_analysis now failed (some auth_expired) a) s.analyses;
    analysis_available_at = delete a.id s.analysis_available_at;
  })
  store_task (expired_task now t)
  update_run r.id
      (λ q. record q { status = failed; error_code = some auth_expired; updated_at = now })
  update_project r.project_id project_failed
  append_event E now r.id task_reconciled (some t.id) (some auth_expired) none
  append_event E now r.id workflow_reconciled none none none
  pure tt

unfoldable pub reconcile_checkpoint : Env → ℕ → Checkpoint → Method ℕ
unfolding expire
reconcile_checkpoint E now c = do
  found ← gets (λ s.
      if is_open c.state && leb c.expires_at now
      then parked (get c.analysis_run_id s.analyses) (get c.analysis_run_id s.runs)
          (get c.workflow_task_id s.tasks)
      else none)
  when_some found 0 λ (a, r, t). do expire E now a r t; pure 1

abbrev pub is_exhausted : Task → Bool
is_exhausted t = leb t.max_attempts t.attempts

abbrev pub recovered_task : ℕ → Task → Task
recovered_task now t = record t {
  status = if is_exhausted t then failed else queued;
  lease_owner = none;
  lease_expires_at = none;
  available_at = now;
  reconciled_at = some now;
  error_code = if is_exhausted t then some attempts_exhausted else t.error_code;
  updated_at = now;
}

abbrev pub recovered_run : ℕ → Bool → Run → Run
recovered_run now final r = record r {
  status = if final then failed else queued;
  error_code = if final then some attempts_exhausted else r.error_code;
  updated_at = now;
}

-- The body of the second loop, past its guards.
unfoldable pub recover : Env → ℕ → Task → Run → Method (Unit {0})
unfolding store_task update_run append_event
recover E now t r = do
  store_task (recovered_task now t)
  update_run r.id (recovered_run now (is_exhausted t))
  append_event E now r.id task_reconciled (some t.id)
      (if is_exhausted t then some attempts_exhausted else none) none
  append_event E now r.id workflow_reconciled none none none
  pure tt

abbrev pub is_abandoned : ℕ → Task → Bool
is_abandoned now t =
    not (same_phase t.phase analysis)
    && is_running t.status
    && some_and t.lease_expires_at (λ e. leb e now)

-- The run, unless it is over.
abbrev pub unless_over : Option Run → Option Run
unless_over none = none
unless_over (some r) = if is_over (some r) then none else some r

unfoldable pub reconcile_lease : Env → ℕ → Task → Method ℕ
unfolding recover
reconcile_lease E now t = do
  found ←
      gets (λ s. if is_abandoned now t then unless_over (get t.workflow_run_id s.runs) else none)
  when_some found 0 λ r. do recover E now t r; pure 1

-- The body of the third loop, past its guards.
unfoldable pub continue_run : Env → ℕ → Run → Phase → String → Method (Unit {0})
unfolding create_task store_task append_event
continue_run E now r phase hash = do
  task ← create_task E now r phase hash
  store_task (record task { reconciled_at = some now })
  append_event E now r.id workflow_reconciled none none none
  pure tt

-- The phase whose task is missing behind a completed task.
unfoldable pub missing_phase : Repository → Task → Run → Option Phase
unfolding next_phase
missing_phase s t r = elim (next_phase t.phase) [
  | none ↦ none
  | some next ↦
      if same_phase r.current_phase next
        && not
            (any (λ c. str_eq c.workflow_run_id r.id && same_phase c.phase next) (values s.tasks))
      then some next
      else none
]

abbrev pub is_finished : Task → Bool
is_finished t = not (same_phase t.phase analysis) && is_succeeded t.status

unfoldable pub reconcile_successor : Env → ℕ → Task → Method ℕ
unfolding continue_run missing_phase
reconcile_successor E now t = do
  found ← gets (λ s. if is_finished t then unless_over (get t.workflow_run_id s.runs) else none)
  when_some found 0 λ r. do
    missing ← gets (λ s. missing_phase s t r)
    when_some missing 0
        λ next. do continue_run E now r next (get_or t.output_hash t.input_hash); pure 1

-- `for (const item of [...items]) repaired += body(item)`
unfoldable pub sum_each : {A : Type 0} → (A → Method ℕ) → List A → Method ℕ
sum_each body [] = pure 0
sum_each body (x ∷ xs) = do n ← body x; rest ← sum_each body xs; pure (n + rest)

-- `reconcileWorkflows`
unfoldable pub reconcile : Env → ℕ → String → Method ℕ
unfolding assert_worker_id sum_each reconcile_checkpoint reconcile_lease reconcile_successor
reconcile E now worker = do
  assert_worker_id worker
  checkpoints ← gets (λ s. values s.checkpoints)
  expired ← sum_each (reconcile_checkpoint E now) checkpoints
  running ← gets (λ s. values s.tasks)
  recovered ← sum_each (reconcile_lease E now) running
  finished ← gets (λ s. values s.tasks)
  continued ← sum_each (reconcile_successor E now) finished
  pure (expired + recovered + continued)
