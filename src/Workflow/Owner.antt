-- ===== src/Workflow/Owner.antt =====
-- The methods of `InMemoryControlPlaneRepository` that create, resume and cancel a workflow run
-- (packages/database/src/control-plane.ts).
use text.Mathlib.Text.{◌==◌ as str_eq}
use page2web_mcp.Common.{
  ℕ, String, Bool, not, ◌&&◌, ◌||◌, Option, none, some, List, [], ◌∷◌, leb, if◌then◌else◌, is_some,
  some_and, filter, pure, gets, lift, or_raise, or_run, raise_if, modify, ◌>>=◌, ◌>>◌,
}
use page2web_mcp.Common.Dict.{get, set, delete, values}
use page2web_mcp.Common.Text.{is_wait_token}
use page2web_mcp.Workflow.Phases.{Phase}
use page2web_mcp.Workflow.Types.{
  forbidden, not_found, invalid_state, wait_expired, cancelled_error, Status, queued, cancelled,
  is_waiting, is_cancelled, is_terminal, is_viewer, Run, Task, workflow_created,
  workflow_cancel_requested, workflow_cancelled, task_resumed, task_cancelled, WaitToken, Actor,
  Analysis, Checkpoint, CheckpointState, CleanupStatus, is_open, is_completed, Project, Repository,
  Env,
}
use page2web_mcp.Workflow.Store.{
  Method, ◌^^◌, run_for_actor, workflow_task, stable_hash, store_task, update_run, append_event,
  create_task, command_replay, recorded,
}

pub record RunInput : Type 0 where
  pub id : String
  pub project : Project
  pub source_snapshot_id : String
  pub input_hash : String
  pub phase : Phase
  pub analysis_run_id : Option String
  pub reviewed_analysis_run_id : Option String

abbrev pub new_run : ℕ → RunInput → String → Run
new_run now i hash = record {
  id = i.id;
  organization_id = i.project.organization_id;
  project_id = i.project.id;
  source_snapshot_id = i.source_snapshot_id;
  analysis_run_id = i.analysis_run_id;
  reviewed_analysis_run_id = i.reviewed_analysis_run_id;
  status = queued;
  current_phase = i.phase;
  input_hash = hash;
  version = 0;
  cancel_requested_at = none;
  cancelled_at = none;
  error_code = none;
  created_at = now;
  updated_at = now;
}

-- `#createWorkflowRun`
unfoldable pub create_run : Env → ℕ → RunInput → Method Run
unfolding stable_hash append_event create_task
create_run E now i = do
  hash ← lift (stable_hash E i.input_hash)
  let run = new_run now i hash
  modify (λ s. record s { runs = set run.id run s.runs; events = set run.id [] s.events })
  append_event E now run.id workflow_created none none none
  found ← gets (λ s. get run.id s.runs)
  stored ← or_raise found invalid_state
  create_task E now stored i.phase run.input_hash
  last ← gets (λ s. get run.id s.runs)
  or_raise last invalid_state

pub record ResumeInput : Type 0 where
  pub idempotency_key : String
  pub input_hash : String
  pub run_id : String
  pub wait_token : String

abbrev pub resumed_task : ℕ → Task → Task
resumed_task now t = record t {
  status = queued;
  resumed_at = some now;
  available_at = now;
  updated_at = now;
}

abbrev pub consumed_token : ℕ → String → String → WaitToken → WaitToken
consumed_token now key hash t = record t {
  consumed_at = some now;
  resume_idempotency_key = some key;
  resume_input_hash = some hash;
}

unfoldable pub waits_for : String → Task → Bool
waits_for key t = is_waiting t.status && some_and t.wait_key_hash (λ h. str_eq h key)

-- `!token || token.workflowRunId !== run.id`
abbrev pub token_of : String → Option WaitToken → Option WaitToken
token_of run none = none
token_of run (some t) = if str_eq t.workflow_run_id run then some t else none

-- `resumeWorkflowTask`
unfoldable pub resume_task : Env → ℕ → Actor → ResumeInput → Method Task
unfolding run_for_actor command_replay workflow_task stable_hash waits_for store_task update_run
    append_event
resume_task E now actor i = do
  run ← run_for_actor actor i.run_id
  raise_if (is_viewer actor.role) forbidden
  replay ← command_replay E (λ s. s.resumes) ("resume:" ^^ run.id) i.idempotency_key i.input_hash
  or_run replay do
    raise_if (not (is_wait_token i.wait_token)) invalid_state
    key ← lift (stable_hash E i.wait_token)
    found ← gets (λ s. token_of run.id (get key s.wait_tokens))
    token ← or_raise found not_found
    raise_if (leb token.expires_at now) wait_expired
    raise_if (is_some run.cancel_requested_at || is_cancelled run.status) cancelled_error
    task ← workflow_task token.task_id
    raise_if (not (waits_for key task)) invalid_state
    command ← lift (stable_hash E i.input_hash)
    let resumed = resumed_task now task
    store_task resumed
    modify (λ s. record s {
      wait_tokens = set key (consumed_token now i.idempotency_key command token) s.wait_tokens;
    })
    update_run run.id (λ r. record r { status = queued; updated_at = now })
    append_event E now run.id task_resumed (some task.id) none none
    modify (λ s. record s {
      resumes = recorded ("resume:" ^^ run.id) i.idempotency_key command resumed s.resumes;
    })
    pure resumed

pub record CancelInput : Type 0 where
  pub idempotency_key : String
  pub input_hash : String
  pub run_id : String

abbrev pub cancelled_task : ℕ → Task → Task
cancelled_task now t = record t {
  status = cancelled;
  cancel_requested_at = some now;
  cancelled_at = some now;
  lease_owner = none;
  lease_expires_at = none;
  updated_at = now;
}

abbrev pub is_cancellable : String → Task → Bool
is_cancellable run t = str_eq t.workflow_run_id run && not (is_terminal t.status)

-- The loop of `cancelWorkflow` over the tasks that it found at its beginning.
unfoldable pub cancel_tasks : Env → ℕ → String → List Task → Method (Unit {0})
unfolding store_task append_event
cancel_tasks E now run [] = pure tt
cancel_tasks E now run (t ∷ ts) = do
  store_task (cancelled_task now t)
  append_event E now run task_cancelled (some t.id) none none
  cancel_tasks E now run ts

abbrev pub closed_checkpoint : ℕ → CheckpointState → Checkpoint → Checkpoint
closed_checkpoint now state c = record c {
  state = state;
  terminal_at = some now;
  cleanup_status =
      some (if is_completed state then CleanupStatus.succeeded else CleanupStatus.pending);
  cleanup_available_at = if is_completed state then none else some now;
  cleanup_lease_owner = none;
  cleanup_lease_expires_at = none;
  cleanup_completed_at = if is_completed state then some now else none;
  cleanup_error_code = none;
  updated_at = now;
}

-- `#closeWebsiteAuthenticationCheckpoint`
unfoldable pub close_checkpoint : ℕ → String → CheckpointState → Repository → Repository
close_checkpoint now id state s = elim (get id s.checkpoints) [
  | none ↦ s
  | some c ↦
      if is_open c.state
      then record s { checkpoints = set id (closed_checkpoint now state c) s.checkpoints }
      else s
]

-- `run.analysisRunId ? this.#runs.get(run.analysisRunId) : undefined`
abbrev pub analysis_of : Option String → Repository → Option Analysis
analysis_of none s = none
analysis_of (some id) s = get id s.analyses

abbrev pub stopped_analysis : ℕ → Status → Option String → Analysis → Analysis
stopped_analysis now status code a = record a {
  status = status;
  lease_owner = none;
  lease_expires_at = none;
  error_code = code;
  updated_at = now;
}

-- The end of `cancelWorkflow`: the analysis run that the workflow stands for.
unfoldable pub cancel_analysis : ℕ → Option Analysis → Repository → Repository
unfolding close_checkpoint
cancel_analysis now none s = s
cancel_analysis now (some a) s =
    if is_terminal a.status
    then s
    else close_checkpoint now a.id CheckpointState.cancelled (record s {
      analyses = set a.id (stopped_analysis now cancelled a.error_code a) s.analyses;
      analysis_available_at = delete a.id s.analysis_available_at;
    })

abbrev pub cancelled_run : ℕ → Run → Run
cancelled_run now r = record r { status = cancelled; cancelled_at = some now; updated_at = now }

-- `cancelWorkflow`
unfoldable pub cancel_workflow : Env → ℕ → Actor → CancelInput → Method Run
unfolding run_for_actor command_replay stable_hash update_run append_event cancel_tasks
    cancel_analysis
cancel_workflow E now actor i = do
  raise_if (is_viewer actor.role) forbidden
  run ← run_for_actor actor i.run_id
  replay ← command_replay E (λ s. s.cancels) ("cancel:" ^^ run.id) i.idempotency_key i.input_hash
  or_run replay do
    raise_if (is_terminal run.status) invalid_state
    update_run run.id (λ r. record r { cancel_requested_at = some now; updated_at = now })
    append_event E now run.id workflow_cancel_requested none none none
    tasks ← gets (λ s. filter (is_cancellable run.id) (values s.tasks))
    cancel_tasks E now run.id tasks
    requested ← update_run run.id (cancelled_run now)
    let stopped = cancelled_run now requested
    append_event E now run.id workflow_cancelled none none none
    modify (λ s. cancel_analysis now (analysis_of run.analysis_run_id s) s)
    command ← lift (stable_hash E i.input_hash)
    modify (λ s. record s {
      cancels = recorded ("cancel:" ^^ run.id) i.idempotency_key command stopped s.cancels;
    })
    last ← gets (λ s. get run.id s.runs)
    or_raise last invalid_state
