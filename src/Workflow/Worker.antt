-- ===== src/Workflow/Worker.antt =====
-- The methods of `InMemoryControlPlaneRepository` that a worker calls while it holds the lease of
-- a task (packages/database/src/control-plane.ts).
use page2web_mcp.Common.{
  ℕ, ◌+◌, ◌-◌, ◌*◌, String, Bool, true, false, not, ◌||◌, Option, none, some, ltb, leb,
  if◌then◌else◌, pure, gets, lift, or_raise, or_run, when_some, raise_if, modify, ◌>>=◌, ◌>>◌,
}
use page2web_mcp.Common.Dict.{get, set}
use page2web_mcp.Common.Text.{is_error_code, is_reason, without_dashes}
use page2web_mcp.Workflow.Phases.{Phase, next_phase}
use page2web_mcp.Workflow.Retry.{workflow_lease_ms, retry_delay_ms}
use page2web_mcp.Workflow.Types.{
  invalid_state, queued, waiting, succeeded, failed, Classification, rate_limited, is_permanent,
  Run, Task, task_completed, workflow_completed, task_heartbeat, task_retry_scheduled, task_failed,
  workflow_failed, task_waiting, Completion, Project, ProjectStatus, analyzed, project_failed, Env,
}
use page2web_mcp.Workflow.Store.{
  Method, ◌^^◌, assert_idempotency_key, validate_reference, workflow_task, stable_hash, store_task,
  update_run, random_uuid, append_event, create_task, command_replay, recorded, assert_lease,
}

abbrev pub heartbeat_of : ℕ → Task → Task
heartbeat_of now t = record t {
  lease_expires_at = some (now + workflow_lease_ms);
  updated_at = now;
}

-- `heartbeatWorkflowTask`
unfoldable pub heartbeat_task : Env → ℕ → String → String → ℕ → Method Task
unfolding workflow_task assert_lease store_task append_event
heartbeat_task E now worker id generation = do
  task ← workflow_task id
  assert_lease now worker task generation
  let updated = heartbeat_of now task
  store_task updated
  append_event E now task.workflow_run_id task_heartbeat (some task.id) none none
  pure updated

pub record CompleteInput : Type 0 where
  pub idempotency_key : String
  pub input_hash : String
  pub checkpoint_reference : Option String
  pub output_reference : Option String

-- `JSON.stringify` of a text in which nothing has to be escaped.
abbrev quoted : String → String
quoted s = "\"" ^^ s ^^ "\""

abbrev member : String → Option String → String
member name none = ""
member name (some v) = quoted name ^^ ":" ^^ quoted v ^^ ","

-- `canonicalJson` of the output record; its members stand in the order of their names, and the
-- one that is always there is in the middle.
abbrev output_json : Option String → String → Option String → String
output_json checkpoint command output =
    "{"
    ^^ member "checkpointReference" checkpoint
    ^^ quoted "commandInputHash"
    ^^ ":"
    ^^ quoted command
    ^^ closing output
  where
    closing : Option String → String
    closing none = "}"
    closing (some v) = "," ^^ quoted "outputReference" ^^ ":" ^^ quoted v ^^ "}"

abbrev pub or_else : Option String → Option String → Option String
or_else none old = old
or_else (some a) old = some a

abbrev pub completed_task : ℕ → CompleteInput → String → Task → Task
completed_task now i hash t = record t {
  status = succeeded;
  output_hash = some hash;
  checkpoint_reference = or_else i.checkpoint_reference t.checkpoint_reference;
  output_reference = or_else i.output_reference t.output_reference;
  lease_owner = none;
  lease_expires_at = none;
  retry_classification = none;
  error_code = none;
  updated_at = now;
}

abbrev pub with_status : ProjectStatus → Project → Project
with_status status p = record p { status = status }

-- `if (project) this.#projects.set(project.id, { ...project, status });`
unfoldable pub update_project : String → ProjectStatus → Method (Unit {0})
update_project id status = do
  found ← gets (λ s. get {V = Project} id s.projects)
  when_some found tt
      λ p. modify (λ s. record s { projects = set p.id (with_status status p) s.projects })

-- The branch of `completeWorkflowTask` on the phase that follows.
unfoldable pub advance :
    Env → ℕ → String → String → Phase → String → Option Phase → Method (Option Task)
unfolding update_run append_event create_task update_project
advance E now run_id project_id phase hash (some next) = do
  update_run run_id
      (λ r. record r { status = queued; current_phase = next; error_code = none; updated_at = now })
  found ← gets (λ s. get run_id s.runs)
  run ← or_raise found invalid_state
  task ← create_task E now run next hash
  pure (some task)
advance E now run_id project_id phase hash none = do
  update_run run_id (λ r. record r {
    status = succeeded;
    current_phase = phase;
    error_code = none;
    updated_at = now;
  })
  append_event E now run_id workflow_completed none none none
  update_project project_id analyzed
  pure none

abbrev pub completion_of : Run → Task → Option Task → Completion
completion_of r t next = record { run = r; task = t; next_task = next }

-- `completeWorkflowTask`
unfoldable pub complete_task : Env → ℕ → String → String → ℕ → CompleteInput → Method Completion
unfolding command_replay validate_reference workflow_task assert_lease stable_hash store_task
    append_event next_phase advance
complete_task E now worker id generation i = do
  replay ← command_replay E (λ s. s.completions) ("complete:" ^^ id) i.idempotency_key i.input_hash
  or_run replay do
    validate_reference i.checkpoint_reference
    validate_reference i.output_reference
    task ← workflow_task id
    assert_lease now worker task generation
    found ← gets (λ s. get task.workflow_run_id s.runs)
    run ← or_raise found invalid_state
    command ← lift (stable_hash E i.input_hash)
    hash ← lift (stable_hash E (output_json i.checkpoint_reference command i.output_reference))
    let done = completed_task now i hash task
    store_task done
    append_event E now run.id task_completed (some task.id) none none
    next ← advance E now run.id run.project_id task.phase hash (next_phase task.phase)
    stored ← gets (λ s. get run.id s.runs)
    last ← or_raise stored invalid_state
    let result = completion_of last done next
    modify (λ s. record s {
      completions = recorded ("complete:" ^^ id) i.idempotency_key command result s.completions;
    })
    pure result

pub record FailInput : Type 0 where
  pub idempotency_key : String
  pub input_hash : String
  pub error_code : String
  pub classification : Classification
  pub retry_after_ms : Option ℕ

-- `input.classification === "rate_limited" ? input.retryAfterMs : undefined`
abbrev pub wished_delay : FailInput → Option ℕ
wished_delay i = elim i.classification [ rate_limited ↦ i.retry_after_ms | _ ↦ none ]

abbrev pub is_final : FailInput → Task → Bool
is_final i t = is_permanent i.classification || leb t.max_attempts t.attempts

abbrev pub failed_task : ℕ → ℕ → FailInput → Task → Task
failed_task now draw i t = record t {
  status = if is_final i t then failed else queued;
  lease_owner = none;
  lease_expires_at = none;
  retry_classification = some i.classification;
  error_code = some i.error_code;
  available_at =
      if is_final i t then now else now + retry_delay_ms t.attempts (wished_delay i) draw;
  updated_at = now;
}

-- The events of `failWorkflowTask`, and the project's status if the failure is final.
unfoldable pub report_failure : Env → ℕ → Bool → Run → String → String → Method (Unit {0})
unfolding append_event update_project
report_failure E now true run task code = do
  append_event E now run.id task_failed (some task) (some code) none
  append_event E now run.id workflow_failed none (some code) none
  update_project run.project_id project_failed
report_failure E now false run task code = do
  append_event E now run.id task_retry_scheduled (some task) (some code) none
  pure tt

-- `failWorkflowTask`; `draw` is the draw of `random()`.
unfoldable pub fail_task : Env → ℕ → ℕ → String → String → ℕ → FailInput → Method Task
unfolding command_replay workflow_task assert_lease stable_hash store_task update_run report_failure
fail_task E now draw worker id generation i = do
  replay ← command_replay E (λ s. s.failures) ("fail:" ^^ id) i.idempotency_key i.input_hash
  or_run replay do
    raise_if (not (is_error_code i.error_code)) invalid_state
    task ← workflow_task id
    assert_lease now worker task generation
    let updated = failed_task now draw i task
    store_task updated
    let final = is_final i task
    run ← update_run task.workflow_run_id (λ r. record r {
      status = if final then failed else queued;
      error_code = some i.error_code;
      updated_at = now;
    })
    report_failure E now final run task.id i.error_code
    command ← lift (stable_hash E i.input_hash)
    modify (λ s. record s {
      failures = recorded ("fail:" ^^ id) i.idempotency_key command updated s.failures;
    })
    pure updated

pub record WaitInput : Type 0 where
  pub idempotency_key : String
  pub input_hash : String
  pub reason : String
  -- `Date.parse(input.expiresAt)`, `none` where it is not finite
  pub expires_at : Option ℕ

abbrev pub max_wait_ms : ℕ
max_wait_ms = 24 * 60 * 60 * 1000

abbrev pub waiting_task : ℕ → String → String → ℕ → Task → Task
waiting_task now key reason expiry t = record t {
  status = waiting;
  wait_key_hash = some key;
  wait_reason = some reason;
  wait_expires_at = some expiry;
  lease_owner = none;
  lease_expires_at = none;
  updated_at = now;
}

-- `waitWorkflowTask`; the token is the text of the drawn UUID without its dashes.
unfoldable pub wait_task : Env → ℕ → String → String → ℕ → WaitInput → Method (Task × String)
unfolding assert_idempotency_key workflow_task assert_lease stable_hash random_uuid store_task
    update_run append_event
wait_task E now worker id generation i = do
  assert_idempotency_key i.idempotency_key
  lift (stable_hash E i.input_hash)
  raise_if (not (is_reason i.reason)) invalid_state
  expiry ← or_raise i.expires_at invalid_state
  raise_if (leb expiry now || ltb max_wait_ms (expiry - now)) invalid_state
  task ← workflow_task id
  assert_lease now worker task generation
  drawn ← random_uuid E
  let token = without_dashes drawn
  key ← lift (stable_hash E token)
  let updated = waiting_task now key i.reason expiry task
  store_task updated
  run ← update_run task.workflow_run_id (λ r. record r { status = waiting; updated_at = now })
  modify (λ s. record s {
    wait_tokens =
        set key
          (record {
            workflow_run_id = run.id;
            task_id = task.id;
            expires_at = expiry;
            consumed_at = none;
            resume_idempotency_key = none;
            resume_input_hash = none;
          })
          s.wait_tokens;
  })
  append_event E now run.id task_waiting (some task.id) none none
  pure (updated, token)
