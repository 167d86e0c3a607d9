-- ===== src/Examples/Workflow.antt =====
-- The workflow properties at concrete tables and calls.
use page2web_mcp.Common.{
  ℕ, ◌≡◌, ◌≢◌, ◌⊎◌, Result, err, All, refl, String, none, some, List, [], ◌∷◌, ok, ◌>>=◌,
}
use page2web_mcp.Common.Decimal.{decimal}
use page2web_mcp.Common.Dict.{get, set, values}
use page2web_mcp.Workflow.Phases.{preflight, ownership}
use page2web_mcp.Workflow.Types.{
  Task, Project, Repository, Env, Completion, RepositoryError, idempotency_conflict, created,
  website, queued, transient,
}
use page2web_mcp.Common.Text.{is_identifier, is_sha256}
use page2web_mcp.Common.Sort.{sort}
use page2web_mcp.Workflow.Store.{◌^^◌, new_task, stable_hash}
use page2web_mcp.Workflow.Worker.{
  CompleteInput, heartbeat_task, complete_task, failed_task, FailInput, completed_task,
  completion_of,
}
use page2web_mcp.Workflow.Owner.{RunInput, new_run, create_run}
use page2web_mcp.Workflow.Claim.{leased, claim_task}
use page2web_mcp.Workflow.Calls.{
  heartbeat, complete, Call, creates, claims, works, step, steps, empty_repository, work,
}
use page2web_mcp.Workflow.EventLog.{IsLogged}
use page2web_mcp.Workflow.EventLog.Methods.{steps-IsLogged}
use page2web_mcp.Workflow.TaskShape.Rules.{AreShaped}
use page2web_mcp.Workflow.TaskShape.History.{steps-AreShaped}
use page2web_mcp.Workflow.Claim.Choice.{IsEligible, IsChosen}
use page2web_mcp.Workflow.Claim.Outcome.{claim_task_lem}
use page2web_mcp.Workflow.Replay.Commands.{
  complete_task-complete_task, complete_task-idempotency_conflict,
}
use page2web_mcp.Workflow.Fencing.{work_stale}
use page2web_mcp.Workflow.Fencing.Claims.{claim_task-fences}

abbrev pub digest : String
digest = "0123456789abcdef0123456789abcdef0123456789abcdef0123456789abcdef"

abbrev other_digest : String
other_digest = "ffffffffffffffffffffffffffffffffffffffffffffffffffffffffffffffff"

abbrev pub env : Env
env = record {
  sha256 = λ v. digest;
  uuid = λ n. "00000000-0000-4000-8000-00000000000" ^^ decimal n;
  active_task_quota = none;
}

abbrev project : Project
project = record {
  id = "project-1";
  organization_id = "org-1";
  created_by = "user-1";
  name = "Shop";
  source_type = website;
  url = "https://example.com";
  status = created;
  created_at = 0;
}

abbrev pub run_input : RunInput
run_input = record {
  id = "run-1";
  project = project;
  source_snapshot_id = "snapshot-1";
  input_hash = digest;
  phase = preflight;
  analysis_run_id = none;
  reviewed_analysis_run_id = none;
}

abbrev task_id : String
task_id = "00000000-0000-4000-8000-000000000001"

abbrev completion : CompleteInput
completion = record {
  idempotency_key = "complete-1";
  input_hash = digest;
  checkpoint_reference = none;
  output_reference = none;
}

abbrev history : List (ℕ × Call)
history =
    (0, creates run_input)
    ∷ (10, claims "worker-1")
    ∷ (20, works "worker-1" task_id 1 heartbeat)
    ∷ (30, works "worker-1" task_id 1 (complete completion))
    ∷ (40, claims "worker-2")
    ∷ []

steps-IsLogged_example : IsLogged (steps env history empty_repository)
steps-IsLogged_example = steps-IsLogged env history

steps-AreShaped_example : AreShaped (steps env history empty_repository)
steps-AreShaped_example = steps-AreShaped env history

-- The tables once the run is created: one queued task.
abbrev pub created_tables : Repository
created_tables = steps env ((0, creates run_input) ∷ []) empty_repository

abbrev claimed_task : Task
claimed_task =
    leased 10 "worker-1"
      (new_task env 0 task_id (new_run 0 run_input digest) preflight ("wft_" ^^ digest) digest)

abbrev claimed_tables : Repository
claimed_tables = (claim_task env 10 "worker-1" created_tables).1

-- After the history the first task is completed and the second is leased by the other worker.
after_history : (steps env history empty_repository).uuids ≡ 9
unfolding steps step claim_task ◌>>=◌ is_identifier sort complete_task get heartbeat_task create_run
    set is_sha256 decimal
after_history = refl

claim_task-fences_example :
    work env 20 "worker-2" task_id 1 heartbeat claimed_tables ≡ claimed_tables
unfolding steps step claim_task ◌>>=◌ is_identifier sort get create_run set is_sha256 decimal
claim_task-fences_example =
    claim_task-fences env 10 "worker-1" created_tables claimed_task refl 20 "worker-2" 1 heartbeat
      refl

work_stale_example :
    work env 20 "worker-1" task_id 2 (complete completion) claimed_tables ≡ claimed_tables
unfolding steps step claim_task ◌>>=◌ is_identifier sort get create_run set is_sha256 decimal
work_stale_example =
    work_stale claimed_tables task_id claimed_task refl 20 "worker-1" 2 refl env
      (complete completion)

claim_task_lem_example :
    ((claim_task env 10 "worker-1" created_tables ≡ (ok none, created_tables))
      × All (λ u. ¬ IsEligible env 10 created_tables u) (values created_tables.tasks))
    ⊎ ((c : Task) × IsChosen env 10 created_tables c
        × ((claim_task env 10 "worker-1" created_tables).0 ≡ ok (some (leased 10 "worker-1" c)))
        × ((claim_task env 10 "worker-1" created_tables).1.tasks
            ≡ set c.id (leased 10 "worker-1" c) created_tables.tasks))
unfolding is_identifier
claim_task_lem_example = claim_task_lem env 10 "worker-1" created_tables refl

abbrev completed_tables : Repository
completed_tables = (complete_task env 30 "worker-1" task_id 1 completion claimed_tables).1

abbrev first_completion : Completion
first_completion =
    completion_of
      (record (new_run 0 run_input digest) {
        status = queued;
        current_phase = ownership;
        version = 5;
        updated_at = 30;
      })
      (completed_task 30 completion digest claimed_task)
      (some (
        new_task env 30 "00000000-0000-4000-8000-000000000005" (new_run 0 run_input digest)
          ownership ("wft_" ^^ digest) digest))

complete_task-complete_task_example :
    complete_task env 90 "worker-9" task_id 7 completion completed_tables
    ≡ (ok first_completion, completed_tables)
unfolding steps step claim_task ◌>>=◌ is_identifier sort get create_run set is_sha256 decimal
    complete_task
complete_task-complete_task_example =
    complete_task-complete_task env 30 90 "worker-1" "worker-9" task_id 1 7 completion
      claimed_tables first_completion refl

complete_task-idempotency_conflict_example :
    complete_task env 90 "worker-9" task_id 7
      (record completion { input_hash = other_digest })
      completed_tables
    ≡ (err idempotency_conflict, completed_tables)
unfolding steps step claim_task ◌>>=◌ is_identifier sort get create_run set is_sha256 decimal
    complete_task stable_hash
complete_task-idempotency_conflict_example =
    complete_task-idempotency_conflict env 30 90 "worker-1" "worker-9" task_id 1 7 completion
      claimed_tables first_completion other_digest other_digest refl refl
      (λ e. other_hash (ok_inj e))
  where
    ok_inj : {a b : String} → ◌≡◌ {A = Result RepositoryError String} (ok a) (ok b) → a ≡ b
    ok_inj e = cc

    other_hash : digest ≢ other_digest
    other_hash e = absurd (cc)

abbrev failure : FailInput
failure = record {
  idempotency_key = "fail-1";
  input_hash = digest;
  error_code = "TIMEOUT";
  classification = transient;
  retry_after_ms = none;
}

abbrev failed_once : Task
failed_once = failed_task 30 500000000 failure claimed_task

-- The task waited in its third attempt and was resumed.
abbrev resumed_last : Task
resumed_last = record claimed_task {
  status = queued;
  attempts = 3;
  lease_owner = none;
  lease_expires_at = none;
}

abbrev resumed_tables : Repository
resumed_tables = record created_tables { tasks = set task_id resumed_last created_tables.tasks }
