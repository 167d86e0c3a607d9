-- ===== src/Workflow/Store.antt =====
-- The private methods of `InMemoryControlPlaneRepository` that its workflow methods share, and the
-- checks at the end of packages/database/src/control-plane.ts.
pub mod Results
use Prim.Native.String
use Prim.Native.String.{len}
use text.Mathlib.Text.{◌==◌ as str_eq}
use page2web_mcp.Common.{
  ℕ, ◌+◌, String, Bool, true, false, not, ◌&&◌, ◌||◌, Option, none, some, List, [], ◌∷◌, ◌++◌, ltb,
  leb, ◌==◌, if◌then◌else◌, is_some, get_or, some_and, length, find, Result, ok, err, Exec, pure,
  gets, lift, or_raise, or_run, when_some, raise_if, modify, ◌>>=◌, ◌>>◌,
}
use page2web_mcp.Common.Dict.{Dict, get, set, values}
use page2web_mcp.Common.Text.{codes, is_sha256, is_identifier, is_hash_reference}
use page2web_mcp.Common.Decimal.{decimal}
use page2web_mcp.Workflow.Phases.{
  Phase, analysis, preflight, ownership, browser_auth, explore, propose, review_wait,
  controlled_mutation_verification, compile, candidate_verify, publish, install_verify, same_phase,
}
use page2web_mcp.Workflow.Retry.{workflow_max_attempts}
use page2web_mcp.Workflow.Types.{
  RepositoryError, not_found, idempotency_conflict, invalid_state, lease_lost, cancelled_error,
  queued, is_running, is_cancelled, Run, Task, EventType, workflow_created, task_created, Payload,
  Event, Command, Actor, Repository, Env,
}

-- A method: it may throw, and what it wrote before stays written.
abbrev pub Method : Type 0 → Type 0
Method A = Exec Repository RepositoryError A

-- `assertIdempotencyKey`
unfoldable pub assert_idempotency_key : String → Method (Unit {0})
assert_idempotency_key key = raise_if (not (is_identifier 199 key)) invalid_state

-- `assertWorkerId`
unfoldable pub assert_worker_id : String → Method (Unit {0})
assert_worker_id worker = raise_if (not (is_identifier 127 worker)) invalid_state

-- `validateWorkflowReference`
unfoldable pub validate_reference : Option String → Method (Unit {0})
validate_reference none = pure tt
validate_reference (some r) = raise_if (not (is_hash_reference r)) invalid_state

-- The name of a phase, as the keys spell it.
abbrev pub phase_name : Phase → String
phase_name analysis = "analysis"
phase_name preflight = "preflight"
phase_name ownership = "ownership"
phase_name browser_auth = "browser_auth"
phase_name explore = "explore"
phase_name propose = "propose"
phase_name review_wait = "review_wait"
phase_name controlled_mutation_verification = "controlled_mutation_verification"
phase_name compile = "compile"
phase_name candidate_verify = "candidate_verify"
phase_name publish = "publish"
phase_name install_verify = "install_verify"

infixr 66 ◌^^◌
abbrev pub ◌^^◌ : String → String → String
a ^^ b = String.◌++◌ a b

-- `#workflowTask`
unfoldable pub workflow_task : String → Method Task
workflow_task id = do found ← gets (λ s. get id s.tasks); or_raise found invalid_state

-- `#workflowRunForActor`
unfoldable pub run_for_actor : Actor → String → Method Run
run_for_actor actor id = do
  found ← gets (λ s. get id s.runs)
  run ← or_raise found not_found
  raise_if (not (str_eq run.organization_id actor.organization_id)) not_found
  pure run

-- `this.#workflowTasks.set(task.id, task)`
unfoldable pub store_task : Task → Method (Unit {0})
store_task t = modify (λ s. record s { tasks = set t.id t s.tasks })

-- The run of the id is read, and stored with some fields given anew.
unfoldable pub update_run : String → (Run → Run) → Method Run
update_run id f s = elim (get id s.runs) [
  | none ↦ (err invalid_state, s)
  | some r ↦ (ok r, record s { runs = set r.id (f r) s.runs })
]

module _ (E : Env) where
  -- `stableHash`
  unfoldable pub stable_hash : String → Result RepositoryError String
  stable_hash v =
      if len v == 0 || ltb 4096 (len v)
      then err invalid_state
      else ok (if is_sha256 v then v else E.sha256 v)

  -- `randomUUID()`
  unfoldable pub random_uuid : Method String
  random_uuid s = (ok (E.uuid s.uuids), record s { uuids = s.uuids + 1 })

  -- The event that `#appendWorkflowEvent` pushes.
  abbrev pub next_event :
      ℕ
      → Repository
      → String
      → Run
      → EventType
      → Option String
      → Option String
      → Option Payload
      → Event
  next_event now s id r type task code payload = record {
    id = E.uuid s.uuids;
    organization_id = r.organization_id;
    project_id = r.project_id;
    workflow_run_id = id;
    task_id = task;
    sequence = length (get_or (get id s.events) []) + 1;
    version = r.version + 1;
    type = type;
    code = code;
    payload = payload;
    created_at = now;
  }

  abbrev pub bumped : ℕ → Run → Run
  bumped now r = record r { version = r.version + 1; updated_at = now }

  -- The tables after a pushed event.
  abbrev pub logged :
      ℕ
      → Repository
      → String
      → Run
      → EventType
      → Option String
      → Option String
      → Option Payload
      → Repository
  logged now s id r type task code payload = record s {
    runs = set id (bumped now r) s.runs;
    events =
        set id (get_or (get id s.events) [] ++ next_event now s id r type task code payload ∷ [])
          s.events;
    uuids = s.uuids + 1;
  }

  -- `#appendWorkflowEvent`
  unfoldable pub append_event :
      ℕ → String → EventType → Option String → Option String → Option Payload → Method Run
  append_event now id type task code payload s = elim (get id s.runs) [
    | none ↦ (err invalid_state, s)
    | some r ↦ (ok (bumped now r), logged now s id r type task code payload)
  ]

  -- `workflowTaskIdempotencyKey`
  unfoldable pub task_idempotency_key : String → Phase → String → Result RepositoryError String
  unfolding stable_hash
  task_idempotency_key run phase hash = elim (stable_hash hash) [
    | err e ↦ err e
    | ok normalized ↦ prefixed (stable_hash (joined normalized))
  ]
    where
      joined : String → String
      joined normalized =
          decimal (length (codes run))
          ^^ ":"
          ^^ run
          ^^ ":"
          ^^ decimal (length (codes (phase_name phase)))
          ^^ ":"
          ^^ phase_name phase
          ^^ ":"
          ^^ normalized

      prefixed : Result RepositoryError String → Result RepositoryError String
      prefixed (err e) = err e
      prefixed (ok digest) = ok ("wft_" ^^ digest)

  abbrev pub is_task_of : String → Phase → Task → Bool
  is_task_of run phase t = str_eq t.workflow_run_id run && same_phase t.phase phase

  abbrev pub new_task : ℕ → String → Run → Phase → String → String → Task
  new_task now id run phase key hash = record {
    id = id;
    organization_id = run.organization_id;
    project_id = run.project_id;
    workflow_run_id = run.id;
    phase = phase;
    status = queued;
    idempotency_key = key;
    input_hash = hash;
    output_hash = none;
    checkpoint_reference = none;
    output_reference = none;
    wait_key_hash = none;
    wait_reason = none;
    wait_expires_at = none;
    resumed_at = none;
    cancel_requested_at = none;
    cancelled_at = none;
    lease_generation = 0;
    lease_owner = none;
    lease_expires_at = none;
    attempts = 0;
    max_attempts = workflow_max_attempts;
    retry_classification = none;
    error_code = none;
    available_at = now;
    reconciled_at = none;
    created_at = now;
    updated_at = now;
  }

  -- `#createWorkflowTask`
  unfoldable pub create_task : ℕ → Run → Phase → String → Method Task
  unfolding stable_hash task_idempotency_key random_uuid store_task append_event
  create_task now run phase hash = do
    normalized ← lift (stable_hash hash)
    existing ← gets (λ s. find (is_task_of run.id phase) (values s.tasks))
    or_run existing do
      id ← random_uuid
      key ← lift (task_idempotency_key run.id phase normalized)
      let t = new_task now id run phase key normalized
      store_task t
      append_event now run.id task_created (some t.id) none none
      pure t

  -- `#commandReplay` over the part of `#workflowCommands` that holds the operation's results.
  unfoldable pub command_replay :
      {A : Type 0} → (Repository → Dict (Command A)) → String → String → String → Method (Option A)
  unfolding assert_idempotency_key stable_hash
  command_replay commands scope key hash = do
    assert_idempotency_key key
    normalized ← lift (stable_hash hash)
    previous ← gets (λ s. get (scope ^^ ":" ^^ key) (commands s))
    when_some previous none λ c. do
      raise_if (not (str_eq c.input_hash normalized)) idempotency_conflict
      pure (some c.result)

-- `#recordCommand` on one part of `#workflowCommands`; its `stableHash` has passed before.
abbrev pub recorded :
    {A : Type 0} → String → String → String → A → Dict (Command A) → Dict (Command A)
recorded scope key normalized result =
    set (scope ^^ ":" ^^ key) (record { input_hash = normalized; result = result })

-- The lease test of `#assertWorkflowLease`, once the run is known to go on.
abbrev pub holds_lease : ℕ → String → ℕ → Task → Bool
holds_lease now worker generation t =
    is_running t.status
    && some_and t.lease_owner (λ o. str_eq o worker)
    && t.lease_generation == generation
    && some_and t.lease_expires_at (λ e. ltb now e)

-- `!run || run.cancelRequestedAt || run.status === "cancelled"`
abbrev pub is_stopped : Option Run → Bool
is_stopped none = true
is_stopped (some r) = is_some r.cancel_requested_at || is_cancelled r.status

-- `#assertWorkflowLease`
unfoldable pub assert_lease : ℕ → String → Task → ℕ → Method (Unit {0})
assert_lease now worker t generation = do
  found ← gets (λ s. get t.workflow_run_id s.runs)
  raise_if (is_stopped found) cancelled_error
  raise_if (not (holds_lease now worker generation t)) lease_lost
