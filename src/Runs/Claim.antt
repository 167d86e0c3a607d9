-- ===== src/Runs/Claim.antt =====
-- `claimAnalysis` (packages/database/src/control-plane.ts). The loop runs over the analyses as they
-- were before it; a method reads the clock once.
pub mod Leased
use text.Mathlib.Text.{◌==◌ as str_eq}
use page2web_mcp.Common.{
  ℕ, ◌+◌, String, Bool, true, false, not, ◌&&◌, ◌||◌, Option, none, some, List, [], ◌∷◌, ltb, leb,
  ◌==◌, if◌then◌else◌, some_and, is_some, get_or, length, find, any, Result, ok, err, Exec, pure,
  gets, or_raise, raise_if, modify, ◌>>=◌, ◌>>◌,
}
use page2web_mcp.Common.Dict.{Dict, get, set, delete, values}
use page2web_mcp.Common.Sort.{sort}
use page2web_mcp.Common.Text.{is_identifier}
use page2web_mcp.Workflow.Phases.{analysis}
use page2web_mcp.Workflow.Types.{
  RepositoryError, invalid_state, failed, running, is_queued, is_running, Status, SourceType,
  website, openapi, github, project_failed, Project, Analysis, Checkpoint, CheckpointState, Run,
  Task, task_claimed, task_failed, workflow_failed, Repository, Env,
}
use page2web_mcp.Workflow.Store.{is_task_of, append_event}
use page2web_mcp.Workflow.Claim.{active_in, quota}
use page2web_mcp.Workflow.Owner.{close_checkpoint}
use page2web_mcp.Projects.Types.{SnapshotRecord, AnalysisSource}
use page2web_mcp.Projects.Reads.{position_le}
use page2web_mcp.Cleanup.Queue.{
  Receipt, CleanupTables, CleanupMethod, repository_of, with_repository, bounded_lease, close_in,
}

-- What the claim takes from outside: what the workflows take, `websiteReferenceDigest`, and
-- `new URL(url).origin`, `none` where it throws.
pub record ClaimEnv : Type 0 where
  pub workflow : Env
  pub reference_digest : String → String
  pub origin : String → Option String

-- What a worker gets: the run, its source and its task; of a run that waited for a user the
-- checkpoint and the receipt, from which the result checkpoint is read off.
pub record ClaimedAnalysis : Type 0 where
  pub run : Analysis
  pub source : AnalysisSource
  pub task : Task
  pub source_snapshot_id : String
  pub checkpoint : Option Checkpoint
  pub live_receipt_evidence : Option Receipt

abbrev pub type_index : SourceType → ℕ
type_index website = 0
type_index openapi = 1
type_index github = 2

abbrev pub includes_type : SourceType → List SourceType → Bool
includes_type t ts = any (λ u. type_index u == type_index t) ts

abbrev pub repeats_type : List SourceType → Bool
repeats_type [] = false
repeats_type (t ∷ ts) = includes_type t ts || repeats_type ts

-- `normalizeAnalysisSourceTypes` does not throw.
abbrev pub are_types : Option (List SourceType) → Bool
are_types none = true
are_types (some ts) = not (length ts == 0 || ltb 3 (length ts) || repeats_type ts)

abbrev pub allows : Option (List SourceType) → SourceType → Bool
allows none t = true
allows (some ts) t = includes_type t ts

abbrev pub organization_order : Repository → Analysis → ℕ
organization_order s r = get_or (get r.organization_id s.claim_order) 0

-- The comparison of the runs, as `compare(left, right) <= 0`.
abbrev pub run_before : Repository → Analysis → Analysis → Bool
run_before s a b =
    if organization_order s a == organization_order s b
    then position_le (a.created_at, a.id) (b.created_at, b.id)
    else leb (organization_order s a) (organization_order s b)

-- Queued and due, or running under a lease that has run out.
abbrev pub is_free_run : ℕ → Repository → Analysis → Bool
is_free_run now s r =
    is_queued r.status && leb (get_or (get r.id s.analysis_available_at) r.created_at) now
    || is_running r.status && some_and r.lease_expires_at (λ at. leb at now)

abbrev pub is_consumed : CheckpointState → Bool
is_consumed CheckpointState.consumed = true
is_consumed _ = false

-- A run that waited for a user has evidence of the authentication that has not run out.
abbrev pub is_authenticated : ℕ → Option Checkpoint → Bool
is_authenticated now none = true
is_authenticated now (some c) =
    is_consumed c.state && is_some c.authentication_evidence_reference && ltb now c.expires_at

abbrev pub max_analysis_attempts : ℕ
max_analysis_attempts = 3

pub data Decision : Type 0 where
  skips gives_up takes : Decision

-- The task of the run in the phase of the analysis.
abbrev pub analysis_task : Env → String → Repository → Option Task
analysis_task E id s = find (is_task_of E id analysis) (values s.tasks)

-- A method of the workflow tables.
unfoldable pub on_workflows : {A : Type 0} → Exec Repository RepositoryError A → CleanupMethod A
on_workflows m s = ((m (repository_of s)).0, with_repository (m (repository_of s)).1 s)

abbrev pub exhausted_run : ℕ → Analysis → Analysis
exhausted_run now r = record r {
  status = failed;
  error_code = some "ATTEMPTS_EXHAUSTED";
  updated_at = now;
}

abbrev pub fail_project : Option Project → Dict Project → Dict Project
fail_project none m = m
fail_project (some p) m = set p.id (record p { status = project_failed }) m

-- The tables with the run failed, and its project.
abbrev pub with_exhausted : ℕ → Analysis → Repository → Repository
with_exhausted now r s = record s {
  analyses = set r.id (exhausted_run now r) s.analyses;
  projects = fail_project (get r.project_id s.projects) s.projects;
  analysis_available_at = delete r.id s.analysis_available_at;
}

abbrev pub is_failed : Status → Bool
is_failed failed = true
is_failed _ = false

abbrev pub exhausted_task : ℕ → Task → Task
exhausted_task now t = record t {
  status = failed;
  error_code = none;
  lease_owner = none;
  lease_expires_at = none;
  updated_at = now;
}

abbrev pub with_failed_workflow : ℕ → Run → Task → Repository → Repository
with_failed_workflow now w t s = record s {
  tasks = set t.id (exhausted_task now t) s.tasks;
  runs =
      set w.id
        (record w { status = failed; error_code = some "ATTEMPTS_EXHAUSTED"; updated_at = now })
        s.runs;
}

-- The run with the lease of the claim.
abbrev pub leased_run : ℕ → String → ℕ → Analysis → Analysis
leased_run now worker lease_ms r = record r {
  status = running;
  attempts = r.attempts + 1;
  lease_owner = some worker;
  lease_expires_at = some (now + bounded_lease lease_ms);
  updated_at = now;
}

-- The task with the lease of its run.
abbrev pub leased_task : ℕ → String → Analysis → Task → Task
leased_task now worker r t = record t {
  status = running;
  attempts = r.attempts;
  lease_generation = t.lease_generation + 1;
  lease_owner = some worker;
  lease_expires_at = r.lease_expires_at;
  updated_at = now;
}

abbrev pub resumed_receipt : ℕ → String → ℕ → Receipt → Receipt
resumed_receipt now digest generation e =
    if is_some e.resumed_worker_identity_digest then e else record e {
      resumed_worker_identity_digest = some digest;
      resume_lease_generation = some generation;
      resume_claimed_at = some now;
    }

-- The tables after the claim: its place in the claim order, and the workflow running.
abbrev pub with_workflow : ℕ → Analysis → Run → Repository → Repository
with_workflow now r w s = record s {
  claim_order = set r.organization_id (s.claim_sequence + 1) s.claim_order;
  claim_sequence = s.claim_sequence + 1;
  runs =
      set w.id (record w { status = running; current_phase = analysis; updated_at = now }) s.runs;
}

abbrev pub store_run : Analysis → Repository → Repository
store_run r s = record s { analyses = set r.id r s.analyses }

abbrev pub store_run_task : Task → Repository → Repository
store_run_task t s = record s { tasks = set t.id t s.tasks }

-- A write in the workflow tables.
abbrev pub write : (Repository → Repository) → CleanupMethod (Unit {0})
write f = modify (λ s. with_repository (f (repository_of s)) s)

module _ (E : ClaimEnv) (now : ℕ) where
  abbrev pub decide_run :
      Option (List SourceType) → Dict ℕ → Repository → Analysis → AnalysisSource → Decision
  decide_run types active s r source =
      if not (allows types source.source_type)
        || leb (quota E.workflow) (get_or (get r.organization_id active) 0)
        || not (is_free_run now s r)
        || not (is_authenticated now (get r.id s.checkpoints))
      then skips
      else if leb max_analysis_attempts r.attempts
      then gives_up
      else takes

  unfoldable pub fail_workflow : Option Run → Option Task → CleanupMethod (Unit {0})
  unfolding append_event on_workflows
  fail_workflow (some w) (some t) = if is_failed w.status then pure tt else do
    write (with_failed_workflow now w t)
    on_workflows
        (append_event E.workflow now w.id task_failed (some t.id) (some "ATTEMPTS_EXHAUSTED") none)
    on_workflows
        (append_event E.workflow now w.id workflow_failed none (some "ATTEMPTS_EXHAUSTED") none)
    pure tt
  fail_workflow _ _ = pure tt

  -- A run with no attempt left.
  unfoldable pub give_up_run : Analysis → CleanupMethod (Unit {0})
  unfolding close_in fail_workflow
  give_up_run r = do
    write (with_exhausted now r)
    modify (close_in now r.id CheckpointState.failed)
    workflow ← gets (λ s. get r.id (repository_of s).runs)
    task ← gets (λ s. analysis_task E.workflow r.id (repository_of s))
    fail_workflow workflow task

  -- The checkpoint belongs to the run, its task and its snapshot.
  abbrev pub is_checkpoint_of :
      Analysis → Task → SnapshotRecord → AnalysisSource → Option Checkpoint → Bool
  is_checkpoint_of r t snapshot source none = true
  is_checkpoint_of r t snapshot source (some c) =
      str_eq c.organization_id r.organization_id
      && str_eq c.project_id r.project_id
      && str_eq c.workflow_task_id t.id
      && str_eq c.source_snapshot_id snapshot.id
      && str_eq c.source_identity_hash snapshot.source_identity_hash
      && some_and (E.origin source.source_url)
          (λ o. str_eq c.target_origin_digest (E.workflow.sha256 o))

  -- The receipt of a run that waited for a user, which records the worker that resumes it.
  unfoldable pub resume_receipt :
      String → Analysis → Task → Option Checkpoint → CleanupMethod (Option Receipt)
  resume_receipt worker r t none = pure none
  resume_receipt worker r t (some c) = do
    found ← gets (λ s. get r.id s.receipts)
    persisted ← or_raise found invalid_state
    raise_if (not (is_some persisted.resumed_worker_identity_digest || is_identifier 127 worker))
        invalid_state
    let e = resumed_receipt now (E.reference_digest worker) t.lease_generation persisted
    modify (λ s. record s { receipts = set r.id e s.receipts })
    pure (some e)

  -- The writes of a claim after its checks.
  unfoldable pub lease_run :
      String
      → Analysis
      → AnalysisSource
      → Run
      → Task
      → SnapshotRecord
      → Option Checkpoint
      → CleanupMethod (Option ClaimedAnalysis)
  unfolding resume_receipt append_event on_workflows
  lease_run worker r source w t snapshot checkpoint = do
    write (store_run_task t)
    receipt ← resume_receipt worker r t checkpoint
    write (with_workflow now r w)
    on_workflows (append_event E.workflow now w.id task_claimed (some t.id) none none)
    pure (
        some (record {
          run = r;
          source = source;
          task = t;
          source_snapshot_id = snapshot.id;
          checkpoint = checkpoint;
          live_receipt_evidence = receipt;
        }))

  -- The claim of a run: it is written before the checks of its workflow.
  unfoldable pub take_run :
      String
      → ℕ
      → Analysis
      → AnalysisSource
      → Option Checkpoint
      → CleanupMethod (Option ClaimedAnalysis)
  unfolding lease_run
  take_run worker lease_ms r source checkpoint = do
    let claimed = leased_run now worker lease_ms r
    write (store_run claimed)
    workflows ← gets (λ s. get r.id (repository_of s).runs)
    tasks ← gets (λ s. analysis_task E.workflow r.id (repository_of s))
    w ← or_raise workflows invalid_state
    t ← or_raise tasks invalid_state
    raise_if (not (is_queued t.status || is_running t.status)) invalid_state
    snapshots ← gets (λ s. get w.source_snapshot_id s.tables.snapshots)
    snapshot ← or_raise snapshots invalid_state
    raise_if (not (is_checkpoint_of r t snapshot source checkpoint)) invalid_state
    lease_run worker claimed source w (leased_task now worker claimed t) snapshot checkpoint

  -- What is done with a run of the loop; `rest` is the loop over the others.
  abbrev pub continue_with :
      String
      → ℕ
      → Analysis
      → AnalysisSource
      → Option Checkpoint
      → CleanupMethod (Option ClaimedAnalysis)
      → Decision
      → CleanupMethod (Option ClaimedAnalysis)
  unfolding take_run give_up_run
  continue_with worker lease_ms r source checkpoint rest skips = rest
  continue_with worker lease_ms r source checkpoint rest gives_up = give_up_run r >> rest
  continue_with worker lease_ms r source checkpoint rest takes =
      take_run worker lease_ms r source checkpoint

  -- The loop over the runs.
  unfoldable pub claim_runs :
      String
      → ℕ
      → Option (List SourceType)
      → Dict ℕ
      → List Analysis
      → CleanupMethod (Option ClaimedAnalysis)
  unfolding continue_with
  claim_runs worker lease_ms types active [] = pure none
  claim_runs worker lease_ms types active (r ∷ rs) = do
    sources ← gets (λ s. get r.id s.tables.analysis_sources)
    source ← or_raise sources invalid_state
    checkpoint ← gets (λ s. get r.id (repository_of s).checkpoints)
    decision ← gets (λ s. decide_run types active (repository_of s) r source)
    continue_with worker lease_ms r source checkpoint (claim_runs worker lease_ms types active rs)
        decision

  -- `claimAnalysis`
  unfoldable pub claim_analysis :
      String → ℕ → Option (List SourceType) → CleanupMethod (Option ClaimedAnalysis)
  unfolding claim_runs sort
  claim_analysis worker lease_ms types = do
    raise_if (not (are_types types)) invalid_state
    active ← gets (λ s. active_in now (repository_of s))
    runs ← gets (λ s. sort (run_before (repository_of s)) (values (repository_of s).analyses))
    claim_runs worker lease_ms types active runs
