-- ===== src/Projects/Analyses.antt =====
-- `enqueueAnalysis` and `getAnalysisReplay` (packages/database/src/control-plane.ts), in the order
-- of the source; their parts are the steps of one method.
pub mod OneOpen
use text.Mathlib.Text.{◌==◌ as str_eq}
use page2web_mcp.Common.{
  ℕ, String, Bool, true, false, not, ◌&&◌, ◌||◌, Option, none, some, List, find, any, some_and,
  pure, gets, or_raise, raise_if, modify, ◌>>=◌, ◌>>◌,
}
use page2web_mcp.Common.Dict.{get, set, values}
use page2web_mcp.Workflow.Phases.{analysis}
use page2web_mcp.Workflow.Types.{
  queued, is_queued, is_running, is_viewer, analyzing, Actor, Project, Analysis,
}
use page2web_mcp.Workflow.Owner.{RunInput, create_run}
use page2web_mcp.Release.Types.{IdempotencyRecord}
use page2web_mcp.Release.Tables.{idempotency_id}
use page2web_mcp.Projects.Types.{
  source_snapshot_stale, SourceRecord, SnapshotRecord, AnalysisSource, ProjectTables, ProjectEnv,
}
use page2web_mcp.Projects.Tables.{
  ProjectMethod, bad_state, not_allowed, assert_project, idempotent_replay, reserve, on_repository,
  active_snapshot, draw_uuid, audit_event,
}

pub record ExpectedSource : Type 0 where
  pub project_source_id : String
  pub source_snapshot_id : String
  pub source_identity_hash : String

pub record EnqueueInput : Type 0 where
  pub project_id : String
  pub expected_source : Option ExpectedSource
  pub idempotency_key : String
  pub input_hash : String

abbrev pub is_expected : SourceRecord → SnapshotRecord → Option ExpectedSource → Bool
is_expected source snapshot none = true
is_expected source snapshot (some x) =
    str_eq x.project_source_id source.id
    && str_eq x.source_snapshot_id snapshot.id
    && str_eq x.source_identity_hash snapshot.source_identity_hash

-- A run of the project that is queued or running.
abbrev pub is_open_of : String → Analysis → Bool
is_open_of project r = str_eq r.project_id project && (is_queued r.status || is_running r.status)

abbrev pub is_source_of : Actor → String → SourceRecord → Bool
is_source_of actor project c =
    str_eq c.project_id project && str_eq c.organization_id actor.organization_id && c.active

module _ (E : ProjectEnv) (now : ℕ) where
  -- The run that an earlier command with this key has queued.
  unfoldable pub replayed_run : Actor → Project → IdempotencyRecord → ProjectMethod Analysis
  replayed_run actor project previous = do
    found ← gets (λ s. get previous.result_id s.repository.analyses)
    run ← or_raise found bad_state
    raise_if
        (not (str_eq run.organization_id actor.organization_id)
          || not (str_eq run.project_id project.id))
        bad_state
    pure run

  -- The active source of the project and its snapshot, which are those expected.
  unfoldable pub current_source :
      Actor → Project → EnqueueInput → ProjectMethod (SourceRecord × SnapshotRecord)
  unfolding active_snapshot
  current_source actor project i = do
    sources ← gets (λ s. find (is_source_of actor project.id) (values s.sources))
    snapshots ← gets (active_snapshot project.id)
    snapshot ← or_raise snapshots bad_state
    source ← or_raise sources bad_state
    raise_if (not (str_eq snapshot.project_source_id source.id)) bad_state
    raise_if (not (is_expected source snapshot i.expected_source)) source_snapshot_stale
    pure (source, snapshot)

  abbrev pub new_analysis : Actor → Project → String → Analysis
  new_analysis actor project id = record {
    id = id;
    organization_id = actor.organization_id;
    project_id = project.id;
    requested_by = actor.id;
    status = queued;
    attempts = 0;
    lease_owner = none;
    lease_expires_at = none;
    error_code = none;
    created_at = now;
    updated_at = now;
  }

  abbrev pub run_input : Project → SnapshotRecord → EnqueueInput → Analysis → RunInput
  run_input project snapshot i run = record {
    id = run.id;
    project = project;
    source_snapshot_id = snapshot.id;
    input_hash = i.input_hash;
    phase = analysis;
    analysis_run_id = some run.id;
    reviewed_analysis_run_id = none;
  }

  abbrev pub source_of : SourceRecord → AnalysisSource
  source_of source = record {
    source_type = source.source_type;
    source_url = source.source_url;
    source_configuration = source.source_configuration;
  }

  -- The tables with the queued analysis.
  abbrev pub with_analysis : Analysis → SourceRecord → ProjectTables → ProjectTables
  with_analysis run source s = record s {
    repository = record s.repository {
      analyses = set run.id run s.repository.analyses;
      analysis_available_at = set run.id now s.repository.analysis_available_at;
    };
    analysis_sources = set run.id (source_of source) s.analysis_sources;
  }

  -- The writes of a new analysis.
  unfoldable pub queue_run :
      Actor
      → Project
      → EnqueueInput
      → String
      → SourceRecord
      → SnapshotRecord
      → Analysis
      → ProjectMethod Analysis
  unfolding on_repository create_run reserve audit_event
  queue_run actor project i key source snapshot run = do
    modify (with_analysis run source)
    on_repository (create_run E.workflow now (run_input project snapshot i run))
    modify λ s. record s {
      repository = record s.repository {
        projects = set project.id (record project { status = analyzing }) s.repository.projects;
      };
    }
    reserve now key i.input_hash run.id
    audit_event E now actor "analysis.queued" run.id
    pure run

  -- An analysis whose key is new.
  unfoldable pub enqueue_new : Actor → Project → EnqueueInput → String → ProjectMethod Analysis
  unfolding current_source draw_uuid queue_run
  enqueue_new actor project i key = do
    found ← current_source actor project i
    busy ← gets (λ s. any (is_open_of project.id) (values s.repository.analyses))
    raise_if busy bad_state
    id ← draw_uuid E
    queue_run actor project i key found.0 found.1 (new_analysis actor project id)

  abbrev pub enqueue_or_replay :
      Actor → Project → EnqueueInput → String → Option IdempotencyRecord → ProjectMethod Analysis
  unfolding enqueue_new replayed_run
  enqueue_or_replay actor project i key none = enqueue_new actor project i key
  enqueue_or_replay actor project i key (some previous) = replayed_run actor project previous

  -- `enqueueAnalysis`
  unfoldable pub enqueue_analysis : Actor → EnqueueInput → ProjectMethod Analysis
  unfolding assert_project idempotent_replay enqueue_or_replay
  enqueue_analysis actor i = do
    raise_if (is_viewer actor.role) not_allowed
    project ← assert_project actor i.project_id
    let key = idempotency_id "analysis" actor i.idempotency_key
    previous ← idempotent_replay now key i.input_hash
    enqueue_or_replay actor project i key previous

  abbrev pub replay_if_some :
      Actor → Project → Option IdempotencyRecord → ProjectMethod (Option Analysis)
  unfolding replayed_run
  replay_if_some actor project none = pure none
  replay_if_some actor project (some previous) = do
    run ← replayed_run actor project previous
    pure (some run)

  -- `getAnalysisReplay`
  unfoldable pub analysis_replay :
      Actor → String → String → String → ProjectMethod (Option Analysis)
  unfolding assert_project idempotent_replay replay_if_some
  analysis_replay actor project_id idempotency_key input_hash = do
    raise_if (is_viewer actor.role) not_allowed
    project ← assert_project actor project_id
    previous ← idempotent_replay now (idempotency_id "analysis" actor idempotency_key) input_hash
    replay_if_some actor project previous
