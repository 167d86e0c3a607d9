-- ===== src/Projects/Create.antt =====
-- `createProject` (packages/database/src/control-plane.ts), in the order of the source; its parts
-- are the steps of one method.
pub mod Replayed
use text.Mathlib.Text.{◌==◌ as str_eq}
use page2web_mcp.Common.{
  ℕ, String, Bool, true, false, not, Option, none, some, pure, gets, or_raise, raise_if, modify,
  ◌>>=◌, ◌>>◌, Result, ok, err, lift, if◌then◌else◌,
}
use page2web_mcp.Common.Dict.{get, set}
use page2web_mcp.Workflow.Types.{
  created, is_viewer, Actor, SourceType, website, openapi, github, Project,
}
use page2web_mcp.Workflow.Store.{◌^^◌}
use page2web_mcp.Release.Types.{IdempotencyRecord}
use page2web_mcp.Release.Tables.{idempotency_id}
use page2web_mcp.Projects.Types.{
  source_identity_input_invalid, openapi_verification_context_required, ProjectError, configured,
  legacy_unconfigured, SourceRecord, SnapshotRecord, ProjectTables, ProjectEnv,
}
use page2web_mcp.Projects.Tables.{
  ProjectMethod, bad_state, not_allowed, idempotent_replay, reserve, draw_uuid, audit_event,
  source_identity_hash,
}

pub record CreateInput : Type 0 where
  pub name : String
  pub source_type : SourceType
  pub url : String
  pub source_configuration : Option String
  pub idempotency_key : String
  pub input_hash : String

abbrev pub kind_name : SourceType → String
kind_name website = "website"
kind_name openapi = "openapi"
kind_name github = "github"

-- The canonical text of `{ kind }`.
abbrev pub bare_configuration : SourceType → String
bare_configuration t = "{\"kind\":\"" ^^ kind_name t ^^ "\"}"

abbrev pub same_source_type : SourceType → SourceType → Bool
same_source_type website website = true
same_source_type openapi openapi = true
same_source_type github github = true
same_source_type _ _ = false

-- What is thrown where no configuration of the type can be read.
abbrev pub unreadable : SourceType → ProjectError
unreadable openapi = openapi_verification_context_required
unreadable _ = bad_state

-- `parseSourceConfiguration`
unfoldable pub parse_configuration : ProjectEnv → String → SourceType → Result ProjectError String
parse_configuration E value t = elim (E.parse_stored value) [
  | none ↦ err (unreadable t)
  | some (legacy_unconfigured, text) ↦
      if same_source_type t openapi
      then err openapi_verification_context_required
      else ok (bare_configuration t)
  | some (configured kind, text) ↦ if same_source_type kind t then ok text else err (unreadable t)
]

-- `normalizeSourceConfiguration`
unfoldable pub normalize_configuration :
    ProjectEnv → SourceType → Option String → Result ProjectError String
unfolding parse_configuration
normalize_configuration E openapi none = err openapi_verification_context_required
normalize_configuration E t none = ok (bare_configuration t)
normalize_configuration E t (some value) = parse_configuration E value t

module _ (E : ProjectEnv) (now : ℕ) where
  abbrev pub new_project : Actor → CreateInput → String → Project
  new_project actor i id = record {
    id = id;
    organization_id = actor.organization_id;
    created_by = actor.id;
    name = i.name;
    source_type = i.source_type;
    url = i.url;
    status = created;
    created_at = now;
  }

  abbrev pub new_source : Project → String → String → SourceRecord
  new_source p configuration id = record {
    id = id;
    organization_id = p.organization_id;
    project_id = p.id;
    source_type = p.source_type;
    source_url = p.url;
    source_configuration = configuration;
    version = 1;
    active = true;
    created_at = p.created_at;
  }

  abbrev pub new_snapshot : Project → SourceRecord → String → String → SnapshotRecord
  new_snapshot p source hash id = record {
    id = id;
    organization_id = p.organization_id;
    project_id = p.id;
    project_source_id = source.id;
    source_identity_hash = hash;
    is_fixture = false;
    created_at = p.created_at;
  }

  -- The project, its source and its snapshot are stored, and the command is recorded.
  unfoldable pub store_project : Actor → CreateInput → String → String → ProjectMethod Project
  unfolding draw_uuid source_identity_hash reserve audit_event
  store_project actor i key configuration = do
    id ← draw_uuid E
    let project = new_project actor i id
    modify λ s. record s {
      repository = record s.repository { projects = set project.id project s.repository.projects };
    }
    source_id ← draw_uuid E
    let source = new_source project configuration source_id
    modify (λ s. record s { sources = set source.id source s.sources })
    snapshot_id ← draw_uuid E
    hash ←
        or_raise (source_identity_hash E project.source_type project.url configuration)
          source_identity_input_invalid
    let snapshot = new_snapshot project source hash snapshot_id
    modify (λ s. record s { snapshots = set snapshot.id snapshot s.snapshots })
    reserve now key i.input_hash project.id
    audit_event E now actor "project.created" project.id
    pure project

  -- The project that an earlier command with this key has made.
  unfoldable pub replayed_project : Actor → IdempotencyRecord → ProjectMethod Project
  replayed_project actor previous = do
    found ← gets (λ s. get previous.result_id s.repository.projects)
    project ← or_raise found bad_state
    raise_if (not (str_eq project.organization_id actor.organization_id)) bad_state
    pure project

  abbrev pub create_or_replay :
      Actor → CreateInput → String → Option IdempotencyRecord → ProjectMethod Project
  unfolding store_project replayed_project normalize_configuration
  create_or_replay actor i key (some previous) = replayed_project actor previous
  create_or_replay actor i key none = do
    configuration ← lift (normalize_configuration E i.source_type i.source_configuration)
    store_project actor i key configuration

  -- `createProject`
  unfoldable pub create_project : Actor → CreateInput → ProjectMethod Project
  unfolding idempotent_replay create_or_replay
  create_project actor i = do
    raise_if (is_viewer actor.role) not_allowed
    let key = idempotency_id "project" actor i.idempotency_key
    previous ← idempotent_replay now key i.input_hash
    create_or_replay actor i key previous
