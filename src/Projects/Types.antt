-- ===== src/Projects/Types.antt =====
-- The records of projects, sources, snapshots and analyses, and the tables of
-- `InMemoryControlPlaneRepository` that their methods use
-- (packages/database/src/control-plane.ts, packages/database/src/workflow.ts). A source
-- configuration stands for its canonical JSON text. Times are milliseconds.
use page2web_mcp.Common.{ℕ, String, Bool, Option, List}
use page2web_mcp.Common.Dict.{Dict}
use page2web_mcp.Workflow.Types.{RepositoryError, SourceType, Repository, Env}
use page2web_mcp.Release.Types.{IdempotencyRecord, AuditEvent}

pub data ProjectError : Type 0 where
  source_snapshot_stale invalid_cursor openapi_verification_context_required : ProjectError
  -- `SOURCE_IDENTITY_INPUT_INVALID`, an error outside the codes of the repository
  source_identity_input_invalid : ProjectError
  repository_error : RepositoryError → ProjectError

pub record SourceRecord : Type 0 where
  pub id : String
  pub organization_id : String
  pub project_id : String
  pub source_type : SourceType
  pub source_url : String
  pub source_configuration : String
  pub version : ℕ
  pub active : Bool
  pub created_at : ℕ

pub record SnapshotRecord : Type 0 where
  pub id : String
  pub organization_id : String
  pub project_id : String
  pub project_source_id : String
  pub source_identity_hash : String
  pub is_fixture : Bool
  pub created_at : ℕ

pub record AnalysisSource : Type 0 where
  pub source_type : SourceType
  pub source_url : String
  pub source_configuration : String

-- The tables; `repository` holds those of the workflows, the projects and the analyses among them,
-- and counts the draws of `randomUUID`.
pub record ProjectTables : Type 0 where
  pub sources : Dict SourceRecord
  pub snapshots : Dict SnapshotRecord
  pub analysis_sources : Dict AnalysisSource
  pub idempotency : Dict IdempotencyRecord
  pub audit : List AuditEvent
  pub repository : Repository

-- What a stored configuration says that it is of: a source type, or `legacy_unconfigured`.
pub data ConfigurationKind : Type 0 where
  configured : SourceType → ConfigurationKind
  legacy_unconfigured : ConfigurationKind

-- What the methods take from outside: what the workflows take, the reading of a configuration by
-- `parseStoredSourceConfiguration` (its kind and its canonical text, `none` where it throws), and the byte length of a text in UTF-8.
pub record ProjectEnv : Type 0 where
  pub workflow : Env
  pub parse_stored : String → Option (ConfigurationKind × String)
  pub byte_length : String → ℕ
