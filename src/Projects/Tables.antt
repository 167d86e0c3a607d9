-- ===== src/Projects/Tables.antt =====
-- The private methods of `InMemoryControlPlaneRepository` that the methods on projects share
-- (packages/database/src/control-plane.ts), and `computeSourceIdentityHash`
-- (packages/database/src/source-identity.ts).
use text.Mathlib.Text.{◌==◌ as str_eq}
use page2web_mcp.Common.{
  ℕ, ◌+◌, String, not, ◌&&◌, Option, none, some, [], ◌∷◌, ◌++◌, leb, find, if◌then◌else◌, Exec,
  Result, ok, err, pure, gets, or_raise, when_some, raise_if, modify, ◌>>=◌, ◌>>◌,
}
use page2web_mcp.Common.Decimal.{decimal}
use page2web_mcp.Common.Dict.{get, set, delete, values}
use page2web_mcp.Workflow.Types.{
  RepositoryError, forbidden, not_found, idempotency_conflict, invalid_state, Actor, Repository,
  SourceType, website, openapi, github, Project,
}
use page2web_mcp.Workflow.Store.{◌^^◌}
use page2web_mcp.Release.Types.{IdempotencyRecord}
use page2web_mcp.Release.Tables.{idempotency_ttl_ms}
use page2web_mcp.Projects.Types.{
  ProjectError, repository_error, SnapshotRecord, ProjectTables, ProjectEnv,
}

abbrev pub ProjectMethod : Type 0 → Type 0
ProjectMethod A = Exec ProjectTables ProjectError A

-- `throw new RepositoryError("INVALID_STATE")`, and the others.
abbrev pub bad_state : ProjectError
bad_state = repository_error invalid_state

abbrev pub no_such : ProjectError
no_such = repository_error not_found

abbrev pub not_allowed : ProjectError
not_allowed = repository_error forbidden

-- `#assertProject`
unfoldable pub assert_project : Actor → String → ProjectMethod Project
assert_project actor id = do
  found ← gets (λ s. get id s.repository.projects)
  project ← or_raise found no_such
  raise_if (not (str_eq project.organization_id actor.organization_id)) no_such
  pure project

-- What is found under the key, once what has run out is removed.
unfoldable pub drop_expired : ℕ → String → ProjectMethod (Option IdempotencyRecord)
drop_expired now id = do
  previous ← gets (λ s. get id s.idempotency)
  when_some previous none λ p.
      if leb p.expires_at now
      then (modify (λ s. record s { idempotency = delete id s.idempotency }) >> pure none)
      else pure (some p)

-- `#idempotentReplay`
unfoldable pub idempotent_replay : ℕ → String → String → ProjectMethod (Option IdempotencyRecord)
unfolding drop_expired
idempotent_replay now id input_hash = do
  previous ← drop_expired now id
  when_some previous none λ p. do
    raise_if (not (str_eq p.input_hash input_hash)) (repository_error idempotency_conflict)
    pure (some p)

abbrev pub reservation : ℕ → String → String → IdempotencyRecord
reservation now input_hash result_id = record {
  input_hash = input_hash;
  result_id = result_id;
  expires_at = now + idempotency_ttl_ms;
}

-- `#reserveIdempotency`
unfoldable pub reserve : ℕ → String → String → String → ProjectMethod (Unit {0})
reserve now id input_hash result_id =
    modify
      λ s. record s { idempotency = set id (reservation now input_hash result_id) s.idempotency }

-- An error of the workflow methods is thrown on.
abbrev pub lifted : {A : Type 0} → Result RepositoryError A → Result ProjectError A
lifted (ok a) = ok a
lifted (err e) = err (repository_error e)

-- A method of the workflow tables.
unfoldable pub on_repository : {A : Type 0} → Exec Repository RepositoryError A → ProjectMethod A
on_repository m s = (lifted (m s.repository).0, record s { repository = (m s.repository).1 })

-- `#activeSourceSnapshot`
unfoldable pub active_snapshot : String → ProjectTables → Option SnapshotRecord
active_snapshot project s =
    elim (find (λ c. str_eq c.project_id project && c.active) (values s.sources)) [
      | none ↦ none
      | some source ↦ find (λ c. str_eq c.project_source_id source.id) (values s.snapshots)
    ]

abbrev pub source_type_name : SourceType → String
source_type_name website = "website"
source_type_name openapi = "openapi"
source_type_name github = "github"

module _ (E : ProjectEnv) where
  -- `randomUUID()`
  unfoldable pub draw_uuid : ProjectMethod String
  draw_uuid s = (
    ok (E.workflow.uuid s.repository.uuids),
    record s { repository = record s.repository { uuids = s.repository.uuids + 1 } },
  )

  -- `#auditEvent`
  unfoldable pub audit_event : ℕ → Actor → String → String → ProjectMethod (Unit {0})
  unfolding draw_uuid
  audit_event now actor action target = do
    id ← draw_uuid
    modify λ s. record s {
      audit =
          s.audit
          ++ (record {
            id = id;
            organization_id = actor.organization_id;
            actor_id = actor.id;
            action = action;
            target_id = target;
            created_at = now;
          })
            ∷ [];
    }

  -- `computeSourceIdentityHash`, `none` where it throws.
  unfoldable pub source_identity_hash : SourceType → String → String → Option String
  source_identity_hash type url configuration =
      if str_eq url ""
      then none
      else some (
          E.workflow.sha256 (
            decimal (E.byte_length (source_type_name type))
            ^^ ":"
            ^^ source_type_name type
            ^^ ":"
            ^^ decimal (E.byte_length url)
            ^^ ":"
            ^^ url
            ^^ ":"
            ^^ decimal (E.byte_length configuration)
            ^^ ":"
            ^^ configuration))
