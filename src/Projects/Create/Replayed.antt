-- ===== src/Projects/Create/Replayed.antt =====
-- The replay of a command that made a project (packages/database/src/control-plane.ts).
use text.Mathlib.Text.{◌==◌ as str_eq}
use text.Mathlib.TextPositions.{eq_refl}
use page2web_mcp.Common.{
  ℕ, ◌+◌, ◌<◌, String, ◌≡◌, refl, true, false, none, some, leb, arith, ok, ◌>>=◌,
}
use page2web_mcp.Common.Dict.{get, get-set_self}
use page2web_mcp.Workflow.Types.{Actor, is_viewer, Project}
use page2web_mcp.Release.Tables.{idempotency_id, idempotency_ttl_ms}
use page2web_mcp.Projects.Types.{ProjectTables, ProjectEnv}
use page2web_mcp.Projects.Tables.{
  source_identity_hash, drop_expired, idempotent_replay, reservation, reserve, draw_uuid,
  audit_event,
}
use page2web_mcp.Projects.Create.{
  CreateInput, normalize_configuration, new_project, store_project, replayed_project,
  create_or_replay, create_project,
}

module _ (E : ProjectEnv) (now : ℕ) (actor : Actor) (i : CreateInput) where
  abbrev key : String
  key = idempotency_id "project" actor i.idempotency_key

  abbrev pub made : ProjectTables → Project
  made s = new_project E now actor i (E.workflow.uuid s.repository.uuids)

  -- What a new project leaves in the tables.
  stored :
      (k configuration : String) (s : ProjectTables)
      → str_eq i.url "" ≡ false
      → ((store_project E now actor i k configuration s).0 ≡ ok (made s))
        × (get (made s).id (store_project E now actor i k configuration s).1.repository.projects
            ≡ some (made s))
        × (get k (store_project E now actor i k configuration s).1.idempotency
            ≡ some (reservation now i.input_hash (made s).id))
  unfolding store_project draw_uuid source_identity_hash reserve audit_event ◌>>=◌
  stored k configuration s url = rw url (
    refl,
    get-set_self (made s).id (made s) s.repository.projects,
    get-set_self k (reservation now i.input_hash (made s).id) s.idempotency,
  )

  -- A command with a new key makes a project.
  fresh :
      (configuration : String) (s : ProjectTables)
      → is_viewer actor.role ≡ false
      → get key s.idempotency ≡ none
      → normalize_configuration E i.source_type i.source_configuration ≡ ok configuration
      → create_project E now actor i s ≡ store_project E now actor i key configuration s
  unfolding create_project idempotent_replay drop_expired create_or_replay ◌>>=◌
  fresh configuration s role free normal = rw (role, free, normal) refl

  -- A command whose key is recorded answers the project that is stored.
  replays :
      (later : ℕ) (p : Project) (t : ProjectTables)
      → is_viewer actor.role ≡ false
      → get key t.idempotency ≡ some (reservation now i.input_hash p.id)
      → later < now + idempotency_ttl_ms
      → get p.id t.repository.projects ≡ some p
      → str_eq p.organization_id actor.organization_id ≡ true
      → create_project E later actor i t ≡ (ok p, t)
  unfolding create_project idempotent_replay drop_expired create_or_replay replayed_project ◌>>=◌
  replays later p t role recorded in_time found own =
      let kept : leb (now + idempotency_ttl_ms) later ≡ false = ground arith in
      rw (role, recorded, kept, eq_refl i.input_hash, found, own) refl

-- A command of no viewer whose key has no record at all, run out or not, and whose configuration is
-- good makes a project of a source with a URL; the command is answered alike when it is repeated
-- within a day: the same project comes back, and the tables do not change.
pub create_project-create_project :
    (E : ProjectEnv) (now later : ℕ) (actor : Actor) (i : CreateInput) (configuration : String)
    (s : ProjectTables)
    → is_viewer actor.role ≡ false
    → get (idempotency_id "project" actor i.idempotency_key) s.idempotency ≡ none
    → normalize_configuration E i.source_type i.source_configuration ≡ ok configuration
    → str_eq i.url "" ≡ false
    → later < now + idempotency_ttl_ms
    → ((create_project E now actor i s).0 ≡ ok (made E now actor i s))
      × (create_project E later actor i (create_project E now actor i s).1
          ≡ (ok (made E now actor i s), (create_project E now actor i s).1))
create_project-create_project E now later actor i configuration s role free normal url in_time =
    let k = idempotency_id "project" actor i.idempotency_key in
    let first = fresh E now actor i configuration s role free normal in
    let h = stored E now actor i k configuration s url in
    rw first (
      h.0,
      replays E now actor i later (made E now actor i s)
          (store_project E now actor i k configuration s).1 role h.2 in_time h.1
          (eq_refl actor.organization_id),
    )
