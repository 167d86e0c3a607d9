-- ===== src/Projects/Reads.antt =====
-- The methods that read projects, sources and analyses (packages/database/src/control-plane.ts). A
-- cursor of a page is the position that `decodeProjectCursor` reads from it, `none` where the text
-- is no cursor, and the next cursor is the position that `encodeProjectCursor` writes; an ISO text
-- of a time orders as the time.
pub mod Tenants
use Prim.Native.Nat.{Ordering, compare}
use text.Mathlib.Text.{◌==◌ as str_eq}
use page2web_mcp.Common.{
  ℕ, ◌+◌, String, Bool, true, false, not, ◌&&◌, ◌||◌, Option, none, some, List, [], ◌∷◌, ltb, leb,
  ◌==◌, find, filter, head?, last?, length, if◌then◌else◌, get_or, pure, gets, or_raise, raise_if,
  ◌>>=◌, ◌>>◌,
}
use page2web_mcp.Common.Dict.{get, values}
use page2web_mcp.Common.Sort.{sort}
use page2web_mcp.Workflow.Types.{Actor, Project, Analysis}
use page2web_mcp.Release.Checks.{text_le}
use page2web_mcp.Release.Tables.{take}
use page2web_mcp.Projects.Types.{invalid_cursor, SourceRecord, SnapshotRecord, ProjectTables}
use page2web_mcp.Projects.Tables.{ProjectMethod, no_such, assert_project}

-- By the time, and by the id where the times agree.
abbrev pub position_le : ℕ × String → ℕ × String → Bool
position_le a b = if a.0 == b.0 then text_le a.1 b.1 else leb a.0 b.0

abbrev pub position_of : Project → ℕ × String
position_of p = (p.created_at, p.id)

abbrev pub own : Actor → ProjectTables → List Project
own actor s =
    filter (λ p. str_eq p.organization_id actor.organization_id) (values s.repository.projects)

-- `listProjects`
unfoldable pub list_projects : Actor → ProjectTables → List Project
unfolding sort
list_projects actor s = sort (λ a b. position_le (position_of a) (position_of b)) (own actor s)

pub record Page : Type 0 where
  pub projects : List Project
  pub next : Option (ℕ × String)

-- `MAX_PROJECT_PAGE_SIZE`
abbrev pub max_page_size : ℕ
max_page_size = 100

-- The projects past the cursor.
abbrev pub past : Option (ℕ × String) → List Project → List Project
past none ps = ps
past (some c) ps = filter (λ p. not (position_le (position_of p) c)) ps

abbrev pub next_position : Option Project → Option (ℕ × String)
next_position none = none
next_position (some p) = some (position_of p)

abbrev pub page_of : ℕ → List Project → Page
unfolding take
page_of limit candidates = record {
  projects = take limit candidates;
  next =
      if ltb limit (length candidates) then next_position (last? (take limit candidates)) else none;
}

-- `listProjectsPage`: the limit is `none` where none is given, the cursor `none` where none or the
-- empty text is given and `some none` where the text is no cursor.
unfoldable pub list_projects_page :
    Actor → Option ℕ → Option (Option (ℕ × String)) → ProjectMethod Page
unfolding list_projects page_of
list_projects_page actor limit none = do
  let n = get_or limit 50
  raise_if (ltb n 1 || ltb max_page_size n) invalid_cursor
  gets (λ s. page_of n (list_projects actor s))
list_projects_page actor limit (some cursor) = do
  let n = get_or limit 50
  raise_if (ltb n 1 || ltb max_page_size n) invalid_cursor
  position ← or_raise cursor invalid_cursor
  gets (λ s. page_of n (past (some position) (list_projects actor s)))

-- `getProject`
unfoldable pub get_project : Actor → String → ProjectMethod Project
unfolding assert_project
get_project actor id = assert_project actor id

-- `getActiveProjectSource`
unfoldable pub active_source : Actor → String → ProjectMethod SourceRecord
unfolding assert_project
active_source actor project = do
  assert_project actor project
  found ← gets λ s.
      find
        (λ c.
          str_eq c.project_id project && str_eq c.organization_id actor.organization_id && c.active)
        (values s.sources)
  or_raise found no_such

-- `getLatestAnalysis`
unfoldable pub latest_analysis : Actor → String → ProjectMethod (Option Analysis)
unfolding assert_project sort
latest_analysis actor project = do
  assert_project actor project
  gets λ s. head? (
      sort (λ a b. position_le (b.created_at, b.id) (a.created_at, a.id))
        (filter (λ r. str_eq r.project_id project && str_eq r.organization_id actor.organization_id)
          (values s.repository.analyses)))

-- `getAnalysis`
unfoldable pub get_analysis : Actor → String → ProjectMethod Analysis
get_analysis actor id = do
  found ← gets (λ s. get id s.repository.analyses)
  run ← or_raise found no_such
  raise_if (not (str_eq run.organization_id actor.organization_id)) no_such
  pure run

-- `listProjectSources`
unfoldable pub list_sources : Actor → String → ProjectMethod (List SourceRecord)
unfolding assert_project sort
list_sources actor project = do
  assert_project actor project
  gets λ s.
      sort (λ a b. position_le (a.version, a.id) (b.version, b.id))
        (filter (λ c. str_eq c.project_id project) (values s.sources))

-- `listSourceSnapshots`
unfoldable pub list_snapshots : Actor → String → ProjectMethod (List SnapshotRecord)
unfolding assert_project sort
list_snapshots actor project = do
  assert_project actor project
  gets λ s.
      sort (λ a b. position_le (a.created_at, a.id) (b.created_at, b.id))
        (filter (λ c. str_eq c.project_id project) (values s.snapshots))
