-- ===== src/Examples/Projects.antt =====
-- The properties of projects at a concrete organisation.
use Prim.Native.String.{len}
use page2web_mcp.Common.{◌≡◌, ◌≢◌, refl, arith, String, none, some, [], ◌∷◌, ok, ◌>>=◌}
use page2web_mcp.Common.Text.{is_sha256}
use page2web_mcp.Common.Decimal.{decimal}
use page2web_mcp.Common.Dict.{get, set}
use page2web_mcp.Workflow.Types.{Actor, owner, editor, website, Project, Analysis}
use page2web_mcp.Workflow.Calls.{empty_repository}
use page2web_mcp.Projects.Types.{ProjectTables, ProjectEnv}
use page2web_mcp.Projects.Create.{
  CreateInput, bare_configuration, normalize_configuration, new_project, create_project,
}
use page2web_mcp.Projects.Create.Replayed.{made, create_project-create_project}
use page2web_mcp.Projects.Analyses.{EnqueueInput, new_analysis, enqueue_new}
use page2web_mcp.Projects.Analyses.OneOpen.{enqueue_new-enqueue_new}
use page2web_mcp.Projects.Reads.{Page, list_projects_page}
use page2web_mcp.Projects.Reads.Tenants.{IsOwnPage, list_projects_page-IsOwnPage}

abbrev pub digest : String
digest = "0123456789abcdef0123456789abcdef0123456789abcdef0123456789abcdef"

abbrev pub env : ProjectEnv
env = record {
  workflow = record { sha256 = λ x. digest; uuid = λ n. decimal n; active_task_quota = none };
  parse_stored = λ c. none;
  byte_length = len;
}

abbrev pub no_tables : ProjectTables
no_tables = record {
  sources = [];
  snapshots = [];
  analysis_sources = [];
  idempotency = [];
  audit = [];
  repository = empty_repository;
}

abbrev pub boss : Actor
boss = record { id = "boss"; organization_id = "org"; role = owner }

abbrev colleague : Actor
colleague = record { id = "colleague"; organization_id = "org"; role = editor }

abbrev input : CreateInput
input = record {
  name = "Shop";
  source_type = website;
  url = "https://example.com";
  source_configuration = none;
  idempotency_key = "create-key";
  input_hash = digest;
}

abbrev pub project : Project
project = new_project env 0 boss input "0"

abbrev pub with_project : ProjectTables
with_project = (create_project env 0 boss input no_tables).1

create_project-create_project_example :
    ((create_project env 0 boss input no_tables).0 ≡ ok (made env 0 boss input no_tables))
    × (create_project env 1000 boss input (create_project env 0 boss input no_tables).1
        ≡ (ok (made env 0 boss input no_tables), (create_project env 0 boss input no_tables).1))
unfolding normalize_configuration get
create_project-create_project_example =
    create_project-create_project env 0 1000 boss input (bare_configuration website) no_tables refl
      refl refl refl (omega arith)

abbrev pub enqueue : EnqueueInput
enqueue = record {
  project_id = "0";
  expected_source = none;
  idempotency_key = "enqueue-key";
  input_hash = digest;
}

abbrev pub first_run : Analysis
first_run = new_analysis env 10 boss project "4"

abbrev second_run : Analysis
second_run = new_analysis env 20 colleague project "9"

enqueue_new-enqueue_new_example :
    (enqueue_new env 20 colleague project enqueue "key-2"
      (enqueue_new env 10 boss project enqueue "key-1" with_project).1).0
    ≢ ok second_run
unfolding create_project enqueue_new get set ◌>>=◌ decimal is_sha256
enqueue_new-enqueue_new_example =
    enqueue_new-enqueue_new env 10 20 boss colleague project project enqueue enqueue "key-1" "key-2"
      with_project first_run second_run refl refl

abbrev first_page : Page
first_page = record { projects = project ∷ []; next = none }

list_projects_page-IsOwnPage_example : IsOwnPage boss first_page
unfolding create_project list_projects_page get set ◌>>=◌ decimal
list_projects_page-IsOwnPage_example =
    list_projects_page-IsOwnPage boss (some 1) none with_project first_page refl
