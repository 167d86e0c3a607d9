-- ===== src/Examples/Cancellation.antt =====
-- A cancelled run, and what a second request with the same key is answered
-- (packages/database/src/control-plane.ts).
use page2web_mcp.Common.{ℕ, ◌≡◌, refl, some, [], ◌∷◌, Result, ok, err, ◌>>=◌}
use page2web_mcp.Common.Decimal.{decimal}
use page2web_mcp.Common.Dict.{get, set}
use page2web_mcp.Common.Text.{is_identifier, is_sha256}
use page2web_mcp.Workflow.Types.{RepositoryError, Actor, Run, Repository, owner, cancelled}
use page2web_mcp.Workflow.Owner.{CancelInput, new_run, create_run, cancel_workflow}
use page2web_mcp.Workflow.Calls.{steps, step, creates}
use page2web_mcp.Examples.Workflow.{env, digest, run_input, created_tables}
use page2web_mcp.Workflow.EventLog.Methods.{steps-IsLogged}
use page2web_mcp.Workflow.Cancelled.{IsRequested}
use page2web_mcp.Workflow.Cancelled.Request.{cancel_workflow-IsRequested}

abbrev actor : Actor
actor = record { id = "user-1"; organization_id = "org-1"; role = owner }

abbrev cancellation : CancelInput
cancellation = record { idempotency_key = "cancel-1"; input_hash = digest; run_id = "run-1" }

abbrev version_of : Result RepositoryError Run → ℕ
version_of (ok r) = r.version
version_of (err e) = 0

abbrev cancelled_tables : Repository
cancelled_tables = (cancel_workflow env 10 actor cancellation created_tables).1

abbrev cancelled_answer : Run
cancelled_answer = record (new_run 0 run_input digest) {
  status = cancelled;
  version = 5;
  cancel_requested_at = some 10;
  cancelled_at = some 10;
  updated_at = 10;
}

first_answer : version_of (cancel_workflow env 10 actor cancellation created_tables).0 ≡ 5
unfolding cancel_workflow steps step create_run get set ◌>>=◌ is_identifier is_sha256 decimal
first_answer = refl

second_answer : version_of (cancel_workflow env 20 actor cancellation cancelled_tables).0 ≡ 4
unfolding cancel_workflow steps step create_run get set ◌>>=◌ is_identifier is_sha256 decimal
second_answer = refl

cancel_workflow-IsRequested_example : IsRequested "run-1" cancelled_tables
unfolding cancel_workflow steps step create_run get set ◌>>=◌ is_identifier is_sha256 decimal
cancel_workflow-IsRequested_example =
    cancel_workflow-IsRequested env 10 actor cancellation created_tables cancelled_answer
      (steps-IsLogged env ((0, creates run_input) ∷ [])) refl refl
