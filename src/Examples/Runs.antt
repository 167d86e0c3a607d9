-- ===== src/Examples/Runs.antt =====
-- The claim of an analysis that was queued for a project.
use page2web_mcp.Common.{◌≡◌, refl, none, some, [], ok, ◌>>=◌}
use page2web_mcp.Common.Text.{is_sha256}
use page2web_mcp.Common.Decimal.{decimal}
use page2web_mcp.Common.Dict.{get, set}
use page2web_mcp.Workflow.Types.{website}
use page2web_mcp.Workflow.Phases.{analysis}
use page2web_mcp.Workflow.Owner.{new_run}
use page2web_mcp.Workflow.Store.{◌^^◌, new_task}
use page2web_mcp.Workflow.Claim.{active_by_organization}
use page2web_mcp.Projects.Types.{SnapshotRecord}
use page2web_mcp.Projects.Create.{new_source, new_snapshot, create_project}
use page2web_mcp.Projects.Analyses.{run_input, enqueue_new}
use page2web_mcp.Cleanup.Queue.{CleanupTables}
use page2web_mcp.Runs.Claim.{ClaimEnv, ClaimedAnalysis, leased_run, leased_task, claim_analysis}
use page2web_mcp.Runs.Claim.Leased.{IsLeased, claim_analysis-IsLeased}
use page2web_mcp.Runs.Heartbeat.{heartbeat_analysis}
use page2web_mcp.Examples.Projects.{env, boss, project, enqueue, first_run, with_project, digest}

abbrev claim_env : ClaimEnv
claim_env = record {
  workflow = env.workflow;
  reference_digest = λ _. digest;
  origin = λ url. some url;
}

abbrev queued_tables : CleanupTables
unfolding enqueue_new
queued_tables = record {
  tables = (enqueue_new env 10 boss project enqueue "key-1" with_project).1;
  receipts = [];
}

abbrev snapshot : SnapshotRecord
snapshot =
    new_snapshot env 0 project (new_source env 0 project "{\"kind\":\"website\"}" "1") digest "2"

abbrev claimed : ClaimedAnalysis
claimed =
    let run = leased_run 100 "worker-1" 60000 first_run in
    record {
      run = run;
      source = record {
        source_type = website;
        source_url = "https://example.com";
        source_configuration = "{\"kind\":\"website\"}";
      };
      task = leased_task 100 "worker-1" run (
          new_task claim_env.workflow 10 "6"
            (new_run 10 (run_input env 10 project snapshot enqueue first_run) digest) analysis
            ("wft_" ^^ digest) digest);
      source_snapshot_id = "2";
      checkpoint = none;
      live_receipt_evidence = none;
    }

claim_answer :
    (claim_analysis claim_env 100 "worker-1" 60000 none queued_tables).0 ≡ ok (some claimed)
unfolding create_project enqueue_new claim_analysis active_by_organization get set decimal is_sha256
    ◌>>=◌
claim_answer = refl

abbrev leased_tables : CleanupTables
unfolding claim_analysis
leased_tables = (claim_analysis claim_env 100 "worker-1" 60000 none queued_tables).1

-- The worker prolongs its lease, and no other gets the run meanwhile.
heartbeat_answer :
    (heartbeat_analysis claim_env 50000 "worker-1" "4" 60000 none leased_tables).0 ≡ ok tt
unfolding create_project enqueue_new claim_analysis heartbeat_analysis active_by_organization get
    set decimal is_sha256 ◌>>=◌
heartbeat_answer = refl

second_claim :
    (claim_analysis claim_env 90000 "worker-2" 60000 none
      (heartbeat_analysis claim_env 50000 "worker-1" "4" 60000 none leased_tables).1).0
    ≡ ok none
unfolding create_project enqueue_new claim_analysis heartbeat_analysis active_by_organization get
    set decimal is_sha256 ◌>>=◌
second_claim = refl

claim_analysis-IsLeased_example : IsLeased 100 "worker-1" 60000 claimed leased_tables
unfolding leased_tables
claim_analysis-IsLeased_example =
    claim_analysis-IsLeased claim_env 100 "worker-1" 60000 none queued_tables claimed claim_answer
