-- ===== src/Examples/Release.antt =====
-- The release properties at a concrete analysis: its capability is reviewed, its candidate verified
-- and published.
use Prim.Native.String.{len}
use page2web_mcp.Common.{◌≡◌, refl, String, true, false, none, some, [], ◌∷◌, map, ◌>>=◌}
use page2web_mcp.Common.Decimal.{decimal}
use page2web_mcp.Common.Dict.{get, set}
use page2web_mcp.Workflow.Types.{Actor, owner, succeeded}
use page2web_mcp.Release.Types.{
  Plan, r2, proposed, CapabilityRecord, AnalysisEvidence, CheckRecord, hermetic, VerificationReport,
  VerificationRequest, VerificationRecord, ReleaseRecord, ReleaseTables, ReleaseEnv,
}
use page2web_mcp.Release.Checks.{check_names, check_failures}
use page2web_mcp.Release.Observation.{release_failures}
use page2web_mcp.Release.Review.{approve, reviewed_record, review_capability}
use page2web_mcp.Release.Review.Approval.{IsReview, review_capability-IsReview}
use page2web_mcp.Release.Verify.{new_verification, record_verification}
use page2web_mcp.Release.Publish.{PublishRequest, new_release, publish_new}
use page2web_mcp.Release.Publish.Gate.{IsGated, publish_new-IsGated}

abbrev plan : Plan
plan = record {
  tool_name = "orders_list";
  risk_tier = r2;
  evidence = ("runtime", "urn:sha256:seen") ∷ [];
  json = "plan";
}

abbrev env : ReleaseEnv
env = record {
  sha256 = λ x. x;
  sha384_base64 = λ x. x;
  byte_length = len;
  uuid = λ n. decimal n;
  plan_digest = λ p. some p.json;
  state_digest = λ cs. "state";
  plans_of = λ m. some (plan ∷ []);
  scope_digest = λ i p h c. none;
  release_id_of = λ m. some "release";
  payload_json = λ c tools integrity. c.code;
  exact_time = λ t. none;
}

abbrev capability : CapabilityRecord
capability = record {
  id = "capability";
  organization_id = "org";
  project_id = "project";
  analysis_run_id = "run";
  stable_name = "orders_list";
  risk_tier = r2;
  status = proposed;
  plan = plan;
  plan_digest = "plan";
  reviewed_plan_digest = none;
  version = 1;
}

abbrev evidence : AnalysisEvidence
evidence = record {
  organization_id = some "org";
  project_id = some "project";
  analysis_run_id = some "run";
  source = "runtime";
  content = "seen";
  reference = "urn:sha256:seen";
  expires_at = some 1000;
}

abbrev tables : ReleaseTables
tables = record {
  projects = [];
  analyses =
      (
        "run",
        record { id = "run"; organization_id = "org"; project_id = "project"; status = succeeded },
      )
      ∷ [];
  results = ("run", evidence ∷ []) ∷ [];
  capabilities = ("capability", capability) ∷ [];
  workflows = [];
  source_snapshots = [];
  project_sources = [];
  verifications = [];
  verification_candidates = [];
  verification_ids_by_run = [];
  releases = [];
  release_by_run = [];
  release_by_hash = [];
  idempotency = [];
  audit = [];
  uuids = 0;
}

abbrev boss : Actor
boss = record { id = "boss"; organization_id = "org"; role = owner }

review_capability-IsReview_example :
    (c : CapabilityRecord) × IsReview env 10 tables boss "capability" approve 1 c
      (reviewed_record approve capability)
      (review_capability env 10 boss "capability" approve 1 tables).1
unfolding review_capability get set ◌>>=◌
review_capability-IsReview_example =
    review_capability-IsReview env 10 tables boss "capability" approve 1
      (reviewed_record approve capability) refl

abbrev passed_check : String → CheckRecord
passed_check name = record { name = name; passed = true; code = none }

abbrev report : VerificationReport
report = record {
  schema = true;
  authenticated = true;
  replay_passes = 3;
  no_secret_leakage = true;
  browser_execution = true;
  selection_score = 20;
  checks = map passed_check check_names;
  csp_directive = none;
  verification_mode = hermetic;
  verifier_identity = record {
    protocol_version = 1;
    mode = hermetic;
    web_mcp_implementation = "native";
    verifier_origin_digest = "0123456789abcdef0123456789abcdef0123456789abcdef0123456789abcdef";
  };
  observation = record {
    observed_content_hash = "code";
    observed_integrity = "sha384-code";
    observed_release_id = "release";
    observed_target_origin = "https://example.com";
    registered_tools = "orders_list" ∷ [];
    enforced_before_evaluation = true;
    evaluated_content_hash = "code";
    control_plane_requests = 0;
    model_requests = 0;
    verifier_attestation = none;
  };
}

abbrev request : VerificationRequest
request = record {
  analysis_run_id = "run";
  capability_state_digest = "state";
  report = report;
  candidate = record {
    code = "code";
    content_hash = "code";
    allowed_origin = "https://example.com";
    manifest = "{}";
  };
}

-- A check that fails with its code is the only failure.
one_failure :
    check_failures (
      (record { name = "read"; passed = false; code = some "WRONG_STATE" })
      ∷ map passed_check (
          "authentication" ∷ "cancellation" ∷ "confirmation" ∷ "final_state"
          ∷ "no_control_plane_or_model_calls" ∷ "origin" ∷ "replay_idempotency"
          ∷ "reversible_mutation" ∷ "schema" ∷ "secret_leakage" ∷ "tool_selection"
          ∷ "trusted_loader" ∷ []))
    ≡ "WRONG_STATE" ∷ []
unfolding check_failures
one_failure = refl

abbrev verification : VerificationRecord
verification = new_verification env 20 "0" "project" request

abbrev reviewed_tables : ReleaseTables
reviewed_tables = (review_capability env 10 boss "capability" approve 1 tables).1

abbrev verified_tables : ReleaseTables
verified_tables = (record_verification env 20 "project" request reviewed_tables).1

abbrev publication : PublishRequest
publication = record {
  project_id = "project";
  analysis_run_id = "run";
  capability_state_digest = "state";
  candidate_content_hash = "code";
  verification_run_id = "1";
  artifact = record { artifact_url = "url"; download_url = "url"; local_only = false };
  idempotency_key = "publish-key";
  input_hash = "input";
}

abbrev released : ReleaseRecord
released =
    new_release env 30 boss publication (new_verification env 20 "1" "project" request)
      request.candidate "2"

publish_new-IsGated_example : IsGated env 30 boss publication verified_tables released
unfolding review_capability record_verification publish_new release_failures get set ◌>>=◌ decimal
publish_new-IsGated_example =
    publish_new-IsGated env 30 boss publication verified_tables "release:org:boss:publish-key"
      released refl refl
