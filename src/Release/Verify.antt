-- ===== src/Release/Verify.antt =====
-- `saveVerification` (packages/database/src/control-plane.ts), in the order of the source; its
-- parts are the steps of one method.
pub mod Observed
pub mod Named
pub mod Summarised
pub mod Eligible
use text.Mathlib.Text.{◌==◌ as str_eq}
use page2web_mcp.Common.{
  ℕ, ◌*◌, String, Bool, true, false, not, ◌&&◌, ◌||◌, Option, none, some, List, [], ◌∷◌, ◌++◌, map,
  ltb, any, find, filter, length, ◌==◌, if◌then◌else◌, get_or, some_and, pure, raise, gets,
  or_raise, or_run, raise_if, modify, ◌>>=◌, ◌>>◌,
}
use page2web_mcp.Common.Dict.{get, set, values}
use page2web_mcp.Workflow.Types.{Actor, Run, is_succeeded}
use page2web_mcp.Release.Types.{
  forbidden, not_found, invalid_state, plan_error, Plan, CapabilityRecord, AnalysisEvidence,
  CandidateRelease, VerifierAttestation, VerificationRequest, VerificationRecord, ReleaseRecord,
  AnalysisRun, ReleaseTables, ReleaseEnv, is_owner, is_blocked,
}
use page2web_mcp.Release.Checks.{evidence_resolves, candidate_matches, equal_plan_sets}
use page2web_mcp.Release.Observation.{scope_matches, release_failures}
use page2web_mcp.Release.Tables.{
  ReleaseMethod, gate, assert_project, random_uuid, current_capabilities,
}

-- `MAX_RELEASE_BYTES`
abbrev pub max_release_bytes : ℕ
max_release_bytes = 64 * 1024

-- The plans of the capabilities that are not blocked.
abbrev pub selected_plans : List CapabilityRecord → List Plan
selected_plans cs = map (λ c. c.plan) (filter (λ c. not (is_blocked c.status)) cs)

abbrev pub is_of_analysis : String → Run → Bool
is_of_analysis id r = some_and r.analysis_run_id (λ a. str_eq a id)

-- `failures.length === 0`
abbrev pub is_empty : List String → Bool
is_empty [] = true
is_empty (x ∷ xs) = false

-- A verification that used the attestation, or its request, before.
abbrev pub is_replayed : Option VerifierAttestation → VerificationRecord → Bool
is_replayed none v = false
is_replayed (some a) v =
    some_and v.report.observation.verifier_attestation
      λ b. str_eq b.attestation_id a.attestation_id || str_eq b.request_id a.request_id

module _ (E : ReleaseEnv) (now : ℕ) where
  -- The run of the analysis, and the source that its workflow was made for.
  unfoldable pub verified_run : Actor → String → VerificationRequest → ReleaseMethod AnalysisRun
  verified_run actor project_id i = do
    found ← gets (λ s. get i.analysis_run_id s.analyses)
    run ← or_raise found not_found
    raise_if (not (str_eq run.organization_id actor.organization_id)) not_found
    raise_if (not (str_eq run.project_id project_id) || not (is_succeeded run.status))
        (invalid_state [])
    workflows ← gets (λ s. find (is_of_analysis run.id) (values s.workflows))
    workflow ← or_raise workflows (invalid_state [])
    snapshots ← gets (λ s. get workflow.source_snapshot_id s.source_snapshots)
    snapshot ← or_raise snapshots (invalid_state [])
    sources ← gets (λ s. get snapshot.project_source_id s.project_sources)
    source ← or_raise sources (invalid_state [])
    raise_if
        (not (str_eq workflow.project_id project_id)
          || not (str_eq snapshot.project_id project_id)
          || not (str_eq source.project_id project_id)
          || not (str_eq snapshot.organization_id actor.organization_id)
          || not (str_eq source.organization_id actor.organization_id)
          || not (
              scope_matches E i project_id snapshot.source_identity_hash
                source.source_configuration))
        (invalid_state [])
    pure run

  -- The bytes, the plans and the evidence of the candidate.
  unfoldable pub assert_candidate :
      AnalysisRun → VerificationRequest → List CapabilityRecord → ReleaseMethod (Unit {0})
  unfolding equal_plan_sets evidence_resolves
  assert_candidate run i capabilities = do
    raise_if
        (ltb max_release_bytes (E.byte_length i.candidate.code)
          || not (str_eq (E.sha256 i.candidate.code) i.candidate.content_hash)
          || str_eq i.candidate.manifest "__INVALID_JSON__"
          || ltb max_release_bytes (E.byte_length i.candidate.manifest))
        (gate "CANDIDATE_HASH_MISMATCH")
    results ← gets (λ s. get run.id s.results)
    evidence ← or_raise results (invalid_state [])
    plans ← or_raise (E.plans_of i.candidate.manifest) (gate "CAPABILITY_PLAN_MISMATCH")
    same ← or_raise (equal_plan_sets E plans (selected_plans capabilities)) plan_error
    raise_if (not same) (gate "CAPABILITY_PLAN_MISMATCH")
    raise_if (not (evidence_resolves E evidence plans run now)) (gate "EVIDENCE_MISSING_OR_EXPIRED")

  -- The verification of a release of this run that the request repeats.
  abbrev pub repeats :
      String → VerificationRequest → ReleaseRecord → VerificationRecord → CandidateRelease → Bool
  repeats project_id i release v candidate =
      v.eligible
      && str_eq v.project_id project_id
      && str_eq v.capability_state_digest i.capability_state_digest
      && str_eq v.candidate_content_hash (E.sha256 i.candidate.code)
      && candidate_matches i.candidate release.candidate
      && candidate_matches i.candidate candidate

  unfoldable pub published_verification :
      String → VerificationRequest → String → ReleaseMethod VerificationRecord
  published_verification project_id i release_id = do
    releases ← gets (λ s. get release_id s.releases)
    release ← or_raise releases (gate "CANDIDATE_CHANGED")
    id ← or_raise release.verification_run_id (gate "CANDIDATE_CHANGED")
    verifications ← gets (λ s. get id s.verifications)
    v ← or_raise verifications (gate "CANDIDATE_CHANGED")
    candidates ← gets (λ s. get id s.verification_candidates)
    candidate ← or_raise candidates (gate "CANDIDATE_CHANGED")
    raise_if (not (repeats project_id i release v candidate)) (gate "CANDIDATE_CHANGED")
    pure v

  abbrev pub new_verification : String → String → VerificationRequest → VerificationRecord
  new_verification id project_id i =
      let failures = release_failures E i in
      record {
        id = id;
        project_id = project_id;
        analysis_run_id = i.analysis_run_id;
        capability_state_digest = i.capability_state_digest;
        candidate_content_hash = E.sha256 i.candidate.code;
        report = i.report;
        failures = failures;
        eligible = is_empty failures;
        created_at = now;
      }

  -- The tables after a verification.
  abbrev pub with_verification :
      VerificationRecord → VerificationRequest → ReleaseTables → ReleaseTables
  with_verification v i s = record s {
    verification_candidates =
        set v.id (record i.candidate { content_hash = E.sha256 i.candidate.code })
          s.verification_candidates;
    verifications = set v.id v s.verifications;
    verification_ids_by_run =
        set i.analysis_run_id
          (get_or (get i.analysis_run_id s.verification_ids_by_run) [] ++ v.id ∷ [])
          s.verification_ids_by_run;
  }

  unfoldable pub record_verification :
      String → VerificationRequest → ReleaseMethod VerificationRecord
  unfolding random_uuid release_failures
  record_verification project_id i = do
    used ←
        gets (λ s.
          any (is_replayed i.report.observation.verifier_attestation) (values s.verifications))
    raise_if used (invalid_state ("VERIFIER_ATTESTATION_REPLAYED" ∷ []))
    id ← random_uuid E
    let v = new_verification id project_id i
    modify (with_verification v i)
    pure v

  abbrev pub verify_or_repeat :
      String → VerificationRequest → Option String → ReleaseMethod VerificationRecord
  unfolding published_verification record_verification
  verify_or_repeat project_id i none = record_verification project_id i
  verify_or_repeat project_id i (some release_id) = published_verification project_id i release_id

  -- `saveVerification`
  unfoldable pub save_verification :
      Actor → String → VerificationRequest → ReleaseMethod VerificationRecord
  unfolding assert_project verified_run current_capabilities assert_candidate verify_or_repeat
  save_verification actor project_id i = do
    raise_if (not (is_owner actor.role)) forbidden
    assert_project actor project_id
    run ← verified_run actor project_id i
    capabilities ← current_capabilities E run.id i.capability_state_digest
    assert_candidate run i capabilities
    published ← gets (λ s. get run.id s.release_by_run)
    verify_or_repeat project_id i published
