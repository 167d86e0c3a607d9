-- ===== src/Release/Publish.antt =====
-- `publishRelease` and the identity of a release's artifact (packages/database/src/control-plane.ts),
-- in the order of the source; its parts are the steps of one method. An empty text that the source
-- tests for truth is no identifier here.
pub mod Gate
use text.Mathlib.Text.{◌==◌ as str_eq}
use page2web_mcp.Common.{
  ℕ, String, Bool, true, false, not, ◌&&◌, ◌||◌, Option, none, some, List, [], ◌∷◌, ◌++◌, ltb, find,
  is_some, if◌then◌else◌, get_or, some_and, last?, pure, gets, or_raise, or_run, raise_if, modify,
  ◌>>=◌, ◌>>◌,
}
use page2web_mcp.Common.Text.{utf16_length, is_sha256}
use page2web_mcp.Common.Dict.{get, set}
use page2web_mcp.Workflow.Types.{Actor, is_succeeded}
use page2web_mcp.Workflow.Store.{◌^^◌}
use page2web_mcp.Release.Types.{
  forbidden, invalid_state, release_gate_failed, plan_error, CapabilityRecord, CandidateRelease,
  VerificationRecord, ArtifactIdentity, ReleaseRecord, AnalysisRun, IdempotencyRecord,
  ReleaseTables, ReleaseEnv, is_owner, is_blocked, is_reviewed, needs_review,
}
use page2web_mcp.Release.Checks.{same_optional, distinct_from, evidence_resolves, equal_plan_sets}
use page2web_mcp.Release.Tables.{
  ReleaseMethod, gate, assert_project, idempotency_id, idempotent_replay, reserve, random_uuid,
  audit_event, current_capabilities,
}
use page2web_mcp.Release.Verify.{selected_plans}

pub record PublishRequest : Type 0 where
  pub project_id : String
  pub analysis_run_id : String
  pub capability_state_digest : String
  pub candidate_content_hash : String
  pub verification_run_id : String
  pub artifact : ArtifactIdentity
  pub idempotency_key : String
  pub input_hash : String

abbrev pub hosted_prefix : String
hosted_prefix =
    "https://bimqgiedckdurqiywctl.supabase.co/storage/v1/object/public/page2webmcp-releases"

abbrev pub local_prefix : String
local_prefix = "http://127.0.0.1:58321/storage/v1/object/public/page2webmcp-releases"

abbrev pub hermetic_prefix : String
hermetic_prefix = "http://127.0.0.1:3100/api/releases"

abbrev pub artifact_url_of : String → String → String
artifact_url_of prefix hash = prefix ^^ "/" ^^ hash ^^ ".js"

abbrev pub download_url_of : String → String → String
download_url_of url hash = url ^^ "?download=page2webmcp-" ^^ hash ^^ ".js"

abbrev pub prefixes : Bool → List String
prefixes true = local_prefix ∷ hermetic_prefix ∷ []
prefixes false = hosted_prefix ∷ []

-- `normalizeReleaseArtifactIdentity`, `none` where it throws. What it returns is its input.
unfoldable pub normalize_artifact : ArtifactIdentity → String → Option ArtifactIdentity
unfolding is_sha256
normalize_artifact a hash =
    if not (is_sha256 hash)
      || ltb 2048 (utf16_length a.artifact_url)
      || ltb 2048 (utf16_length a.download_url)
    then none
    else elim (find (λ p. str_eq a.artifact_url (artifact_url_of p hash)) (prefixes a.local_only)) [
      | none ↦ none
      | some prefix ↦
          if str_eq a.download_url (download_url_of (artifact_url_of prefix hash) hash)
          then some a
          else none
    ]

-- `persistedReleaseArtifactIdentity`, `none` where it throws or there is none: the two are the same
-- to the only caller modelled.
unfoldable pub persisted_artifact : ReleaseRecord → Option ArtifactIdentity
unfolding normalize_artifact
persisted_artifact r = elim r.artifact_url [
  | none ↦ none
  | some url ↦ elim r.download_url [
    | none ↦ none
    | some download ↦ elim r.local_only [
      | none ↦ none
      | some is_local ↦
          normalize_artifact
            (record { artifact_url = url; download_url = download; local_only = is_local })
            r.content_hash
    ]
  ]
]

abbrev pub same_flag : Bool → Bool → Bool
same_flag true b = b
same_flag false b = not b

abbrev pub same_artifact : ArtifactIdentity → ArtifactIdentity → Bool
same_artifact a b =
    str_eq a.artifact_url b.artifact_url
    && str_eq a.download_url b.download_url
    && same_flag a.local_only b.local_only

-- `releaseMatchesPublication`
unfoldable pub matches_publication : ReleaseRecord → PublishRequest → Bool
unfolding persisted_artifact
matches_publication r i =
    str_eq r.project_id i.project_id
    && str_eq r.analysis_run_id i.analysis_run_id
    && str_eq r.capability_state_digest i.capability_state_digest
    && str_eq r.content_hash i.candidate_content_hash
    && same_optional r.verification_run_id (some i.verification_run_id)
    && some_and (persisted_artifact r) (λ a. same_artifact a i.artifact)

-- The failure of a capability's review, if it has one.
abbrev pub review_failure : CapabilityRecord → Option String
review_failure c =
    if is_blocked c.status
    then none
    else if needs_review c.risk_tier
        && (not (is_reviewed c.status)
            || not (same_optional c.reviewed_plan_digest (some c.plan_digest)))
    then some "REVIEW_REQUIRED"
    else if not (same_optional c.reviewed_plan_digest (some c.plan_digest))
    then some "CAPABILITY_PLAN_MISMATCH"
    else none

unfoldable pub review_failures : List CapabilityRecord → List String
review_failures [] = []
review_failures (c ∷ cs) = elim (review_failure c) [
  | none ↦ review_failures cs
  | some f ↦ f ∷ review_failures cs
]

abbrev pub is_nonempty : List String → Bool
is_nonempty [] = false
is_nonempty (x ∷ xs) = true

-- `verification?.failures ?? ["VERIFICATION_MISSING"]`
abbrev pub failures_of : Option VerificationRecord → List String
failures_of none = "VERIFICATION_MISSING" ∷ []
failures_of (some v) = v.failures

abbrev pub is_verification_for : PublishRequest → VerificationRecord → Bool
is_verification_for i v =
    str_eq v.project_id i.project_id
    && str_eq v.analysis_run_id i.analysis_run_id
    && v.eligible
    && str_eq v.capability_state_digest i.capability_state_digest

module _ (E : ReleaseEnv) (now : ℕ) where
  -- The release that an earlier command with this key has published.
  unfoldable pub replayed_release :
      Actor → PublishRequest → IdempotencyRecord → ReleaseMethod ReleaseRecord
  unfolding matches_publication
  replayed_release actor i previous = do
    releases ← gets (λ s. get previous.result_id s.releases)
    r ← or_raise releases (invalid_state [])
    raise_if
        (not (str_eq r.organization_id actor.organization_id)
          || not (str_eq r.project_id i.project_id)
          || not (str_eq r.analysis_run_id i.analysis_run_id)
          || not (matches_publication r i))
        (invalid_state [])
    pure r

  unfoldable pub published_run : Actor → PublishRequest → ReleaseMethod AnalysisRun
  published_run actor i = do
    found ← gets (λ s. get i.analysis_run_id s.analyses)
    run ← or_raise found (invalid_state [])
    raise_if
        (not (str_eq run.organization_id actor.organization_id)
          || not (str_eq run.project_id i.project_id)
          || not (is_succeeded run.status))
        (invalid_state [])
    pure run

  -- The latest verification of the run, which is the one named, eligible and of the candidate.
  unfoldable pub latest_verification : PublishRequest → ReleaseMethod VerificationRecord
  latest_verification i = do
    ids ← gets (λ s. get_or (get i.analysis_run_id s.verification_ids_by_run) [])
    raise_if (not (same_optional (last? ids) (some i.verification_run_id)))
        (gate "CANDIDATE_CHANGED")
    found ← gets (λ s. get i.verification_run_id s.verifications)
    raise_if (not (some_and found (is_verification_for i)))
        (release_gate_failed (failures_of found))
    v ← or_raise found (invalid_state [])
    raise_if (not (str_eq v.candidate_content_hash i.candidate_content_hash))
        (gate "CANDIDATE_CHANGED")
    pure v

  -- The capabilities in the state that was verified, each reviewed.
  unfoldable pub reviewed_capabilities : String → String → ReleaseMethod (List CapabilityRecord)
  unfolding current_capabilities review_failures distinct_from
  reviewed_capabilities run digest = do
    capabilities ← current_capabilities E run digest
    let failures = review_failures capabilities
    raise_if (is_nonempty failures) (release_gate_failed (distinct_from [] failures))
    pure capabilities

  -- The candidate that was verified, with its plans, its evidence and its bytes.
  unfoldable pub verified_candidate :
      PublishRequest
      → AnalysisRun
      → VerificationRecord
      → List CapabilityRecord
      → ReleaseMethod CandidateRelease
  unfolding equal_plan_sets evidence_resolves
  verified_candidate i run v capabilities = do
    results ← gets (λ s. get v.analysis_run_id s.results)
    evidence ← or_raise results (invalid_state [])
    candidates ← gets (λ s. get v.id s.verification_candidates)
    candidate ← or_raise candidates (invalid_state [])
    plans ← or_raise (E.plans_of candidate.manifest) (gate "CAPABILITY_PLAN_MISMATCH")
    same ← or_raise (equal_plan_sets E plans (selected_plans capabilities)) plan_error
    raise_if (not same) (gate "CAPABILITY_PLAN_MISMATCH")
    raise_if (not (evidence_resolves E evidence plans run now)) (gate "EVIDENCE_MISSING_OR_EXPIRED")
    raise_if
        (not (str_eq (E.sha256 candidate.code) i.candidate_content_hash)
          || not (str_eq candidate.content_hash i.candidate_content_hash))
        (gate "CANDIDATE_CHANGED")
    pure candidate

  abbrev pub new_release :
      Actor → PublishRequest → VerificationRecord → CandidateRelease → String → ReleaseRecord
  new_release actor i v c id = record {
    id = id;
    organization_id = actor.organization_id;
    project_id = i.project_id;
    analysis_run_id = v.analysis_run_id;
    capability_state_digest = i.capability_state_digest;
    content_hash = E.sha256 c.code;
    sri = "sha384-" ^^ E.sha384_base64 c.code;
    candidate = record c { content_hash = E.sha256 c.code };
    verification_run_id = some v.id;
    artifact_url = some i.artifact.artifact_url;
    download_url = some i.artifact.download_url;
    local_only = some i.artifact.local_only;
    created_at = now;
  }

  abbrev pub with_release : ReleaseRecord → PublishRequest → ReleaseTables → ReleaseTables
  with_release r i s = record s {
    releases = set r.id r s.releases;
    release_by_run = set i.analysis_run_id r.id s.release_by_run;
    release_by_hash =
        set r.content_hash (get_or (get r.content_hash s.release_by_hash) [] ++ r.id ∷ [])
          s.release_by_hash;
  }

  -- The release of the run that exists, which the request has to match.
  unfoldable pub existing_release : PublishRequest → String → String → ReleaseMethod ReleaseRecord
  unfolding matches_publication reserve
  existing_release i key id = do
    releases ← gets (λ s. get id s.releases)
    r ← or_raise releases (invalid_state [])
    raise_if (not (matches_publication r i)) (invalid_state [])
    reserve now key i.input_hash r.id
    pure r

  unfoldable pub store_release :
      Actor
      → PublishRequest
      → String
      → VerificationRecord
      → CandidateRelease
      → ReleaseMethod ReleaseRecord
  unfolding random_uuid reserve audit_event
  store_release actor i key v c = do
    id ← random_uuid E
    let r = new_release actor i v c id
    modify (with_release r i)
    reserve now key i.input_hash r.id
    audit_event E now actor "release.published" r.id
    pure r

  abbrev pub release_or_existing :
      Actor
      → PublishRequest
      → String
      → VerificationRecord
      → CandidateRelease
      → Option String
      → ReleaseMethod ReleaseRecord
  unfolding existing_release store_release
  release_or_existing actor i key v c none = store_release actor i key v c
  release_or_existing actor i key v c (some id) = existing_release i key id

  -- A publication whose key is new.
  unfoldable pub publish_new : Actor → PublishRequest → String → ReleaseMethod ReleaseRecord
  unfolding published_run latest_verification reviewed_capabilities verified_candidate
      release_or_existing
  publish_new actor i key = do
    run ← published_run actor i
    v ← latest_verification i
    capabilities ← reviewed_capabilities run.id i.capability_state_digest
    candidate ← verified_candidate i run v capabilities
    existing ← gets (λ s. get i.analysis_run_id s.release_by_run)
    release_or_existing actor i key v candidate existing

  abbrev pub publish_or_replay :
      Actor → PublishRequest → String → Option IdempotencyRecord → ReleaseMethod ReleaseRecord
  unfolding replayed_release publish_new
  publish_or_replay actor i key none = publish_new actor i key
  publish_or_replay actor i key (some previous) = replayed_release actor i previous

  -- `publishRelease`
  unfoldable pub publish_release : Actor → PublishRequest → ReleaseMethod ReleaseRecord
  unfolding assert_project normalize_artifact idempotent_replay publish_or_replay
  publish_release actor i = do
    raise_if (not (is_owner actor.role)) forbidden
    assert_project actor i.project_id
    or_raise (normalize_artifact i.artifact i.candidate_content_hash) (invalid_state [])
    let key = idempotency_id "release" actor i.idempotency_key
    previous ← idempotent_replay now key i.input_hash
    publish_or_replay actor i key previous
