-- ===== src/Release/Types.antt =====
-- The records of capabilities, verifications and releases, and the tables of
-- `InMemoryControlPlaneRepository` that their methods use
-- (packages/database/src/control-plane.ts). A manifest stands for its `canonicalJson` text. The
-- failures that an error or a verification carries are texts, as in the source.
use page2web_mcp.Common.{ℕ, String, Bool, true, false, Option, List}
use page2web_mcp.Common.Dict.{Dict}
use page2web_mcp.Workflow.Types.{Status, Role, owner, Project, Run}

pub data ReleaseError : Type 0 where
  forbidden not_found version_conflict owner_approval_required idempotency_conflict : ReleaseError
  -- a digest that throws, outside the codes of `RepositoryError`
  plan_error : ReleaseError
  invalid_state release_gate_failed : List String → ReleaseError

pub data RiskTier : Type 0 where
  r0 r1 r2 : RiskTier

pub data CapabilityStatus : Type 0 where
  proposed reviewed verified blocked : CapabilityStatus

-- A plan: its tool's name, its risk tier, the evidence that it names (source and reference), and
-- its JSON text.
pub record Plan : Type 0 where
  pub tool_name : String
  pub risk_tier : RiskTier
  pub evidence : List (String × String)
  pub json : String

pub record CapabilityRecord : Type 0 where
  pub id : String
  pub organization_id : String
  pub project_id : String
  pub analysis_run_id : String
  pub stable_name : String
  pub risk_tier : RiskTier
  pub status : CapabilityStatus
  pub plan : Plan
  pub plan_digest : String
  pub reviewed_plan_digest : Option String
  pub version : ℕ

pub record AnalysisEvidence : Type 0 where
  pub organization_id : Option String
  pub project_id : Option String
  pub analysis_run_id : Option String
  pub source : String
  pub content : String
  pub reference : String
  pub expires_at : Option ℕ

pub record CandidateRelease : Type 0 where
  pub code : String
  pub content_hash : String
  pub allowed_origin : String
  pub manifest : String

pub record CheckRecord : Type 0 where
  pub name : String
  pub passed : Bool
  pub code : Option String

pub data Mode : Type 0 where
  live local_live hermetic : Mode

pub record VerifierIdentity : Type 0 where
  pub protocol_version : ℕ
  pub mode : Mode
  pub web_mcp_implementation : String
  pub verifier_origin_digest : String

pub record VerifierAttestation : Type 0 where
  pub protocol_version : ℕ
  pub operation : String
  pub attestation_id : String
  pub request_id : String
  pub nonce_digest : String
  pub scope_digest : String
  pub payload_digest : String
  pub issued_at : String
  pub expires_at : String
  pub attested_at : String

-- The loader's two fields stand for `trustedLoader`.
pub record Observation : Type 0 where
  pub observed_content_hash : String
  pub observed_integrity : String
  pub observed_release_id : String
  pub observed_target_origin : String
  pub registered_tools : List String
  pub enforced_before_evaluation : Bool
  pub evaluated_content_hash : String
  pub control_plane_requests : ℕ
  pub model_requests : ℕ
  pub verifier_attestation : Option VerifierAttestation

-- The hosted policy is `allowed` or `blocked`, by its type.
pub record VerificationReport : Type 0 where
  pub schema : Bool
  pub authenticated : Bool
  pub replay_passes : ℕ
  pub no_secret_leakage : Bool
  pub browser_execution : Bool
  pub selection_score : ℕ
  pub checks : List CheckRecord
  pub csp_directive : Option String
  pub verification_mode : Mode
  pub verifier_identity : VerifierIdentity
  pub observation : Observation

pub record VerificationRequest : Type 0 where
  pub analysis_run_id : String
  pub capability_state_digest : String
  pub report : VerificationReport
  pub candidate : CandidateRelease

pub record VerificationRecord : Type 0 where
  pub id : String
  pub project_id : String
  pub analysis_run_id : String
  pub capability_state_digest : String
  pub candidate_content_hash : String
  pub report : VerificationReport
  pub failures : List String
  pub eligible : Bool
  pub created_at : ℕ

pub record ArtifactIdentity : Type 0 where
  pub artifact_url : String
  pub download_url : String
  pub local_only : Bool

pub record ReleaseRecord : Type 0 where
  pub id : String
  pub organization_id : String
  pub project_id : String
  pub analysis_run_id : String
  pub capability_state_digest : String
  pub content_hash : String
  pub sri : String
  pub candidate : CandidateRelease
  pub verification_run_id : Option String
  pub artifact_url : Option String
  pub download_url : Option String
  pub local_only : Option Bool
  pub created_at : ℕ

pub record AnalysisRun : Type 0 where
  pub id : String
  pub organization_id : String
  pub project_id : String
  pub status : Status

pub record SourceSnapshot : Type 0 where
  pub organization_id : String
  pub project_id : String
  pub project_source_id : String
  pub source_identity_hash : String

pub record ProjectSource : Type 0 where
  pub organization_id : String
  pub project_id : String
  pub source_configuration : String

pub record IdempotencyRecord : Type 0 where
  pub input_hash : String
  pub result_id : String
  pub expires_at : ℕ

pub record AuditEvent : Type 0 where
  pub id : String
  pub organization_id : String
  pub actor_id : String
  pub action : String
  pub target_id : String
  pub created_at : ℕ

pub record ReleaseTables : Type 0 where
  pub projects : Dict Project
  pub analyses : Dict AnalysisRun
  pub results : Dict (List AnalysisEvidence)
  pub capabilities : Dict CapabilityRecord
  pub workflows : Dict Run
  pub source_snapshots : Dict SourceSnapshot
  pub project_sources : Dict ProjectSource
  pub verifications : Dict VerificationRecord
  pub verification_candidates : Dict CandidateRelease
  pub verification_ids_by_run : Dict (List String)
  pub releases : Dict ReleaseRecord
  pub release_by_run : Dict String
  pub release_by_hash : Dict (List String)
  pub idempotency : Dict IdempotencyRecord
  pub audit : List AuditEvent
  pub uuids : ℕ

-- What the methods take from outside: the hashes (hexadecimal, and Base64 for the integrity), the
-- byte length of a text in UTF-8, the texts of `randomUUID`, and the parts of the program that read
-- plans and manifests: `capabilityPlanDigest` (`none` where it throws), `capabilityStateDigest` on
-- capabilities in their order, `plansFromManifest`, the `releaseId` of a manifest,
-- `liveCandidateVerifierScopeDigest` for a request with a project, the identity of a source and the
-- configuration whose environment it takes (`none` where it throws), the canonical JSON of what a verifier is sent (the candidate, its
-- tools and its integrity), and the milliseconds of a text that is a timestamp as `toISOString`
-- prints it.
pub record ReleaseEnv : Type 0 where
  pub sha256 : String → String
  pub sha384_base64 : String → String
  pub byte_length : String → ℕ
  pub uuid : ℕ → String
  pub plan_digest : Plan → Option String
  pub state_digest : List CapabilityRecord → String
  pub plans_of : String → Option (List Plan)
  pub scope_digest : VerificationRequest → String → String → String → Option String
  pub release_id_of : String → Option String
  pub payload_json : CandidateRelease → List String → String → String
  pub exact_time : String → Option ℕ

abbrev pub is_owner : Role → Bool
is_owner owner = true
is_owner _ = false

abbrev pub is_blocked : CapabilityStatus → Bool
is_blocked blocked = true
is_blocked _ = false

abbrev pub is_reviewed : CapabilityStatus → Bool
is_reviewed reviewed = true
is_reviewed _ = false

abbrev pub same_tier : RiskTier → RiskTier → Bool
same_tier r0 r0 = true
same_tier r1 r1 = true
same_tier r2 r2 = true
same_tier _ _ = false

abbrev pub is_r2 : RiskTier → Bool
is_r2 r2 = true
is_r2 _ = false

abbrev pub needs_review : RiskTier → Bool
needs_review r0 = false
needs_review _ = true

abbrev pub same_mode : Mode → Mode → Bool
same_mode live live = true
same_mode local_live local_live = true
same_mode hermetic hermetic = true
same_mode _ _ = false
