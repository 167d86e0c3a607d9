-- ===== src/Gateway/Checkpoints/Records.antt =====
-- The bindings, attestations and records of apps/website-gateway/src/stores/checkpoints.ts. Times
-- are milliseconds, `none` where `Date.parse` gives no finite number; the resources of a cleanup
-- are their JSON text.
use page2web_mcp.Common.{ℕ, String, Bool, ◌&&◌, Option, List, [], ◌∷◌, all, is_some}
use page2web_mcp.Common.Text.{is_identifier, is_sha256, is_hash_reference, is_secret_reference}
use page2web_mcp.Workflow.Store.{◌^^◌}

pub record CheckpointBinding : Type 0 where
  pub organization_id : String
  pub project_id : String
  pub run_id : String
  pub source_snapshot_id : String
  pub source_identity_hash : String
  pub target_origin_digest : String
  pub public_evidence_reference : String
  pub egress_policy_reference : String
  pub egress_policy_digest : String
  pub provider_session_id : String
  pub live_reference : String
  pub cdp_reference : String
  pub lease_id : String
  pub browser_policy_digest : String
  pub expires_at : String
  -- `Date.parse(expiresAt)`
  pub expiry : Option ℕ

-- `validCheckpointBinding`, on a value with fields of the right types
unfoldable pub valid_checkpoint_binding : CheckpointBinding → Bool
valid_checkpoint_binding b =
    all (is_identifier 127) (
      b.organization_id ∷ b.project_id ∷ b.run_id ∷ b.source_snapshot_id ∷ b.lease_id
      ∷ b.provider_session_id ∷ [])
    && all is_sha256 (
        b.source_identity_hash ∷ b.target_origin_digest ∷ b.egress_policy_digest
        ∷ b.browser_policy_digest ∷ [])
    && is_hash_reference b.public_evidence_reference
    && all is_secret_reference (b.egress_policy_reference ∷ b.live_reference ∷ b.cdp_reference ∷ [])
    && is_some b.expiry

-- `BrowserUseSuspensionAttestation`; the protocol version is 1 and `suspended` is true.
pub record Attestation : Type 0 where
  pub checkpoint_reference : String
  pub organization_id : String
  pub project_id : String
  pub run_id : String
  pub source_snapshot_id : String
  pub source_identity_hash : String
  pub target_origin_digest : String
  pub public_evidence_reference : String
  pub provider_session_id_digest : String
  pub live_reference : String
  pub cdp_reference : String
  pub lease_id : String
  pub egress_policy_reference : String
  pub egress_policy_digest : String
  pub browser_policy_digest : String
  pub expires_at : String

-- SHA-256 in hexadecimal, and `JSON.stringify` of a text.
pub record Platform : Type 0 where
  pub sha256 : String → String
  pub json_text : String → String

module _ (P : Platform) where
  abbrev member : String → String → String
  member name v = P.json_text name ^^ ":" ^^ P.json_text v

  -- `canonicalJson` of the content of an attestation, with its keys in order.
  abbrev pub content_json : CheckpointBinding → String
  content_json b =
      "{"
      ^^ P.json_text "authenticationCheckpointProtocolVersion"
      ^^ ":1,"
      ^^ member "browserPolicyDigest" b.browser_policy_digest
      ^^ ","
      ^^ member "cdpReference" b.cdp_reference
      ^^ ","
      ^^ member "egressPolicyDigest" b.egress_policy_digest
      ^^ ","
      ^^ member "egressPolicyReference" b.egress_policy_reference
      ^^ ","
      ^^ member "expiresAt" b.expires_at
      ^^ ","
      ^^ member "leaseId" b.lease_id
      ^^ ","
      ^^ member "liveReference" b.live_reference
      ^^ ","
      ^^ member "organizationId" b.organization_id
      ^^ ","
      ^^ member "projectId" b.project_id
      ^^ ","
      ^^ member "providerSessionIdDigest" (P.sha256 b.provider_session_id)
      ^^ ","
      ^^ member "publicEvidenceReference" b.public_evidence_reference
      ^^ ","
      ^^ member "runId" b.run_id
      ^^ ","
      ^^ member "sourceIdentityHash" b.source_identity_hash
      ^^ ","
      ^^ member "sourceSnapshotId" b.source_snapshot_id
      ^^ ","
      ^^ P.json_text "suspended"
      ^^ ":true,"
      ^^ member "targetOriginDigest" b.target_origin_digest
      ^^ "}"

  -- `attestationFor`
  unfoldable pub attestation_for : CheckpointBinding → Attestation
  attestation_for b = record {
    checkpoint_reference = "urn:sha256:" ^^ P.sha256 (content_json b);
    organization_id = b.organization_id;
    project_id = b.project_id;
    run_id = b.run_id;
    source_snapshot_id = b.source_snapshot_id;
    source_identity_hash = b.source_identity_hash;
    target_origin_digest = b.target_origin_digest;
    public_evidence_reference = b.public_evidence_reference;
    provider_session_id_digest = P.sha256 b.provider_session_id;
    live_reference = b.live_reference;
    cdp_reference = b.cdp_reference;
    lease_id = b.lease_id;
    egress_policy_reference = b.egress_policy_reference;
    egress_policy_digest = b.egress_policy_digest;
    browser_policy_digest = b.browser_policy_digest;
    expires_at = b.expires_at;
  }

pub record AuthenticationSignal : Type 0 where
  pub authenticated_origin : String
  pub observed_at : String
  pub signals : List String

pub record CheckpointRecord : Type 0 where
  pub attestation : Attestation
  pub provider_session_id : String
  pub expires_at_ms : Option ℕ
  pub target_origin : Option String
  pub handoff_id : Option String
  pub authentication : Option AuthenticationSignal
  pub authentication_evidence_reference : Option String
  pub resume_claimed : Bool
  pub terminal : Bool

pub record RetiredCheckpoint : Type 0 where
  pub attestation : Attestation
  pub cleanup_resources : String
  pub forget_at_ms : Option ℕ
