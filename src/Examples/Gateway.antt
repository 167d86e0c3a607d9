-- ===== src/Examples/Gateway.antt =====
-- The gateway properties at concrete tables.
use page2web_mcp.Common.{
  ℕ, ◌<◌, ◌≤◌, ◌≡◌, ◌↔◌, refl, arith, String, true, false, some, List, [], ◌∷◌, ◌>>=◌,
}
use page2web_mcp.Common.Decimal.{decimal}
use page2web_mcp.Common.Dict.{get, set, delete, values}
use page2web_mcp.Workflow.Store.{◌^^◌}
use page2web_mcp.Common.Text.{is_identifier, is_sha256, is_hash_reference, is_secret_reference}
use page2web_mcp.Gateway.Checkpoints.Records.{
  Platform, CheckpointBinding, valid_checkpoint_binding, attestation_for,
}
use page2web_mcp.Gateway.Checkpoints.{
  CheckpointStore, CheckpointCall, creates, retires, fresh_record, find, create, retire,
  claim_resume, checkpoint_step, resumes_won,
}
use page2web_mcp.Gateway.Checkpoints.Resume.{resumes_won-le}
use page2web_mcp.Gateway.Leases.{
  LeaseClaimInput, LeaseRecord, LeaseCall, claims, leased_record, claim, lease_steps,
}
use page2web_mcp.Gateway.Leases.Exclusive.{lease_steps-one_live}
use page2web_mcp.Gateway.Egress.{EnforcedPolicy, EgressRequest, Installed, install, check}
use page2web_mcp.Gateway.Egress.Checks.{IsPassed, check_lem}
use page2web_mcp.Gateway.Policies.{
  PolicyIssueInput, PolicyRecord, issues, read_route, issued, live, policy_steps,
}
use page2web_mcp.Gateway.Policies.Confined.{IsConfined, live-IsConfined}

abbrev uuid : ℕ → String
uuid n = decimal n

abbrev lease_input : LeaseClaimInput
lease_input = record {
  ownership = record { organization_id = "org-1"; project_id = "project-1"; run_id = "run-1" };
  target_origin = "https://example.com";
  expires_at = "1970-01-01T00:00:01.000Z";
  expiry = some 1000;
  policy_digest = "policy";
  idempotency_key = "lease-key-1";
}

abbrev lease_calls : List (ℕ × LeaseCall)
lease_calls =
    (0, claims lease_input) ∷ (5, claims (record lease_input { idempotency_key = "other" })) ∷ []

abbrev granted_lease : LeaseRecord
granted_lease = leased_record lease_input 1000 "lease-0"

abbrev lease_id : String
lease_id = "lease-0"

lease_steps-one_live_example : lease_id ≡ lease_id
unfolding lease_steps claim get set delete ◌>>=◌ decimal
lease_steps-one_live_example =
    lease_steps-one_live uuid lease_calls 0 lease_id lease_id granted_lease granted_lease
      (refl, omega arith) (refl, omega arith) refl

abbrev policy : EnforcedPolicy
policy = record {
  reference = "policy-1";
  routes = read_route "https://example.com" ∷ [];
  target_origin = "https://example.com";
  expires_at_ms = 1000;
}

abbrev request : EgressRequest
request = record {
  method = "GET";
  url = some (record { origin = "https://example.com"; pathname = "/orders" });
  now = 10;
}

abbrev installed : Installed
installed = install policy []

-- A read of the target origin passes, and a write does not.
read_passes : (check request installed).0 ≡ true
unfolding check set
read_passes = refl

write_fails : (check (record request { method = "POST" }) installed).0 ≡ false
unfolding check set
write_fails = refl

check_lem_example : ((check request installed).0 ≡ true) ↔ IsPassed request (values installed)
check_lem_example = check_lem request installed

abbrev policy_input : PolicyIssueInput
policy_input = record {
  deny_by_default = true;
  ttl_seconds = some 60;
  routes = read_route "https://example.com" ∷ [];
  target_origin = "https://example.com";
  idempotency_key = "policy-key-1";
}

abbrev issued_policy : PolicyRecord
issued_policy = issued policy_input 60000 "secretref:policy.0"

live-IsConfined_example :
    (issued_policy.revoked ≡ false)
    × (10 < issued_policy.expires_at_ms)
    × IsConfined "secretref:policy.0" issued_policy
unfolding policy_steps live get set ◌>>=◌ decimal
live-IsConfined_example =
    live-IsConfined uuid (issues 0 policy_input ∷ []) 10 "secretref:policy.0" issued_policy refl

abbrev digest : String
digest = "0123456789abcdef0123456789abcdef0123456789abcdef0123456789abcdef"

abbrev platform : Platform
platform = record { sha256 = λ v. digest; json_text = λ v. "\"" ^^ v ^^ "\"" }

abbrev binding : CheckpointBinding
binding = record {
  organization_id = "org-1";
  project_id = "project-1";
  run_id = "run-1";
  source_snapshot_id = "snapshot-1";
  source_identity_hash = digest;
  target_origin_digest = digest;
  public_evidence_reference = "urn:sha256:" ^^ digest;
  egress_policy_reference = "secretref:policy.1";
  egress_policy_digest = digest;
  provider_session_id = "session-1";
  live_reference = "secretref:live.1";
  cdp_reference = "secretref:cdp.1";
  lease_id = "lease-1";
  browser_policy_digest = digest;
  expires_at = "1970-01-01T00:00:01.000Z";
  expiry = some 1000;
}

binding_holds : valid_checkpoint_binding binding ≡ true
unfolding valid_checkpoint_binding is_identifier is_sha256 is_hash_reference is_secret_reference
binding_holds = refl

abbrev no_checkpoints : CheckpointStore
no_checkpoints = record {
  records = [];
  by_handoff = [];
  retired = [];
  cells = λ n. fresh_record binding (attestation_for platform binding);
  next = 0;
}

abbrev one_checkpoint : CheckpointStore
one_checkpoint = (create platform binding no_checkpoints).1

abbrev reference : String
reference = "urn:sha256:" ^^ digest

resumes_won-le_example :
    resumes_won platform 0 (CheckpointCall.claims 0 ∷ CheckpointCall.claims 0 ∷ []) one_checkpoint
    ≤ 1
unfolding create get
resumes_won-le_example =
    resumes_won-le platform 0 (CheckpointCall.claims 0 ∷ CheckpointCall.claims 0 ∷ [])
      one_checkpoint (omega arith)

-- Retired and created again, the checkpoint stands under the same reference with another record.
abbrev recreated : CheckpointStore
recreated = checkpoint_step platform (creates binding) (
    checkpoint_step platform (retires reference "[]")
      (checkpoint_step platform (CheckpointCall.claims 0) one_checkpoint))

recreated_record : find reference recreated ≡ some 1
unfolding checkpoint_step create get set retire claim_resume delete attestation_for
recreated_record = refl

recreated_resume : (claim_resume 1 recreated).0 ≡ true
unfolding checkpoint_step create get set retire claim_resume delete attestation_for
recreated_resume = refl
