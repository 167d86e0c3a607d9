-- ===== src/Examples/Cleanup.antt =====
-- The properties of the clean-up at a concrete checkpoint.
use text.Mathlib.Text.{◌==◌ as str_eq}
use page2web_mcp.Common.{
  ℕ, true, ◌+◌, ◌*◌, ◌≤◌, ◌≡◌, refl, arith, String, Option, none, some, List, [], ◌∷◌,
  if◌then◌else◌, length, ◌>>=◌,
}
use page2web_mcp.Common.Text.{is_sha256, is_identifier, is_error_code}
use page2web_mcp.Common.Dict.{get, set}
use page2web_mcp.Common.Sort.{sort}
use page2web_mcp.Workflow.Types.{Checkpoint, CheckpointState, website}
use page2web_mcp.Workflow.Calls.{empty_repository}
use page2web_mcp.Cleanup.Resources.{
  authentication_handoff_checkpoint, browser_lease, browser_session, cdp_observation_lease,
  egress_policy_proxy, evidence_lease, ttl_secrets, pending, destroyed, released, ResourceKind,
  Disposition, Resource, ResourceEnv, advance_resources,
}
use page2web_mcp.Cleanup.Resources.Settled.{IsAdvanced, advance_resources-IsAdvanced}
use page2web_mcp.Examples.Projects.{no_tables}
use page2web_mcp.Cleanup.Queue.{
  Receipt, CleanupTables, CleanupCall, claims, retries, closes, checkpoints_of, claims_won,
}
use page2web_mcp.Cleanup.Queue.Totals.{AreDistinct, total}
use page2web_mcp.Cleanup.Queue.Bounded.{claims_won-le}

abbrev digest : String
digest = "0123456789abcdef0123456789abcdef0123456789abcdef0123456789abcdef"

abbrev midnight : String
midnight = "2026-01-01T00:00:00.000Z"

abbrev env : ResourceEnv
env = record {
  canonical_bytes = λ rs. 200 * length rs;
  iso_time = λ t. if str_eq t midnight then some 1767225600000 else none;
}

abbrev resource : ResourceKind → Disposition → Option String → Resource
resource kind disposition at = record {
  resource = kind;
  identity_digest = digest;
  disposition = disposition;
  timestamp = at;
  error_code = none;
}

-- The session is destroyed, the rest waits; `lease` is the resource of the browser lease.
abbrev with_lease : Resource → List Resource
with_lease lease =
    resource authentication_handoff_checkpoint pending none
    ∷ lease
    ∷ resource browser_session destroyed (some midnight)
    ∷ resource cdp_observation_lease pending none
    ∷ resource egress_policy_proxy pending none
    ∷ resource evidence_lease pending none
    ∷ resource ttl_secrets pending none
    ∷ []

abbrev waiting_lease : Resource
waiting_lease = resource browser_lease pending none

abbrev released_lease : Resource
released_lease = resource browser_lease released (some midnight)

advanced :
    advance_resources env (with_lease waiting_lease) (released_lease ∷ [])
    ≡ some (with_lease released_lease)
unfolding advance_resources is_sha256
advanced = refl

-- A settled resource does not change again.
refused : advance_resources env (with_lease released_lease) (waiting_lease ∷ []) ≡ none
unfolding advance_resources is_sha256
refused = refl

advance_resources-IsAdvanced_example :
    IsAdvanced (with_lease waiting_lease) (with_lease released_lease)
advance_resources-IsAdvanced_example =
    advance_resources-IsAdvanced env (with_lease waiting_lease) (released_lease ∷ [])
      (with_lease released_lease) advanced

abbrev checkpoint : Checkpoint
checkpoint = record {
  organization_id = "org";
  project_id = "shop";
  analysis_run_id = "run";
  workflow_task_id = "task";
  source_snapshot_id = "snapshot";
  source_identity_hash = digest;
  target_origin_digest = digest;
  checkpoint_reference = "reference";
  authentication_evidence_reference = none;
  state = CheckpointState.waiting;
  expires_at = 1000;
  terminal_at = none;
  cleanup_status = none;
  cleanup_idempotency_key = "key";
  cleanup_attempts = 0;
  cleanup_available_at = none;
  cleanup_lease_owner = none;
  cleanup_lease_expires_at = none;
  cleanup_lease_generation = 0;
  cleanup_completed_at = none;
  cleanup_error_code = none;
  updated_at = 0;
}

abbrev receipt : Receipt
receipt = record {
  resumed_worker_identity_digest = none;
  resume_lease_generation = none;
  resume_claimed_at = none;
  cleanup_resources = with_lease waiting_lease;
}

abbrev tables : CleanupTables
tables = record {
  tables = record no_tables {
    repository = record empty_repository { checkpoints = ("run", checkpoint) ∷ [] };
    analysis_sources =
        (
          "run",
          record {
            source_type = website;
            source_url = "https://example.com";
            source_configuration = "{}";
          },
        )
        ∷ [];
  };
  receipts = ("run", receipt) ∷ [];
}

abbrev next_claim : CleanupCall
next_claim = claims "worker-1" 60000

-- The checkpoint fails, is claimed, given back, and claimed again whenever its lease has run out.
abbrev history : List (ℕ × CleanupCall)
history =
    (100, closes "run" CheckpointState.failed)
    ∷ (200, next_claim)
    ∷ (300, retries "worker-1" "run" 1 "GATEWAY_DOWN" true (released_lease ∷ []) 500)
    ∷ (400, next_claim)
    ∷ (70000, next_claim)
    ∷ (140000, next_claim)
    ∷ (210000, next_claim)
    ∷ (280000, next_claim)
    ∷ []

three_won : claims_won env history tables ≡ 3
unfolding claims_won advance_resources get set sort is_identifier is_error_code is_sha256 ◌>>=◌
three_won = refl

only_key : AreDistinct (checkpoints_of tables)
unfolding get
only_key = (refl, tt)

claims_won-le_example :
    claims_won env history tables + total (checkpoints_of tables)
    ≤ 3 * length (checkpoints_of tables)
claims_won-le_example =
    claims_won-le env history tables
      (record { distinct = only_key; entries = ((refl, omega arith), tt) })
