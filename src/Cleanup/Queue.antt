-- ===== src/Cleanup/Queue.antt =====
-- `claimWebsiteAuthenticationCleanup`, `completeWebsiteAuthenticationCleanup` and
-- `retryWebsiteAuthenticationCleanup` (packages/database/src/control-plane.ts). The loops over the
-- checkpoints run over those that were there before; a method reads the clock once.
pub mod Totals
pub mod Bounded
use text.Mathlib.Text.{◌==◌ as str_eq}
use page2web_mcp.Common.{
  ℕ, suc, ◌+◌, ◌*◌, ◌≤◌, String, Bool, true, false, not, ◌&&◌, ◌||◌, Option, none, some, List, [],
  ◌∷◌, ltb, leb, ◌==◌, if◌then◌else◌, min, max, some_and, get_or, filter, head?, Result, ok, err,
  Exec, pure, gets, or_raise, raise_if, modify, ◌>>=◌, ◌>>◌,
}
use page2web_mcp.Common.Dict.{Dict, get, set, values}
use page2web_mcp.Common.Sort.{sort}
use page2web_mcp.Common.Text.{is_identifier, is_error_code}
use page2web_mcp.Workflow.Types.{
  RepositoryError, invalid_state, lease_lost, Checkpoint, CheckpointState, CleanupStatus,
  Repository, SourceType, website,
}
use page2web_mcp.Workflow.Retry.{retry_delay_ms}
use page2web_mcp.Workflow.Owner.{close_checkpoint}
use page2web_mcp.Projects.Types.{AnalysisSource, ProjectTables}
use page2web_mcp.Projects.Reads.{position_le}
use page2web_mcp.Cleanup.Resources.{Resource, ResourceEnv, advance_resources}

-- `WebsiteLiveReceiptEvidence`, the fields that the claims and the clean-up read or write.
pub record Receipt : Type 0 where
  pub resumed_worker_identity_digest : Option String
  pub resume_lease_generation : Option ℕ
  pub resume_claimed_at : Option ℕ
  pub cleanup_resources : List Resource

-- The tables that the clean-up uses: those of the projects, among them the checkpoints, and the
-- receipts.
pub record CleanupTables : Type 0 where
  pub tables : ProjectTables
  pub receipts : Dict Receipt

pub data Outcome : Type 0 where
  cancelled failed : Outcome

pub record ClaimedCleanup : Type 0 where
  pub checkpoint : Checkpoint
  pub source_url : String
  pub outcome : Outcome
  pub lease_owner : String
  pub lease_expires_at : ℕ
  pub live_receipt_evidence : Receipt

abbrev pub CleanupMethod : Type 0 → Type 0
CleanupMethod A = Exec CleanupTables RepositoryError A

abbrev pub max_cleanup_attempts : ℕ
max_cleanup_attempts = 3

abbrev pub awaits_cleanup : Option CleanupStatus → Bool
awaits_cleanup (some CleanupStatus.pending) = true
awaits_cleanup _ = false

abbrev pub is_cleaning : Option CleanupStatus → Bool
is_cleaning (some CleanupStatus.running) = true
is_cleaning _ = false

-- `["failed", "cancelled", "expired"].includes(checkpoint.state)`
abbrev pub is_cleaned_up : CheckpointState → Bool
is_cleaned_up CheckpointState.failed = true
is_cleaned_up CheckpointState.cancelled = true
is_cleaned_up CheckpointState.expired = true
is_cleaned_up _ = false

-- Its lease has run out.
abbrev pub is_lapsed : ℕ → Checkpoint → Bool
is_lapsed now c =
    is_cleaning c.cleanup_status && some_and c.cleanup_lease_expires_at (λ at. leb at now)

-- The time from which it may be claimed.
abbrev pub cleanup_due : Checkpoint → ℕ
cleanup_due c = get_or c.cleanup_available_at (get_or c.terminal_at c.updated_at)

abbrev pub repository_of : CleanupTables → Repository
repository_of s = s.tables.repository

abbrev pub with_repository : Repository → CleanupTables → CleanupTables
with_repository r s = record s { tables = record s.tables { repository = r } }

abbrev pub checkpoints_of : CleanupTables → Dict Checkpoint
checkpoints_of s = s.tables.repository.checkpoints

abbrev pub with_checkpoints : Dict Checkpoint → CleanupTables → CleanupTables
with_checkpoints m s = with_repository (record (repository_of s) { checkpoints = m }) s

-- `this.#websiteAuthenticationCheckpoints.set(checkpoint.analysisRunId, checkpoint)`
abbrev pub store_checkpoint : Checkpoint → Dict Checkpoint → Dict Checkpoint
store_checkpoint c m = set c.analysis_run_id c m

-- A checkpoint that would be claimed but has no attempt left.
abbrev pub is_used_up : ℕ → Checkpoint → Bool
is_used_up now c =
    (awaits_cleanup c.cleanup_status && leb (get_or c.cleanup_available_at c.updated_at) now
      || is_lapsed now c)
    && not (ltb c.cleanup_attempts max_cleanup_attempts)

abbrev pub given_up : ℕ → Checkpoint → Checkpoint
given_up now c = record c {
  cleanup_status = some CleanupStatus.failed;
  cleanup_available_at = none;
  cleanup_lease_owner = none;
  cleanup_lease_expires_at = none;
  cleanup_error_code =
      some (get_or c.cleanup_error_code "WEBSITE_AUTHENTICATION_CLEANUP_ATTEMPTS_EXHAUSTED");
  updated_at = now;
}

-- The first loop of the claim.
abbrev pub give_up : ℕ → List Checkpoint → Dict Checkpoint → Dict Checkpoint
give_up now [] m = m
give_up now (c ∷ cs) m =
    give_up now cs (if is_used_up now c then store_checkpoint (given_up now c) m else m)

abbrev pub is_claimable : ℕ → Checkpoint → Bool
is_claimable now c =
    is_cleaned_up c.state
    && (awaits_cleanup c.cleanup_status && leb (cleanup_due c) now || is_lapsed now c)
    && ltb c.cleanup_attempts max_cleanup_attempts

-- By the time that it is due, then by its id.
unfoldable pub cleanup_candidates : ℕ → Dict Checkpoint → List Checkpoint
unfolding sort
cleanup_candidates now m =
    sort (λ a b. position_le (cleanup_due a, a.analysis_run_id) (cleanup_due b, b.analysis_run_id))
      (filter (is_claimable now) (values m))

abbrev pub bounded_lease : ℕ → ℕ
bounded_lease lease_ms = max 1000 (min lease_ms 300000)

abbrev pub claimed_checkpoint : ℕ → String → ℕ → Checkpoint → Checkpoint
claimed_checkpoint now worker lease_ms c = record c {
  cleanup_status = some CleanupStatus.running;
  cleanup_attempts = c.cleanup_attempts + 1;
  cleanup_lease_owner = some worker;
  cleanup_lease_expires_at = some (now + bounded_lease lease_ms);
  cleanup_lease_generation = c.cleanup_lease_generation + 1;
  cleanup_error_code = none;
  updated_at = now;
}

abbrev pub is_website : SourceType → Bool
is_website website = true
is_website _ = false

abbrev pub outcome_of : CheckpointState → Outcome
outcome_of CheckpointState.cancelled = cancelled
outcome_of _ = failed

-- What the worker that claims a checkpoint gets: the claimed checkpoint, whose fields the record
-- repeats, and the rest.
abbrev pub claim_record : ℕ → String → ℕ → Checkpoint → AnalysisSource → Receipt → ClaimedCleanup
claim_record now worker lease_ms c source receipt = record {
  checkpoint = claimed_checkpoint now worker lease_ms c;
  source_url = source.source_url;
  outcome = outcome_of c.state;
  lease_owner = worker;
  lease_expires_at = now + bounded_lease lease_ms;
  live_receipt_evidence = receipt;
}

-- The rest of the claim, for the first candidate.
unfoldable pub claim_candidate :
    ℕ → String → ℕ → Option Checkpoint → CleanupMethod (Option ClaimedCleanup)
claim_candidate now worker lease_ms none = pure none
claim_candidate now worker lease_ms (some c) = do
  sources ← gets (λ s. get c.analysis_run_id s.tables.analysis_sources)
  source ← or_raise sources invalid_state
  raise_if (not (is_website source.source_type)) invalid_state
  receipts ← gets (λ s. get c.analysis_run_id s.receipts)
  receipt ← or_raise receipts invalid_state
  modify λ s.
      with_checkpoints
        (store_checkpoint (claimed_checkpoint now worker lease_ms c) (checkpoints_of s)) s
  pure (some (claim_record now worker lease_ms c source receipt))

-- `claimWebsiteAuthenticationCleanup`
unfoldable pub claim_cleanup : ℕ → String → ℕ → CleanupMethod (Option ClaimedCleanup)
unfolding cleanup_candidates claim_candidate
claim_cleanup now worker lease_ms = do
  raise_if (not (is_identifier 127 worker)) invalid_state
  modify λ s. with_checkpoints (give_up now (values (checkpoints_of s)) (checkpoints_of s)) s
  candidate ← gets (λ s. head? (cleanup_candidates now (checkpoints_of s)))
  claim_candidate now worker lease_ms candidate

abbrev pub is_owner : String → Option String → Bool
is_owner worker none = false
is_owner worker (some w) = str_eq w worker

-- The worker holds the lease of the clean-up.
abbrev pub holds_cleanup : ℕ → String → ℕ → Checkpoint → Bool
holds_cleanup now worker generation c =
    is_cleaning c.cleanup_status
    && is_owner worker c.cleanup_lease_owner
    && c.cleanup_lease_generation == generation
    && some_and c.cleanup_lease_expires_at (λ at. ltb now at)

-- The checkpoint of the run, whose clean-up the worker holds.
unfoldable pub held_cleanup : ℕ → String → String → ℕ → CleanupMethod Checkpoint
held_cleanup now worker run generation = do
  found ← gets (λ s. get run (checkpoints_of s))
  c ← or_raise found lease_lost
  raise_if (not (holds_cleanup now worker generation c)) lease_lost
  pure c

abbrev pub cleaned_checkpoint : ℕ → Checkpoint → Checkpoint
cleaned_checkpoint now c = record c {
  cleanup_status = some CleanupStatus.succeeded;
  cleanup_lease_owner = none;
  cleanup_lease_expires_at = none;
  cleanup_completed_at = some now;
  cleanup_error_code = none;
  updated_at = now;
}

-- No further attempt is made.
abbrev pub is_last : Bool → Checkpoint → Bool
is_last retryable c = not retryable || leb max_cleanup_attempts c.cleanup_attempts

abbrev pub retried_checkpoint : ℕ → ℕ → String → Bool → Checkpoint → Checkpoint
unfolding retry_delay_ms
retried_checkpoint now draw code retryable c = record c {
  cleanup_status =
      some (if is_last retryable c then CleanupStatus.failed else CleanupStatus.pending);
  cleanup_available_at =
      if is_last retryable c
      then none
      else some (now + retry_delay_ms c.cleanup_attempts none draw);
  cleanup_lease_owner = none;
  cleanup_lease_expires_at = none;
  cleanup_error_code = some code;
  updated_at = now;
}

module _ (E : ResourceEnv) where
  -- The receipt evidence of the run with its resources brought on.
  unfoldable pub advance_receipt : String → List Resource → CleanupMethod (Unit {0})
  unfolding advance_resources
  advance_receipt run updates = do
    found ← gets (λ s. get run s.receipts)
    receipt ← or_raise found invalid_state
    resources ← or_raise (advance_resources E receipt.cleanup_resources updates) invalid_state
    modify λ s. record s {
      receipts = set run (record receipt { cleanup_resources = resources }) s.receipts;
    }

  -- `completeWebsiteAuthenticationCleanup`
  unfoldable pub complete_cleanup :
      ℕ → String → String → ℕ → List Resource → CleanupMethod (Unit {0})
  unfolding held_cleanup advance_receipt
  complete_cleanup now worker run generation updates = do
    raise_if (not (is_identifier 127 worker)) invalid_state
    c ← held_cleanup now worker run generation
    advance_receipt run updates
    modify (λ s. with_checkpoints (set run (cleaned_checkpoint now c) (checkpoints_of s)) s)

  -- `retryWebsiteAuthenticationCleanup`; `draw` is the draw of `random()`.
  unfoldable pub retry_cleanup :
      ℕ → String → String → ℕ → String → Bool → List Resource → ℕ → CleanupMethod (Unit {0})
  unfolding held_cleanup advance_receipt retried_checkpoint
  retry_cleanup now worker run generation code retryable updates draw = do
    raise_if (not (is_identifier 127 worker)) invalid_state
    raise_if (not (is_error_code code)) invalid_state
    c ← held_cleanup now worker run generation
    advance_receipt run updates
    modify (λ s.
        with_checkpoints (set run (retried_checkpoint now draw code retryable c) (checkpoints_of s))
          s)

-- A call of the clean-up, or of the methods that close a checkpoint.
pub data CleanupCall : Type 0 where
  claims : String → ℕ → CleanupCall
  completes : String → String → ℕ → List Resource → CleanupCall
  retries : String → String → ℕ → String → Bool → List Resource → ℕ → CleanupCall
  closes : String → CheckpointState → CleanupCall

unfoldable pub close_in : ℕ → String → CheckpointState → CleanupTables → CleanupTables
unfolding close_checkpoint
close_in now run state s = with_repository (close_checkpoint now run state (repository_of s)) s

abbrev pub cleanup_step : ResourceEnv → ℕ → CleanupCall → CleanupTables → CleanupTables
unfolding claim_cleanup complete_cleanup retry_cleanup close_in
cleanup_step E now (claims worker lease_ms) s = (claim_cleanup now worker lease_ms s).1
cleanup_step E now (completes worker run generation updates) s =
    (complete_cleanup E now worker run generation updates s).1
cleanup_step E now (retries worker run generation code retryable updates draw) s =
    (retry_cleanup E now worker run generation code retryable updates draw s).1
cleanup_step E now (closes run state) s = close_in now run state s

-- How many of the answers are a claim that a worker won.
abbrev pub won : Result RepositoryError (Option ClaimedCleanup) → ℕ
won (ok (some c)) = 1
won _ = 0

abbrev pub won_by : ℕ → CleanupCall → CleanupTables → ℕ
unfolding claim_cleanup
won_by now (claims worker lease_ms) s = won (claim_cleanup now worker lease_ms s).0
won_by now _ s = 0

-- The claims that are won in a history.
unfoldable pub claims_won : ResourceEnv → List (ℕ × CleanupCall) → CleanupTables → ℕ
unfolding cleanup_step won_by
claims_won E [] s = 0
claims_won E ((now, call) ∷ calls) s =
    won_by now call s + claims_won E calls (cleanup_step E now call s)
