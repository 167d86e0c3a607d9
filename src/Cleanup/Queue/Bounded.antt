-- ===== src/Cleanup/Queue/Bounded.antt =====
-- The clean-up comes to an end (packages/database/src/control-plane.ts).
use page2web_mcp.Common.{
  ℕ, ◌+◌, ◌*◌, ◌≤◌, ◌<◌, ◌≡◌, refl, sym, subst, ◌∙◌, String, Bool, true, false, not, Option, none,
  some, List, [], ◌∷◌, ltb, filter, head?, length, arith, All-filter, All-head?, All-both,
  filter-All, and-eq-true, ltb→lt, Bool-cases, Option-cases, inl, inr, Result, ok, err, raise_if,
  modify, ◌>>=◌, ◌>>◌,
}
use page2web_mcp.Common.Dict.{Dict, get, set, values, Entries-get}
use page2web_mcp.Common.Sort.{All-sort}
use page2web_mcp.Common.Text.{is_identifier, is_error_code}
use page2web_mcp.Common.Throwing.Keeps.{Keeps, bind-Keeps, Keeps-bind, Keeps-modify, keeps_rules}
use page2web_mcp.Common.Throwing.Ensures.{guard_inv, or_raise_inv}
use page2web_mcp.Workflow.Types.{
  RepositoryError, invalid_state, lease_lost, is_open, Checkpoint, CheckpointState,
}
use page2web_mcp.Workflow.Owner.{closed_checkpoint, close_checkpoint}
use page2web_mcp.Projects.Types.{AnalysisSource}
use page2web_mcp.Cleanup.Resources.{Resource, ResourceEnv}
use page2web_mcp.Cleanup.Queue.{
  Receipt, CleanupTables, ClaimedCleanup, CleanupMethod, is_claimable, is_website,
  cleanup_candidates, claimed_checkpoint, claim_record, give_up, store_checkpoint, checkpoints_of,
  with_checkpoints, claim_candidate, claim_cleanup, held_cleanup, holds_cleanup, advance_receipt,
  cleaned_checkpoint, retried_checkpoint, complete_cleanup, retry_cleanup, close_in, CleanupCall,
  claims, completes, retries, closes, cleanup_step, won, won_by, claims_won,
}
use page2web_mcp.Cleanup.Queue.Totals.{
  IsEntry, IsBounded, total, total-le, Moved, stays, moves, set-Moved, values-found, give_up-Moved,
  values-Counts,
}

-- What a call does to the table of the checkpoints.
abbrev MovedBy : CleanupTables → CleanupTables → ℕ → Type 0
MovedBy s t n = Moved (checkpoints_of s) (checkpoints_of t) n

guard-MovedBy :
    (b : Bool) (e : RepositoryError) (m : CleanupMethod (Unit {0})) (s : CleanupTables)
    → IsBounded (checkpoints_of s)
    → MovedBy s (m s).1 0
    → MovedBy s ((raise_if b e >> m) s).1 0
unfolding ◌>>=◌
guard-MovedBy true e m s h k = stays (checkpoints_of s) h
guard-MovedBy false e m s h k = k

-- Of a method that writes no checkpoint.
abbrev LeavesThem : {A : Type 0} → CleanupMethod A → Type 0
LeavesThem m = (d : Dict Checkpoint) → Keeps (λ t. checkpoints_of t ≡ d) m

held_cleanup-LeavesThem :
    (now : ℕ) (worker run : String) (generation : ℕ)
    → LeavesThem (held_cleanup now worker run generation)
unfolding held_cleanup
held_cleanup-LeavesThem now worker run generation d = search keeps_rules

advance_receipt-LeavesThem :
    (E : ResourceEnv) (run : String) (updates : List Resource)
    → LeavesThem (advance_receipt E run updates)
unfolding advance_receipt
advance_receipt-LeavesThem E run updates d = Keeps-bind _ _ (search keeps_rules) λ found.
    Keeps-bind _ _ (search keeps_rules)
      λ receipt. Keeps-bind _ _ (search keeps_rules) λ resources. Keeps-modify _ (λ s h. h)

ok_value : {E A : Type 0} {a b : A} → ◌≡◌ {A = Result E A} (ok a) (ok b) → a ≡ b
ok_value e = cc

held_cleanup-found :
    (now : ℕ) (worker run : String) (generation : ℕ) (s : CleanupTables) (c : Checkpoint)
    → (held_cleanup now worker run generation s).0 ≡ ok c
    → get run (checkpoints_of s) ≡ some c
unfolding held_cleanup ◌>>=◌
held_cleanup-found now worker run generation s c e =
    let h = or_raise_inv (get run (checkpoints_of s)) lease_lost _ s c e in
    let k = guard_inv (not (holds_cleanup now worker generation h.0)) lease_lost _ s c h.2 in
    subst (λ x. get run (checkpoints_of s) ≡ some x) (ok_value k.1) h.1

-- A checkpoint is written back under its key with its id and its attempts.
record IsRewrite (g : Checkpoint → Checkpoint) : Type 0 where
  id : (c : Checkpoint) → (g c).analysis_run_id ≡ c.analysis_run_id
  attempts : (c : Checkpoint) → (g c).cleanup_attempts ≡ c.cleanup_attempts

rewrite-Moved :
    (g : Checkpoint → Checkpoint) (k : String) (m : Dict Checkpoint) (c : Checkpoint)
    → IsRewrite g
    → get k m ≡ some c
    → IsBounded m
    → Moved m (set k (g c) m) 0
rewrite-Moved g k m c r e h =
    let entry = Entries-get IsEntry k m e h.entries in
    set-Moved k (g c) m c 0 e (entry.0 ∙ sym (r.id c)) (omega (arith, r.attempts c, entry.1))
      (omega (arith, r.attempts c)) h

module _ (E : ResourceEnv) (now : ℕ) (worker run : String) (generation : ℕ)
    (updates : List Resource) where
  -- The rest of a completion or of a retry.
  abbrev settle_with : (Checkpoint → Checkpoint) → CleanupMethod (Unit {0})
  settle_with g = do
    c ← held_cleanup now worker run generation
    advance_receipt E run updates
    modify (λ s. with_checkpoints (set run (g c) (checkpoints_of s)) s)

  settle_with-MovedBy :
      (g : Checkpoint → Checkpoint) (s : CleanupTables)
      → IsRewrite g
      → IsBounded (checkpoints_of s)
      → MovedBy s (settle_with g s).1 0
  unfolding modify
  settle_with-MovedBy g s r h =
      let d = checkpoints_of s in
      let held = held_cleanup now worker run generation in
      let kept : checkpoints_of (held s).1 ≡ d =
        (held_cleanup-LeavesThem now worker run generation d).at s refl in
      let still : (t : CleanupTables) → checkpoints_of t ≡ d → MovedBy s t 0 =
        λ t e. subst (λ m. Moved d m 0) (sym e) (stays d h) in
      bind-Keeps (λ t. MovedBy s t 0) held _ s (still (held s).1 kept)
        λ c e.
          let there = held_cleanup-found now worker run generation s c e in
          let moved = (advance_receipt-LeavesThem E run updates d).at (held s).1 kept in
          bind-Keeps (λ t. MovedBy s t 0) (advance_receipt E run updates) _ (held s).1
            (still (advance_receipt E run updates (held s).1).1 moved)
            λ _ _.
              subst (λ m. Moved d (set run (g c) m) 0) (sym moved)
                (rewrite-Moved g run d c r there h)

cleaned_checkpoint-IsRewrite : (now : ℕ) → IsRewrite (cleaned_checkpoint now)
cleaned_checkpoint-IsRewrite now = record { id = λ c. refl; attempts = λ c. refl }

retried_checkpoint-IsRewrite :
    (now draw : ℕ) (code : String) (retryable : Bool)
    → IsRewrite (retried_checkpoint now draw code retryable)
unfolding retried_checkpoint
retried_checkpoint-IsRewrite now draw code retryable = record {
  id = λ c. refl;
  attempts = λ c. refl;
}

closed-IsRewrite : (now : ℕ) (state : CheckpointState) → IsRewrite (closed_checkpoint now state)
closed-IsRewrite now state = record { id = λ c. refl; attempts = λ c. refl }

close-MovedBy :
    (now : ℕ) (run : String) (state : CheckpointState) (s : CleanupTables)
    → IsBounded (checkpoints_of s)
    → MovedBy s (close_in now run state s) 0
unfolding close_in close_checkpoint
close-MovedBy now run state s h = elim (Option-cases (get run (checkpoints_of s))) [
  | inl t ↦ rw (t, close_checkpoint) (stays (checkpoints_of s) h)
  | inr (c, t) ↦ elim (Bool-cases (is_open c.state)) [
    | inl o ↦
        rw (t, o, close_checkpoint)
          (rewrite-Moved (closed_checkpoint now state) run (checkpoints_of s) c
            (closed-IsRewrite now state) t h)
    | inr o ↦ rw (t, o, close_checkpoint) (stays (checkpoints_of s) h)
  ]
]

-- An answer of a claim, and the tables it leaves.
abbrev Answer : Type 0
Answer = Result RepositoryError (Option ClaimedCleanup) × CleanupTables

-- A claim that finds a candidate throws and writes nothing, or writes the candidate as claimed.
claim_candidate-cases :
    (Q : Answer → Type 0) (now : ℕ) (worker : String) (lease_ms : ℕ) (c : Checkpoint)
    (s : CleanupTables)
    → Q (err invalid_state, s)
    → ((source : AnalysisSource) (receipt : Receipt)
        → Q (
          ok (some (claim_record now worker lease_ms c source receipt)),
          with_checkpoints
              (store_checkpoint (claimed_checkpoint now worker lease_ms c) (checkpoints_of s))
              s,
        ))
    → Q (claim_candidate now worker lease_ms (some c) s)
unfolding claim_candidate ◌>>=◌
claim_candidate-cases Q now worker lease_ms c s no_claim yes_claim =
    elim (Option-cases (get c.analysis_run_id s.tables.analysis_sources)) [
      | inl t ↦ rw t no_claim
      | inr (source, t) ↦ elim (Bool-cases (is_website source.source_type)) [
        | inr w ↦ rw (t, w) no_claim
        | inl w ↦ elim (Option-cases (get c.analysis_run_id s.receipts)) [
          | inl r ↦ rw (t, w, r) no_claim
          | inr (receipt, r) ↦ rw (t, w, r) (yes_claim source receipt)
        ]
      ]
    ]

-- What the first candidate is: a checkpoint of the table with an attempt left.
candidate-found :
    (now : ℕ) (m : Dict Checkpoint) (c : Checkpoint)
    → IsBounded m
    → head? (cleanup_candidates now m) ≡ some c
    → (get c.analysis_run_id m ≡ some c) × (c.cleanup_attempts < 3)
unfolding cleanup_candidates
candidate-found now m c h e =
    let found_update =
      All-filter (λ d. get d.analysis_run_id m ≡ some d) (is_claimable now) (values m)
        (values-found m h) in
    let passed = filter-All (is_claimable now) (values m) in
    let both =
      All-both (λ d. get d.analysis_run_id m ≡ some d) (λ d. is_claimable now d ≡ true)
        (filter (is_claimable now) (values m)) found_update passed in
    let r =
      All-head? (λ d. (get d.analysis_run_id m ≡ some d) × (is_claimable now d ≡ true))
        (cleanup_candidates now m) e
        (All-sort _ (λ d. (get d.analysis_run_id m ≡ some d) × (is_claimable now d ≡ true))
          (filter (is_claimable now) (values m)) both) in
    (r.0, ltb→lt c.cleanup_attempts 3 (and-eq-true _ (ltb c.cleanup_attempts 3) r.1).1)

claim_candidate-MovedBy :
    (now : ℕ) (worker : String) (lease_ms : ℕ) (o : Option Checkpoint) (s : CleanupTables)
    → IsBounded (checkpoints_of s)
    → head? (cleanup_candidates now (checkpoints_of s)) ≡ o
    → MovedBy s
        (claim_candidate now worker lease_ms o s).1
        (won (claim_candidate now worker lease_ms o s).0)
unfolding claim_candidate ◌>>=◌
claim_candidate-MovedBy now worker lease_ms none s h e = stays (checkpoints_of s) h
claim_candidate-MovedBy now worker lease_ms (some c) s h e =
    let there = candidate-found now (checkpoints_of s) c h e in
    claim_candidate-cases (λ a. MovedBy s a.1 (won a.0)) now worker lease_ms c s
      (stays (checkpoints_of s) h)
      λ source receipt.
        set-Moved c.analysis_run_id (claimed_checkpoint now worker lease_ms c) (checkpoints_of s) c
          1 there.0 refl (omega (arith, there.1)) refl h

claim-MovedBy :
    (now : ℕ) (worker : String) (lease_ms : ℕ) (s : CleanupTables)
    → IsBounded (checkpoints_of s)
    → MovedBy s
        (claim_cleanup now worker lease_ms s).1
        (won (claim_cleanup now worker lease_ms s).0)
unfolding claim_cleanup ◌>>=◌
claim-MovedBy now worker lease_ms s h =
    let m = checkpoints_of s in
    let rest = give_up now (values m) m in
    let s' = with_checkpoints rest s in
    let first = give_up-Moved now (values m) m h (values-Counts m h) in
    elim (Bool-cases (is_identifier 127 worker)) [
      | inr t ↦ rw t (stays m h)
      | inl t ↦ rw t (
          moves m rest
            (checkpoints_of
              (claim_candidate now worker lease_ms (head? (cleanup_candidates now rest)) s').1)
            (won (claim_candidate now worker lease_ms (head? (cleanup_candidates now rest)) s').0)
            first
            (claim_candidate-MovedBy now worker lease_ms (head? (cleanup_candidates now rest)) s'
              first.bounded refl))
    ]

step-MovedBy :
    (E : ResourceEnv) (now : ℕ) (call : CleanupCall) (s : CleanupTables)
    → IsBounded (checkpoints_of s)
    → MovedBy s (cleanup_step E now call s) (won_by now call s)
unfolding cleanup_step won_by complete_cleanup retry_cleanup
step-MovedBy E now (claims worker lease_ms) s h = claim-MovedBy now worker lease_ms s h
step-MovedBy E now (completes worker run generation updates) s h =
    guard-MovedBy (not (is_identifier 127 worker)) invalid_state _ s h (
      settle_with-MovedBy E now worker run generation updates (cleaned_checkpoint now) s
        (cleaned_checkpoint-IsRewrite now) h)
step-MovedBy E now (retries worker run generation code retryable updates draw) s h =
    guard-MovedBy (not (is_identifier 127 worker)) invalid_state _ s h (
      guard-MovedBy (not (is_error_code code)) invalid_state _ s h (
        settle_with-MovedBy E now worker run generation updates
          (retried_checkpoint now draw code retryable) s
          (retried_checkpoint-IsRewrite now draw code retryable) h))
step-MovedBy E now (closes run state) s h = close-MovedBy now run state s h

-- From a table whose keys are the ids of its checkpoints, no key twice, and whose checkpoints were
-- tried three times at most: in any history of claims, completions and retries of the clean-up and
-- of closed checkpoints, the claims that are won and the attempts made before it are together three
-- for each checkpoint at most.
pub claims_won-le :
    (E : ResourceEnv) (calls : List (ℕ × CleanupCall)) (s : CleanupTables)
    → IsBounded (checkpoints_of s)
    → claims_won E calls s + total (checkpoints_of s) ≤ 3 * length (checkpoints_of s)
unfolding claims_won
claims_won-le E [] s h = omega (arith, total-le (checkpoints_of s) h.entries)
claims_won-le E ((now, call) ∷ calls) s h =
    let one = step-MovedBy E now call s h in
    let rest = claims_won-le E calls (cleanup_step E now call s) one.bounded in
    omega (arith, one.added, one.size, rest)
