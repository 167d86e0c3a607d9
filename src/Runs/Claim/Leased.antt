-- ===== src/Runs/Claim/Leased.antt =====
-- What the claim of an analysis leaves in the tables (packages/database/src/control-plane.ts).
use text.Mathlib.TextEquality.{eq_iff}
use page2web_mcp.Common.{
  ℕ, ◌+◌, ◌≤◌, ◌<◌, ◌≡◌, refl, subst, String, Bool, true, Option, none, some, List, [], ◌∷◌, find,
  arith, and-eq-true, Bool-cases, Option-cases, none≢some, some_inj, inl, inr, Result, ok, pure,
  gets, or_raise, modify, ◌>>=◌, ◌>>◌,
}
use page2web_mcp.Common.Dict.{Dict, get, values, get-set_self}
use page2web_mcp.Common.Throwing.Keeps.{Keeps, Keeps-bind, Keeps-modify, Keeps-pure, keeps_rules}
use page2web_mcp.Common.Throwing.Ensures.{bind-Ensures}
use page2web_mcp.Workflow.Types.{
  RepositoryError, running, SourceType, Analysis, Checkpoint, EventType, Payload, Run, Task,
  Repository, task_claimed,
}
use page2web_mcp.Workflow.Store.{append_event}
use page2web_mcp.Projects.Types.{SnapshotRecord, AnalysisSource}
use page2web_mcp.Cleanup.Queue.{CleanupTables, CleanupMethod, repository_of, bounded_lease}
use page2web_mcp.Runs.Claim.{
  ClaimEnv, ClaimedAnalysis, Decision, skips, gives_up, takes, on_workflows, leased_run,
  leased_task, decide_run, resume_receipt, lease_run, take_run, continue_with, claim_runs,
  claim_analysis,
}

-- From a state of the first kind, what the method returns and leaves is related.
record Yields {A : Type 0} (P : CleanupTables → Type 0) (Q : A → CleanupTables → Type 0)
    (m : CleanupMethod A) : Type 0 where
  at : (s : CleanupTables) (a : A) → P s → (m s).0 ≡ ok a → Q a (m s).1

ok_value : {E A : Type 0} {a b : A} → ◌≡◌ {A = Result E A} (ok a) (ok b) → a ≡ b
ok_value e = cc

module _ {A B : Type 0} {P : CleanupTables → Type 0} {Q : B → CleanupTables → Type 0} where
  Yields-bind :
      (m : CleanupMethod A) (f : A → CleanupMethod B)
      → Keeps P m
      → ((a : A) → Yields P Q (f a))
      → Yields P Q (m >>= f)
  Yields-bind m f k y = record {
    at = λ s b h e. bind-Ensures Q m f s (λ a p c q. (y a).at (m s).1 c (k.at s h) q) b e;
  }

  -- What was read has a property.
  Yields-gets :
      (R : A → Type 0) (g : CleanupTables → A) (f : A → CleanupMethod B)
      → ((s : CleanupTables) → R (g s))
      → ((a : A) → R a → Yields P Q (f a))
      → Yields P Q (gets g >>= f)
  unfolding ◌>>=◌
  Yields-gets R g f r y = record { at = λ s b h e. (y (g s) (r s)).at s b h e }

  Yields-or_raise :
      (o : Option A) (x : RepositoryError) (f : A → CleanupMethod B)
      → ((a : A) → o ≡ some a → Yields P Q (f a))
      → Yields P Q (or_raise o x >>= f)
  unfolding ◌>>=◌
  Yields-or_raise none x f y = record { at = λ s b h e. absurd (cc) }
  Yields-or_raise (some a) x f y = record { at = λ s b h e. (y a refl).at s b h e }

module _ {B : Type 0} {P R : CleanupTables → Type 0} {Q : B → CleanupTables → Type 0} where
  Yields-modify :
      (g : CleanupTables → CleanupTables) (m : CleanupMethod B)
      → ((s : CleanupTables) → P s → R (g s))
      → Yields R Q m
      → Yields P Q (modify g >> m)
  unfolding ◌>>=◌
  Yields-modify g m k y = record { at = λ s b h e. y.at (g s) b (k s h) e }

module _ {B : Type 0} {P : CleanupTables → Type 0} {Q : B → CleanupTables → Type 0} where
  Yields-pure : (b : B) → ((s : CleanupTables) → P s → Q b s) → Yields P Q (pure b)
  unfolding pure
  Yields-pure b k = record { at = λ s a h e. subst (λ x. Q x s) (ok_value e) (k s h) }

find-passes : {A : Type 0} (p : A → Bool) (xs : List A) (x : A) → find p xs ≡ some x → p x ≡ true
find-passes p [] x e = absurd (none≢some e)
find-passes p (y ∷ ys) x e = elim (Bool-cases (p y)) [
  | inl t ↦ subst (λ z. p z ≡ true) (some_inj (rw t at e)) t
  | inr t ↦ find-passes p ys x (rw t at e)
]

-- The run and its task are stored, and carry one lease of the worker.
pub record IsLeased (now : ℕ) (worker : String) (lease_ms : ℕ) (c : ClaimedAnalysis)
    (s : CleanupTables) : Type 0 where
  pub run_stored : get c.run.id (repository_of s).analyses ≡ some c.run
  pub task_stored : get c.task.id (repository_of s).tasks ≡ some c.task
  pub of_run : c.task.workflow_run_id ≡ c.run.id
  pub running : (c.run.status ≡ running) × (c.task.status ≡ running)
  pub owner : (c.run.lease_owner ≡ some worker) × (c.task.lease_owner ≡ some worker)
  pub expiry :
      (c.run.lease_expires_at ≡ some (now + bounded_lease lease_ms))
      × (c.task.lease_expires_at ≡ some (now + bounded_lease lease_ms))
  pub attempts : (c.run.attempts ≤ 3) × (c.task.attempts ≡ c.run.attempts)

abbrev Answer : ℕ → String → ℕ → Option ClaimedAnalysis → CleanupTables → Type 0
Answer now worker lease_ms none s = Unit
Answer now worker lease_ms (some c) s = IsLeased now worker lease_ms c s

module _ (E : ClaimEnv) (now : ℕ) (worker : String) (lease_ms : ℕ) where
  -- The run and the task are stored.
  abbrev AreStored : Analysis → Task → CleanupTables → Type 0
  AreStored r t s =
      (get r.id (repository_of s).analyses ≡ some r) × (get t.id (repository_of s).tasks ≡ some t)

  event-AreStored :
      (r : Analysis) (t : Task) (id : String) (type : EventType) (task code : Option String)
      (payload : Option Payload)
      → Keeps (AreStored r t) (on_workflows (append_event E.workflow now id type task code payload))
  unfolding on_workflows append_event
  event-AreStored r t id type task code payload = record {
    at = λ s h. elim (Option-cases (get id (repository_of s).runs)) [
      | inl e ↦ rw (e, append_event) h
      | inr (w, e) ↦ rw (e, append_event) h
    ];
  }

  receipt-AreStored :
      (r : Analysis) (t : Task) (c : Option Checkpoint)
      → Keeps (AreStored r t) (resume_receipt E now worker r t c)
  unfolding resume_receipt
  receipt-AreStored r t none = Keeps-pure none
  receipt-AreStored r t (some c) = Keeps-bind _ _ (search keeps_rules) λ found.
      Keeps-bind _ _ (search keeps_rules) λ persisted.
        Keeps-bind _ _ (search keeps_rules)
          λ _. Keeps-bind _ _ (Keeps-modify _ (λ s h. h)) λ _. search keeps_rules

  lease_run-Yields :
      (r : Analysis) (source : AnalysisSource) (w : Run) (t : Task) (snapshot : SnapshotRecord)
      (c : Option Checkpoint)
      → t.workflow_run_id ≡ r.id
      → r.attempts < 3
      → Yields
          (λ s. get r.id (repository_of s).analyses ≡ some (leased_run now worker lease_ms r))
          (Answer now worker lease_ms)
          (lease_run E now worker
            (leased_run now worker lease_ms r)
            source
            w
            (leased_task now worker (leased_run now worker lease_ms r) t)
            snapshot
            c)
  unfolding lease_run
  lease_run-Yields r source w t snapshot c of_run few =
      let run = leased_run now worker lease_ms r in
      let task = leased_task now worker run t in
      Yields-modify {R = AreStored run task} _ _
        (λ s h. (h, get-set_self task.id task (repository_of s).tasks))
        (Yields-bind _ _ (receipt-AreStored run task c) λ receipt.
          Yields-bind _ _ (Keeps-modify _ (λ s h. h)) λ _.
            Yields-bind _ _ (event-AreStored run task w.id task_claimed (some t.id) none none) λ _.
              Yields-pure _ λ s h. record {
                run_stored = h.0;
                task_stored = h.1;
                of_run = of_run;
                running = (refl, refl);
                owner = (refl, refl);
                expiry = (refl, refl);
                attempts = (omega (arith, few), refl);
              })

  take_run-Yields :
      (r : Analysis) (source : AnalysisSource) (c : Option Checkpoint)
      → r.attempts < 3
      → Yields
          (λ s. Unit {0})
          (Answer now worker lease_ms)
          (take_run E now worker lease_ms r source c)
  unfolding take_run
  take_run-Yields r source c few =
      let run = leased_run now worker lease_ms r in
      Yields-modify {R = λ s. get r.id (repository_of s).analyses ≡ some run} _ _
        (λ s h. get-set_self run.id run (repository_of s).analyses)
        (Yields-bind _ _ (search keeps_rules) λ workflows.
          Yields-gets (λ o. (t : Task) → o ≡ some t → t.workflow_run_id ≡ r.id) _ _
            (λ s t e.
              let passed = find-passes _ (values (repository_of s).tasks) t e in
              (eq_iff t.workflow_run_id r.id).0 (and-eq-true _ _ passed).0)
            λ tasks of_run. Yields-bind _ _ (search keeps_rules) λ w.
              Yields-or_raise tasks _ _ λ t found. Yields-bind _ _ (search keeps_rules) λ _.
                Yields-bind _ _ (search keeps_rules) λ snapshots.
                  Yields-bind _ _ (search keeps_rules) λ snapshot.
                    Yields-bind _ _ (search keeps_rules)
                      λ _. lease_run-Yields r source w t snapshot c (of_run t found) few)

  decide_run-takes :
      (types : Option (List SourceType)) (active : Dict ℕ) (s : Repository) (r : Analysis)
      (source : AnalysisSource)
      → decide_run E now types active s r source ≡ takes
      → r.attempts < 3
  decide_run-takes types active s r source e = ground arith

  claim_runs-Yields :
      (types : Option (List SourceType)) (active : Dict ℕ) (rs : List Analysis)
      → Yields
          (λ s. Unit {0})
          (Answer now worker lease_ms)
          (claim_runs E now worker lease_ms types active rs)
  unfolding claim_runs
  claim_runs-Yields types active [] = Yields-pure none (λ s h. tt)
  claim_runs-Yields types active (r ∷ rs) = Yields-bind _ _ (search keeps_rules) λ sources.
      Yields-bind _ _ (search keeps_rules) λ source.
        Yields-bind _ _ (search keeps_rules) λ checkpoint.
          Yields-gets (λ d. d ≡ takes → r.attempts < 3) _ _
            (λ s e. decide_run-takes types active (repository_of s) r source e)
            λ d few.
              next r source checkpoint (claim_runs E now worker lease_ms types active rs)
                (claim_runs-Yields types active rs) d few
    where
      next :
          (r : Analysis) (source : AnalysisSource) (c : Option Checkpoint)
          (rest : CleanupMethod (Option ClaimedAnalysis))
          → Yields (λ s. Unit {0}) (Answer now worker lease_ms) rest
          → (d : Decision) → (d ≡ takes → r.attempts < 3)
          → Yields
              (λ s. Unit {0})
              (Answer now worker lease_ms)
              (continue_with E now worker lease_ms r source c rest d)
      next r source c rest y skips few = y
      next r source c rest y gives_up few = Yields-bind _ _ (record { at = λ s h. tt }) (λ _. y)
      next r source c rest y takes few = take_run-Yields r source c (few refl)

  -- A claim that returns a run leaves it and a task of it stored, both running under a lease of the
  -- worker that runs out when the bounded lease has passed since now, both with the same number of
  -- attempts, three at most.
  pub claim_analysis-IsLeased :
      (types : Option (List SourceType)) (s : CleanupTables) (c : ClaimedAnalysis)
      → (claim_analysis E now worker lease_ms types s).0 ≡ ok (some c)
      → IsLeased now worker lease_ms c (claim_analysis E now worker lease_ms types s).1
  unfolding claim_analysis
  claim_analysis-IsLeased types s c e = claim-Yields.at s (some c) tt e
    where
      claim-Yields :
          Yields
            (λ s. Unit {0})
            (Answer now worker lease_ms)
            (claim_analysis E now worker lease_ms types)
      claim-Yields = Yields-bind _ _ (search keeps_rules) λ _.
          Yields-bind _ _ (search keeps_rules) λ active.
            Yields-bind _ _ (search keeps_rules) λ runs. claim_runs-Yields types active runs
