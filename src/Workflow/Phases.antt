-- ===== src/Workflow/Phases.antt =====
-- `WorkflowPhase` and `WORKFLOW_PHASE_REGISTRY` of packages/database/src/workflow.ts.
pub mod Chain
use page2web_mcp.Common.{ℕ, ◌≡◌, refl, Bool, Option, none, some, List, [], ◌∷◌, arith, ◌==◌, find}

pub data Phase : Type 0 where
  analysis preflight ownership browser_auth explore propose review_wait : Phase
  controlled_mutation_verification compile candidate_verify publish install_verify : Phase

-- The position of a phase in the union; the test `===` on phases compares these.
abbrev pub index : Phase → ℕ
index analysis = 0
index preflight = 1
index ownership = 2
index browser_auth = 3
index explore = 4
index propose = 5
index review_wait = 6
index controlled_mutation_verification = 7
index compile = 8
index candidate_verify = 9
index publish = 10
index install_verify = 11

abbrev pub same_phase : Phase → Phase → Bool
same_phase p q = index p == index q

of_index : ℕ → Phase
of_index n = elim (find (λ p. index p == n) all_phases) [ none ↦ analysis | some p ↦ p ]
  where
    all_phases : List Phase
    all_phases =
        analysis ∷ preflight ∷ ownership ∷ browser_auth ∷ explore ∷ propose ∷ review_wait
        ∷ controlled_mutation_verification ∷ compile ∷ candidate_verify ∷ publish ∷ install_verify
        ∷ []

of_index-index : (p : Phase) → of_index (index p) ≡ p
unfolding of_index
of_index-index analysis = refl
of_index-index _ = refl

pub index-injective : (p q : Phase) → index p ≡ index q → p ≡ q
index-injective p q e = cc (of_index-index p, of_index-index q)

pub data Execution : Type 0 where
  worker wait : Execution

pub record RegistryEntry : Type 0 where
  pub phase : Phase
  pub execution : Execution
  pub next : Option Phase

abbrev entry : Phase → Execution → Option Phase → RegistryEntry
entry p x n = record { phase = p; execution = x; next = n }

abbrev pub registry : List RegistryEntry
registry =
    entry preflight worker (some ownership)
    ∷ entry ownership wait (some browser_auth)
    ∷ entry browser_auth wait (some explore)
    ∷ entry explore worker (some propose)
    ∷ entry propose worker (some review_wait)
    ∷ entry review_wait wait (some controlled_mutation_verification)
    ∷ entry controlled_mutation_verification worker (some compile)
    ∷ entry compile worker (some candidate_verify)
    ∷ entry candidate_verify worker (some publish)
    ∷ entry publish worker (some install_verify)
    ∷ entry install_verify worker none
    ∷ []

-- `workflowPhase`; `none` is `undefined`, which it is for `analysis` only.
unfoldable pub workflow_phase : Phase → Option RegistryEntry
workflow_phase p = find (λ e. same_phase e.phase p) registry

-- `task.phase === "analysis" ? undefined : workflowPhase(task.phase).next`
unfoldable pub next_phase : Phase → Option Phase
unfolding workflow_phase
next_phase p = elim (workflow_phase p) [ none ↦ none | some e ↦ e.next ]
