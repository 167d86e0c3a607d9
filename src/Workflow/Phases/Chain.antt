-- ===== src/Workflow/Phases/Chain.antt =====
-- The order of the phases in the registry of packages/database/src/workflow.ts.
use page2web_mcp.Common.{ℕ, suc, zero, ◌+◌, ◌-◌, ◌≡◌, refl, ◌≢◌, Option, none, some, arith}
use page2web_mcp.Workflow.Phases.{Phase, analysis, install_verify, index, next_phase}

-- The phase that a run is in after so many completed tasks; `none` once the run is over.
pub after_completions : ℕ → Phase → Option Phase
after_completions zero p = some p
after_completions (suc n) p = elim (next_phase p) [ none ↦ none | some q ↦ after_completions n q ]

-- A phase is followed by the one that stands behind it in the union.
pub next_phase-index : (p q : Phase) → next_phase p ≡ some q → index q ≡ index p + 1
unfolding next_phase
next_phase-index analysis q e = ground arith
next_phase-index _ q e = ground arith

-- From any production phase the run comes to `install_verify` after exactly as many completed
-- tasks as there are phases behind it, and to its end with one more.
pub after_completions-install_verify :
    (p : Phase)
    → p ≢ analysis
    → (after_completions (11 - index p) p ≡ some install_verify)
      × (after_completions (12 - index p) p ≡ none)
unfolding after_completions next_phase
after_completions-install_verify analysis h = absurd (h refl)
after_completions-install_verify _ h = (refl, refl)
