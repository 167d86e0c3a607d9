-- ===== src/Workflow/Exhausted.antt =====
-- Tasks without an attempt left (packages/database/src/control-plane.ts).
use mathlib.Core.Logic.Or
use page2web_mcp.Common.{ℕ, ◌≡◌, String, some, List, [], ◌∷◌}
use page2web_mcp.Common.Dict.{get, Entries}
use page2web_mcp.Workflow.Types.{Task, Repository, Env}
use page2web_mcp.Workflow.Claim.{claim_task}

-- The task is stored under its id, and is the only one of that id.
pub record IsStored (t : Task) (s : Repository) : Type 0 where
  pub found : get t.id s.tasks ≡ some t
  pub only : Entries (λ _ u. u.id ≡ t.id → u ≡ t) s.tasks

-- Claims one after another, each at its time by its worker.
unfoldable pub claim_all : Env → List (ℕ × String) → Repository → Repository
claim_all E [] s = s
claim_all E ((now, worker) ∷ cs) s = claim_all E cs (claim_task E now worker s).1
