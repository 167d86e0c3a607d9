-- ===== src/Workflow/Claim/Quota.antt =====
-- The live leases of an organization that `claimWorkflowTask` counts
-- (packages/database/src/control-plane.ts).
use text.Mathlib.Text.{◌==◌ as str_eq}
use text.Mathlib.TextEquality.{eq_iff}
use page2web_mcp.Common.{ℕ, ◌+◌, ◌≡◌, String, ◌&&◌, List, [], ◌∷◌, arith, get_or, count}
use page2web_mcp.Common.Dict.{Dict, get, set, get-set}
use page2web_mcp.Workflow.Types.{Task}
use page2web_mcp.Workflow.Claim.{is_live, active_by_organization}

-- How many tasks of the organization are leased.
abbrev pub live_leases : ℕ → String → List Task → ℕ
live_leases now organization ts =
    count (λ t. is_live now t && str_eq t.organization_id organization) ts

pub active_by_organization_lem :
    (now : ℕ) (organization : String) (ts : List Task) (m : Dict ℕ)
    → get_or (get organization (active_by_organization now ts m)) 0
      ≡ get_or (get organization m) 0 + live_leases now organization ts
unfolding active_by_organization
active_by_organization_lem now o [] m = omega arith
active_by_organization_lem now o (t ∷ ts) m = ground (
  arith,
  active_by_organization_lem now o ts m,
  active_by_organization_lem now o ts
      (set t.organization_id (get_or (get t.organization_id m) 0 + 1) m),
  get-set t.organization_id o (get_or (get t.organization_id m) 0 + 1) m,
  eq_iff t.organization_id o,
)
