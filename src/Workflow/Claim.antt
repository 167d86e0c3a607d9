-- ===== src/Workflow/Claim.antt =====
-- `claimWorkflowTask` of `InMemoryControlPlaneRepository` (packages/database/src/control-plane.ts).
pub mod Quota
pub mod Choice
pub mod Outcome
use Prim.Native.String.{compare}
use text.Mathlib.Text.{is_lt}
use page2web_mcp.Common.{
  ℕ, ◌+◌, min, max, String, Bool, true, false, not, ◌&&◌, ◌||◌, Option, none, some, List, [], ◌∷◌,
  ltb, leb, if◌then◌else◌, is_some, get_or, some_and, head?, filter, pure, gets, when_some, modify,
  ◌>>=◌, ◌>>◌,
}
use page2web_mcp.Common.Dict.{Dict, get, set, values}
use page2web_mcp.Common.Sort.{sort}
use page2web_mcp.Workflow.Phases.{analysis, same_phase}
use page2web_mcp.Workflow.Retry.{workflow_lease_ms, workflow_default_active_task_quota}
use page2web_mcp.Workflow.Types.{
  running, is_queued, is_running, is_terminal, Run, Task, task_claimed, Repository, Env,
}
use page2web_mcp.Workflow.Store.{Method, assert_worker_id, update_run, append_event}

-- A running task whose lease has not run out.
abbrev pub is_live : ℕ → Task → Bool
is_live now t = is_running t.status && some_and t.lease_expires_at (λ e. ltb now e)

-- The loop that fills `activeByOrganization`.
unfoldable pub active_by_organization : ℕ → List Task → Dict ℕ → Dict ℕ
active_by_organization now [] m = m
active_by_organization now (t ∷ ts) m =
    active_by_organization now ts (
      if is_live now t then set t.organization_id (get_or (get t.organization_id m) 0 + 1) m else m)

abbrev pub quota : Env → ℕ
quota E = max 1 (min (get_or E.active_task_quota workflow_default_active_task_quota) 100)

-- `!run || run.cancelRequestedAt || ["succeeded", "failed", "cancelled"].includes(run.status)`
abbrev pub is_over : Option Run → Bool
is_over none = true
is_over (some r) = is_some r.cancel_requested_at || is_terminal r.status

-- The filter of the candidates.
unfoldable pub is_candidate : Env → ℕ → Dict ℕ → Repository → Task → Bool
is_candidate E now active s t =
    not (same_phase t.phase analysis || leb t.max_attempts t.attempts)
    && not (is_over (get t.workflow_run_id s.runs))
    && (is_queued t.status && leb t.available_at now
        || is_running t.status && some_and t.lease_expires_at (λ e. leb e now))
    && ltb (get_or (get t.organization_id active) 0) (quota E)

abbrev pub order_of : Repository → Task → ℕ
order_of s t = get_or (get t.organization_id s.claim_order) 0

-- The comparison of the candidates, as `compare(left, right) <= 0`.
unfoldable pub claims_before : Repository → Task → Task → Bool
claims_before s x y =
    if ltb (order_of s x) (order_of s y)
    then true
    else if ltb (order_of s y) (order_of s x)
    then false
    else if ltb x.available_at y.available_at
    then true
    else if ltb y.available_at x.available_at
    then false
    else if ltb x.created_at y.created_at
    then true
    else if ltb y.created_at x.created_at
    then false
    else not (is_lt (compare y.id x.id))

abbrev pub active_in : ℕ → Repository → Dict ℕ
active_in now s = active_by_organization now (values s.tasks) []

unfoldable pub candidates : Env → ℕ → Repository → List Task
unfolding is_candidate claims_before active_by_organization
candidates E now s =
    sort (claims_before s) (filter (is_candidate E now (active_in now s) s) (values s.tasks))

abbrev pub leased : ℕ → String → Task → Task
leased now worker t = record t {
  status = running;
  attempts = t.attempts + 1;
  lease_generation = t.lease_generation + 1;
  lease_owner = some worker;
  lease_expires_at = some (now + workflow_lease_ms);
  error_code = none;
  updated_at = now;
}

-- The tables with the claimed task and its place in the claim order.
abbrev pub with_claim : Task → Repository → Repository
with_claim t s = record s {
  tasks = set t.id t s.tasks;
  claim_order = set t.organization_id (s.claim_sequence + 1) s.claim_order;
  claim_sequence = s.claim_sequence + 1;
}

-- What follows the choice of a candidate.
unfoldable pub take : Env → ℕ → Task → Method (Option Task)
unfolding update_run append_event
take E now claimed = do
  modify (with_claim claimed)
  run ←
      update_run claimed.workflow_run_id
        (λ r. record r { status = running; current_phase = claimed.phase; updated_at = now })
  append_event E now run.id task_claimed (some claimed.id) none none
  pure (some claimed)

unfoldable pub claim_task : Env → ℕ → String → Method (Option Task)
unfolding assert_worker_id candidates take
claim_task E now worker = do
  assert_worker_id worker
  found ← gets (λ s. head? (candidates E now s))
  when_some found none λ candidate. take E now (leased now worker candidate)
