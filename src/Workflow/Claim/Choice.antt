-- ===== src/Workflow/Claim/Choice.antt =====
-- Which task `claimWorkflowTask` chooses (packages/database/src/control-plane.ts).
use page2web_mcp.Common.{
  ℕ, ◌≤◌, ◌<◌, ◌≡◌, ◌⊎◌, refl, Bool, true, false, leb, some_and, ◌&&◌, ◌||◌, Option, none, some, [],
  arith, get_or, head?, All, All-map, All-Mem, All-filter, All-filter_inv, filter-All, All-head?,
  All-both, All-no_head, Mem,
}
use mathlib.Core.Bool.{true≢false}
use page2web_mcp.Common.Dict.{get, values}
use page2web_mcp.Common.Sort.{sort-head, All-sort, All-sort_inv}
use page2web_mcp.Workflow.Phases.{analysis, same_phase}
use page2web_mcp.Workflow.Types.{
  Run, Task, Repository, Env, queued, running, is_terminal, is_queued, is_running,
}
use page2web_mcp.Workflow.Claim.{
  is_over, is_candidate, active_in, claims_before, order_of, candidates, quota,
}
use page2web_mcp.Workflow.Claim.Quota.{live_leases, active_by_organization_lem}

-- What a task must be like for a worker to get it.
pub record IsEligible (E : Env) (now : ℕ) (s : Repository) (t : Task) : Type 0 where
  pub no_analysis : same_phase t.phase analysis ≡ false
  pub attempt_left : t.attempts < t.max_attempts
  pub run_goes_on :
      (r : Run) × (get t.workflow_run_id s.runs ≡ some r)
      × (r.cancel_requested_at ≡ none)
      × (is_terminal r.status ≡ false)
  pub ready :
      ((t.status ≡ queued) × (t.available_at ≤ now))
      ⊎ ((t.status ≡ running) × (e : ℕ) × (t.lease_expires_at ≡ some e) × (e ≤ now))
  pub in_quota : live_leases now t.organization_id (values s.tasks) < quota E

module _ (E : Env) (now : ℕ) (s : Repository) where
  quota_lem :
      (t : Task)
      → get_or (get t.organization_id (active_in now s)) 0
        ≡ live_leases now t.organization_id (values s.tasks)
  unfolding get
  quota_lem t = omega (arith, active_by_organization_lem now t.organization_id (values s.tasks) [])

  open_run :
      (o : Option Run)
      → is_over o ≡ false
      → (r : Run) × (o ≡ some r) × (r.cancel_requested_at ≡ none) × (is_terminal r.status ≡ false)
  open_run none e = absurd (true≢false e)
  open_run (some r) e = (r, refl, ground arith, ground arith)

  abbrev is_ready : Task → Bool
  is_ready t =
      is_queued t.status && leb t.available_at now
      || is_running t.status && some_and t.lease_expires_at (λ e. leb e now)

  ready_of :
      (t : Task)
      → is_ready t ≡ true
      → ((t.status ≡ queued) × (t.available_at ≤ now))
        ⊎ ((t.status ≡ running) × (e : ℕ) × (t.lease_expires_at ≡ some e) × (e ≤ now))
  ready_of t e = ground arith

  ready_test :
      (t : Task)
      → ((t.status ≡ queued) × (t.available_at ≤ now))
        ⊎ ((t.status ≡ running) × (e : ℕ) × (t.lease_expires_at ≡ some e) × (e ≤ now))
      → is_ready t ≡ true
  ready_test t h = ground arith

  pub candidate-IsEligible :
      (t : Task) → is_candidate E now (active_in now s) s t ≡ true → IsEligible E now s t
  unfolding is_candidate
  candidate-IsEligible t e = record {
    no_analysis = ground arith;
    attempt_left = ground arith;
    run_goes_on = open_run (get t.workflow_run_id s.runs) (ground arith);
    ready = ready_of t (ground arith);
    in_quota = ground (arith, quota_lem t);
  }

  pub IsEligible-candidate :
      (t : Task) → IsEligible E now s t → is_candidate E now (active_in now s) s t ≡ true
  unfolding is_candidate
  IsEligible-candidate t i =
      let closed : is_over (get t.workflow_run_id s.runs) ≡ false = ground (arith, i.run_goes_on) in
      let r : is_ready t ≡ true = ready_test t i.ready in
      ground (arith, quota_lem t, i.in_quota, i.attempt_left, i.no_analysis)

-- The first task's organization was served before the second's, or as long ago and the first
-- is available before, or as early and the first is not younger.
abbrev pub ComesFirst : Repository → Task → Task → Type 0
ComesFirst s x y =
    (order_of s x < order_of s y)
    ⊎ ((order_of s x ≡ order_of s y)
        × ((x.available_at < y.available_at)
            ⊎ ((x.available_at ≡ y.available_at) × (x.created_at ≤ y.created_at))))

ComesFirst-trans :
    (s : Repository) (x y z : Task) → ComesFirst s x y → ComesFirst s y z → ComesFirst s x z
ComesFirst-trans s x y z h k = ground arith

ComesFirst-refl : (s : Repository) (x : Task) → ComesFirst s x x
ComesFirst-refl s x = ground arith

claims_before-ComesFirst :
    (s : Repository) (x y : Task) → claims_before s x y ≡ true → ComesFirst s x y
unfolding claims_before
claims_before-ComesFirst s x y e = ground arith

claims_after-ComesFirst :
    (s : Repository) (x y : Task) → claims_before s x y ≡ false → ComesFirst s y x
unfolding claims_before
claims_after-ComesFirst s x y e = ground arith

module _ (E : Env) (now : ℕ) (s : Repository) where
  abbrev pub IsChosen : Task → Type 0
  IsChosen c =
      Mem c (values s.tasks)
      × IsEligible E now s c
      × All (λ u. IsEligible E now s u → ComesFirst s c u) (values s.tasks)

  -- The first of the sorted candidates.
  pub candidates-IsChosen : (c : Task) → head? (candidates E now s) ≡ some c → IsChosen c
  unfolding candidates
  candidates-IsChosen c e = (found.0, candidate-IsEligible E now s c found.1, first)
    where
      test : Task → Bool
      test = is_candidate E now (active_in now s) s

      found : Mem c (values s.tasks) × (test c ≡ true)
      found =
          All-head? (λ t. Mem t (values s.tasks) × (test t ≡ true)) _ e
            (All-sort (claims_before s) _ _ (
              All-both _ _ _ (All-filter _ test _ (All-Mem (values s.tasks)))
                (filter-All test (values s.tasks))))

      first : All (λ u. IsEligible E now s u → ComesFirst s c u) (values s.tasks)
      first =
          All-map (λ u. test u ≡ true → ComesFirst s c u) _ _
            (λ u k i. k (IsEligible-candidate E now s u i))
            (All-filter_inv (ComesFirst s c) test _ (
              sort-head (claims_before s) (ComesFirst s) (ComesFirst-trans s)
                (claims_before-ComesFirst s) (claims_after-ComesFirst s) (ComesFirst-refl s) _ c e))

  pub candidates-none :
      head? (candidates E now s) ≡ none → All (λ u. ¬ IsEligible E now s u) (values s.tasks)
  unfolding candidates
  candidates-none e =
      All-map (λ u. test u ≡ true → ⊥) _ _ (λ u k i. k (IsEligible-candidate E now s u i))
        (All-filter_inv (λ _. ⊥) test _
          (All-sort_inv (claims_before s) (λ _. ⊥) _ (All-no_head (λ _. ⊥) _ e)))
    where
      test : Task → Bool
      test = is_candidate E now (active_in now s) s
