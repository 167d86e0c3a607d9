-- ===== src/Workflow/Claim/Outcome.antt =====
-- What `claimWorkflowTask` returns and writes (packages/database/src/control-plane.ts).
use page2web_mcp.Common.{
  ℕ, ◌≡◌, ◌⊎◌, inl, inr, refl, String, true, Option, none, some, arith, head?, All, Option-cases,
  ok, ◌>>=◌,
}
use page2web_mcp.Common.Text.{is_identifier}
use page2web_mcp.Common.Dict.{get, set, values, get-set_self}
use page2web_mcp.Workflow.Types.{Run, Task, Repository, Env, running}
use page2web_mcp.Workflow.Store.{assert_worker_id, update_run, append_event}
use page2web_mcp.Workflow.Claim.{candidates, leased, take, claim_task}
use page2web_mcp.Workflow.Claim.Choice.{IsEligible, IsChosen, candidates-IsChosen, candidates-none}

module _ (E : Env) (now : ℕ) where
  -- `take` returns the task, and writes no other.
  take_lem :
      (t : Task) (s : Repository) (r : Run)
      → get t.workflow_run_id s.runs ≡ some r
      → ((take E now t s).0 ≡ ok (some t)) × ((take E now t s).1.tasks ≡ set t.id t s.tasks)
  unfolding take update_run append_event ◌>>=◌
  take_lem t s r e =
      let stored =
        get-set_self r.id (record r { status = running; current_phase = t.phase; updated_at = now })
          s.runs in
      rw (update_run, e, append_event, stored) (refl, refl)

  pub claim_task-none :
      (worker : String) (s : Repository)
      → is_identifier 127 worker ≡ true
      → head? (candidates E now s) ≡ none
      → claim_task E now worker s ≡ (ok none, s)
  unfolding claim_task assert_worker_id ◌>>=◌
  claim_task-none worker s w e = rw (w, e) refl

  pub claim_task-some :
      (worker : String) (s : Repository) (c : Task)
      → is_identifier 127 worker ≡ true
      → head? (candidates E now s) ≡ some c
      → claim_task E now worker s ≡ take E now (leased now worker c) s
  unfolding claim_task assert_worker_id ◌>>=◌
  claim_task-some worker s c w e = rw (w, e) refl

  -- A worker with a well-formed id that claims gets a lease on a task that was chosen as
  -- `IsChosen` says (it was eligible, and no eligible task comes before it), and the tables of
  -- tasks change in that task only; or no stored task was eligible, and the worker gets nothing
  -- and the tables do not change. The claim never throws.
  pub claim_task_lem :
      (worker : String) (s : Repository)
      → is_identifier 127 worker ≡ true
      → ((claim_task E now worker s ≡ (ok none, s))
          × All (λ u. ¬ IsEligible E now s u) (values s.tasks))
        ⊎ ((c : Task) × IsChosen E now s c
            × ((claim_task E now worker s).0 ≡ ok (some (leased now worker c)))
            × ((claim_task E now worker s).1.tasks ≡ set c.id (leased now worker c) s.tasks))
  claim_task_lem worker s w = elim (Option-cases (head? (candidates E now s))) [
    | inl e ↦ inl (claim_task-none worker s w e, candidates-none E now s e)
    | inr (c, e) ↦
        let chosen = candidates-IsChosen E now s c e in
        let open_run = chosen.1.run_goes_on in
        let done = take_lem (leased now worker c) s open_run.0 open_run.1 in
        let same = claim_task-some worker s c w e in inr (c, chosen, rw same done.0, rw same done.1)
  ]

  pub claim_task-worker :
      (worker : String) (s : Repository) (o : Option Task)
      → (claim_task E now worker s).0 ≡ ok o
      → is_identifier 127 worker ≡ true
  unfolding claim_task assert_worker_id ◌>>=◌
  claim_task-worker worker s o e = ground arith
