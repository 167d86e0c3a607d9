-- ===== src/Workflow/Cancelled.antt =====
-- How the parts of `cancelWorkflow` keep the request to cancel (packages/database/src/control-plane.ts).
pub mod Request
use text.Mathlib.Text.{◌==◌ as str_eq}
use text.Mathlib.TextEquality.{eq_iff}
use page2web_mcp.Common.{
  ℕ, ◌≡◌, ◌≢◌, refl, sym, ◌∙◌, ap, subst, inl, inr, String, Bool, true, false, Option, none, some,
  List, [], ◌∷◌, arith, is_some, some_inj, none≢some, Option-cases, Bool-cases, Result, ok, err,
  modify, gets, or_run, ◌>>=◌, ◌>>◌,
}
use page2web_mcp.Common.Dict.{get, set, get-set_self, get-set_ne, get-set_cases, ne_of_eq_false}
use page2web_mcp.Common.Throwing.Keeps.{Keeps, Keeps-modify, Keeps-bind, keeps_rules}
use page2web_mcp.Workflow.Types.{
  Run, Task, Analysis, Actor, Status, Repository, RepositoryError, Env, EventType, Payload,
}
use page2web_mcp.Workflow.Store.{
  Method, ◌^^◌, store_task, update_run, append_event, stable_hash, command_replay, run_for_actor,
}
use page2web_mcp.Workflow.Owner.{
  CancelInput, cancel_tasks, cancel_analysis, cancelled_run, cancel_workflow, analysis_of,
  close_checkpoint,
}

-- The stored run of the id stands under it, and its cancellation is requested.
pub record IsRequested (k : String) (s : Repository) : Type 0 where
  pub run : Run
  pub stored : get k s.runs ≡ some run
  pub keyed : run.id ≡ k
  pub requested : is_some run.cancel_requested_at ≡ true

module _ (k : String) where
  pub frame : {s t : Repository} → IsRequested k s → t.runs ≡ s.runs → IsRequested k t
  frame h p = record {
    run = h.run;
    stored = ap (get k) p ∙ h.stored;
    keyed = h.keyed;
    requested = h.requested;
  }

  -- A write to the runs under an id, of a run that keeps the request and its own id.
  pub set-IsRequested :
      (j : String) (r q : Run) (s : Repository)
      → get j s.runs ≡ some r
      → q.id ≡ r.id
      → q.cancel_requested_at ≡ r.cancel_requested_at
      → IsRequested k s
      → (t : Repository) → t.runs ≡ set j q s.runs
      → IsRequested k t
  set-IsRequested j r q s found same kept h t p = elim (Bool-cases (str_eq j k)) [
    | inl e ↦
        let at_k : j ≡ k = (eq_iff j k).0 e in
        let is_r : h.run ≡ r =
          some_inj (sym h.stored ∙ ap (λ x. get x s.runs) (sym at_k) ∙ found) in
        record {
          run = q;
          stored = ap (get k) p ∙ ap (λ x. get k (set x q s.runs)) at_k ∙ get-set_self k q s.runs;
          keyed = same ∙ ap (λ (x : Run). x.id) (sym is_r) ∙ h.keyed;
          requested =
              ap is_some (kept ∙ ap (λ (x : Run). x.cancel_requested_at) (sym is_r)) ∙ h.requested;
        }
    | inr e ↦ record {
      run = h.run;
      stored = ap (get k) p ∙ get-set_ne j k q s.runs (ne_of_eq_false e) ∙ h.stored;
      keyed = h.keyed;
      requested = h.requested;
    }
  ]

  pub append_event-IsRequested :
      (E : Env) (now : ℕ) (id : String) (type : EventType) (task code : Option String)
      (payload : Option Payload)
      → Keeps (IsRequested k) (append_event E now id type task code payload)
  unfolding append_event
  append_event-IsRequested E now id type task code payload = record { at = at }
    where
      at :
          (s : Repository)
          → IsRequested k s
          → IsRequested k (append_event E now id type task code payload s).1
      at s h = elim (Option-cases (get id s.runs)) [
        | inl e ↦ rw (e, append_event) h
        | inr (r, e) ↦ rw (e, append_event) (set-IsRequested id r _ s e refl refl h _ refl)
      ]

  store_task-IsRequested : (t : Task) → Keeps (IsRequested k) (store_task t)
  unfolding store_task
  store_task-IsRequested t = Keeps-modify _ λ s h. frame h refl

  pub cancel_tasks-IsRequested :
      (E : Env) (now : ℕ) (run : String) (ts : List Task)
      → Keeps (IsRequested k) (cancel_tasks E now run ts)
  unfolding cancel_tasks
  cancel_tasks-IsRequested E now run [] = search keeps_rules
  cancel_tasks-IsRequested E now run (t ∷ ts) = Keeps-bind _ _ (store_task-IsRequested _) λ _.
      Keeps-bind _ _ (append_event-IsRequested E now _ _ _ _ _)
        λ _. cancel_tasks-IsRequested E now run ts

  pub cancel_analysis-runs :
      (now : ℕ) (a : Option Analysis) (s : Repository) → (cancel_analysis now a s).runs ≡ s.runs
  unfolding cancel_analysis close_checkpoint
  cancel_analysis-runs now none s = refl
  cancel_analysis-runs now (some a) s = ground arith

  pub modify-IsRequested :
      (f : Repository → Repository)
      → ((s : Repository) → (f s).runs ≡ s.runs)
      → Keeps {E = RepositoryError} (IsRequested k) (modify f)
  modify-IsRequested f p = Keeps-modify f λ s h. frame h (p s)
