-- ===== src/Workflow/Cancelled/Request.antt =====
-- What a cancellation that has returned leaves of the run (packages/database/src/control-plane.ts).
use page2web_mcp.Common.{
  ℕ, ◌≡◌, ◌≢◌, refl, sym, ◌∙◌, ap, subst, inl, inr, String, Option, none, some, none≢some,
  Option-cases, Result, ok, err, modify,
}
use page2web_mcp.Common.Dict.{get, set, get-set_self}
use page2web_mcp.Common.Throwing.Keeps.{Keeps, Keeps-bind, Keeps-modify, keeps_rules}
use page2web_mcp.Common.Throwing.Ensures.{Leads, Leads-after, Leads-then, Leads-or_run, Leads-map}
use page2web_mcp.Workflow.Types.{Run, Actor, Repository, RepositoryError, Env}
use page2web_mcp.Workflow.Store.{◌^^◌, update_run, command_replay}
use page2web_mcp.Workflow.Store.Results.{
  run_for_actor_ok, run_for_actor_state, command_replay_state,
}
use page2web_mcp.Workflow.Owner.{
  CancelInput, cancelled_run, cancel_workflow, cancel_analysis, analysis_of,
}
use page2web_mcp.Workflow.EventLog.{IsLogged}
use page2web_mcp.Workflow.Replay.{replay_inv}
use page2web_mcp.Workflow.Cancelled.{
  IsRequested, frame, set-IsRequested, append_event-IsRequested, cancel_tasks-IsRequested,
  cancel_analysis-runs, modify-IsRequested,
}

module _ (k : String) where
  -- The run's own update, once its cancellation is requested.
  update_run-IsRequested :
      (f : Run → Run)
      → ((r : Run) → (f r).id ≡ r.id)
      → ((r : Run) → (f r).cancel_requested_at ≡ r.cancel_requested_at)
      → Keeps (IsRequested k) (update_run k f)
  unfolding update_run
  update_run-IsRequested f same kept = record { at = at }
    where
      at : (s : Repository) → IsRequested k s → IsRequested k (update_run k f s).1
      at s h =
          rw (update_run, h.stored)
            (set-IsRequested k h.run.id h.run (f h.run) s
              (ap (λ x. get x s.runs) h.keyed ∙ h.stored) (same h.run) (kept h.run) h _ refl)

  -- The request itself, in tables where the run stands under its id.
  request :
      (now : ℕ) (s : Repository)
      → ((r : Run) → get k s.runs ≡ some r → r.id ≡ k)
      → Leads
          (λ x. x ≡ s)
          (IsRequested k)
          (update_run k (λ r. record r { cancel_requested_at = some now; updated_at = now }))
  unfolding update_run
  request now s keyed = record { at = at }
    where
      failed : {x : RepositoryError} {a : Run} → ◌≢◌ {A = Result RepositoryError Run} (err x) (ok a)
      failed e = cc

      at :
          (t : Repository) (a : Run)
          → t ≡ s
          → (update_run k (λ r. record r { cancel_requested_at = some now; updated_at = now }) t).0
            ≡ ok a
          → IsRequested k
              (update_run k
                (λ r. record r { cancel_requested_at = some now; updated_at = now })
                t).1
      at t a same e = elim (Option-cases (get k t.runs)) [
        | inl p ↦ absurd (failed (rw (update_run, p) at e))
        | inr (r, p) ↦
            let own = keyed r (ap (λ (x : Repository). get k x.runs) (sym same) ∙ p) in
            rw (update_run, p)
              (record {
                run = record r { cancel_requested_at = some now; updated_at = now };
                stored =
                    ap
                      (λ x. get k (
                        set x (record r { cancel_requested_at = some now; updated_at = now })
                          t.runs))
                      own
                    ∙ get-set_self k (record r { cancel_requested_at = some now; updated_at = now })
                        t.runs;
                keyed = own;
                requested = refl;
              })
      ]

  cancelled_run-IsRequested : (now : ℕ) → Keeps (IsRequested k) (update_run k (cancelled_run now))
  cancelled_run-IsRequested now = update_run-IsRequested (cancelled_run now) (λ r. refl) (λ r. refl)

  modify-analysis :
      (now : ℕ) (id : Option String)
      → Keeps {E = RepositoryError}
          (IsRequested k)
          (modify (λ s. cancel_analysis now (analysis_of id s) s))
  modify-analysis now id =
      modify-IsRequested k _ λ s. cancel_analysis-runs k now (analysis_of id s) s

module _ (E : Env) (now : ℕ) (actor : Actor) (i : CancelInput) (s : Repository) where
  abbrev Same : Repository → Type 0
  Same x = x ≡ s

  -- The command was not answered before.
  unanswered :
      (run : Run)
      → run.id ≡ i.run_id
      → get (("cancel:" ^^ i.run_id) ^^ ":" ^^ i.idempotency_key) s.cancels ≡ none
      → (x : Repository) (o : Option Run) → Same x
      → (command_replay E (λ s. s.cancels) ("cancel:" ^^ run.id) i.idempotency_key i.input_hash x).0
        ≡ ok o
      → o ≡ none
  unanswered run own fresh x o p e = elim (Option-cases o) [
    | inl q ↦ q
    | inr (a, q) ↦
        let h =
          replay_inv E (λ s. s.cancels) ("cancel:" ^^ run.id) i.idempotency_key i.input_hash x o
            e in
        absurd (
          none≢some (
            sym fresh
            ∙ ap (λ y. get (("cancel:" ^^ y) ^^ ":" ^^ i.idempotency_key) s.cancels) (sym own)
            ∙ ap
                (λ (y : Repository).
                  get (("cancel:" ^^ run.id) ^^ ":" ^^ i.idempotency_key) y.cancels)
                (sym p)
            ∙ h.3 a q))
  ]

  -- In tables with a gapless event log, and unless the command was answered before, a cancellation
  -- that has returned leaves the run stored under its id, with its cancellation requested.
  pub cancel_workflow-IsRequested :
      (r : Run)
      → IsLogged s
      → get (("cancel:" ^^ i.run_id) ^^ ":" ^^ i.idempotency_key) s.cancels ≡ none
      → (cancel_workflow E now actor i s).0 ≡ ok r
      → IsRequested i.run_id (cancel_workflow E now actor i s).1
  unfolding cancel_workflow
  cancel_workflow-IsRequested r h fresh e = leads.at s r refl e
    where
      leads : Leads Same (IsRequested i.run_id) (cancel_workflow E now actor i)
      leads =
          Leads-after (λ _. Unit {0}) _ _ (search keeps_rules) (λ _ _ _ _. tt)
            λ _ _.
              Leads-after (λ run. run.id ≡ i.run_id) _ _
                (record { at = λ x p. run_for_actor_state actor i.run_id x ∙ p })
                (λ x run p q.
                  (h.at i.run_id run (
                    ap (λ (y : Repository). get i.run_id y.runs) (sym p)
                    ∙ (run_for_actor_ok actor i.run_id x run q).0)).0)
                λ run own.
                  Leads-map {R = IsRequested run.id} _ (λ t q. subst (λ k. IsRequested k t) own q)
                    (Leads-after (λ o. o ≡ none) _ _
                      (record {
                        at = λ x p.
                            command_replay_state E (λ (y : Repository). y.cancels)
                              ("cancel:" ^^ run.id) i.idempotency_key i.input_hash x
                            ∙ p;
                      })
                      (unanswered run own fresh)
                      λ o unseen. Leads-or_run o _ unseen (
                        Leads-after (λ _. Unit {0}) _ _ (search keeps_rules) (λ _ _ _ _. tt)
                          λ _ _.
                            Leads-then _ _ (request run.id now s λ q e. (h.at run.id q e).0) λ _.
                              Keeps-bind _ _ (append_event-IsRequested run.id E now _ _ _ _ _) λ _.
                                Keeps-bind _ _ (search keeps_rules) λ tasks.
                                  Keeps-bind _ _
                                    (cancel_tasks-IsRequested run.id E now run.id tasks)
                                    λ _.
                                      Keeps-bind _ _ (cancelled_run-IsRequested run.id now)
                                        λ requested.
                                          Keeps-bind _ _
                                            (append_event-IsRequested run.id E now _ _ _ _ _)
                                            λ _.
                                              Keeps-bind _ _
                                                (modify-analysis run.id now run.analysis_run_id)
                                                λ _. Keeps-bind _ _ (search keeps_rules) λ command.
                                                  Keeps-bind _ _
                                                    (Keeps-modify _ λ x q. frame run.id q refl)
                                                    λ _. search keeps_rules))
