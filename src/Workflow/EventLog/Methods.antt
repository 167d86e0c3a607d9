-- ===== src/Workflow/EventLog/Methods.antt =====
-- The event log through every method and every history of calls
-- (packages/database/src/control-plane.ts).
use page2web_mcp.Common.{
  ℕ, ◌≡◌, refl, inl, inr, Bool, true, false, String, Option, none, some, List, [], ◌∷◌, arith,
  none≢some, get_or, modify,
}
use page2web_mcp.Common.Dict.{Dict, get, set, get-set_self, get-set_ne, get-set_cases}
use page2web_mcp.Common.Throwing.Keeps.{Keeps, Keeps-modify, Keeps-bind, keeps_rules}
use page2web_mcp.Workflow.Phases.{Phase}
use page2web_mcp.Workflow.Types.{
  RepositoryError, Run, Task, Actor, Analysis, Checkpoint, CheckpointState, Command, Payload,
  ProjectStatus, Repository, Env,
}
use page2web_mcp.Workflow.Store.{
  Method, assert_idempotency_key, assert_worker_id, validate_reference, workflow_task,
  run_for_actor, create_task, command_replay, assert_lease,
}
use page2web_mcp.Workflow.Claim.{claim_task, take}
use page2web_mcp.Workflow.Worker.{
  CompleteInput, FailInput, WaitInput, update_project, advance, report_failure, heartbeat_task,
  complete_task, fail_task, wait_task,
}
use page2web_mcp.Workflow.SideEffects.{SideEffectEvent, record_task_event}
use page2web_mcp.Workflow.Owner.{
  RunInput, new_run, ResumeInput, CancelInput, create_run, resume_task, cancel_tasks, analysis_of,
  close_checkpoint, cancel_analysis, cancel_workflow,
}
use page2web_mcp.Workflow.Reconcile.{
  expire, reconcile_checkpoint, recover, reconcile_lease, continue_run, reconcile_successor,
  sum_each, reconcile,
}
use page2web_mcp.Workflow.Calls.{
  Leased, heartbeat, report, complete, fail, wait, Call, creates, claims, works, resumes, cancels,
  reconciles, work, step, steps, steps_induction, empty_repository,
}
use page2web_mcp.Workflow.EventLog.{
  IsLogged, IsLogged-frame, IsLog, append_event-IsLogged, store_task-IsLogged, log_rules,
}

close_checkpoint-frame :
    (now : ℕ) (id : String) (c : CheckpointState) (s : Repository)
    → ((close_checkpoint now id c s).runs ≡ s.runs)
      × ((close_checkpoint now id c s).events ≡ s.events)
unfolding close_checkpoint
close_checkpoint-frame now id c s = ground arith

cancel_analysis-frame :
    (now : ℕ) (a : Option Analysis) (s : Repository)
    → ((cancel_analysis now a s).runs ≡ s.runs) × ((cancel_analysis now a s).events ≡ s.events)
unfolding cancel_analysis
cancel_analysis-frame now none s = (refl, refl)
cancel_analysis-frame now (some a) s = ground arith

started-IsLogged :
    (s : Repository) (r : Run)
    → r.version ≡ 0
    → IsLogged s
    → IsLogged (record s { runs = set r.id r s.runs; events = set r.id [] s.events })
started-IsLogged s r v h = record { at = at }
  where
    at :
        (k : String) (q : Run)
        → get k (set r.id r s.runs) ≡ some q
        → (q.id ≡ k) × IsLog q.version (get_or (get k (set r.id [] s.events)) [])
    at k q e = elim (get-set_cases r.id k r s.runs e) [
      | inl (p, p') ↦ rw (← p', ← p, get-set_self r.id [] s.events, v) (refl, (tt, refl))
      | inr (p, e') ↦ rw (get-set_ne r.id k [] s.events p) (h.at k q e')
    ]

sum_each-IsLogged :
    {A : Type 0} (body : A → Method ℕ) (xs : List A)
    → ((x : A) → Keeps IsLogged (body x))
    → Keeps IsLogged (sum_each body xs)
unfolding sum_each
sum_each-IsLogged body [] k = search keeps_rules
sum_each-IsLogged body (x ∷ xs) k =
    Keeps-bind _ _ (k x)
      λ n. Keeps-bind _ _ (sum_each-IsLogged body xs k) λ rest. search keeps_rules

module _ (E : Env) (now : ℕ) where
  create_task-IsLogged :
      (r : Run) (p : Phase) (hash : String) → Keeps IsLogged (create_task E now r p hash)
  unfolding create_task
  create_task-IsLogged r p hash = search log_rules depth 12

  command_replay-IsLogged :
      {A : Type 0} (c : Repository → Dict (Command A)) (scope key hash : String)
      → Keeps IsLogged (command_replay E c scope key hash)
  unfolding command_replay assert_idempotency_key
  command_replay-IsLogged c scope key hash = search log_rules depth 10

  assert_lease-IsLogged :
      (worker : String) (t : Task) (g : ℕ) → Keeps IsLogged (assert_lease now worker t g)
  unfolding assert_lease
  assert_lease-IsLogged worker t g = search log_rules

  workflow_task-IsLogged : (id : String) → Keeps IsLogged (workflow_task id)
  unfolding workflow_task
  workflow_task-IsLogged id = search log_rules

  update_project-IsLogged :
      (id : String) (status : ProjectStatus) → Keeps IsLogged (update_project id status)
  unfolding update_project
  update_project-IsLogged id status = search log_rules

  run_for_actor-IsLogged : (a : Actor) (id : String) → Keeps IsLogged (run_for_actor a id)
  unfolding run_for_actor
  run_for_actor-IsLogged a id = search log_rules

  validate_reference-IsLogged : (r : Option String) → Keeps IsLogged (validate_reference r)
  unfolding validate_reference
  validate_reference-IsLogged none = search log_rules
  validate_reference-IsLogged (some r) = search log_rules

  ruleset parts = (
    log_rules, create_task-IsLogged, command_replay-IsLogged, assert_lease-IsLogged,
    workflow_task-IsLogged, update_project-IsLogged, run_for_actor-IsLogged,
    validate_reference-IsLogged,
  )

  advance-IsLogged :
      (run project : String) (p : Phase) (hash : String) (next : Option Phase)
      → Keeps IsLogged (advance E now run project p hash next)
  unfolding advance
  advance-IsLogged run project p hash none = search parts depth 10
  advance-IsLogged run project p hash (some next) = search parts depth 10

  report_failure-IsLogged :
      (final : Bool) (r : Run) (task code : String)
      → Keeps IsLogged (report_failure E now final r task code)
  unfolding report_failure
  report_failure-IsLogged true r task code = search parts depth 10
  report_failure-IsLogged false r task code = search parts depth 10

  heartbeat-IsLogged :
      (worker id : String) (g : ℕ) → Keeps IsLogged (heartbeat_task E now worker id g)
  unfolding heartbeat_task
  heartbeat-IsLogged worker id g = search parts depth 12

  record_task_event-IsLogged :
      (worker id : String) (g : ℕ) (t : SideEffectEvent) (p : Payload)
      → Keeps IsLogged (record_task_event E now worker id g t p)
  unfolding record_task_event
  record_task_event-IsLogged worker id g t p = search parts depth 12

  complete-IsLogged :
      (worker id : String) (g : ℕ) (i : CompleteInput)
      → Keeps IsLogged (complete_task E now worker id g i)
  unfolding complete_task
  complete-IsLogged worker id g i = search (parts, advance-IsLogged) depth 24

  fail-IsLogged :
      (draw : ℕ) (worker id : String) (g : ℕ) (i : FailInput)
      → Keeps IsLogged (fail_task E now draw worker id g i)
  unfolding fail_task
  fail-IsLogged draw worker id g i = search (parts, report_failure-IsLogged) depth 24

  wait-IsLogged :
      (worker id : String) (g : ℕ) (i : WaitInput) → Keeps IsLogged (wait_task E now worker id g i)
  unfolding wait_task assert_idempotency_key
  wait-IsLogged worker id g i = search parts depth 24

  claim-IsLogged : (worker : String) → Keeps IsLogged (claim_task E now worker)
  unfolding claim_task take assert_worker_id
  claim-IsLogged worker = search parts depth 12

  resume-IsLogged : (a : Actor) (i : ResumeInput) → Keeps IsLogged (resume_task E now a i)
  unfolding resume_task
  resume-IsLogged a i = search parts depth 24

  cancel_tasks-IsLogged :
      (run : String) (ts : List Task) → Keeps IsLogged (cancel_tasks E now run ts)
  unfolding cancel_tasks
  cancel_tasks-IsLogged run [] = search parts
  cancel_tasks-IsLogged run (t ∷ ts) =
      Keeps-bind _ _ (store_task-IsLogged _) λ _.
        Keeps-bind _ _ (append_event-IsLogged E now _ _ _ _ _) λ _. cancel_tasks-IsLogged run ts

  cancel_analysis-IsLogged :
      (id : Option String)
      → Keeps {E = RepositoryError} IsLogged
          (modify (λ s. cancel_analysis now (analysis_of id s) s))
  cancel_analysis-IsLogged id = Keeps-modify _ λ s h.
      let frame = cancel_analysis-frame now (analysis_of id s) s in IsLogged-frame h frame.0 frame.1

  cancel-IsLogged : (a : Actor) (i : CancelInput) → Keeps IsLogged (cancel_workflow E now a i)
  unfolding cancel_workflow
  cancel-IsLogged a i = search (parts, cancel_tasks-IsLogged, cancel_analysis-IsLogged) depth 24

  create_run-IsLogged : (i : RunInput) → Keeps IsLogged (create_run E now i)
  unfolding create_run
  create_run-IsLogged i = Keeps-bind _ _ (search parts) λ hash.
      Keeps-bind _ _ (Keeps-modify _ (λ s h. started-IsLogged s (new_run now i hash) refl h))
        λ _. search parts depth 12

  expire-IsLogged : (a : Analysis) (r : Run) (t : Task) → Keeps IsLogged (expire E now a r t)
  unfolding expire
  expire-IsLogged a r t =
      Keeps-bind _ _
        (Keeps-modify _ λ s h.
          let frame = close_checkpoint-frame now a.id CheckpointState.expired s in
          IsLogged-frame h frame.0 frame.1)
        λ _. search parts depth 16

  reconcile_checkpoint-IsLogged : (c : Checkpoint) → Keeps IsLogged (reconcile_checkpoint E now c)
  unfolding reconcile_checkpoint
  reconcile_checkpoint-IsLogged c = search (parts, expire-IsLogged) depth 8

  reconcile_lease-IsLogged : (t : Task) → Keeps IsLogged (reconcile_lease E now t)
  unfolding reconcile_lease recover
  reconcile_lease-IsLogged t = search parts depth 12

  reconcile_successor-IsLogged : (t : Task) → Keeps IsLogged (reconcile_successor E now t)
  unfolding reconcile_successor continue_run
  reconcile_successor-IsLogged t = search parts depth 12

  reconcile-IsLogged : (worker : String) → Keeps IsLogged (reconcile E now worker)
  unfolding reconcile assert_worker_id
  reconcile-IsLogged worker =
      search
        (
          parts, sum_each-IsLogged, reconcile_checkpoint-IsLogged, reconcile_lease-IsLogged,
          reconcile_successor-IsLogged,
        )
        depth 12

  work-IsLogged :
      (worker id : String) (g : ℕ) (c : Leased) (s : Repository)
      → IsLogged s
      → IsLogged (work E now worker id g c s)
  unfolding work
  work-IsLogged worker id g heartbeat s h = (heartbeat-IsLogged worker id g).at s h
  work-IsLogged worker id g (report t p) s h = (record_task_event-IsLogged worker id g t p).at s h
  work-IsLogged worker id g (complete i) s h = (complete-IsLogged worker id g i).at s h
  work-IsLogged worker id g (fail draw i) s h = (fail-IsLogged draw worker id g i).at s h
  work-IsLogged worker id g (wait i) s h = (wait-IsLogged worker id g i).at s h

step-IsLogged : (E : Env) (c : ℕ × Call) (s : Repository) → IsLogged s → IsLogged (step E c s)
unfolding step
step-IsLogged E (now, creates i) s h = (create_run-IsLogged E now i).at s h
step-IsLogged E (now, claims worker) s h = (claim-IsLogged E now worker).at s h
step-IsLogged E (now, works worker id g c) s h = work-IsLogged E now worker id g c s h
step-IsLogged E (now, resumes a i) s h = (resume-IsLogged E now a i).at s h
step-IsLogged E (now, cancels a i) s h = (cancel-IsLogged E now a i).at s h
step-IsLogged E (now, reconciles worker) s h = (reconcile-IsLogged E now worker).at s h

-- Whatever calls were made, at whatever times and with whatever results, each run is stored under
-- its own id, the events of its log are numbered 1, 2, 3, … in both their sequence and their
-- version, and the run's version is the number of its events.
pub steps-IsLogged : (E : Env) (cs : List (ℕ × Call)) → IsLogged (steps E cs empty_repository)
unfolding get
steps-IsLogged E cs = steps_induction E IsLogged (step-IsLogged E) cs empty_repository empty
  where
    empty : IsLogged empty_repository
    empty = record { at = λ k r e. absurd (none≢some e) }
