-- ===== src/Projects/Analyses/OneOpen.antt =====
-- The queued and running analyses of a project (packages/database/src/control-plane.ts).
use mathlib.Core.Bool.{true≢false}
use text.Mathlib.Text.{◌==◌ as str_eq}
use text.Mathlib.TextPositions.{eq_refl}
use page2web_mcp.Common.{
  ℕ, String, ◌≡◌, ◌≢◌, refl, sym, ◌∙◌, subst, inl, inr, Bool, true, false, [], ◌∷◌, any, arith,
  Bool-cases, Option-cases, Option, none, some, Exec, ok, ◌>>=◌,
}
use page2web_mcp.Common.Throwing.Keeps.{
  Keeps, Keeps-bind, Keeps-modify, Keeps-or_run, Keeps-pure, keeps_rules,
}
use page2web_mcp.Common.Throwing.Ensures.{
  Ensures, Ensures-bind, Ensures-modify, bind_inv, guard_inv,
}
use page2web_mcp.Common.Dict.{Dict, get, set, values}
use page2web_mcp.Workflow.Types.{
  Env, EventType, Payload, Run, task_created, workflow_created, RepositoryError, Actor, Repository,
  Project, Analysis,
}
use page2web_mcp.Workflow.Phases.{Phase}
use page2web_mcp.Workflow.Store.{append_event, random_uuid, store_task, create_task}
use page2web_mcp.Workflow.Owner.{RunInput, create_run}
use page2web_mcp.Projects.Types.{SourceRecord, SnapshotRecord, ProjectTables, ProjectEnv}
use page2web_mcp.Projects.Tables.{reserve, on_repository, draw_uuid, audit_event}
use page2web_mcp.Projects.Analyses.{
  EnqueueInput, is_open_of, current_source, new_analysis, run_input, with_analysis, queue_run,
  enqueue_new,
}

any-set :
    (p : Analysis → Bool) (k : String) (v : Analysis) (m : Dict Analysis)
    → p v ≡ true
    → any p (values (set k v m)) ≡ true
unfolding set
any-set p k v [] h = rw h refl
any-set p k v ((j, w) ∷ m) h = elim (Bool-cases (str_eq j k)) [
  | inl e ↦ rw (e, h) refl
  | inr e ↦ rw e (ground (arith, any-set p k v m h))
]

-- The project has an analysis that is queued or running.
abbrev pub IsBusy : String → ProjectTables → Type 0
IsBusy project s = any (is_open_of project) (values s.repository.analyses) ≡ true

-- The same of the tables of the workflows.
abbrev IsOpenIn : String → Repository → Type 0
IsOpenIn project s = any (is_open_of project) (values s.analyses) ≡ true

on_repository-Keeps :
    {A : Type 0} (project : String) (m : Exec Repository RepositoryError A)
    → Keeps (IsOpenIn project) m
    → Keeps (IsBusy project) (on_repository m)
unfolding on_repository
on_repository-Keeps project m k = record { at = λ s h. k.at s.repository h }

-- A new workflow run leaves the analyses alone.
module _ (E : Env) (now : ℕ) (project : String) where
  event-Keeps :
      (id : String) (type : EventType) (task code : Option String) (payload : Option Payload)
      → Keeps (IsOpenIn project) (append_event E now id type task code payload)
  unfolding append_event
  event-Keeps id type task code payload = record {
    at = λ s h. elim (Option-cases (get id s.runs)) [
      | inl e ↦ rw (e, append_event) h
      | inr (r, e) ↦ rw (e, append_event) h
    ];
  }

  task-Keeps :
      (run : Run) (phase : Phase) (hash : String)
      → Keeps (IsOpenIn project) (create_task E now run phase hash)
  unfolding create_task random_uuid store_task
  task-Keeps run phase hash = Keeps-bind _ _ (search keeps_rules) λ normalized.
      Keeps-bind _ _ (search keeps_rules) λ existing. Keeps-or_run existing _ (
        Keeps-bind _ _ (record { at = λ s h. h })
          λ id. Keeps-bind _ _ (search keeps_rules) λ key.
            Keeps-bind _ _ (Keeps-modify _ (λ s h. h)) λ _.
              Keeps-bind _ _ (event-Keeps run.id task_created (some id) none none)
                λ _. Keeps-pure _)

  create_run-Keeps : (i : RunInput) → Keeps (IsOpenIn project) (create_run E now i)
  unfolding create_run
  create_run-Keeps i = Keeps-bind _ _ (search keeps_rules) λ hash.
      Keeps-bind _ _ (Keeps-modify _ (λ s h. h)) λ _.
        Keeps-bind _ _ (event-Keeps i.id workflow_created none none none) λ _.
          Keeps-bind _ _ (search keeps_rules) λ found.
            Keeps-bind _ _ (search keeps_rules)
              λ stored. Keeps-bind _ _ (task-Keeps stored i.phase hash) λ _. search keeps_rules

module _ (E : ProjectEnv) (now : ℕ) (project : String) where
  audit-Keeps :
      (actor : Actor) (action target : String)
      → Keeps (IsBusy project) (audit_event E now actor action target)
  unfolding audit_event draw_uuid ◌>>=◌
  audit-Keeps actor action target = record { at = λ s h. h }

  reserve-Keeps : (key hash id : String) → Keeps (IsBusy project) (reserve now key hash id)
  unfolding reserve
  reserve-Keeps key hash id = Keeps-modify _ (λ s h. h)

module _ (E : ProjectEnv) (now : ℕ) (actor : Actor) (p : Project) where
  queued_open : (id : String) → is_open_of p.id (new_analysis E now actor p id) ≡ true
  queued_open id = rw (eq_refl p.id) refl

  queue_run-IsBusy :
      (i : EnqueueInput) (key : String) (source : SourceRecord) (snapshot : SnapshotRecord)
      (run : Analysis)
      → is_open_of p.id run ≡ true
      → Ensures (λ _ s. IsBusy p.id s) (queue_run E now actor p i key source snapshot run)
  unfolding queue_run
  queue_run-IsBusy i key source snapshot run h =
      Ensures-modify (with_analysis E now run source) _
        (λ s. any-set (is_open_of p.id) run.id run s.repository.analyses h)
        (Keeps-bind _ _
          (on_repository-Keeps p.id _
            (create_run-Keeps E.workflow now p.id (run_input E now p snapshot i run)))
          λ _. Keeps-bind _ _ (Keeps-modify _ (λ s h. h)) λ _.
            Keeps-bind _ _ (reserve-Keeps E now p.id key i.input_hash run.id) λ _.
              Keeps-bind _ _ (audit-Keeps E now p.id actor "analysis.queued" run.id)
                λ _. Keeps-pure run)

  enqueue_new-IsBusy :
      (i : EnqueueInput) (key : String)
      → Ensures (λ _ s. IsBusy p.id s) (enqueue_new E now actor p i key)
  unfolding enqueue_new
  enqueue_new-IsBusy i key = Ensures-bind _ _ λ found. Ensures-bind _ _ λ busy.
      Ensures-bind _ _ λ _. Ensures-bind _ _ λ id.
        queue_run-IsBusy i key found.0 found.1 (new_analysis E now actor p id) (queued_open id)

  source_state : (i : EnqueueInput) (s : ProjectTables) → (current_source E now actor p i s).1 ≡ s
  unfolding current_source ◌>>=◌
  source_state i s = ground arith

  -- A new analysis finds its project free.
  enqueue_new-free :
      (i : EnqueueInput) (key : String) (s : ProjectTables) (r : Analysis)
      → (enqueue_new E now actor p i key s).0 ≡ ok r
      → any (is_open_of p.id) (values s.repository.analyses) ≡ false
  unfolding enqueue_new ◌>>=◌
  enqueue_new-free i key s r e =
      let a = bind_inv (current_source E now actor p i) _ s r (source_state i s) e in
      (guard_inv (any (is_open_of p.id) (values s.repository.analyses)) _ _ s r a.2).0

-- Once an analysis was queued for a project, no other is queued for it in the very tables that this
-- left, before any other call, whoever asks, with whatever key and at whatever time.
pub enqueue_new-enqueue_new :
    (E : ProjectEnv) (now later : ℕ) (actor other : Actor) (p q : Project) (i j : EnqueueInput)
    (key again : String) (s : ProjectTables) (r t : Analysis)
    → q.id ≡ p.id
    → (enqueue_new E now actor p i key s).0 ≡ ok r
    → (enqueue_new E later other q j again (enqueue_new E now actor p i key s).1).0 ≢ ok t
enqueue_new-enqueue_new E now later actor other p q i j key again s r t same first second =
    let busy = (enqueue_new-IsBusy E now actor p i key).at s r first in
    let free =
      enqueue_new-free E later other q j again (enqueue_new E now actor p i key s).1 t second in
    let still : IsBusy q.id (enqueue_new E now actor p i key s).1 =
      subst (λ x. IsBusy x (enqueue_new E now actor p i key s).1) (sym same) busy in
    true≢false (sym still ∙ free)
