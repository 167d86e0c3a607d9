-- ===== src/Workflow/EventLog.antt =====
-- The numbers that `#appendWorkflowEvent` gives to the events of a run
-- (packages/database/src/control-plane.ts).
pub mod Methods
use Prim.Native.String.{String}
use text.Mathlib.TextEquality.{eq_iff}
use page2web_mcp.Common.{
  ◌∙◌, ℕ, suc, ◌+◌, ◌≡◌, refl, sym, ap, subst, inl, inr, Bool-cases, Option-cases, Option, none,
  some, some_inj, List, [], ◌∷◌, ◌++◌, arith, length, length-append, get_or, pure, gets, lift,
  or_raise, raise_if, modify, ◌>>=◌, if◌then◌else◌, none≢some,
}
use page2web_mcp.Common.Dict.{get, set, get-set_self, get-set_ne, get-set_cases}
use page2web_mcp.Common.Throwing.Keeps.{
  Keeps, Keeps-modify, Keeps-bind, Keeps-when_some, keeps_rules, bind-Keeps,
}
use page2web_mcp.Workflow.Types.{
  RepositoryError, Run, Task, Event, EventType, Payload, Repository, Env,
}
use page2web_mcp.Workflow.Store.{
  Method, bumped, next_event, logged, append_event, update_run, store_task, random_uuid,
  create_task, assert_lease, workflow_task,
}
use page2web_mcp.Workflow.Worker.{heartbeat_task, update_project}
use page2web_mcp.Workflow.Claim.{claim_task, take}
use page2web_mcp.Common.Dict.{Dict}
use page2web_mcp.Workflow.Phases.{Phase}
use page2web_mcp.Workflow.Types.{Command, ProjectStatus}
use page2web_mcp.Workflow.Store.{command_replay, assert_idempotency_key, assert_worker_id}

-- The events count from `n`.
abbrev pub IsNumbered : ℕ → List Event → Type 0
IsNumbered n [] = Unit
IsNumbered n (e ∷ es) = (e.sequence ≡ n) × (e.version ≡ n) × IsNumbered (n + 1) es

-- A log with `v` events.
abbrev pub IsLog : ℕ → List Event → Type 0
IsLog v es = IsNumbered 1 es × (length es ≡ v)

pub record IsLogged (s : Repository) : Type 0 where
  pub at :
      (k : String) (r : Run)
      → get k s.runs ≡ some r
      → (r.id ≡ k) × IsLog r.version (get_or (get k s.events) [])

IsNumbered-append :
    (n : ℕ) (es : List Event) (e : Event)
    → IsNumbered n es
    → e.sequence ≡ n + length es
    → e.version ≡ n + length es
    → IsNumbered n (es ++ e ∷ [])
IsNumbered-append n [] e h p q = (omega arith, omega arith, tt)
IsNumbered-append n (x ∷ es) e h p q =
    (h.0, h.1, IsNumbered-append (n + 1) es e h.2 (omega arith) (omega arith))

pub IsLogged-frame :
    {s t : Repository} → IsLogged s → t.runs ≡ s.runs → t.events ≡ s.events → IsLogged t
IsLogged-frame h p q = record { at = λ k r e. rw q (h.at k r (sym (ap (get k) p) ∙ e)) }

module _ (E : Env) (now : ℕ) where
  logged-IsLogged :
      (s : Repository) (id : String) (r : Run) (type : EventType) (task code : Option String)
      (payload : Option Payload)
      → IsLogged s
      → get id s.runs ≡ some r
      → IsLogged (logged E now s id r type task code payload)
  logged-IsLogged s id r type task code payload h e = record { at = λ k q f. at k q f }
    where
      events : List Event
      events = get_or (get id s.events) [] ++ next_event E now s id r type task code payload ∷ []

      here : (r.id ≡ id) × IsLog (r.version + 1) (get_or (get id (set id events s.events)) [])
      here =
          let (keyed, (log, counted)) = h.at id r e in
          rw (get-set_self id events s.events) (
            keyed,
            (
              IsNumbered-append 1 (get_or (get id s.events) []) _ log (omega arith) (omega arith),
              omega (
                arith,
                length-append (get_or (get id s.events) [])
                    (next_event E now s id r type task code payload ∷ []),
              ),
            ),
          )

      at :
          (k : String) (q : Run)
          → get k (set id (bumped E now r) s.runs) ≡ some q
          → (q.id ≡ k)
            × IsLog q.version
                (get_or (get k (logged E now s id r type task code payload).events) [])
      at k q f = elim (get-set_cases id k (bumped E now r) s.runs f) [
        | inl (p, p') ↦ rw (← p', ← p) here
        | inr (p, f') ↦ rw (get-set_ne id k events s.events p) (h.at k q f')
      ]

  pub append_event-IsLogged :
      (id : String) (type : EventType) (task code : Option String) (payload : Option Payload)
      → Keeps IsLogged (append_event E now id type task code payload)
  unfolding append_event
  append_event-IsLogged id type task code payload = record { at = at }
    where
      at :
          (s : Repository)
          → IsLogged s
          → IsLogged (append_event E now id type task code payload s).1
      at s h = elim (Option-cases (get id s.runs)) [
        | inl e ↦ rw (e, append_event) h
        | inr (r, e) ↦ rw (e, append_event) (logged-IsLogged s id r type task code payload h e)
      ]

updated-IsLogged :
    (s : Repository) (r q : Run)
    → IsLogged s
    → get r.id s.runs ≡ some r
    → q.id ≡ r.id
    → q.version ≡ r.version
    → IsLogged (record s { runs = set r.id q s.runs })
updated-IsLogged s r q h e p v = record { at = at }
  where
    at :
        (k : String) (u : Run)
        → get k (set r.id q s.runs) ≡ some u
        → (u.id ≡ k) × IsLog u.version (get_or (get k s.events) [])
    at k u f = elim (get-set_cases r.id k q s.runs f) [
      | inl (c, d) ↦ rw (← d, ← c, v) (p, (h.at r.id r e).1)
      | inr (c, f') ↦ h.at k u f'
    ]

pub update_run-IsLogged :
    (id : String) (f : Run → Run)
    → ((r : Run) → (f r).id ≡ r.id)
    → ((r : Run) → (f r).version ≡ r.version)
    → Keeps IsLogged (update_run id f)
unfolding update_run
update_run-IsLogged id f p v = record { at = at }
  where
    at : (s : Repository) → IsLogged s → IsLogged (update_run id f s).1
    at s h = elim (Option-cases (get id s.runs)) [
      | inl e ↦ rw (e, update_run) h
      | inr (r, e) ↦
          let stored : get r.id s.runs ≡ some r = ap (λ i. get i s.runs) (h.at id r e).0 ∙ e in
          rw (e, update_run) (updated-IsLogged s r (f r) h stored (p r) (v r))
    ]

pub store_task-IsLogged : (t : Task) → Keeps IsLogged (store_task t)
unfolding store_task
store_task-IsLogged t = Keeps-modify _ λ s h. IsLogged-frame h refl refl

pub IsLogged-modify :
    (f : Repository → Repository)
    → ((s : Repository) → (f s).runs ≡ s.runs)
    → ((s : Repository) → (f s).events ≡ s.events)
    → Keeps {E = RepositoryError} IsLogged (modify f)
IsLogged-modify f p q = Keeps-modify f λ s h. IsLogged-frame h (p s) (q s)

pub random_uuid-IsLogged : (E : Env) → Keeps IsLogged (random_uuid E)
unfolding random_uuid
random_uuid-IsLogged E = record { at = λ s h. IsLogged-frame h refl refl }

pub ruleset log_rules = (
  keeps_rules, append_event-IsLogged, store_task-IsLogged, random_uuid-IsLogged,
  update_run-IsLogged, IsLogged-modify,
)
