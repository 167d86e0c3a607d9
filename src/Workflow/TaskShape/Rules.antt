-- ===== src/Workflow/TaskShape/Rules.antt =====
-- How the primitive writes of `InMemoryControlPlaneRepository` keep each stored task in shape
-- (packages/database/src/control-plane.ts).
use Prim.Native.String.{String}
use page2web_mcp.Common.{
  ℕ, ◌≡◌, refl, sym, subst, inl, inr, Option-cases, Bool, true, false, not, Option, none, some,
  none≢some, List, [], ◌∷◌, arith, leb, filter, All, modify, gets, ◌>>=◌,
}
use page2web_mcp.Common.Dict.{get, values, Entries, Entries-set, Entries-get, All-values}
use page2web_mcp.Common.Throwing.Keeps.{
  Keeps, Keeps-modify, Keeps-bind, Keeps-bind_with, Keeps-bind_gets, Keeps-bind_raise_if,
  Keeps-when_some, Keeps-or_run, Keeps-pure, keeps_rules, Returns, Returns-pure, Returns-or_run,
  Returns-bind, Returns-bind_gets,
}
use page2web_mcp.Workflow.Phases.{Phase}
use page2web_mcp.Workflow.Types.{
  RepositoryError, Run, Task, Analysis, CheckpointState, Payload, EventType, Repository, Env,
  is_running,
}
use page2web_mcp.Workflow.Store.{
  Method, workflow_task, assert_lease, append_event, store_task, update_run, random_uuid,
  holds_lease, new_task,
}
use page2web_mcp.Workflow.Store.Results.{
  workflow_task_ok, workflow_task_state, assert_lease_ok, assert_lease_state,
}
use page2web_mcp.Workflow.Claim.{with_claim}
use page2web_mcp.Workflow.Owner.{close_checkpoint, cancel_analysis, waits_for}
use page2web_mcp.Workflow.Reconcile.{sum_each, parked}
use page2web_mcp.Workflow.TaskShape.{IsShaped, IsWellShaped}

-- Every stored task is in shape under its key.
pub record AreShaped (s : Repository) : Type 0 where
  pub each : Entries IsShaped s.tasks

pub AreShaped-frame : {s t : Repository} → AreShaped s → t.tasks ≡ s.tasks → AreShaped t
AreShaped-frame h p = record { each = subst (Entries IsShaped) (sym p) h.each }

pub AreShaped-modify :
    (f : Repository → Repository)
    → ((s : Repository) → (f s).tasks ≡ s.tasks)
    → Keeps {E = RepositoryError} AreShaped (modify f)
AreShaped-modify f p = Keeps-modify f λ s h. AreShaped-frame h (p s)

pub self-IsWellShaped : {k : String} {t : Task} → IsShaped k t → IsWellShaped t
self-IsWellShaped i = record {
  keyed = refl;
  budget = i.budget;
  within = i.within;
  fenced = i.fenced;
  owned = i.owned;
  timed = i.timed;
}

pub holds_lease-running :
    (now : ℕ) (worker : String) (t : Task) (g : ℕ)
    → holds_lease now worker g t ≡ true
    → is_running t.status ≡ true
holds_lease-running now worker t g e = ground arith

pub stored-IsWellShaped : (s : Repository) → AreShaped s → All IsWellShaped (values s.tasks)
stored-IsWellShaped s h = All-values IsShaped IsWellShaped s.tasks (λ k t. self-IsWellShaped) h.each

pub store_task-AreShaped : (t : Task) → IsWellShaped t → Keeps AreShaped (store_task t)
unfolding store_task
store_task-AreShaped t i =
    Keeps-modify _ λ s h. record { each = Entries-set IsShaped t.id t s.tasks i h.each }

pub append_event-AreShaped :
    (E : Env) (now : ℕ) (id : String) (type : EventType) (task code : Option String)
    (payload : Option Payload)
    → Keeps AreShaped (append_event E now id type task code payload)
unfolding append_event
append_event-AreShaped E now id type task code payload = record { at = at }
  where
    at :
        (s : Repository)
        → AreShaped s
        → AreShaped (append_event E now id type task code payload s).1
    at s h = elim (Option-cases (get id s.runs)) [
      | inl e ↦ rw (e, append_event) h
      | inr (r, e) ↦ rw (e, append_event) (AreShaped-frame h refl)
    ]

pub update_run-AreShaped : (id : String) (f : Run → Run) → Keeps AreShaped (update_run id f)
unfolding update_run
update_run-AreShaped id f = record { at = at }
  where
    at : (s : Repository) → AreShaped s → AreShaped (update_run id f s).1
    at s h = elim (Option-cases (get id s.runs)) [
      | inl e ↦ rw (e, update_run) h
      | inr (r, e) ↦ rw (e, update_run) (AreShaped-frame h refl)
    ]

pub random_uuid-AreShaped : (E : Env) → Keeps AreShaped (random_uuid E)
unfolding random_uuid
random_uuid-AreShaped E = record { at = λ s h. AreShaped-frame h refl }

pub ruleset shape_rules = (
  keeps_rules, append_event-AreShaped, update_run-AreShaped, random_uuid-AreShaped,
  AreShaped-modify, store_task-AreShaped,
)

pub close_checkpoint-tasks :
    (now : ℕ) (id : String) (c : CheckpointState) (s : Repository)
    → (close_checkpoint now id c s).tasks ≡ s.tasks
unfolding close_checkpoint
close_checkpoint-tasks now id c s = ground arith

pub cancel_analysis-tasks :
    (now : ℕ) (a : Option Analysis) (s : Repository) → (cancel_analysis now a s).tasks ≡ s.tasks
unfolding cancel_analysis
cancel_analysis-tasks now none s = refl
cancel_analysis-tasks now (some a) s = ground arith

-- The task that is found under an id is in shape.
pub bind-workflow_task :
    {B : Type 0} (id : String) (f : Task → Method B)
    → ((t : Task) → IsWellShaped t → Keeps AreShaped (f t))
    → Keeps AreShaped (workflow_task id >>= f)
bind-workflow_task id f k =
    Keeps-bind_with IsWellShaped (workflow_task id) f
      (record { at = λ s h. rw (workflow_task_state id s) h })
      (λ s t h e.
        self-IsWellShaped (Entries-get IsShaped id s.tasks (workflow_task_ok id s t e) h.each))
      k

-- Past the lease test the task runs.
pub bind-assert_lease :
    {B : Type 0} (now : ℕ) (worker : String) (t : Task) (g : ℕ) (f : Unit {0} → Method B)
    → (is_running t.status ≡ true → (u : Unit {0}) → Keeps AreShaped (f u))
    → Keeps AreShaped (assert_lease now worker t g >>= f)
bind-assert_lease now worker t g f k =
    Keeps-bind_with (λ _. is_running t.status ≡ true) (assert_lease now worker t g) f
      (record { at = λ s h. rw (assert_lease_state now worker t g s) h })
      (λ s u h e. holds_lease-running now worker t g (assert_lease_ok now worker t g s u e).0)
      (λ u r. k r u)

pub new-IsWellShaped :
    (E : Env) (now : ℕ) (id : String) (r : Run) (p : Phase) (key hash : String)
    → IsWellShaped (new_task E now id r p key hash)
new-IsWellShaped E now id r p key hash = ground arith

pub with_claim-AreShaped :
    (t : Task) → IsWellShaped t → Keeps {E = RepositoryError} AreShaped (modify (with_claim t))
with_claim-AreShaped t i =
    Keeps-modify _ λ s h. record { each = Entries-set IsShaped t.id t s.tasks i h.each }

pub waits_for-parked :
    (key : String) (t : Task) → not (waits_for key t) ≡ false → is_running t.status ≡ false
unfolding waits_for
waits_for-parked key t e = ground arith

-- A filter that implies that an attempt is left.
pub claimable :
    (p : Task → Bool) (ts : List Task)
    → ((t : Task) → p t ≡ true → leb t.max_attempts t.attempts ≡ false)
    → All IsWellShaped ts
    → All (λ t. IsWellShaped t × (leb t.max_attempts t.attempts ≡ false)) (filter p ts)
claimable p [] f h = tt
claimable p (t ∷ ts) f h = ground (arith, f t, claimable p ts f h.1)

pub parked_task :
    (a : Option Analysis) (r : Option Run) (t : Option Task) (x : Analysis × Run × Task)
    → parked a r t ≡ some x
    → t ≡ some x.2
parked_task (some a) (some r) (some t) x e = ground arith
parked_task _ _ _ x e = absurd (none≢some e)

pub sum_each-AreShaped :
    {A : Type 0} (Q : A → Type 0) (body : A → Method ℕ) (xs : List A)
    → ((x : A) → Q x → Keeps AreShaped (body x))
    → All Q xs
    → Keeps AreShaped (sum_each body xs)
unfolding sum_each
sum_each-AreShaped Q body [] k h = search keeps_rules
sum_each-AreShaped Q body (x ∷ xs) k h =
    Keeps-bind _ _ (k x h.0)
      λ n. Keeps-bind _ _ (sum_each-AreShaped Q body xs k h.1) λ rest. search keeps_rules

pub bind-stored_tasks :
    {B : Type 0} (f : List Task → Method B)
    → ((ts : List Task) → All IsWellShaped ts → Keeps AreShaped (f ts))
    → Keeps AreShaped (gets (λ s. values s.tasks) >>= f)
bind-stored_tasks f k = Keeps-bind_gets (All IsWellShaped) _ f stored-IsWellShaped k
