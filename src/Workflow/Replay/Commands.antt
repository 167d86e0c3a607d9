-- ===== src/Workflow/Replay/Commands.antt =====
-- `completeWorkflowTask` and `failWorkflowTask` sent again
-- (packages/database/src/control-plane.ts).
use page2web_mcp.Common.{
  ℕ, ◌≡◌, ◌≢◌, refl, sym, subst, String, some, Result, ok, err, or_run, ◌>>=◌,
}
use page2web_mcp.Common.Dict.{Dict, get, get-set_self}
use page2web_mcp.Common.Throwing.Ensures.{Ensures, Ensures-bind, Ensures-bind_lift, Ensures-write}
use page2web_mcp.Workflow.Types.{
  Task, Command, Completion, Repository, RepositoryError, Env, idempotency_conflict,
}
use page2web_mcp.Workflow.Store.{◌^^◌, stable_hash, recorded}
use page2web_mcp.Workflow.Worker.{CompleteInput, FailInput, complete_task, fail_task}
use page2web_mcp.Workflow.Replay.{IsAnswered, answered_replay, answered_conflict, answered}

hash_inj : {r : Result RepositoryError String} {h k : String} → r ≡ ok h → r ≡ ok k → h ≡ k
hash_inj p q = cc

recorded_lem :
    {A : Type 0} (scope key h k : String) (a : A) (m : Dict (Command A))
    → h ≡ k
    → get (scope ^^ ":" ^^ key) (recorded scope key k a m)
      ≡ some (record { input_hash = h; result = a })
recorded_lem scope key h k a m e =
    subst
      (λ (x : String).
        get (scope ^^ ":" ^^ key) (recorded scope key k a m)
        ≡ some (record { input_hash = x; result = a }))
      (sym e) (get-set_self (scope ^^ ":" ^^ key) (record { input_hash = k; result = a }) m)

module _ (E : Env) (now : ℕ) (worker id : String) (g : ℕ) where
  complete-IsAnswered :
      (i : CompleteInput)
      → Ensures
          (IsAnswered E (λ s. s.completions) ("complete:" ^^ id) i.idempotency_key i.input_hash)
          (complete_task E now worker id g i)
  unfolding complete_task
  complete-IsAnswered i = answered E _ _ _ _ _ λ h p. Ensures-bind _ _ λ _. Ensures-bind _ _ λ _.
      Ensures-bind _ _ λ task. Ensures-bind _ _ λ _. Ensures-bind _ _ λ found.
        Ensures-bind _ _ λ run. Ensures-bind_lift _ _ λ command q. Ensures-bind _ _ λ hash.
          Ensures-bind _ _ λ _. Ensures-bind _ _ λ _. Ensures-bind _ _ λ next.
            Ensures-bind _ _ λ stored. Ensures-bind _ _ λ last.
              Ensures-write _ _ λ s. recorded_lem _ _ h command _ s.completions (hash_inj p q)

  fail-IsAnswered :
      (draw : ℕ) (i : FailInput)
      → Ensures
          (IsAnswered E (λ s. s.failures) ("fail:" ^^ id) i.idempotency_key i.input_hash)
          (fail_task E now draw worker id g i)
  unfolding fail_task
  fail-IsAnswered draw i = answered E _ _ _ _ _ λ h p. Ensures-bind _ _ λ _.
      Ensures-bind _ _ λ task. Ensures-bind _ _ λ _. Ensures-bind _ _ λ _. Ensures-bind _ _ λ run.
        Ensures-bind _ _ λ _.
          Ensures-bind_lift _ _ λ command q.
            Ensures-write _ _ λ s. recorded_lem _ _ h command _ s.failures (hash_inj p q)

  answered_complete :
      (i : CompleteInput) (r : Completion) (s : Repository)
      → IsAnswered E (λ s. s.completions) ("complete:" ^^ id) i.idempotency_key i.input_hash r s
      → complete_task E now worker id g i s ≡ (ok r, s)
  unfolding complete_task or_run ◌>>=◌
  answered_complete i r s h = rw (answered_replay E _ _ _ _ r s h) refl

  answered_fail :
      (draw : ℕ) (i : FailInput) (t : Task) (s : Repository)
      → IsAnswered E (λ s. s.failures) ("fail:" ^^ id) i.idempotency_key i.input_hash t s
      → fail_task E now draw worker id g i s ≡ (ok t, s)
  unfolding fail_task or_run ◌>>=◌
  answered_fail draw i t s h = rw (answered_replay E _ _ _ _ t s h) refl

-- A completion that has returned is answered with the same result when it is sent again, by
-- whichever worker, with whichever generation and at whatever time, and then changes nothing.
pub complete_task-complete_task :
    (E : Env) (now later : ℕ) (worker other id : String) (g k : ℕ) (i : CompleteInput)
    (s : Repository) (r : Completion)
    → (complete_task E now worker id g i s).0 ≡ ok r
    → complete_task E later other id k i (complete_task E now worker id g i s).1
      ≡ (ok r, (complete_task E now worker id g i s).1)
complete_task-complete_task E now later worker other id g k i s r e =
    answered_complete E later other id k i r _ ((complete-IsAnswered E now worker id g i).at s r e)

-- A reported failure that has returned is answered with the same task when it is sent again, by
-- whichever worker, with whichever generation, at whatever time and with whatever draw of the
-- delay, and then changes nothing.
pub fail_task-fail_task :
    (E : Env) (now later draw draw' : ℕ) (worker other id : String) (g k : ℕ) (i : FailInput)
    (s : Repository) (t : Task)
    → (fail_task E now draw worker id g i s).0 ≡ ok t
    → fail_task E later draw' other id k i (fail_task E now draw worker id g i s).1
      ≡ (ok t, (fail_task E now draw worker id g i s).1)
fail_task-fail_task E now later draw draw' worker other id g k i s t e =
    answered_fail E later other id k draw' i t _
      ((fail-IsAnswered E now worker id g draw i).at s t e)

-- A completion that has returned, sent again under the same key with an input of another hash, by
-- whichever worker, with whichever generation and at whatever time, is refused as an idempotency
-- conflict, and then changes nothing.
pub complete_task-idempotency_conflict :
    (E : Env) (now later : ℕ) (worker other id : String) (g k : ℕ) (i : CompleteInput)
    (s : Repository) (r : Completion) (input h : String)
    → (complete_task E now worker id g i s).0 ≡ ok r
    → stable_hash E input ≡ ok h
    → stable_hash E i.input_hash ≢ ok h
    → complete_task E later other id k
        (record i { input_hash = input })
        (complete_task E now worker id g i s).1
      ≡ (err idempotency_conflict, (complete_task E now worker id g i s).1)
unfolding complete_task ◌>>=◌
complete_task-idempotency_conflict E now later worker other id g k i s r input h e p n =
    let answered = (complete-IsAnswered E now worker id g i).at s r e in
    rw (answered_conflict E _ _ _ _ r _ input h answered p n) refl
