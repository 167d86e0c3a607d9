-- ===== src/Workflow/Replay.antt =====
-- `#commandReplay` and `#recordCommand`, as one reads what the other wrote
-- (packages/database/src/control-plane.ts).
pub mod Commands
use text.Mathlib.Text.{◌==◌ as str_eq}
use text.Mathlib.TextEquality.{eq_iff}
use text.Mathlib.TextPositions.{eq_refl}
use page2web_mcp.Common.{
  ℕ, ◌≡◌, ◌≢◌, refl, ne_true, sym, ◌∙◌, ap, subst, String, Bool, true, false, Option, none, some,
  arith, Result, ok, err, inl, inr, Bool-cases, or_run, ◌>>=◌, if◌then◌else◌,
}
use page2web_mcp.Common.Text.{is_identifier}
use page2web_mcp.Common.Dict.{Dict, get, get-set_self}
use page2web_mcp.Common.Throwing.Ensures.{
  Ensures, bind-Ensures, Ensures-bind, Ensures-bind_lift, Ensures-write,
}
use page2web_mcp.Workflow.Types.{
  Task, Command, Completion, Repository, RepositoryError, Env, invalid_state, idempotency_conflict,
}
use page2web_mcp.Workflow.Store.{
  Method, ◌^^◌, assert_idempotency_key, stable_hash, command_replay, recorded,
}
use page2web_mcp.Workflow.Store.Results.{command_replay_state}
use page2web_mcp.Workflow.Worker.{CompleteInput, FailInput, complete_task, fail_task}

module _ {A : Type 0} (E : Env) (c : Repository → Dict (Command A)) (scope key hash : String) where
  -- The command with this key and this input was answered by `a`.
  pub record IsAnswered (a : A) (s : Repository) : Type 0 where
    pub named : is_identifier 199 key ≡ true
    pub normalized : String
    pub hashed : stable_hash E hash ≡ ok normalized
    pub stored :
        get (scope ^^ ":" ^^ key) (c s) ≡ some (record { input_hash = normalized; result = a })

  pub answered_replay :
      (a : A) (s : Repository)
      → IsAnswered a s
      → command_replay E c scope key hash s ≡ (ok (some a), s)
  unfolding command_replay assert_idempotency_key ◌>>=◌
  answered_replay a s h = rw (h.named, h.hashed, h.stored, eq_refl h.normalized) refl

  -- Another input under the key of an answered command.
  pub answered_conflict :
      (a : A) (s : Repository) (other h : String)
      → IsAnswered a s
      → stable_hash E other ≡ ok h
      → stable_hash E hash ≢ ok h
      → command_replay E c scope key other s ≡ (err idempotency_conflict, s)
  unfolding command_replay assert_idempotency_key ◌>>=◌
  answered_conflict a s other h k p n =
      let differ : (str_eq k.normalized h) ≡ false =
        ne_true (str_eq k.normalized h) (λ e. n (k.hashed ∙ ap ok ((eq_iff k.normalized h).0 e))) in
      rw (k.named, p, k.stored, differ) refl

  -- The answer, by the key's form, the input's hash and what is stored.
  abbrev answer :
      Bool → Result RepositoryError String → Option (Command A) → Result RepositoryError (Option A)
  answer false r o = err invalid_state
  answer true (err x) o = err x
  answer true (ok h) none = ok none
  answer true (ok h) (some d) =
      if str_eq d.input_hash h then ok (some d.result) else err idempotency_conflict

  replay_lem :
      (s : Repository)
      → (command_replay E c scope key hash s).0
        ≡ answer (is_identifier 199 key) (stable_hash E hash) (get (scope ^^ ":" ^^ key) (c s))
  unfolding command_replay assert_idempotency_key ◌>>=◌
  replay_lem s = ground arith

  -- The key has the form, the input has a hash, and what was returned was stored.
  abbrev HasAnswered : Bool → Result RepositoryError String → Option (Command A) → Option A → Type 0
  HasAnswered b r o x =
      (b ≡ true)
      × (h : String) × (r ≡ ok h)
      × ((a : A) → x ≡ some a → o ≡ some (record { input_hash = h; result = a }))

  answer_inv :
      (b : Bool) (r : Result RepositoryError String) (o : Option (Command A)) (x : Option A)
      → answer b r o ≡ ok x
      → HasAnswered b r o x
  answer_inv false r o x e = absurd (cc)
  answer_inv true (err y) o x e = absurd (cc)
  answer_inv true (ok h) none x e = (refl, h, refl, λ a p. absurd (cc (p, e)))
  answer_inv true (ok h) (some d) x e = elim (Bool-cases (str_eq d.input_hash h)) [
    | inl t ↦ (refl, h, refl, λ a p. stored a p (rw t at e) ((eq_iff d.input_hash h).0 t))
    | inr t ↦
        let k : ◌≡◌ {A = Result RepositoryError (Option A)} (err idempotency_conflict) (ok x) =
          rw t at e in
        absurd (cc)
  ]
    where
      stored :
          (a : A)
          → x ≡ some a
          → ◌≡◌ {A = Result RepositoryError (Option A)} (ok (some d.result)) (ok x)
          → d.input_hash ≡ h
          → some d ≡ some (record { input_hash = h; result = a })
      stored a p q z = cc

  pub replay_inv :
      (s : Repository) (x : Option A)
      → (command_replay E c scope key hash s).0 ≡ ok x
      → HasAnswered (is_identifier 199 key) (stable_hash E hash) (get (scope ^^ ":" ^^ key) (c s)) x
  replay_inv s x e = answer_inv _ _ _ x (sym (replay_lem s) ∙ e)

  -- A method that first looks for the answer to a command, and else computes one and records it,
  -- has an answered command when it returns.
  pub answered :
      (m : Method A)
      → ((h : String)
          → stable_hash E hash ≡ ok h
          → Ensures
              (λ a s.
                get (scope ^^ ":" ^^ key) (c s) ≡ some (record { input_hash = h; result = a }))
              m)
      → Ensures IsAnswered (command_replay E c scope key hash >>= λ replay. or_run replay m)
  unfolding or_run ◌>>=◌
  answered m k = record {
    at = λ s b e.
        bind-Ensures IsAnswered (command_replay E c scope key hash) _ s
          (λ o p. rest s o (replay_inv s o p) (command_replay_state E c scope key hash s)) b e;
  }
    where
      ok_inj : {a b : A} → ◌≡◌ {A = Result RepositoryError A} (ok a) (ok b) → a ≡ b
      ok_inj e = cc

      Rest : Repository → Option A → Repository → Type 0
      Rest s o t = (b : A) → (or_run o m t).0 ≡ ok b → IsAnswered b (or_run o m t).1

      rest :
          (s : Repository) (o : Option A)
          → HasAnswered
              (is_identifier 199 key)
              (stable_hash E hash)
              (get (scope ^^ ":" ^^ key) (c s))
              o
          → (command_replay E c scope key hash s).1 ≡ s
          → Rest s o (command_replay E c scope key hash s).1
      rest s none h p b e = record {
        named = h.0;
        normalized = h.1;
        hashed = h.2;
        stored = (k h.1 h.2).at _ b e;
      }
      rest s (some a) h p b e = record {
        named = h.0;
        normalized = h.1;
        hashed = h.2;
        stored = ap (λ x. get (scope ^^ ":" ^^ key) (c x)) p ∙ h.3 b (ap some (ok_inj e));
      }
