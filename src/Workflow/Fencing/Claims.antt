-- ===== src/Workflow/Fencing/Claims.antt =====
-- The calls of other workers after a claim
-- (packages/database/src/control-plane.ts).
use text.Mathlib.Text.{◌==◌ as str_eq}
use page2web_mcp.Common.{
  ℕ, ◌+◌, ◌≡◌, inl, inr, sym, ◌∙◌, ap, subst, String, false, ◌&&◌, Option, some, arith, ltb, ◌==◌,
  Result, ok,
}
use page2web_mcp.Common.Dict.{get, get-set_self}
use page2web_mcp.Workflow.Retry.{workflow_lease_ms}
use page2web_mcp.Workflow.Types.{Task, Repository, Env}
use page2web_mcp.Workflow.Store.{holds_lease}
use page2web_mcp.Workflow.Claim.{leased, claim_task}
use page2web_mcp.Workflow.Claim.Outcome.{claim_task_lem, claim_task-worker}
use page2web_mcp.Workflow.Calls.{Leased, work}
use page2web_mcp.Workflow.Fencing.{work_stale}

ok_some_inj :
    {t u : Task} {E : Type 0} → ◌≡◌ {A = Result E (Option Task)} (ok (some t)) (ok (some u)) → t ≡ u
ok_some_inj e = cc

module _ (E : Env) (now : ℕ) (worker : String) (s : Repository) (t : Task) where
  -- What was claimed is stored, and is a lease of the worker.
  pub claimed :
      (claim_task E now worker s).0 ≡ ok (some t)
      → (get t.id (claim_task E now worker s).1.tasks ≡ some t)
        × (c : Task) × (t ≡ leased now worker c)
  claimed e = elim (claim_task_lem E now worker s (claim_task-worker E now worker s (some t) e)) [
    | inl (p, h) ↦ absurd (cc (p, e))
    | inr (c, _, p, q) ↦
        let same : leased now worker c ≡ t = ok_some_inj (sym p ∙ e) in
        (
          subst (λ u. get u.id (claim_task E now worker s).1.tasks ≡ some u) same
              (rw q (get-set_self c.id (leased now worker c) s.tasks)),
          c,
          sym same,
        )
  ]

  -- After a claim that got the task `t`, a call that names the task by another worker, with
  -- another generation, or once the lease has run out, changes nothing.
  pub claim_task-fences :
      (claim_task E now worker s).0 ≡ ok (some t)
      → (later : ℕ) (other : String) (g : ℕ) (c : Leased)
      → (str_eq worker other && t.lease_generation == g && ltb later (now + workflow_lease_ms))
        ≡ false
      → work E later other t.id g c (claim_task E now worker s).1 ≡ (claim_task E now worker s).1
  claim_task-fences e later other g c stale =
      let h = claimed e in work_stale _ t.id t h.0 later other g (stale_lem h.1 h.2) E c
    where
      stale_lem : (c : Task) → t ≡ leased now worker c → holds_lease later other g t ≡ false
      stale_lem c p = rw p (ground (arith, stale, ap (λ (u : Task). u.lease_generation) p))
