-- ===== src/Release/Review/Approval.antt =====
-- What a review that returns has checked and written (packages/database/src/control-plane.ts).
use text.Mathlib.Text.{◌==◌ as str_eq}
use text.Mathlib.TextEquality.{eq_iff}
use mathlib.Core.Bool.{true≢false}
use page2web_mcp.Common.{
  ℕ, ◌+◌, String, ◌≡◌, ◌≢◌, refl, sym, ap, ◌∙◌, Bool, true, false, not, ◌&&◌, some, List, [], ◌∷◌,
  ◌==◌, if◌then◌else◌, ok, pure, inl, inr, ◌>>=◌, Result, Bool-cases, Option, none, All, arith,
  some_and, and-eq-true,
}
use page2web_mcp.Common.Throwing.Keeps.{Keeps, keeps_rules}
use page2web_mcp.Common.Throwing.Ensures.{bind_inv, guard_inv, raise_if_inv, or_raise_inv}
use page2web_mcp.Common.Dict.{get, set, get-set_self, get-set_ne}
use page2web_mcp.Workflow.Types.{Role, owner, viewer, Actor, is_viewer}
use page2web_mcp.Release.Types.{
  ReleaseError, AnalysisEvidence, CapabilityRecord, AnalysisRun, ReleaseTables, ReleaseEnv,
  RiskTier, r0, r1, r2, reviewed, blocked, is_owner, is_r2, same_tier,
}
use page2web_mcp.Release.Checks.{evidence_resolves, binding_valid}
use page2web_mcp.Release.Tables.{audit_event}
use page2web_mcp.Release.Review.Evidence.{Resolved, evidence-Resolved}
use page2web_mcp.Release.Review.{
  ReviewAction, approve, block, reject, is_approve, reviewed_record, assert_approvable,
  review_capability,
}

ok_value :
    {a b : CapabilityRecord} → ◌≡◌ {A = Result ReleaseError CapabilityRecord} (ok a) (ok b) → a ≡ b
ok_value e = cc

not-false : (b : Bool) → not b ≡ false → b ≡ true
not-false true e = refl
not-false false e = absurd (true≢false e)

owner_inv : (x : Role) → is_owner x ≡ true → x ≡ owner
owner_inv owner e = refl
owner_inv _ e = absurd (true≢false (sym e))

same_tier_inv : (x y : RiskTier) → same_tier x y ≡ true → x ≡ y
same_tier_inv r0 r0 e = refl
same_tier_inv r1 r1 e = refl
same_tier_inv r2 r2 e = refl
same_tier_inv _ _ e = absurd (true≢false (sym e))

digest_inv : (o : Option String) (x : String) → some_and o (λ d. str_eq x d) ≡ true → o ≡ some x
digest_inv none x e = absurd (true≢false (sym e))
digest_inv (some d) x e = ap some (sym ((eq_iff x d).0 e))

refused_status :
    (action : ReviewAction)
    → action ≢ approve
    → (if is_approve action then reviewed else blocked) ≡ blocked
refused_status approve n = absurd (n refl)
refused_status block n = refl
refused_status reject n = refl

module _ (E : ReleaseEnv) (now : ℕ) (s : ReleaseTables) where
  -- What an approval has found of the plan, the run and the evidence.
  pub record IsApprovable (c : CapabilityRecord) : Type 0 where
    pub run : AnalysisRun
    pub evidence : List AnalysisEvidence
    pub run_stored : get c.analysis_run_id s.analyses ≡ some run
    pub evidence_stored : get c.analysis_run_id s.results ≡ some evidence
    pub of_tool : c.stable_name ≡ c.plan.tool_name
    pub of_tier : c.risk_tier ≡ c.plan.risk_tier
    pub of_digest : E.plan_digest c.plan ≡ some c.plan_digest
    pub resolved : All (Resolved E run now evidence) c.plan.evidence

  ok-IsApprovable :
      (c : CapabilityRecord) (u : Unit {0})
      → (assert_approvable E now c s).0 ≡ ok u
      → IsApprovable c
  unfolding assert_approvable ◌>>=◌
  ok-IsApprovable c u e =
      let a = or_raise_inv (get c.analysis_run_id s.analyses) _ _ s u e in
      let b = or_raise_inv (get c.analysis_run_id s.results) _ _ s u a.2 in
      let d = guard_inv (not (binding_valid E c)) _ _ s u b.2 in
      let both = and-eq-true _ _ (not-false (binding_valid E c) d.0) in
      let names = and-eq-true _ _ both.0 in
      let resolved = raise_if_inv (not (evidence_resolves E b.0 (c.plan ∷ []) a.0 now)) _ s u d.1 in
      record {
        run = a.0;
        evidence = b.0;
        run_stored = a.1;
        evidence_stored = b.1;
        of_tool = (eq_iff c.stable_name c.plan.tool_name).0 names.0;
        of_tier = same_tier_inv c.risk_tier c.plan.risk_tier names.1;
        of_digest = digest_inv (E.plan_digest c.plan) c.plan_digest both.1;
        resolved = evidence-Resolved E a.0 now b.0 c.plan (not-false _ resolved);
      }

  approvable-Keeps : (c : CapabilityRecord) → Keeps (λ t. t ≡ s) (assert_approvable E now c)
  unfolding assert_approvable
  approvable-Keeps c = search (keeps_rules) depth 12

  approval_state :
      (action : ReviewAction) (c : CapabilityRecord)
      → ((if is_approve action then assert_approvable E now c else pure tt) s).1 ≡ s
  unfolding ◌>>=◌
  approval_state action c = elim (Bool-cases (is_approve action)) [
    | inl e ↦ rw e ((approvable-Keeps c).at s refl)
    | inr e ↦ rw e refl
  ]

  approval-IsApprovable :
      (action : ReviewAction) (c : CapabilityRecord) (u : Unit {0})
      → ((if is_approve action then assert_approvable E now c else pure tt) s).0 ≡ ok u
      → is_approve action ≡ true
      → IsApprovable c
  approval-IsApprovable action c u e t = ok-IsApprovable c u (rw t at e)

  -- What a review that returns `r` and leaves the tables `after` has checked of the capability `c`
  -- and written.
  pub record IsReview (actor : Actor) (id : String) (action : ReviewAction) (expected : ℕ)
      (c r : CapabilityRecord) (after : ReleaseTables) : Type 0 where
    pub may_review : actor.role ≢ viewer
    pub found : get id s.capabilities ≡ some c
    pub own : c.organization_id ≡ actor.organization_id
    pub current : c.version ≡ expected
    pub owner_for_r2 : action ≡ approve → c.risk_tier ≡ r2 → actor.role ≡ owner
    pub approvable : action ≡ approve → IsApprovable c
    pub approved : action ≡ approve → r.status ≡ reviewed
    pub refused : action ≢ approve → r.status ≡ blocked
    pub next : r.version ≡ expected + 1
    pub of_plan : r.reviewed_plan_digest ≡ some c.plan_digest
    pub same : (r.id ≡ c.id) × (r.plan ≡ c.plan) × (r.plan_digest ≡ c.plan_digest)
    pub stored : get c.id after.capabilities ≡ some r
    pub others : (k : String) → k ≢ c.id → get k after.capabilities ≡ get k s.capabilities

  module _ (actor : Actor) (id : String) (action : ReviewAction) (expected : ℕ) where
    abbrev after : ReleaseTables
    after = (review_capability E now actor id action expected s).1

    -- The capability that a review reads, what it has checked of it, and the table it leaves.
    abbrev Passed : CapabilityRecord → CapabilityRecord → Type 0
    Passed r c =
        (get id s.capabilities ≡ some c)
        × (is_viewer actor.role ≡ false)
        × (not (str_eq c.organization_id actor.organization_id) ≡ false)
        × (not (c.version == expected) ≡ false)
        × ((is_approve action && is_r2 c.risk_tier && not (is_owner actor.role)) ≡ false)
        × (is_approve action ≡ true → IsApprovable c)
        × (reviewed_record action c ≡ r)
        × (after.capabilities ≡ set c.id (reviewed_record action c) s.capabilities)

    -- The table that a review leaves which passes every guard.
    table :
        (c : CapabilityRecord) (u : Unit {0})
        → get id s.capabilities ≡ some c
        → is_viewer actor.role ≡ false
        → not (str_eq c.organization_id actor.organization_id) ≡ false
        → not (c.version == expected) ≡ false
        → (is_approve action && is_r2 c.risk_tier && not (is_owner actor.role)) ≡ false
        → ((if is_approve action then assert_approvable E now c else pure tt) s).0 ≡ ok u
        → (review_capability E now actor id action expected s).1.capabilities
          ≡ set c.id (reviewed_record action c) s.capabilities
    unfolding review_capability audit_event ◌>>=◌
    table c u found role own version by_owner good =
        rw (role, found, own, version, by_owner, good, approval_state action c, review_capability)
          refl

    passed :
        (r : CapabilityRecord)
        → (review_capability E now actor id action expected s).0 ≡ ok r
        → (c : CapabilityRecord) × Passed r c
    unfolding review_capability audit_event ◌>>=◌
    passed r e =
        let a = guard_inv (is_viewer actor.role) _ _ s r e in
        let b = or_raise_inv (get id s.capabilities) _ _ s r a.1 in
        let c = b.0 in
        let d = guard_inv (not (str_eq c.organization_id actor.organization_id)) _ _ s r b.2 in
        let f = guard_inv (not (c.version == expected)) _ _ s r d.1 in
        let g =
          guard_inv (is_approve action && is_r2 c.risk_tier && not (is_owner actor.role)) _ _ s r
            f.1 in
        let h =
          bind_inv (if is_approve action then assert_approvable E now c else pure tt) _ s r
            (approval_state action c) g.1 in
        (
          c,
          (
            b.1,
            a.0,
            d.0,
            f.0,
            g.0,
            approval-IsApprovable action c h.0 h.1,
            ok_value h.2,
            table c h.0 b.1 a.0 d.0 f.0 g.0 h.1,
          ),
        )

    -- A review that returns was made by no viewer, on the stored capability of that id, which is of
    -- the actor's organisation and at the version expected; by an owner if it approves one of tier
    -- R2; and, if it approves, with the name, the tier and the digest of its plan, with its run stored
    -- and with each piece of evidence that the plan names stored for that run, not run out and under
    -- the hash of its content. It returns the
    -- capability as reviewed if it approves and as blocked if not, with its plan's digest as the
    -- digest reviewed and with the next version, its plan unchanged; it has stored what it returns
    -- under the capability's id, and has changed no capability under another.
    pub review_capability-IsReview :
        (r : CapabilityRecord)
        → (review_capability E now actor id action expected s).0 ≡ ok r
        → (c : CapabilityRecord) × IsReview actor id action expected c r after
    review_capability-IsReview r e =
        let h = passed r e in
        let c = h.0 in
        let made : reviewed_record action c ≡ r = h.1.6 in
        let left = h.1.7 in
        let version : c.version ≡ expected = ground (arith, h.1.3) in
        (
          c,
          record {
            may_review = λ v. true≢false (ap is_viewer (sym v) ∙ h.1.1);
            found = h.1.0;
            own = (eq_iff c.organization_id actor.organization_id).0 (not-false _ h.1.2);
            current = version;
            owner_for_r2 = λ x y. owner_inv actor.role (not-false _ (rw (x, y) at h.1.4));
            approvable = λ x. h.1.5 (ap is_approve x);
            approved = λ x. ap (λ (q : CapabilityRecord). q.status) (sym made) ∙ rw x refl;
            refused =
                λ x. ap (λ (q : CapabilityRecord). q.status) (sym made) ∙ refused_status action x;
            next = ap (λ (q : CapabilityRecord). q.version) (sym made) ∙ ap (λ n. n + 1) version;
            of_plan = ap (λ (q : CapabilityRecord). q.reviewed_plan_digest) (sym made);
            same = (
              ap (λ (q : CapabilityRecord). q.id) (sym made),
              ap (λ (q : CapabilityRecord). q.plan) (sym made),
              ap (λ (q : CapabilityRecord). q.plan_digest) (sym made),
            );
            stored =
                ap (get c.id) left
                ∙ get-set_self c.id (reviewed_record action c) s.capabilities
                ∙ ap some made;
            others = λ k n.
                ap (get k) left
                ∙ get-set_ne c.id k (reviewed_record action c) s.capabilities (λ q. n (sym q));
          },
        )
