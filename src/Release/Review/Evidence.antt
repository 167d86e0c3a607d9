-- ===== src/Release/Review/Evidence.antt =====
-- What evidence that resolves gives for each piece that a plan names
-- (packages/database/src/control-plane.ts).
use text.Mathlib.Text.{◌==◌ as str_eq}
use text.Mathlib.TextEquality.{eq_iff}
use mathlib.Core.Bool.{true≢false}
use page2web_mcp.Common.{
  ℕ, ◌<◌, String, ◌≡◌, ◌⊎◌, refl, sym, ap, subst, ◌∙◌, inl, inr, true, Option, none, some, List, [],
  ◌∷◌, ltb, all, All, arith, Bool-cases, Option-cases, none≢some, some_inj, and-eq-true, some_and,
  not, is_some,
}
use page2web_mcp.Common.Dict.{Dict, get, set, get-set_cases}
use page2web_mcp.Workflow.Store.{◌^^◌}
use page2web_mcp.Release.Types.{Plan, AnalysisEvidence, AnalysisRun, ReleaseEnv}
use page2web_mcp.Release.Checks.{
  same_optional, is_good_evidence, index_evidence, resolves, evidence_resolves,
}

-- The piece is of the run, the project and the organisation, has not run out, and its reference is
-- the hash of its content.
pub record IsGood (E : ReleaseEnv) (run : AnalysisRun) (now : ℕ) (e : AnalysisEvidence)
    : Type 0 where
  pub of_organization : e.organization_id ≡ some run.organization_id
  pub of_project : e.project_id ≡ some run.project_id
  pub of_run : e.analysis_run_id ≡ some run.id
  pub in_time : (t : ℕ) × (e.expires_at ≡ some t) × (now < t)
  pub addressed : "urn:sha256:" ^^ E.sha256 e.content ≡ e.reference

-- One of the pieces is good, and has the source and the reference named.
abbrev pub Resolved :
    ReleaseEnv → AnalysisRun → ℕ → List AnalysisEvidence → String × String → Type 0
Resolved E run now [] named = ⊥
Resolved E run now (e ∷ es) named =
    (IsGood E run now e × (e.source ≡ named.0) × (e.reference ≡ named.1))
    ⊎ Resolved E run now es named

optional_inv : (a : Option String) (b : String) → same_optional a (some b) ≡ true → a ≡ some b
optional_inv none b e = absurd (true≢false (sym e))
optional_inv (some a) b e = ap some ((eq_iff a b).0 e)

time_inv :
    (now : ℕ) (o : Option ℕ)
    → some_and o (λ t. ltb now t) ≡ true
    → (t : ℕ) × (o ≡ some t) × (now < t)
time_inv now none e = absurd (true≢false (sym e))
time_inv now (some t) e = (t, refl, ground (arith, e))

module _ (E : ReleaseEnv) (run : AnalysisRun) (now : ℕ) where
  IsGood-inv :
      (before : Dict AnalysisEvidence) (e : AnalysisEvidence)
      → is_good_evidence E run now before e ≡ true
      → IsGood E run now e
  IsGood-inv before e h =
      let a5 = and-eq-true _ (not (is_some (get e.reference before))) h in
      let a4 = and-eq-true _ (str_eq ("urn:sha256:" ^^ E.sha256 e.content) e.reference) a5.0 in
      let a3 = and-eq-true _ (some_and e.expires_at (λ t. ltb now t)) a4.0 in
      let a2 = and-eq-true _ (same_optional e.analysis_run_id (some run.id)) a3.0 in
      let a1 =
        and-eq-true (same_optional e.organization_id (some run.organization_id))
          (same_optional e.project_id (some run.project_id)) a2.0 in
      record {
        of_organization = optional_inv e.organization_id run.organization_id a1.0;
        of_project = optional_inv e.project_id run.project_id a1.1;
        of_run = optional_inv e.analysis_run_id run.id a2.1;
        in_time = time_inv now e.expires_at a3.1;
        addressed = (eq_iff ("urn:sha256:" ^^ E.sha256 e.content) e.reference).0 a4.1;
      }

  -- What the index has was there before, or is one of the pieces.
  indexed :
      (es : List AnalysisEvidence) (before index : Dict AnalysisEvidence)
      → index_evidence E run now es before ≡ some index
      → (k : String) (x : AnalysisEvidence) → get k index ≡ some x
      → (get k before ≡ some x) ⊎ Resolved E run now es (x.source, k)
  unfolding index_evidence
  indexed [] before index e k x f = inl (ap (get k) (some_inj e) ∙ f)
  indexed (p ∷ es) before index e k x f = elim (Bool-cases (is_good_evidence E run now before p)) [
    | inr n ↦ absurd (none≢some (rw (n, index_evidence) at e))
    | inl g ↦
        elim (indexed es (set p.reference p before) index (rw (g, index_evidence) at e) k x f) [
          | inr r ↦ inr (inr r)
          | inl r ↦ elim (get-set_cases p.reference k p before r) [
            | inr old ↦ inl old.1
            | inl new ↦
                inr (
                  inl (IsGood-inv before p g, ap (λ (q : AnalysisEvidence). q.source) new.1, new.0))
          ]
        ]
  ]

  named-Resolved :
      (es : List AnalysisEvidence) (index : Dict AnalysisEvidence)
      → index_evidence E run now es [] ≡ some index
      → (named : String × String) → resolves index named ≡ true
      → Resolved E run now es named
  unfolding get
  named-Resolved es index e named h = elim (Option-cases (get named.1 index)) [
    | inl n ↦ absurd (true≢false (sym (rw n at h)))
    | inr (x, f) ↦
        let same : x.source ≡ named.0 = (eq_iff x.source named.0).0 (rw f at h) in
        elim (indexed es [] index e named.1 x f) [
          | inl n ↦ absurd (none≢some n)
          | inr r ↦ subst (λ s. Resolved E run now es (s, named.1)) same r
        ]
  ]

  all-Resolved :
      (es : List AnalysisEvidence) (index : Dict AnalysisEvidence) (ns : List (String × String))
      → index_evidence E run now es [] ≡ some index
      → all (resolves index) ns ≡ true
      → All (Resolved E run now es) ns
  all-Resolved es index [] e h = tt
  all-Resolved es index (n ∷ ns) e h =
      let a = and-eq-true (resolves index n) _ h in
      (named-Resolved es index e n a.0, all-Resolved es index ns e a.1)

  -- Each piece that the plan names is one of the pieces, and good.
  pub evidence-Resolved :
      (es : List AnalysisEvidence) (p : Plan)
      → evidence_resolves E es (p ∷ []) run now ≡ true
      → All (Resolved E run now es) p.evidence
  unfolding evidence_resolves
  evidence-Resolved es p h = elim (Option-cases (index_evidence E run now es [])) [
    | inl n ↦ absurd (true≢false (sym (rw (n, evidence_resolves) at h)))
    | inr (index, e) ↦
        let both =
          and-eq-true (all (resolves index) p.evidence) true (rw (e, evidence_resolves) at h) in
        all-Resolved es index p.evidence e both.0
  ]
