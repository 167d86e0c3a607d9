-- ===== src/Release/Publish/Gate.antt =====
-- What a publication has passed (packages/database/src/control-plane.ts).
use text.Mathlib.Text.{◌==◌ as str_eq}
use text.Mathlib.TextEquality.{eq_iff}
use mathlib.Core.Bool.{true≢false}
use page2web_mcp.Common.{
  ℕ, String, ◌≡◌, ◌⊎◌, refl, sym, ap, inl, inr, Bool, true, false, not, ◌&&◌, ◌||◌, Option, none,
  some, List, [], ◌∷◌, last?, get_or, arith, ok, ◌>>=◌, Option-cases, any, All, subst, pure, gets,
  raise_if, ◌>>◌, if◌then◌else◌,
}
use page2web_mcp.Common.Throwing.Ensures.{bind_inv, bind_state}
use page2web_mcp.Common.Dict.{get}
use page2web_mcp.Workflow.Types.{Status, Actor, is_succeeded}
use page2web_mcp.Release.Types.{
  CapabilityRecord, CandidateRelease, VerificationRecord, ReleaseRecord, AnalysisRun, ReleaseTables,
  ReleaseEnv, is_blocked, is_reviewed, needs_review,
}
use page2web_mcp.Release.Checks.{same_optional, binding_valid}
use page2web_mcp.Release.Tables.{
  analysis_capabilities, current_capabilities, random_uuid, reserve, audit_event,
}
use page2web_mcp.Release.Tables.Passed.{current_capabilities_ok, current_capabilities_state}
use page2web_mcp.Release.Publish.{
  PublishRequest, review_failure, review_failures, is_nonempty, is_verification_for, published_run,
  latest_verification, reviewed_capabilities, verified_candidate, new_release, store_release,
  release_or_existing, publish_new,
}

module _ {S X A : Type 0} where
  passes_ok :
      (p : Bool) (x : X) (a b : A) (s : S)
      → ((raise_if p x >> pure a) s).0 ≡ ok b
      → (p ≡ false) × (a ≡ b)
  unfolding ◌>>=◌
  passes_ok p x a b s e = ground arith

  passes_state : (p : Bool) (x : X) (a : A) (s : S) → ((raise_if p x >> pure a) s).1 ≡ s
  unfolding ◌>>=◌
  passes_state p x a s = ground arith

-- A capability that is blocked, or whose plan was reviewed as it is, and that has the status of a
-- review if its tier asks for one.
abbrev pub IsReviewed : CapabilityRecord → Type 0
IsReviewed c =
    (is_blocked c.status ≡ true)
    ⊎ ((same_optional c.reviewed_plan_digest (some c.plan_digest) ≡ true)
        × (needs_review c.risk_tier ≡ true → is_reviewed c.status ≡ true))

no_failure :
    (is_off needed done same : Bool)
    → ◌≡◌ {A = Option String}
        (if is_off
          then none
          else if needed && (not done || not same)
          then some "REVIEW_REQUIRED"
          else if not same
          then some "CAPABILITY_PLAN_MISMATCH"
          else none)
        none
    → (is_off ≡ true) ⊎ ((same ≡ true) × (needed ≡ true → done ≡ true))
no_failure true needed done same e = inl refl
no_failure false needed done true e = inr (refl, (λ h. ground arith))
no_failure false needed done false e = absurd (ground arith)

review_failures-IsReviewed :
    (cs : List CapabilityRecord) → is_nonempty (review_failures cs) ≡ false → All IsReviewed cs
unfolding review_failures
review_failures-IsReviewed [] h = tt
review_failures-IsReviewed (c ∷ cs) h = elim (Option-cases (review_failure c)) [
  | inl e ↦ (
    no_failure (is_blocked c.status) (needs_review c.risk_tier) (is_reviewed c.status)
        (same_optional c.reviewed_plan_digest (some c.plan_digest)) e,
    review_failures-IsReviewed cs (rw (e, review_failures) at h),
  )
  | inr (f, e) ↦ absurd (true≢false (rw (e, review_failures) at h))
]

verification_for :
    (i : PublishRequest) (v : VerificationRecord)
    → is_verification_for i v ≡ true
    → (str_eq v.project_id i.project_id ≡ true)
      × (str_eq v.analysis_run_id i.analysis_run_id ≡ true)
      × (v.eligible ≡ true)
      × (str_eq v.capability_state_digest i.capability_state_digest ≡ true)
verification_for i v e = ground arith

is_succeeded_inv : (x : Status) → is_succeeded x ≡ true → x ≡ Status.succeeded
is_succeeded_inv Status.succeeded e = refl
is_succeeded_inv _ e = absurd (true≢false (sym e))

module _ (E : ReleaseEnv) (now : ℕ) (actor : Actor) (i : PublishRequest) (s : ReleaseTables) where
  run_ok :
      (run : AnalysisRun)
      → (published_run E now actor i s).0 ≡ ok run
      → (get i.analysis_run_id s.analyses ≡ some run)
        × (str_eq run.organization_id actor.organization_id ≡ true)
        × (str_eq run.project_id i.project_id ≡ true)
        × (is_succeeded run.status ≡ true)
  unfolding published_run ◌>>=◌
  run_ok run e = ground arith

  run_state : (published_run E now actor i s).1 ≡ s
  unfolding published_run ◌>>=◌
  run_state = ground arith

  verification_ok :
      (v : VerificationRecord)
      → (latest_verification E now i s).0 ≡ ok v
      → (get i.verification_run_id s.verifications ≡ some v)
        × (is_verification_for i v ≡ true)
        × (str_eq v.candidate_content_hash i.candidate_content_hash ≡ true)
        × (same_optional
              (last? (get_or (get i.analysis_run_id s.verification_ids_by_run) []))
              (some i.verification_run_id)
            ≡ true)
  unfolding latest_verification ◌>>=◌
  verification_ok v e = ground arith

  verification_state : (latest_verification E now i s).1 ≡ s
  unfolding latest_verification ◌>>=◌
  verification_state = ground arith

  capabilities_ok :
      (run digest : String) (cs : List CapabilityRecord)
      → (reviewed_capabilities E now run digest s).0 ≡ ok cs
      → (any (λ c. not (binding_valid E c)) cs ≡ false)
        × (not (str_eq (E.state_digest cs) digest) ≡ false)
        × (analysis_capabilities run s ≡ cs)
        × (is_nonempty (review_failures cs) ≡ false)
  unfolding reviewed_capabilities
  capabilities_ok run digest cs e =
      let first =
        bind_inv (current_capabilities E run digest) _ s cs
          (current_capabilities_state E run digest s) e in
      let last = passes_ok (is_nonempty (review_failures first.0)) _ first.0 cs s first.2 in
      let h = current_capabilities_ok E run digest s first.0 first.1 in
      subst
        (λ xs.
          (any (λ c. not (binding_valid E c)) xs ≡ false)
          × (not (str_eq (E.state_digest xs) digest) ≡ false)
          × (analysis_capabilities run s ≡ xs)
          × (is_nonempty (review_failures xs) ≡ false))
        last.1 (h.0, h.1, h.2, last.0)

  capabilities_state : (run digest : String) → (reviewed_capabilities E now run digest s).1 ≡ s
  unfolding reviewed_capabilities
  capabilities_state run digest =
      bind_state (current_capabilities E run digest) _ s (current_capabilities_state E run digest s)
        (λ cs. passes_state (is_nonempty (review_failures cs)) _ cs s)

  candidate_ok :
      (run : AnalysisRun) (v : VerificationRecord) (cs : List CapabilityRecord)
      (c : CandidateRelease)
      → (verified_candidate E now i run v cs s).0 ≡ ok c
      → (get v.id s.verification_candidates ≡ some c)
        × (str_eq (E.sha256 c.code) i.candidate_content_hash ≡ true)
  unfolding verified_candidate ◌>>=◌
  candidate_ok run v cs c e = ground arith

  candidate_state :
      (run : AnalysisRun) (v : VerificationRecord) (cs : List CapabilityRecord)
      → (verified_candidate E now i run v cs s).1 ≡ s
  unfolding verified_candidate ◌>>=◌
  candidate_state run v cs = ground arith

  -- A publication that made a release has passed the whole gate, in the tables before it.
  pub record IsGated (r : ReleaseRecord) : Type 0 where
    pub run : AnalysisRun
    pub verification : VerificationRecord
    pub capabilities : List CapabilityRecord
    pub candidate : CandidateRelease
    pub run_stored : get i.analysis_run_id s.analyses ≡ some run
    pub of_actor : run.organization_id ≡ actor.organization_id
    pub of_project_run : run.project_id ≡ i.project_id
    pub succeeded : run.status ≡ Status.succeeded
    pub stored : get i.verification_run_id s.verifications ≡ some verification
    pub latest :
        same_optional
          (last? (get_or (get i.analysis_run_id s.verification_ids_by_run) []))
          (some i.verification_run_id)
        ≡ true
    pub eligible : verification.eligible ≡ true
    pub of_project : str_eq verification.project_id i.project_id ≡ true
    pub of_run : str_eq verification.analysis_run_id i.analysis_run_id ≡ true
    pub of_state : str_eq verification.capability_state_digest i.capability_state_digest ≡ true
    pub verified_hash : str_eq verification.candidate_content_hash i.candidate_content_hash ≡ true
    pub bound : any (λ c. not (binding_valid E c)) capabilities ≡ false
    pub unchanged : not (str_eq (E.state_digest capabilities) i.capability_state_digest) ≡ false
    pub current : analysis_capabilities run.id s ≡ capabilities
    pub reviewed : All IsReviewed capabilities
    pub verified_candidate : get verification.id s.verification_candidates ≡ some candidate
    pub same_bytes : str_eq (E.sha256 candidate.code) i.candidate_content_hash ≡ true
    pub contents : r.content_hash ≡ E.sha256 candidate.code
    pub code : r.candidate.code ≡ candidate.code

  store_ok :
      (key : String) (v : VerificationRecord) (c : CandidateRelease) (r : ReleaseRecord)
      → (store_release E now actor i key v c s).0 ≡ ok r
      → r ≡ new_release E now actor i v c (E.uuid s.uuids)
  unfolding store_release random_uuid reserve audit_event ◌>>=◌
  store_ok key v c r e = cc

  made_new :
      (key : String) (v : VerificationRecord) (c : CandidateRelease) (r : ReleaseRecord)
      → get i.analysis_run_id s.release_by_run ≡ none
      → ((gets (λ t. get i.analysis_run_id t.release_by_run)
            >>= release_or_existing E now actor i key v c)
          s).0
        ≡ ok r
      → r ≡ new_release E now actor i v c (E.uuid s.uuids)
  unfolding ◌>>=◌ store_release release_or_existing
  made_new key v c r fresh e = store_ok key v c r (rw fresh at e)

  -- A publication with a new key, of a run that has no release, makes one only if the run named is
  -- stored, is of the actor's organisation and of the project and has succeeded, the verification named is the latest of the run, is eligible and is of the project,
  -- the run, the capabilities and the bytes named, each capability is bound to its plan, unchanged
  -- since then and reviewed as its tier asks, and the code released is the code verified, with the
  -- hash named.
  pub publish_new-IsGated :
      (key : String) (r : ReleaseRecord)
      → get i.analysis_run_id s.release_by_run ≡ none
      → (publish_new E now actor i key s).0 ≡ ok r
      → IsGated r
  unfolding publish_new
  publish_new-IsGated key r fresh e =
      let a = bind_inv (published_run E now actor i) _ s r run_state e in
      let b = bind_inv (latest_verification E now i) _ s r verification_state a.2 in
      let c =
        bind_inv (reviewed_capabilities E now a.0.id i.capability_state_digest) _ s r
          (capabilities_state a.0.id i.capability_state_digest) b.2 in
      let d =
        bind_inv (verified_candidate E now i a.0 b.0 c.0) _ s r (candidate_state a.0 b.0 c.0) c.2 in
      let made = made_new key b.0 d.0 r fresh d.2 in
      let ran = run_ok a.0 a.1 in
      let ver = verification_ok b.0 b.1 in
      let fits = verification_for i b.0 ver.1 in
      let caps = capabilities_ok a.0.id i.capability_state_digest c.0 c.1 in
      let cand = candidate_ok a.0 b.0 c.0 d.0 d.1 in
      record {
        run = a.0;
        verification = b.0;
        capabilities = c.0;
        candidate = d.0;
        run_stored = ran.0;
        of_actor = (eq_iff a.0.organization_id actor.organization_id).0 ran.1;
        of_project_run = (eq_iff a.0.project_id i.project_id).0 ran.2;
        succeeded = is_succeeded_inv a.0.status ran.3;
        stored = ver.0;
        latest = ver.3;
        eligible = fits.2;
        of_project = fits.0;
        of_run = fits.1;
        of_state = fits.3;
        verified_hash = ver.2;
        bound = caps.0;
        unchanged = caps.1;
        current = caps.2;
        reviewed = review_failures-IsReviewed c.0 caps.3;
        verified_candidate = cand.0;
        same_bytes = cand.1;
        contents = ap (λ (x : ReleaseRecord). x.content_hash) made;
        code = ap (λ (x : ReleaseRecord). x.candidate.code) made;
      }
