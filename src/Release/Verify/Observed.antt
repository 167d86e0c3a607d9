-- ===== src/Release/Verify/Observed.antt =====
-- What the observation of an eligible verification says of its candidate
-- (packages/database/src/control-plane.ts).
use text.Mathlib.Text.{◌==◌ as str_eq}
use text.Mathlib.TextEquality.{eq_iff}
use mathlib.Core.Bool.{true≢false}
use page2web_mcp.Common.{
  String, ◌≡◌, ◌≢◌, refl, sym, ap, Bool, true, ◌==◌, Option, none, some, List, [], ◌∷◌, arith,
  and-eq-true, some_and,
}
use page2web_mcp.Release.Types.{
  Plan, Mode, live, local_live, hermetic, VerifierAttestation, VerificationRequest, ReleaseEnv,
}
use page2web_mcp.Release.Checks.{same_texts}
use page2web_mcp.Release.Observation.{
  is_attestation, integrity_of, expected_tools, payload_digest_of, is_attested, observation_matches,
}

-- The observation agrees with the candidate, with the plans and the release id of its manifest.
pub record IsObserved (E : ReleaseEnv) (i : VerificationRequest) : Type 0 where
  pub plans : List Plan
  pub plans_read : E.plans_of i.candidate.manifest ≡ some plans
  pub hash : i.report.observation.observed_content_hash ≡ i.candidate.content_hash
  pub integrity : i.report.observation.observed_integrity ≡ integrity_of E i
  pub release : E.release_id_of i.candidate.manifest ≡ some i.report.observation.observed_release_id
  pub origin : i.report.observation.observed_target_origin ≡ i.candidate.allowed_origin
  pub tools : i.report.observation.registered_tools ≡ expected_tools plans
  pub enforced : i.report.observation.enforced_before_evaluation ≡ true
  pub evaluated : i.report.observation.evaluated_content_hash ≡ i.candidate.content_hash
  pub no_control_plane : i.report.observation.control_plane_requests ≡ 0
  pub no_model : i.report.observation.model_requests ≡ 0
  pub attested :
      i.report.verification_mode ≡ live
      → (a : VerifierAttestation) × (i.report.observation.verifier_attestation ≡ some a)
        × (is_attestation E "candidate" a ≡ true)
        × (a.payload_digest ≡ payload_digest_of E i plans)
  pub unattested :
      i.report.verification_mode ≢ live → i.report.observation.verifier_attestation ≡ none

same_texts_inv : (xs ys : List String) → same_texts xs ys ≡ true → xs ≡ ys
same_texts_inv [] [] e = refl
same_texts_inv [] (y ∷ ys) e = absurd (true≢false (sym e))
same_texts_inv (x ∷ xs) [] e = absurd (true≢false (sym e))
same_texts_inv (x ∷ xs) (y ∷ ys) e =
    let h = and-eq-true (str_eq x y) _ e in
    let first : x ≡ y = (eq_iff x y).0 h.0 in
    let rest : xs ≡ ys = same_texts_inv xs ys h.1 in rw (first, rest) refl

id_inv : (o : Option String) (x : String) → some_and o (λ d. str_eq x d) ≡ true → o ≡ some x
id_inv none x e = absurd (true≢false (sym e))
id_inv (some d) x e = ap some (sym ((eq_iff x d).0 e))

module _ (E : ReleaseEnv) (i : VerificationRequest) (plans : List Plan) where
  attested_inv :
      (m : Mode) (o : Option VerifierAttestation)
      → is_attested E i plans m o ≡ true
      → m ≡ live
      → (a : VerifierAttestation) × (o ≡ some a)
        × (is_attestation E "candidate" a ≡ true)
        × (a.payload_digest ≡ payload_digest_of E i plans)
  unfolding is_attested
  attested_inv live (some a) e l =
      let h = and-eq-true (is_attestation E "candidate" a) _ e in
      (a, refl, h.0, (eq_iff a.payload_digest (payload_digest_of E i plans)).0 h.1)
  attested_inv live none e l = absurd (true≢false (sym e))
  attested_inv local_live o e l = absurd (cc (l))
  attested_inv hermetic o e l = absurd (cc (l))

  unattested_inv :
      (m : Mode) (o : Option VerifierAttestation)
      → is_attested E i plans m o ≡ true
      → m ≢ live
      → o ≡ none
  unfolding is_attested
  unattested_inv live o e n = absurd (n refl)
  unattested_inv local_live none e n = refl
  unattested_inv local_live (some a) e n = absurd (true≢false (sym e))
  unattested_inv hermetic none e n = refl
  unattested_inv hermetic (some a) e n = absurd (true≢false (sym e))

plans_inv :
    (o : Option (List Plan)) (f : List Plan → Bool)
    → some_and o f ≡ true
    → (plans : List Plan) × (o ≡ some plans) × (f plans ≡ true)
plans_inv none f e = absurd (true≢false (sym e))
plans_inv (some plans) f e = (plans, refl, e)

pub observation-IsObserved :
    (E : ReleaseEnv) (i : VerificationRequest) → observation_matches E i ≡ true → IsObserved E i
unfolding observation_matches
observation-IsObserved E i e =
    let o = i.report.observation in
    let c = i.candidate in
    let p = plans_inv (E.plans_of c.manifest) _ e in
    let h9 =
      and-eq-true _ (is_attested E i p.0 i.report.verification_mode o.verifier_attestation) p.2 in
    let h8 = and-eq-true _ (o.model_requests == 0) h9.0 in
    let h7 = and-eq-true _ (o.control_plane_requests == 0) h8.0 in
    let h6 = and-eq-true _ (str_eq o.evaluated_content_hash c.content_hash) h7.0 in
    let h5 = and-eq-true _ o.enforced_before_evaluation h6.0 in
    let h4 = and-eq-true _ (same_texts o.registered_tools (expected_tools p.0)) h5.0 in
    let h3 = and-eq-true _ (str_eq o.observed_target_origin c.allowed_origin) h4.0 in
    let h2 =
      and-eq-true _ (some_and (E.release_id_of c.manifest) (λ id. str_eq o.observed_release_id id))
        h3.0 in
    let h1 =
      and-eq-true (str_eq o.observed_content_hash c.content_hash)
        (str_eq o.observed_integrity (integrity_of E i)) h2.0 in
    record {
      plans = p.0;
      plans_read = p.1;
      hash = (eq_iff o.observed_content_hash c.content_hash).0 h1.0;
      integrity = (eq_iff o.observed_integrity (integrity_of E i)).0 h1.1;
      release = id_inv (E.release_id_of c.manifest) o.observed_release_id h2.1;
      origin = (eq_iff o.observed_target_origin c.allowed_origin).0 h3.1;
      tools = same_texts_inv o.registered_tools (expected_tools p.0) h4.1;
      enforced = h5.1;
      evaluated = (eq_iff o.evaluated_content_hash c.content_hash).0 h6.1;
      no_control_plane = ground (arith, h7.1);
      no_model = ground (arith, h8.1);
      attested = attested_inv E i p.0 i.report.verification_mode o.verifier_attestation h9.1;
      unattested = unattested_inv E i p.0 i.report.verification_mode o.verifier_attestation h9.1;
    }
