-- ===== src/Release/Observation.antt =====
-- `candidateObservationMatches`, `candidateVerifierScopeMatches`,
-- `normalizeVerifierAttestationIdentity` and `releaseFailures`
-- (packages/database/src/control-plane.ts). An observation has the attestation exactly if it has a
-- value for it.
use text.Mathlib.Text.{◌==◌ as str_eq}
use page2web_mcp.Common.{
  ℕ, ◌-◌, String, Bool, true, false, not, ◌&&◌, ◌||◌, Option, none, some, List, [], ◌∷◌, map, leb,
  ltb, ◌==◌, if◌then◌else◌, some_and,
}
use page2web_mcp.Common.Text.{is_sha256, is_uuid_v4}
use page2web_mcp.Common.Sort.{sort}
use page2web_mcp.Workflow.Store.{◌^^◌}
use page2web_mcp.Release.Types.{
  Plan, live, Mode, VerifierAttestation, VerificationRequest, ReleaseEnv,
}
use page2web_mcp.Release.Checks.{
  text_le, includes, distinct_from, report_invalid, check_failures, summary_matches, same_texts,
}

-- The order of the three times of an attestation, and the bound on its lifetime.
abbrev pub are_times : Option ℕ → Option ℕ → Option ℕ → Bool
are_times (some issued) (some expires) (some attested) =
    ltb issued expires
    && leb issued attested
    && ltb attested expires
    && leb (expires - issued) 120000
are_times _ _ _ = false

-- `normalizeVerifierAttestationIdentity` does not throw.
unfoldable pub is_attestation : ReleaseEnv → String → VerifierAttestation → Bool
unfolding is_sha256
is_attestation E operation a =
    a.protocol_version == 2
    && str_eq a.operation operation
    && is_uuid_v4 a.attestation_id
    && is_uuid_v4 a.request_id
    && is_sha256 a.nonce_digest
    && is_sha256 a.scope_digest
    && is_sha256 a.payload_digest
    && are_times (E.exact_time a.issued_at) (E.exact_time a.expires_at) (E.exact_time a.attested_at)

-- The attestation is there in the mode `live` alone, and is of the scope.
abbrev pub is_scoped : ReleaseEnv → Option String → Mode → Option VerifierAttestation → Bool
unfolding is_attestation
is_scoped E digest live (some a) =
    is_attestation E "candidate" a && some_and digest (λ d. str_eq a.scope_digest d)
is_scoped E digest live none = false
is_scoped E digest _ none = true
is_scoped E digest _ (some a) = false

-- `candidateVerifierScopeMatches`
abbrev pub scope_matches : ReleaseEnv → VerificationRequest → String → String → String → Bool
scope_matches E i project identity configuration =
    is_scoped E (E.scope_digest i project identity configuration) i.report.verification_mode
      i.report.observation.verifier_attestation

-- The integrity of the candidate's code.
abbrev pub integrity_of : ReleaseEnv → VerificationRequest → String
integrity_of E i = "sha384-" ^^ E.sha384_base64 i.candidate.code

-- `expectedTools`
abbrev pub expected_tools : List Plan → List String
unfolding sort
expected_tools plans = sort text_le (map (λ p. p.tool_name) plans)

-- `expectedPayloadDigest`
abbrev pub payload_digest_of : ReleaseEnv → VerificationRequest → List Plan → String
payload_digest_of E i plans =
    E.sha256 (E.payload_json i.candidate (expected_tools plans) (integrity_of E i))

-- The attestation is there in the mode `live` alone, and is of the payload.
unfoldable pub is_attested :
    ReleaseEnv → VerificationRequest → List Plan → Mode → Option VerifierAttestation → Bool
unfolding is_attestation
is_attested E i plans live (some a) =
    is_attestation E "candidate" a && str_eq a.payload_digest (payload_digest_of E i plans)
is_attested E i plans live none = false
is_attested E i plans _ none = true
is_attested E i plans _ (some a) = false

-- `candidateObservationMatches`
unfoldable pub observation_matches : ReleaseEnv → VerificationRequest → Bool
unfolding is_attested
observation_matches E i =
    let o = i.report.observation in
    some_and (E.plans_of i.candidate.manifest) λ plans.
      str_eq o.observed_content_hash i.candidate.content_hash
      && str_eq o.observed_integrity (integrity_of E i)
      && some_and (E.release_id_of i.candidate.manifest) (λ id. str_eq o.observed_release_id id)
      && str_eq o.observed_target_origin i.candidate.allowed_origin
      && same_texts o.registered_tools (expected_tools plans)
      && o.enforced_before_evaluation
      && str_eq o.evaluated_content_hash i.candidate.content_hash
      && o.control_plane_requests == 0
      && o.model_requests == 0
      && is_attested E i plans i.report.verification_mode o.verifier_attestation

-- `releaseFailures`
unfoldable pub release_failures : ReleaseEnv → VerificationRequest → List String
unfolding check_failures summary_matches distinct_from sort observation_matches
release_failures E i =
    let typed = check_failures i.report.checks in
    if includes report_invalid typed
      || not (summary_matches i.report)
      || not (observation_matches E i)
    then report_invalid ∷ []
    else sort text_le (distinct_from [] typed)
