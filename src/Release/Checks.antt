-- ===== src/Release/Checks.antt =====
-- The pure checks of a verification and of a release: `verificationCheckFailures`,
-- `verificationSummaryMatches`, `evidenceResolves`, `candidateMatches`,
-- `equalPlanSets` and `capabilityPlanBindingValid` (packages/database/src/control-plane.ts). Texts
-- are compared by code points; JavaScript compares them by UTF-16 units, in another order only
-- beyond the basic plane.
use Prim.Native.Nat.{Ordering}
use Prim.Native.String.{compare}
use text.Mathlib.Text.{◌==◌ as str_eq}
use page2web_mcp.Common.{
  ℕ, String, Bool, true, false, not, ◌&&◌, ◌||◌, Option, none, some, List, [], ◌∷◌, map, leb, ltb,
  ◌==◌, any, all, filter, length, if◌then◌else◌, is_some, some_and,
}
use page2web_mcp.Common.Text.{codes, utf16_length, is_sha256}
use page2web_mcp.Common.Dict.{Dict, get, set}
use page2web_mcp.Common.Sort.{sort}
use page2web_mcp.Workflow.Store.{◌^^◌}
use page2web_mcp.Release.Types.{
  CapabilityRecord, Plan, AnalysisEvidence, CandidateRelease, CheckRecord, Mode, live,
  VerificationReport, AnalysisRun, ReleaseEnv, same_tier, same_mode,
}

-- `compareCodePoints(left, right) <= 0`
abbrev pub text_le : String → String → Bool
text_le a b = elim (compare a b) [ Ordering.gt ↦ false | _ ↦ true ]

abbrev pub includes : String → List String → Bool
includes x xs = any (λ y. str_eq y x) xs

-- `[...new Set(texts)]`
unfoldable pub distinct_from : List String → List String → List String
distinct_from seen [] = []
distinct_from seen (x ∷ xs) = elim (includes x seen) [
  | true ↦ distinct_from seen xs
  | false ↦ x ∷ distinct_from (x ∷ seen) xs
]

abbrev pub check_names : List String
check_names =
    "authentication" ∷ "cancellation" ∷ "confirmation" ∷ "final_state"
    ∷ "no_control_plane_or_model_calls" ∷ "origin" ∷ "read" ∷ "replay_idempotency"
    ∷ "reversible_mutation" ∷ "schema" ∷ "secret_leakage" ∷ "tool_selection" ∷ "trusted_loader" ∷ []

abbrev pub report_invalid : String
report_invalid = "VERIFICATION_REPORT_INVALID"

-- `!check.code`
abbrev pub has_no_code : Option String → Bool
has_no_code none = true
has_no_code (some c) = str_eq c ""

abbrev pub is_bad_check : List String → CheckRecord → Bool
is_bad_check seen c =
    not (includes c.name check_names)
    || includes c.name seen
    || (c.passed && is_some c.code)
    || (not c.passed && has_no_code c.code)

abbrev pub with_code : CheckRecord → List String → List String
with_code c codes = if c.passed then codes else elim c.code [ none ↦ codes | some x ↦ x ∷ codes ]

abbrev pub onto_failures : CheckRecord → Option (List String) → Option (List String)
onto_failures c none = none
onto_failures c (some codes) = some (with_code c codes)

-- The loop over the checks, `none` where the report is invalid.
unfoldable pub failed_codes : List String → List CheckRecord → Option (List String)
failed_codes seen [] = some []
failed_codes seen (c ∷ cs) =
    let rest = failed_codes (c.name ∷ seen) cs in
    if is_bad_check seen c then none else onto_failures c rest

-- `verificationCheckFailures`
unfoldable pub check_failures : List CheckRecord → List String
unfolding failed_codes sort
check_failures checks =
    if not (length checks == length check_names)
    then report_invalid ∷ []
    else elim (failed_codes [] checks) [
      | none ↦ report_invalid ∷ []
      | some codes ↦ sort text_le codes
    ]

-- The names of the checks that passed, as a set.
abbrev pub passed_names : List CheckRecord → List String
unfolding distinct_from
passed_names checks = distinct_from [] (map (λ c. c.name) (filter (λ c. c.passed) checks))

abbrev pub same_bool : Bool → Bool → Bool
same_bool true b = b
same_bool false b = not b

abbrev pub is_line_end : ℕ → Bool
is_line_end c = c == 10 || c == 13

abbrev pub is_good_directive : Option String → Bool
is_good_directive none = true
is_good_directive (some d) = leb (utf16_length d) 512 && not (any is_line_end (codes d))

abbrev pub expected_protocol : Mode → ℕ
expected_protocol live = 2
expected_protocol _ = 1

-- `verificationSummaryMatches`; the mode and the hosted policy are of their types.
unfoldable pub summary_matches : VerificationReport → Bool
unfolding passed_names is_sha256
summary_matches r =
    let passed = passed_names r.checks in
    same_mode r.verifier_identity.mode r.verification_mode
    && r.verifier_identity.protocol_version == expected_protocol r.verification_mode
    && str_eq r.verifier_identity.web_mcp_implementation "native"
    && is_sha256 r.verifier_identity.verifier_origin_digest
    && is_good_directive r.csp_directive
    && same_bool r.schema (includes "schema" passed && includes "trusted_loader" passed)
    && same_bool r.authenticated (includes "authentication" passed && includes "origin" passed)
    && r.replay_passes == (if includes "replay_idempotency" passed then 3 else 0)
    && same_bool r.no_secret_leakage
        (includes "secret_leakage" passed && includes "no_control_plane_or_model_calls" passed)
    && same_bool r.browser_execution (length passed == length check_names)
    && r.selection_score == (if includes "tool_selection" passed then 20 else 0)

abbrev pub same_optional : Option String → Option String → Bool
same_optional none none = true
same_optional (some a) (some b) = str_eq a b
same_optional _ _ = false

-- One piece of evidence, against those before it.
abbrev pub is_good_evidence :
    ReleaseEnv → AnalysisRun → ℕ → Dict AnalysisEvidence → AnalysisEvidence → Bool
is_good_evidence E run now before e =
    same_optional e.organization_id (some run.organization_id)
    && same_optional e.project_id (some run.project_id)
    && same_optional e.analysis_run_id (some run.id)
    && some_and e.expires_at (λ t. ltb now t)
    && str_eq ("urn:sha256:" ^^ E.sha256 e.content) e.reference
    && not (is_some (get e.reference before))

-- The evidence by its reference, `none` where a piece of it is refused.
unfoldable pub index_evidence :
    ReleaseEnv
    → AnalysisRun
    → ℕ
    → List AnalysisEvidence
    → Dict AnalysisEvidence
    → Option (Dict AnalysisEvidence)
index_evidence E run now [] index = some index
index_evidence E run now (e ∷ es) index =
    let rest = index_evidence E run now es (set e.reference e index) in
    if is_good_evidence E run now index e then rest else none

abbrev pub resolves : Dict AnalysisEvidence → String × String → Bool
resolves index named = some_and (get named.1 index) (λ e. str_eq e.source named.0)

-- `evidenceResolves`
unfoldable pub evidence_resolves :
    ReleaseEnv → List AnalysisEvidence → List Plan → AnalysisRun → ℕ → Bool
unfolding index_evidence
evidence_resolves E evidence plans run now =
    some_and (index_evidence E run now evidence [])
      λ index. all (λ p. all (resolves index) p.evidence) plans

-- `candidateMatches`
abbrev pub candidate_matches : CandidateRelease → CandidateRelease → Bool
candidate_matches c stored =
    str_eq c.code stored.code
    && str_eq c.content_hash stored.content_hash
    && str_eq c.allowed_origin stored.allowed_origin
    && str_eq c.manifest stored.manifest

-- `capabilityPlanBindingValid`
abbrev pub binding_valid : ReleaseEnv → CapabilityRecord → Bool
binding_valid E c =
    str_eq c.stable_name c.plan.tool_name
    && same_tier c.risk_tier c.plan.risk_tier
    && some_and (E.plan_digest c.plan) (λ d. str_eq c.plan_digest d)

-- The names of the plans with their digests, `none` where one of them has none.
unfoldable pub named_digests : ReleaseEnv → List Plan → Option (List String)
named_digests E [] = some []
named_digests E (p ∷ ps) = elim (E.plan_digest p) [
  | none ↦ none
  | some d ↦ elim (named_digests E ps) [
    | none ↦ none
    | some ds ↦ some ((p.tool_name ^^ ":" ^^ d) ∷ ds)
  ]
]

abbrev pub same_texts : List String → List String → Bool
same_texts [] [] = true
same_texts (x ∷ xs) (y ∷ ys) = str_eq x y && same_texts xs ys
same_texts _ _ = false

-- `equalPlanSets`, with the throw of a digest as `none`.
unfoldable pub equal_plan_sets : ReleaseEnv → List Plan → List Plan → Option Bool
unfolding named_digests sort
equal_plan_sets E left right =
    if not (length left == length right) then some false else elim (named_digests E left) [
      | none ↦ none
      | some ls ↦ elim (named_digests E right) [
        | none ↦ none
        | some rs ↦ some (same_texts (sort text_le ls) (sort text_le rs))
      ]
    ]
