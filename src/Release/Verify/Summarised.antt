-- ===== src/Release/Verify/Summarised.antt =====
-- What the summary of an eligible verification says (packages/database/src/control-plane.ts).
use text.Mathlib.Text.{◌==◌ as str_eq}
use text.Mathlib.TextEquality.{eq_iff}
use mathlib.Core.Bool.{true≢false}
use page2web_mcp.Common.{
  ℕ, ◌≤◌, String, ◌≡◌, ◌≢◌, refl, sym, ap, ◌∙◌, Bool, true, false, not, ◌&&◌, ◌==◌, leb, Option,
  some, List, [], ◌∷◌, length, any, All, arith, and-eq-true, if◌then◌else◌,
}
use page2web_mcp.Common.Text.{codes, utf16_length, is_sha256}
use page2web_mcp.Release.Types.{Mode, live, local_live, hermetic, VerificationReport, same_mode}
use page2web_mcp.Release.Checks.{
  includes, check_names, passed_names, same_bool, is_line_end, is_good_directive, expected_protocol,
  summary_matches,
}
use page2web_mcp.Release.Verify.Named.{AllPass, names_passed}

-- The summary of a report whose checks all pass.
pub record IsSummarised (r : VerificationReport) : Type 0 where
  pub mode : r.verifier_identity.mode ≡ r.verification_mode
  pub protocol : r.verification_mode ≡ live → r.verifier_identity.protocol_version ≡ 2
  pub protocol_else : r.verification_mode ≢ live → r.verifier_identity.protocol_version ≡ 1
  pub native : r.verifier_identity.web_mcp_implementation ≡ "native"
  pub origin_digest : is_sha256 r.verifier_identity.verifier_origin_digest ≡ true
  pub directive :
      (d : String)
      → r.csp_directive ≡ some d
      → (utf16_length d ≤ 512) × All (λ c. (c ≢ 10) × (c ≢ 13)) (codes d)
  pub schema : r.schema ≡ true
  pub authenticated : r.authenticated ≡ true
  pub replay_passes : r.replay_passes ≡ 3
  pub no_secret_leakage : r.no_secret_leakage ≡ true
  pub browser_execution : r.browser_execution ≡ true
  pub selection_score : r.selection_score ≡ 20

same_mode_inv : (x y : Mode) → same_mode x y ≡ true → x ≡ y
same_mode_inv live live e = refl
same_mode_inv local_live local_live e = refl
same_mode_inv hermetic hermetic e = refl
same_mode_inv _ _ e = absurd (true≢false (sym e))

protocol_else_inv : (m : Mode) → m ≢ live → expected_protocol m ≡ 1
protocol_else_inv live n = absurd (n refl)
protocol_else_inv local_live n = refl
protocol_else_inv hermetic n = refl

no_line_end : (cs : List ℕ) → not (any is_line_end cs) ≡ true → All (λ c. (c ≢ 10) × (c ≢ 13)) cs
no_line_end [] e = tt
no_line_end (c ∷ cs) e =
    (((λ x. ground (arith, x, e)), (λ x. ground (arith, x, e))), no_line_end cs (ground (arith, e)))

directive_inv :
    (o : Option String)
    → is_good_directive o ≡ true
    → (d : String) → o ≡ some d
    → (utf16_length d ≤ 512) × All (λ c. (c ≢ 10) × (c ≢ 13)) (codes d)
directive_inv o e d s =
    let h = and-eq-true (leb (utf16_length d) 512) (not (any is_line_end (codes d))) (rw s at e) in
    (ground (arith, h.0), no_line_end (codes d) h.1)

same_bool-true : (a b : Bool) → b ≡ true → same_bool a b ≡ true → a ≡ true
same_bool-true true b h e = refl
same_bool-true false b h e = absurd (true≢false (sym e ∙ ap not h))

pub summary-IsSummarised :
    (r : VerificationReport)
    → length r.checks ≡ 13
    → AllPass [] r.checks
    → summary_matches r ≡ true
    → IsSummarised r
unfolding summary_matches
summary-IsSummarised r n h e =
    let passed = passed_names r.checks in
    let named = names_passed r.checks n h in
    let has = named.0 in
    let a10 =
      and-eq-true _ (r.selection_score == (if includes "tool_selection" passed then 20 else 0)) e in
    let a9 =
      and-eq-true _ (same_bool r.browser_execution (length passed == length check_names)) a10.0 in
    let a8 =
      and-eq-true _
        (same_bool r.no_secret_leakage
          (includes "secret_leakage" passed && includes "no_control_plane_or_model_calls" passed))
        a9.0 in
    let a7 =
      and-eq-true _ (r.replay_passes == (if includes "replay_idempotency" passed then 3 else 0))
        a8.0 in
    let a6 =
      and-eq-true _
        (same_bool r.authenticated (includes "authentication" passed && includes "origin" passed))
        a7.0 in
    let a5 =
      and-eq-true _
        (same_bool r.schema (includes "schema" passed && includes "trusted_loader" passed)) a6.0 in
    let a4 = and-eq-true _ (is_good_directive r.csp_directive) a5.0 in
    let a3 = and-eq-true _ (is_sha256 r.verifier_identity.verifier_origin_digest) a4.0 in
    let a2 = and-eq-true _ (str_eq r.verifier_identity.web_mcp_implementation "native") a3.0 in
    let a1 =
      and-eq-true (same_mode r.verifier_identity.mode r.verification_mode)
        (r.verifier_identity.protocol_version == expected_protocol r.verification_mode) a2.0 in
    let version : r.verifier_identity.protocol_version ≡ expected_protocol r.verification_mode =
      ground (arith, a1.1) in
    record {
      mode = same_mode_inv r.verifier_identity.mode r.verification_mode a1.0;
      protocol = λ m. version ∙ ap expected_protocol m;
      protocol_else = λ m. version ∙ protocol_else_inv r.verification_mode m;
      native = (eq_iff r.verifier_identity.web_mcp_implementation "native").0 a2.1;
      origin_digest = a3.1;
      directive = directive_inv r.csp_directive a4.1;
      schema =
          same_bool-true r.schema _ (rw (has "schema" refl, has "trusted_loader" refl) refl) a5.1;
      authenticated =
          same_bool-true r.authenticated _ (rw (has "authentication" refl, has "origin" refl) refl)
            a6.1;
      replay_passes = ground (arith, has "replay_idempotency" refl, a7.1);
      no_secret_leakage =
          same_bool-true r.no_secret_leakage _
            (rw (has "secret_leakage" refl, has "no_control_plane_or_model_calls" refl) refl) a8.1;
      browser_execution =
          same_bool-true r.browser_execution (length passed == 13) (ground (arith, named.1)) a9.1;
      selection_score = ground (arith, has "tool_selection" refl, a10.1);
    }
