-- ===== src/Release/Verify/Eligible.antt =====
-- What an eligible verification reports (packages/database/src/control-plane.ts).
use page2web_mcp.Common.{ℕ, ◌≡◌, Bool, List, [], length}
use page2web_mcp.Release.Types.{VerificationRequest, ReleaseEnv}
use page2web_mcp.Release.Verify.Named.{AllPass}
use page2web_mcp.Release.Verify.Observed.{IsObserved}
use page2web_mcp.Release.Verify.Summarised.{IsSummarised}

module _ (E : ReleaseEnv) (now : ℕ) where
  -- What the report of an eligible verification says.
  pub record IsEligible (i : VerificationRequest) : Type 0 where
    pub count : length i.report.checks ≡ 13
    pub passes : AllPass [] i.report.checks
    pub summary : IsSummarised i.report
    pub observed : IsObserved E i
