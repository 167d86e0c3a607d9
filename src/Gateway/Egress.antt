-- ===== src/Gateway/Egress.antt =====
-- `createEgressEnforcer` of apps/website-gateway/src/stores/enforcement.ts: the table of routes
-- that every outbound request is checked against. A policy's `denyByDefault` is `true` by its
-- type. A request comes with its URL as `URL` parses it, `none` where that throws.
pub mod Checks
use text.Mathlib.Text.{◌==◌ as str_eq, starts_with}
use page2web_mcp.Common.{
  ℕ, String, Bool, true, false, ◌&&◌, Option, none, some, List, [], ◌∷◌, leb, any, if◌then◌else◌,
  is_some,
}
use page2web_mcp.Common.Dict.{Dict, get, set, delete, values}

pub record EgressRoute : Type 0 where
  pub methods : List String
  pub origin : String
  pub path_prefix : String

pub record EnforcedPolicy : Type 0 where
  pub reference : String
  pub routes : List EgressRoute
  pub target_origin : String
  pub expires_at_ms : ℕ

pub record ParsedUrl : Type 0 where
  pub origin : String
  pub pathname : String

pub record EgressRequest : Type 0 where
  pub method : String
  pub url : Option ParsedUrl
  pub now : ℕ

abbrev pub Installed : Type 0
Installed = Dict EnforcedPolicy

-- `install`
abbrev pub install : EnforcedPolicy → Installed → Installed
install p s = set p.reference p s

-- `revoke`
abbrev pub revoke : String → Installed → Bool × Installed
revoke reference s = (is_some (get reference s), delete reference s)

-- The test of a route.
abbrev pub route_allows : String → ParsedUrl → EgressRoute → Bool
route_allows method u r =
    str_eq r.origin u.origin
    && any (λ m. str_eq m method) r.methods
    && starts_with u.pathname r.path_prefix

-- The loop over the policies, which removes those that have run out as it comes to them.
unfoldable pub scan : ℕ → String → ParsedUrl → List EnforcedPolicy → Installed → Bool × Installed
scan now method u [] s = (false, s)
scan now method u (p ∷ ps) s =
    let rest = scan now method u ps in
    if leb p.expires_at_ms now
    then rest (delete p.reference s)
    else if any (route_allows method u) p.routes
    then (true, s)
    else rest s

-- `check`
unfoldable pub check : EgressRequest → Installed → Bool × Installed
unfolding scan
check q s = elim q.url [ none ↦ (false, s) | some u ↦ scan q.now q.method u (values s) s ]
