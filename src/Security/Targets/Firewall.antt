-- ===== src/Security/Targets/Firewall.antt =====
-- What `validateRedirectChain` and the discovery firewall let through
-- (packages/security/src/security.ts).
use text.Mathlib.Text.{◌==◌ as str_eq}
use mathlib.Core.List.{cons-ne-nil}
use page2web_mcp.Common.{
  ℕ, String, ◌<◌, ◌≡◌, ◌≢◌, ◌↔◌, refl, sym, ◌∙◌, inl, inr, true, false, ◌||◌, Option, none, some,
  List, [], ◌∷◌, All, arith, Option-cases, none≢some,
}
use page2web_mcp.Security.Ipv4.Networks.{address, is_blocked_address}
use page2web_mcp.Security.Ipv4.Print.{dotted}
use page2web_mcp.Security.Targets.{
  Url, Request, is_private_or_reserved_host, is_empty, validate_target_url, first_refusal,
  validate_redirect_chain, kind_refusal, allows_origin, decide,
}
use page2web_mcp.Security.Targets.Blocked.{is_private_or_reserved_host-dotted}

-- What a target must be: HTTPS, at a public host, without credentials.
pub record IsTarget (url : Url) : Type 0 where
  pub https : str_eq url.protocol "https:" ≡ true
  pub public_host : is_private_or_reserved_host url.hostname ≡ false
  pub no_username : is_empty url.username ≡ true
  pub no_password : is_empty url.password ≡ true

pub validate-IsTarget : (url : Url) → validate_target_url (some url) ≡ none → IsTarget url
unfolding validate_target_url
validate-IsTarget url e = record {
  https = ground (arith, e);
  public_host = ground (arith, e);
  no_username = ground (arith, e);
  no_password = ground (arith, e);
}

IsTarget-validate : (url : Url) → IsTarget url → validate_target_url (some url) ≡ none
unfolding validate_target_url
IsTarget-validate url t = ground (arith, t.https, t.public_host, t.no_username, t.no_password)

-- A target that parses, and is as `IsTarget` says.
abbrev pub Passes : Option Url → Type 0
Passes none = ⊥
Passes (some url) = IsTarget url

passes : (target : Option Url) → validate_target_url target ≡ none → Passes target
unfolding validate_target_url
passes none e = absurd (none≢some (sym e))
passes (some url) e = validate-IsTarget url e

passed : (target : Option Url) → Passes target → validate_target_url target ≡ none
passed none h = absurd h
passed (some url) h = IsTarget-validate url h

first_none :
    (target : Option Url) (targets : List (Option Url))
    → first_refusal (target ∷ targets) ≡ none
    → (validate_target_url target ≡ none) × (first_refusal targets ≡ none)
unfolding first_refusal
first_none target targets e = ground arith

refusal-Passes : (targets : List (Option Url)) → first_refusal targets ≡ none → All Passes targets
refusal-Passes [] e = tt
refusal-Passes (target ∷ targets) e =
    let first = first_none target targets e in
    (passes target first.0, refusal-Passes targets first.1)

Passes-refusal : (targets : List (Option Url)) → All Passes targets → first_refusal targets ≡ none
unfolding first_refusal
Passes-refusal [] h = refl
Passes-refusal (target ∷ targets) h = ground (arith, passed target h.0, Passes-refusal targets h.1)

-- A redirect chain is accepted exactly if it has a target and each of its targets parses, is HTTPS
-- at a host that is not private or reserved, and carries no credentials.
pub validate_redirect_chain_lem :
    (targets : List (Option Url))
    → (validate_redirect_chain targets ≡ none) ↔ ((targets ≢ []) × All Passes targets)
unfolding validate_redirect_chain
validate_redirect_chain_lem [] = ((λ e. absurd (none≢some (sym e))), (λ h. absurd (h.0 refl)))
validate_redirect_chain_lem (target ∷ targets) = (
  (λ e. (cons-ne-nil target targets, refusal-Passes (target ∷ targets) e)),
  (λ h. Passes-refusal (target ∷ targets) h.1),
)

-- What the firewall for the origins asks of a request with this URL.
pub record IsDiscovery (allowed : List String) (q : Request) (url : Url) : Type 0 where
  pub target : IsTarget url
  pub origin : allows_origin allowed url ≡ true
  pub kind : kind_refusal q.kind ≡ none
  pub method : (str_eq q.method "GET" || str_eq q.method "HEAD") ≡ true

-- A request that the firewall allows has a URL that parses.
abbrev pub Discovers : List String → Request → Option Url → Type 0
Discovers allowed q none = ⊥
Discovers allowed q (some url) = IsDiscovery allowed q url

allowed_IsDiscovery :
    (allowed : List String) (q : Request) (url : Url)
    → q.url ≡ some url
    → decide allowed q ≡ none
    → IsDiscovery allowed q url
unfolding decide
allowed_IsDiscovery allowed q url p e = elim (Option-cases (validate_target_url (some url))) [
  | inl t ↦ record {
    target = validate-IsTarget url t;
    origin = ground (arith, p, e, t);
    kind = ground (arith, p, e, t);
    method = ground (arith, p, e, t);
  }
  | inr (code, t) ↦ absurd (ground (arith, p, e, t))
]

-- What the firewall allows reaches no blocked address: where the host is an IPv4 address in dotted
-- decimal, no blocked network holds it, and the origin is one of those allowed.
pub decide-public :
    (allowed : List String) (q : Request) (url : Url) (a b c d : ℕ)
    → a < 256
    → b < 256
    → c < 256
    → d < 256
    → q.url ≡ some url
    → url.hostname ≡ dotted a b c d
    → decide allowed q ≡ none
    → (is_blocked_address (address a b c d) ≡ false) × (allows_origin allowed url ≡ true)
decide-public allowed q url a b c d ha hb hc hd p host e =
    let found = allowed_IsDiscovery allowed q url p e in
    (
      sym (is_private_or_reserved_host-dotted a b c d ha hb hc hd)
          ∙ (rw (sym host) found.target.public_host),
      found.origin,
    )
