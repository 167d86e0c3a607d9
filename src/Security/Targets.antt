-- ===== src/Security/Targets.antt =====
-- `isPrivateOrReservedHost`, `validateResolvedAddress`, `validateTargetUrl`, `validateRedirectChain`
-- and `createDiscoveryFirewall` of packages/security/src/security.ts. A URL comes as `new URL`
-- parses it, `none` where that throws; letters outside ASCII are left as they are, and no test
-- reads them.
pub mod Blocked
pub mod Firewall
use text.Mathlib.Text.{◌==◌ as str_eq}
use page2web_mcp.Common.{
  ℕ, String, Bool, true, false, ◌&&◌, ◌||◌, not, Option, none, some, List, [], ◌∷◌, ltb, leb, ◌==◌,
  any, all, length, if◌then◌else◌, is_some, some_and,
}
use page2web_mcp.Common.Text.{codes, is_digit, headed}
use page2web_mcp.Common.Pattern.{same_codes, ends, contains, lower, split, strip_trailing}
use page2web_mcp.Security.Ipv4.{number, is_blocked_ipv4}
use page2web_mcp.Security.Ipv6.{strip_brackets, parse_ipv6, is_blocked_ipv6}

pub data Code : Type 0 where
  invalid_resolved_address : Code
  private_network_blocked : Code
  invalid_url : Code
  https_required : Code
  embedded_credentials_blocked : Code
  origin_blocked : Code
  download_blocked : Code
  upload_blocked : Code
  tool_blocked : Code
  mutation_blocked : Code

-- `{ ok: true }` is `none`, and `{ ok: false, code }` is `some code`.
abbrev pub Refusal : Type 0
Refusal = Option Code

abbrev pub localhost : List ℕ
localhost = codes "localhost"

unfoldable pub is_reserved : List ℕ → Bool
unfolding same_codes ends is_blocked_ipv4 is_blocked_ipv6
is_reserved host =
    same_codes host localhost
    || ends (b'.' ∷ localhost) host
    || is_blocked_ipv4 host
    || is_blocked_ipv6 host

unfoldable pub is_private_or_reserved_host : List ℕ → Bool
unfolding is_reserved lower strip_trailing
is_private_or_reserved_host hostname = is_reserved (strip_trailing b'.' (lower hostname))

-- `/^(?:0|[1-9]\d{0,2})$/.test(part) && Number(part) <= 255`
unfoldable pub is_canonical_octet : List ℕ → Bool
unfolding same_codes headed number
is_canonical_octet part =
    (same_codes part (b'0' ∷ []) || headed (λ c. is_digit c && not (c == b'0')) is_digit 2 part)
    && some_and (number part) (λ n. leb n 255)

unfoldable pub is_valid_ipv4 : List ℕ → Bool
unfolding is_canonical_octet split
is_valid_ipv4 s = let parts = split b'.' s in length parts == 4 && all is_canonical_octet parts

unfoldable pub is_valid_ipv6 : List ℕ → Bool
unfolding contains parse_ipv6
is_valid_ipv6 s = contains (b':' ∷ []) s && is_some (parse_ipv6 s)

unfoldable pub validate_resolved_address : List ℕ → Refusal
unfolding lower strip_brackets is_valid_ipv4 is_valid_ipv6 is_private_or_reserved_host
validate_resolved_address value =
    let normalized = strip_brackets (lower value) in
    if not (is_valid_ipv4 normalized) && not (is_valid_ipv6 normalized)
    then some invalid_resolved_address
    else if is_private_or_reserved_host normalized
    then some private_network_blocked
    else none

pub record Url : Type 0 where
  pub protocol : String
  pub hostname : List ℕ
  pub username : List ℕ
  pub password : List ℕ
  pub origin : String

abbrev pub is_empty : List ℕ → Bool
is_empty [] = true
is_empty (c ∷ cs) = false

unfoldable pub validate_target_url : Option Url → Refusal
unfolding is_private_or_reserved_host
validate_target_url none = some invalid_url
validate_target_url (some url) =
    if not (str_eq url.protocol "https:")
    then some https_required
    else if is_private_or_reserved_host url.hostname
    then some private_network_blocked
    else if not (is_empty url.username) || not (is_empty url.password)
    then some embedded_credentials_blocked
    else none

-- The loop over the targets of a redirect.
unfoldable pub first_refusal : List (Option Url) → Refusal
unfolding validate_target_url
first_refusal [] = none
first_refusal (target ∷ targets) =
    let rest = first_refusal targets in
    elim (validate_target_url target) [ none ↦ rest | some code ↦ some code ]

unfoldable pub validate_redirect_chain : List (Option Url) → Refusal
unfolding first_refusal
validate_redirect_chain [] = some invalid_url
validate_redirect_chain (target ∷ targets) = first_refusal (target ∷ targets)

pub data RequestKind : Type 0 where
  document : RequestKind
  subresource : RequestKind
  download : RequestKind
  upload : RequestKind
  tool : RequestKind

pub record Request : Type 0 where
  pub method : String
  pub url : Option Url
  pub kind : Option RequestKind

-- The kinds that are refused, each with its code.
abbrev pub kind_refusal : Option RequestKind → Refusal
kind_refusal (some download) = some download_blocked
kind_refusal (some upload) = some upload_blocked
kind_refusal (some tool) = some tool_blocked
kind_refusal _ = none

abbrev pub allows_origin : List String → Url → Bool
allows_origin allowed url = any (λ o. str_eq o url.origin) allowed

abbrev pub decide_at : List String → Request → Url → Refusal
decide_at allowed q url =
    if not (allows_origin allowed url) then some origin_blocked else elim (kind_refusal q.kind) [
      | some code ↦ some code
      | none ↦
          if not (str_eq q.method "GET" || str_eq q.method "HEAD")
          then some mutation_blocked
          else none
    ]

-- `decide` of a firewall for the origins. A target that passed has parsed.
unfoldable pub decide : List String → Request → Refusal
unfolding validate_target_url
decide allowed q = elim (validate_target_url q.url) [
  | some code ↦ some code
  | none ↦ elim q.url [ none ↦ some invalid_url | some url ↦ decide_at allowed q url ]
]
