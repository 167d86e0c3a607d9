-- ===== src/Examples/Security.antt =====
-- The security properties at concrete addresses, targets, requests and evidence.
use page2web_mcp.Common.{
  ℕ, ◌≡◌, ◌↔◌, refl, arith, ◌≤◌, ◌≢◌, inr, true, false, none, some, [], ◌∷◌, All, if◌then◌else◌,
}
use page2web_mcp.Common.Text.{codes}
use page2web_mcp.Common.Decimal.{decimal}
use page2web_mcp.Security.Ipv4.{number, octets, is_blocked_ipv4, blocked_octets}
use page2web_mcp.Security.Ipv4.Networks.{address, is_blocked_address, blocked_octets_networks}
use page2web_mcp.Security.Ipv4.Print.{dotted, octets-dotted}
use page2web_mcp.Security.Ipv6.{parse_ipv6, is_blocked_ipv6}
use page2web_mcp.Security.Ipv6.Groups.{AreGroups, parse_ipv6-AreGroups}
use page2web_mcp.Security.Ipv6.Mapped.{is_blocked_ipv6-carrying}
use page2web_mcp.Security.Targets.{
  Url, Request, document, private_network_blocked, is_private_or_reserved_host,
  invalid_resolved_address, validate_resolved_address, validate_redirect_chain, allows_origin,
  decide,
}
use page2web_mcp.Security.Targets.Blocked.{validate_resolved_address-dotted}
use page2web_mcp.Security.Targets.Firewall.{Passes, validate_redirect_chain_lem, decide-public}
use page2web_mcp.Security.Evidence.{
  text, reference, array, entries, Heap, Fields, no_fields, field, clean_text, clean_array, item,
  no_items, redacted, redacted_cycle, sanitize_evidence,
}
use page2web_mcp.Security.Evidence.Safe.{AreSafeFields, sanitize_evidence-AreSafeFields}
use page2web_mcp.Security.Evidence.Size.{fields_size}
use page2web_mcp.Security.Evidence.Budget.{sanitize_evidence-le}

-- `Number` on parts that are no decimal digits.
number_hex : number (codes "0x7f") ≡ some 127
unfolding number
number_hex = refl

number_exponent : number (codes "127e0") ≡ some 127
unfolding number
number_exponent = refl

number_empty : number (codes " ") ≡ some 0
unfolding number
number_empty = refl

number_word : number (codes "local") ≡ none
unfolding number
number_word = refl

hex_loopback : is_blocked_ipv4 (codes "0x7f.0.0.1") ≡ true
unfolding is_blocked_ipv4
hex_loopback = refl

mapped_loopback : is_blocked_ipv6 (codes "[::ffff:7f00:1]") ≡ true
unfolding is_blocked_ipv6 decimal
mapped_loopback = refl

public_ipv6 : is_blocked_ipv6 (codes "2606:4700::1111") ≡ false
unfolding is_blocked_ipv6
public_ipv6 = refl

documentation_ipv6 : is_blocked_ipv6 (codes "2001:db8::1") ≡ true
unfolding is_blocked_ipv6
documentation_ipv6 = refl

below_localhost : is_private_or_reserved_host (codes "Api.LocalHost.") ≡ true
unfolding is_private_or_reserved_host
below_localhost = refl

octal_address : validate_resolved_address (codes "010.0.0.1") ≡ some invalid_resolved_address
unfolding validate_resolved_address
octal_address = refl

octets-dotted_example : octets (dotted 93 184 216 34) ≡ some (93, 184, 216, 34)
octets-dotted_example =
    octets-dotted 93 184 216 34 (omega arith) (omega arith) (omega arith) (omega arith)

blocked_octets_networks_example : blocked_octets 172 20 0 ≡ is_blocked_address (address 172 20 0 1)
blocked_octets_networks_example =
    blocked_octets_networks 172 20 0 1 (omega arith) (omega arith) (omega arith) (omega arith)

parse_ipv6-AreGroups_example : AreGroups (0x2001 ∷ 0xdb8 ∷ 0 ∷ 0 ∷ 0 ∷ 0 ∷ 0 ∷ 1 ∷ [])
unfolding parse_ipv6
parse_ipv6-AreGroups_example =
    parse_ipv6-AreGroups (codes "2001:db8::1") (0x2001 ∷ 0xdb8 ∷ 0 ∷ 0 ∷ 0 ∷ 0 ∷ 0 ∷ 1 ∷ []) refl

is_blocked_ipv6-carrying_example :
    is_blocked_ipv6 (codes "::ffff:5db8:d822") ≡ is_blocked_address (address 93 184 216 34)
unfolding parse_ipv6
is_blocked_ipv6-carrying_example =
    is_blocked_ipv6-carrying (codes "::ffff:5db8:d822") 65535 93 184 216 34 (inr refl) (omega arith)
      (omega arith) (omega arith) (omega arith) refl

validate_resolved_address-dotted_example :
    validate_resolved_address (dotted 10 1 2 3)
    ≡ (if is_blocked_address (address 10 1 2 3) then some private_network_blocked else none)
validate_resolved_address-dotted_example =
    validate_resolved_address-dotted 10 1 2 3 (omega arith) (omega arith) (omega arith)
      (omega arith)

abbrev site : Url
site = record {
  protocol = "https:";
  hostname = codes "93.184.216.34";
  username = [];
  password = [];
  origin = "https://93.184.216.34";
}

abbrev page_request : Request
page_request = record { method = "GET"; url = some site; kind = some document }

validate_redirect_chain_lem_example :
    (validate_redirect_chain (some site ∷ []) ≡ none)
    ↔ ((some site ∷ [] ≢ []) × All Passes (some site ∷ []))
validate_redirect_chain_lem_example = validate_redirect_chain_lem (some site ∷ [])

decide-public_example :
    (is_blocked_address (address 93 184 216 34) ≡ false)
    × (allows_origin ("https://93.184.216.34" ∷ []) site ≡ true)
unfolding decide dotted decimal
decide-public_example =
    decide-public ("https://93.184.216.34" ∷ []) page_request site 93 184 216 34 (omega arith)
      (omega arith) (omega arith) (omega arith) refl refl refl

-- An object with a password, a text that names a token, and an array that holds the object itself.
abbrev cyclic : Heap
cyclic ℕ.zero = entries (
    (codes "Password", text (codes "x"))
    ∷ (codes "note", text (codes "token: x"))
    ∷ (codes "list", reference 1)
    ∷ [])
cyclic (ℕ.suc n) = array (reference 0 ∷ text (codes "ok") ∷ [])

abbrev cleaned : Fields
cleaned = field (codes "Password") (clean_text redacted) (
    field (codes "note") (clean_text redacted) (
      field (codes "list")
        (clean_array (item (clean_text redacted_cycle) (item (clean_text (codes "ok")) no_items)))
        no_fields))

sanitize_cyclic : sanitize_evidence cyclic (reference 0) ≡ cleaned
unfolding sanitize_evidence
sanitize_cyclic = refl

sanitize_evidence-AreSafeFields_example : AreSafeFields (sanitize_evidence cyclic (reference 0))
sanitize_evidence-AreSafeFields_example = sanitize_evidence-AreSafeFields cyclic (reference 0)

sanitize_evidence-le_example : fields_size (sanitize_evidence cyclic (reference 0)) ≤ 35172
sanitize_evidence-le_example = sanitize_evidence-le cyclic (reference 0)
