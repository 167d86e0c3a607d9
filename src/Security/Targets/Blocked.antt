-- ===== src/Security/Targets/Blocked.antt =====
-- The host checks on the dotted decimal print of an IPv4 address
-- (packages/security/src/security.ts).
use page2web_mcp.Common.{
  ℕ, ◌<◌, ◌≡◌, refl, ◌∙◌, Bool, true, false, ◌||◌, not, none, some, List, [], ◌∷◌, ◌++◌, all, ◌==◌,
  if◌then◌else◌, arith,
}
use page2web_mcp.Common.Text.{is_digit}
use page2web_mcp.Common.Decimal.{decimal}
use page2web_mcp.Common.Pattern.{
  same_codes, ends, lower, onto_first, split-one, strip_trailing, strip_last,
}
use page2web_mcp.Security.Ipv4.{is_blocked_ipv4}
use page2web_mcp.Security.Ipv4.Networks.{address, is_blocked_address, blocked_octets_networks}
use page2web_mcp.Security.Ipv4.Print.{
  print, dotted, print_digits, split-dotted, all_below, all_below_lem, print_begins, has_first,
  is_blocked_ipv4-dotted,
}
use page2web_mcp.Security.Ipv6.{
  strip_brackets, split_pairs, parts_of, assemble, parse_ipv6, is_blocked_ipv6,
}
use page2web_mcp.Security.Targets.{
  localhost, private_network_blocked, is_canonical_octet, is_valid_ipv4, validate_resolved_address,
  is_reserved, is_private_or_reserved_host,
}

abbrev is_plain : ℕ → Bool
is_plain c = is_digit c || c == b'.'

all-append : (p : ℕ → Bool) (s t : List ℕ) → all p s ≡ true → all p t ≡ true → all p (s ++ t) ≡ true
all-append p [] t h k = k
all-append p (c ∷ s) t h k = ground (arith, all-append p s t)

digits_plain : (s : List ℕ) → all is_digit s ≡ true → all is_plain s ≡ true
digits_plain [] h = refl
digits_plain (c ∷ s) h = ground (arith, digits_plain s)

lower_plain : (s : List ℕ) → all is_plain s ≡ true → lower s ≡ s
unfolding lower
lower_plain [] h = refl
lower_plain (c ∷ s) h = ground (arith, lower_plain s)

strip_digits : (s : List ℕ) → all is_digit s ≡ true → strip_trailing b'.' s ≡ s
unfolding strip_trailing
strip_digits [] h = refl
strip_digits (c ∷ []) h = ground arith
strip_digits (c ∷ d ∷ s) h = rw (strip_digits (d ∷ s) (ground arith)) refl

strip-append :
    (s t : List ℕ)
    → has_first t ≡ true
    → strip_trailing b'.' t ≡ t
    → strip_trailing b'.' (s ++ t) ≡ s ++ t
unfolding strip_trailing
strip-append s [] f h = absurd (ground arith)
strip-append [] (c ∷ t) f h = h
strip-append (x ∷ []) (c ∷ t) f h = rw h refl
strip-append (x ∷ y ∷ s) (c ∷ t) f h = rw (strip-append (y ∷ s) (c ∷ t) f h) refl

begins-append : (s t : List ℕ) → has_first t ≡ true → has_first (s ++ t) ≡ true
begins-append [] t h = h
begins-append (x ∷ s) t h = refl

not_localhost : (s : List ℕ) → all is_plain s ≡ true → same_codes s localhost ≡ false
unfolding same_codes
not_localhost [] h = refl
not_localhost (c ∷ s) h = ground arith

not_dot_localhost : (s : List ℕ) → all is_plain s ≡ true → same_codes (b'.' ∷ localhost) s ≡ false
unfolding same_codes
not_dot_localhost [] h = refl
not_dot_localhost (c ∷ []) h = ground arith
not_dot_localhost (c ∷ d ∷ s) h = let e : (b'l' == d) ≡ false = ground arith in rw e (ground arith)

not_below_localhost : (s : List ℕ) → all is_plain s ≡ true → ends (b'.' ∷ localhost) s ≡ false
unfolding ends
not_below_localhost [] h = not_dot_localhost [] h
not_below_localhost (c ∷ s) h =
    rw (not_dot_localhost (c ∷ s) h) (not_below_localhost s (ground arith))

strip_last_plain : (s : List ℕ) → all is_plain s ≡ true → strip_last b']' s ≡ s
unfolding strip_last
strip_last_plain [] h = refl
strip_last_plain (c ∷ []) h = ground arith
strip_last_plain (c ∷ d ∷ s) h = rw (strip_last_plain (d ∷ s) (ground arith)) refl

pub strip_brackets_plain : (s : List ℕ) → all is_plain s ≡ true → strip_brackets s ≡ s
unfolding strip_brackets
strip_brackets_plain [] h = strip_last_plain [] refl
strip_brackets_plain (c ∷ s) h =
    let e : (c == b'[') ≡ false = ground arith in rw e (strip_last_plain (c ∷ s) h)

no_pair :
    (a b : ℕ) (cs : List ℕ)
    → (a == b':') ≡ false
    → split_pairs (a ∷ b ∷ cs) ≡ onto_first a (split_pairs (b ∷ cs))
unfolding split_pairs
no_pair a b cs e = ground arith

one_half : (s : List ℕ) → all is_plain s ≡ true → split_pairs s ≡ s ∷ []
unfolding split_pairs
one_half [] h = refl
one_half (c ∷ []) h = refl
one_half (c ∷ d ∷ s) h = rw (no_pair c d s (ground arith), one_half (d ∷ s) (ground arith)) refl

no_colon : (s : List ℕ) → all is_plain s ≡ true → all (λ c. not (c == b':')) s ≡ true
no_colon [] h = refl
no_colon (c ∷ s) h = ground (arith, no_colon s)

one_part : (s : List ℕ) → assemble true (s ∷ []) [] ≡ none
unfolding assemble
one_part s = ground arith

no_parts : assemble true [] [] ≡ none
unfolding assemble
no_parts = refl

parse_ipv6_plain : (s : List ℕ) → all is_plain s ≡ true → parse_ipv6 s ≡ none
unfolding parse_ipv6 parts_of
parse_ipv6_plain [] h = no_parts
parse_ipv6_plain (c ∷ s) h =
    rw
      (
        strip_brackets_plain (c ∷ s) h,
        one_half (c ∷ s) h,
        split-one b':' (c ∷ s) (no_colon (c ∷ s) h),
      )
      (one_part (c ∷ s))

is_blocked_ipv6_plain : (s : List ℕ) → all is_plain s ≡ true → is_blocked_ipv6 s ≡ false
unfolding is_blocked_ipv6
is_blocked_ipv6_plain s h = rw (parse_ipv6_plain s h, is_blocked_ipv6) refl

is_reserved_plain : (s : List ℕ) → all is_plain s ≡ true → is_reserved s ≡ is_blocked_ipv4 s
unfolding is_reserved
is_reserved_plain s h =
    rw (not_localhost s h, not_below_localhost s h, is_blocked_ipv6_plain s h) (ground arith)

module _ (a b c d : ℕ) (ha : a < 256) (hb : b < 256) (hc : c < 256) (hd : d < 256) where
  pub dotted_plain : all is_plain (dotted a b c d) ≡ true
  unfolding dotted
  dotted_plain =
      let plain = λ (n : ℕ) (h : n < 256). digits_plain (print n) (print_digits n h) in
      all-append is_plain (print a) _ (plain a ha) (
        all-append is_plain (print b) _ (plain b hb)
          (all-append is_plain (print c) _ (plain c hc) (plain d hd)))

  dotted_stripped : strip_trailing b'.' (dotted a b c d) ≡ dotted a b c d
  unfolding dotted
  dotted_stripped =
      let last = strip_digits (print d) (print_digits d hd) in
      let dot_d = strip-append (b'.' ∷ []) (print d) (print_begins d hd) last in
      let from_c = strip-append (print c) (b'.' ∷ print d) refl dot_d in
      let rest_c = print c ++ (b'.' ∷ print d) in
      let first_c = begins-append (print c) (b'.' ∷ print d) refl in
      let dot_c = strip-append (b'.' ∷ []) rest_c first_c from_c in
      let from_b = strip-append (print b) (b'.' ∷ rest_c) refl dot_c in
      let rest_b = print b ++ (b'.' ∷ rest_c) in
      let first_b = begins-append (print b) (b'.' ∷ rest_c) refl in
      let dot_b = strip-append (b'.' ∷ []) rest_b first_b from_b in
      strip-append (print a) (b'.' ∷ rest_b) refl dot_b

pub is_private_or_reserved_host-dotted :
    (a b c d : ℕ)
    → a < 256
    → b < 256
    → c < 256
    → d < 256
    → is_private_or_reserved_host (dotted a b c d) ≡ is_blocked_address (address a b c d)
unfolding is_private_or_reserved_host
is_private_or_reserved_host-dotted a b c d ha hb hc hd =
    rw
      (
        lower_plain (dotted a b c d) (dotted_plain a b c d ha hb hc hd),
        dotted_stripped a b c d ha hb hc hd,
      )
      (is_reserved_plain (dotted a b c d) (dotted_plain a b c d ha hb hc hd)
        ∙ is_blocked_ipv4-dotted a b c d ha hb hc hd
        ∙ blocked_octets_networks a b c d ha hb hc hd)

abbrev canonical : ℕ → Bool
unfolding is_canonical_octet print decimal
canonical n = is_canonical_octet (print n)

table : all_below canonical 256 ≡ true
unfolding canonical
table = refl

canonical-print : (n : ℕ) → n < 256 → is_canonical_octet (print n) ≡ true
unfolding canonical
canonical-print n h = all_below_lem canonical 256 n table h

is_valid_ipv4-dotted :
    (a b c d : ℕ) → a < 256 → b < 256 → c < 256 → d < 256 → is_valid_ipv4 (dotted a b c d) ≡ true
unfolding is_valid_ipv4
is_valid_ipv4-dotted a b c d ha hb hc hd =
    rw
      (
        split-dotted a b c d ha hb hc hd,
        canonical-print a ha,
        canonical-print b hb,
        canonical-print c hc,
        canonical-print d hd,
      )
      refl

-- An IPv4 address that a name resolved to is refused exactly if one of the blocked networks holds
-- it, and never as an address that is none.
pub validate_resolved_address-dotted :
    (a b c d : ℕ)
    → a < 256
    → b < 256
    → c < 256
    → d < 256
    → validate_resolved_address (dotted a b c d)
      ≡ (if is_blocked_address (address a b c d) then some private_network_blocked else none)
unfolding validate_resolved_address
validate_resolved_address-dotted a b c d ha hb hc hd =
    let plain = dotted_plain a b c d ha hb hc hd in
    rw
      (
        lower_plain (dotted a b c d) plain,
        strip_brackets_plain (dotted a b c d) plain,
        is_valid_ipv4-dotted a b c d ha hb hc hd,
        is_private_or_reserved_host-dotted a b c d ha hb hc hd,
      )
      refl
