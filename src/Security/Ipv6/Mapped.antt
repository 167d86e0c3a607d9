-- ===== src/Security/Ipv6/Mapped.antt =====
-- IPv6 addresses that carry an IPv4 address (packages/security/src/security.ts).
use page2web_mcp.Common.{
  ℕ, ◌+◌, ◌*◌, ◌/◌, ◌%◌, ◌<◌, ◌≡◌, refl, ◌∙◌, ap, ◌⊎◌, inl, inr, false, some, List, [], ◌∷◌, ◌==◌,
  arith, Bool-cases,
}
use page2web_mcp.Security.Ipv4.{is_blocked_ipv4, blocked_octets}
use page2web_mcp.Security.Ipv4.Networks.{address, is_blocked_address, blocked_octets_networks}
use page2web_mcp.Security.Ipv4.Print.{dotted, is_blocked_ipv4-dotted}
use page2web_mcp.Security.Ipv6.{
  parse_ipv6, zeros_before, embedded, is_blocked_groups, is_blocked_ipv6,
}

-- The groups of an address that ends in four octets after a sixth group `s`.
abbrev pub carrying : ℕ → ℕ → ℕ → ℕ → ℕ → List ℕ
carrying s a b c d = 0 ∷ 0 ∷ 0 ∷ 0 ∷ 0 ∷ s ∷ (a * 256 + b) ∷ (c * 256 + d) ∷ []

-- The sixth group of an address that carries an IPv4 address
abbrev pub Carries : ℕ → Type 0
Carries s = (s ≡ 0) ⊎ (s ≡ 0xffff)

module _ (a b c d : ℕ) (ha : a < 256) (hb : b < 256) (hc : c < 256) (hd : d < 256) where
  embedded-carrying : (s : ℕ) → embedded (carrying s a b c d) ≡ dotted a b c d
  unfolding embedded
  embedded-carrying s =
      let e1 : (a * 256 + b) / 256 ≡ a = omega arith in
      let e2 : (a * 256 + b) % 256 ≡ b = omega arith in
      let e3 : (c * 256 + d) / 256 ≡ c = omega arith in
      let e4 : (c * 256 + d) % 256 ≡ d = omega arith in rw (e1, e2, e3, e4) refl

  -- The two addresses that are refused before the octets are read lie in 0/8.
  early : blocked_octets a b c ≡ false → ((a * 256 + b) == 0) ≡ false
  unfolding blocked_octets
  early h = ground arith

  groups_lem : (s : ℕ) → Carries s → is_blocked_groups (carrying s a b c d) ≡ blocked_octets a b c
  unfolding is_blocked_groups zeros_before
  groups_lem s h =
      let e =
        ap is_blocked_ipv4 (embedded-carrying s) ∙ is_blocked_ipv4-dotted a b c d ha hb hc hd in
      elim (Bool-cases (blocked_octets a b c)) [
        | inl t ↦ ground (arith, e, t)
        | inr t ↦ ground (arith, e, t, early t)
      ]

-- A text that `parse_ipv6` reads, which it does for groups in hexadecimal only, as an address that
-- carries an IPv4 address in its last two groups, after zeros or after zeros and the group `ffff`,
-- is blocked exactly if one of the blocked networks holds the IPv4 address. Nothing is said of a
-- text with the IPv4 address in dotted form, which `parse_ipv6` does not read.
pub is_blocked_ipv6-carrying :
    (host : List ℕ) (s a b c d : ℕ)
    → Carries s
    → a < 256
    → b < 256
    → c < 256
    → d < 256
    → parse_ipv6 host ≡ some (carrying s a b c d)
    → is_blocked_ipv6 host ≡ is_blocked_address (address a b c d)
unfolding is_blocked_ipv6
is_blocked_ipv6-carrying host s a b c d h ha hb hc hd e =
    rw (e, is_blocked_ipv6)
      (groups_lem a b c d ha hb hc hd s h ∙ blocked_octets_networks a b c d ha hb hc hd)
