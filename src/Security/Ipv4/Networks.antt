-- ===== src/Security/Ipv4/Networks.antt =====
-- The blocked IPv4 addresses as networks in the notation of prefixes, against the comparisons of
-- octets in `isBlockedIpv4` (packages/security/src/security.ts).
use page2web_mcp.Common.{
  ℕ, ◌+◌, ◌*◌, ◌/◌, ◌<◌, ◌≡◌, refl, ap, Bool, false, ◌&&◌, ◌||◌, List, [], ◌∷◌, leb, ◌==◌, any,
  arith,
}
use page2web_mcp.Security.Ipv4.{blocked_octets}

-- A network: the bits of its prefix as a number, and how many addresses share them.
pub record Network : Type 0 where
  pub prefix : ℕ
  pub size : ℕ

abbrev pub address : ℕ → ℕ → ℕ → ℕ → ℕ
address a b c d = ((a * 256 + b) * 256 + c) * 256 + d

abbrev pub prefix8 : ℕ → Network
prefix8 a = record { prefix = a; size = 16777216 }

abbrev pub prefix16 : ℕ → ℕ → Network
prefix16 a b = record { prefix = a * 256 + b; size = 65536 }

abbrev pub prefix24 : ℕ → ℕ → ℕ → Network
prefix24 a b c = record { prefix = (a * 256 + b) * 256 + c; size = 256 }

-- 0/8, 10/8, 100.64/10, 127/8, 169.254/16, 172.16/12, 192.168/16, 192.0.0/24, 192.0.2/24,
-- 192.88.99/24, 198.18/15, 198.51.100/24, 203.0.113/24 and 224/3
abbrev pub blocked_networks : List Network
blocked_networks =
    prefix8 0
    ∷ prefix8 10
    ∷ (record { prefix = 401; size = 4194304 })
    ∷ prefix8 127
    ∷ prefix16 169 254
    ∷ (record { prefix = 2753; size = 1048576 })
    ∷ prefix16 192 168
    ∷ prefix24 192 0 0
    ∷ prefix24 192 0 2
    ∷ prefix24 192 88 99
    ∷ (record { prefix = 25353; size = 131072 })
    ∷ prefix24 198 51 100
    ∷ prefix24 203 0 113
    ∷ (record { prefix = 7; size = 536870912 })
    ∷ []

abbrev pub lies_in : ℕ → Network → Bool
lies_in x n = (x / n.size) == n.prefix

unfoldable pub is_blocked_address : ℕ → Bool
is_blocked_address x = any (lies_in x) blocked_networks

-- The prefixes of an address, by its octets.
module _ (a b c d : ℕ) (ha : a < 256) (hb : b < 256) (hc : c < 256) (hd : d < 256) where
  in8 : (p : ℕ) → lies_in (address a b c d) (prefix8 p) ≡ (a == p)
  in8 p = ap (λ (n : ℕ). n == p) (omega arith)

  in16 : (p q : ℕ) → q < 256 → lies_in (address a b c d) (prefix16 p q) ≡ (a == p && b == q)
  in16 p q hq = let e : address a b c d / 65536 ≡ a * 256 + b = omega arith in rw e (ground arith)

  in24 :
      (p q r : ℕ)
      → q < 256
      → r < 256
      → lies_in (address a b c d) (prefix24 p q r) ≡ (a == p && b == q && c == r)
  in24 p q r hq hr =
      let e : address a b c d / 256 ≡ (a * 256 + b) * 256 + c = omega arith in rw e (ground arith)

  in10 : ((address a b c d / 4194304) == 401) ≡ (a == 100 && leb 64 b && leb b 127)
  in10 = let e : address a b c d / 4194304 ≡ a * 4 + b / 64 = omega arith in rw e (ground arith)

  in12 : ((address a b c d / 1048576) == 2753) ≡ (a == 172 && leb 16 b && leb b 31)
  in12 = let e : address a b c d / 1048576 ≡ a * 16 + b / 16 = omega arith in rw e (ground arith)

  in15 : ((address a b c d / 131072) == 25353) ≡ (a == 198 && (b == 18 || b == 19))
  in15 = let e : address a b c d / 131072 ≡ a * 128 + b / 2 = omega arith in rw e (ground arith)

  in3 : ((address a b c d / 536870912) == 7) ≡ leb 224 a
  in3 = let e : address a b c d / 536870912 ≡ a / 32 = omega arith in rw e (ground arith)

gather4 :
    (x p q r s t u z : Bool)
    → ((x && p) || ((x && q && r) || ((x && q && s) || ((x && t && u) || z))))
      ≡ ((x && (p || (q && (r || s)) || (t && u))) || z)
gather4 x p q r s t u z = ground arith

gather2 :
    (x p q r s z : Bool)
    → ((x && (p || q)) || ((x && r && s) || z)) ≡ ((x && (p || q || (r && s))) || z)
gather2 x p q r s z = ground arith

or_assoc : (x y z : Bool) → (x || (y || z)) ≡ ((x || y) || z)
or_assoc x y z = ground arith

or_false : (x : Bool) → (x || false) ≡ x
or_false x = ground arith

-- The comparisons of octets in the source block an address exactly if one of the fourteen networks
-- holds it.
pub blocked_octets_networks :
    (a b c d : ℕ)
    → a < 256
    → b < 256
    → c < 256
    → d < 256
    → blocked_octets a b c ≡ is_blocked_address (address a b c d)
unfolding blocked_octets is_blocked_address
blocked_octets_networks a b c d ha hb hc hd =
    let at8 = in8 a b c d ha hb hc hd in
    let at16 = in16 a b c d ha hb hc hd in
    let at24 = in24 a b c d ha hb hc hd in
    let at10 = in10 a b c d ha hb hc hd in
    let at12 = in12 a b c d ha hb hc hd in
    let at15 = in15 a b c d ha hb hc hd in
    let at3 = in3 a b c d ha hb hc hd in
    rw
      (
        at8 0,
        at8 10,
        at10,
        at8 127,
        at16 169 254 (omega arith),
        at12,
        at16 192 168 (omega arith),
        at24 192 0 0 (omega arith) (omega arith),
        at24 192 0 2 (omega arith) (omega arith),
        at24 192 88 99 (omega arith) (omega arith),
        at15,
        at24 198 51 100 (omega arith) (omega arith),
        at24 203 0 113 (omega arith) (omega arith),
        at3,
        or_false (leb 224 a),
        gather2 (a == 198) (b == 18) (b == 19) (b == 51) (c == 100),
        gather4 (a == 192) (b == 168) (b == 0) (c == 0) (c == 2) (b == 88) (c == 99),
      )
      (simp or_assoc refl)
