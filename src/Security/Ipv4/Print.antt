-- ===== src/Security/Ipv4/Print.antt =====
-- The dotted decimal print of an address, and `isBlockedIpv4` on it
-- (packages/security/src/security.ts).
use page2web_mcp.Common.{
  ℕ, zero, suc, ◌<◌, ◌≡◌, refl, ap, inl, inr, Bool, true, false, ◌&&◌, not, Option, none, some,
  List, [], ◌∷◌, ◌++◌, ◌==◌, all, arith, some_and, Bool-cases,
}
use page2web_mcp.Common.Text.{codes, is_digit}
use page2web_mcp.Common.Decimal.{decimal}
use page2web_mcp.Common.Pattern.{split, split-one, split-append}
use page2web_mcp.Security.Ipv4.{octet, octets, blocked_octets, is_blocked_ipv4}

-- `${n}`
unfoldable pub print : ℕ → List ℕ
print n = codes (decimal n)

-- `${a}.${b}.${c}.${d}`
unfoldable pub dotted : ℕ → ℕ → ℕ → ℕ → List ℕ
unfolding print
dotted a b c d = print a ++ (b'.' ∷ print b ++ (b'.' ∷ print c ++ (b'.' ∷ print d)))

abbrev pub has_first : List ℕ → Bool
has_first [] = false
has_first (c ∷ cs) = true

-- A print is read back, starts with a digit, and has digits only.
abbrev reads_back : ℕ → Bool
unfolding octet print decimal
reads_back n =
    some_and (octet (print n)) (λ m. m == n)
    && all is_digit (print n)
    && all (λ c. not (c == b'.')) (print n)
    && has_first (print n)

abbrev pub all_below : (ℕ → Bool) → ℕ → Bool
all_below p zero = true
all_below p (suc n) = p n && all_below p n

pub all_below_lem : (p : ℕ → Bool) (m n : ℕ) → all_below p m ≡ true → n < m → p n ≡ true
all_below_lem p zero n h lt = absurd (omega arith)
all_below_lem p (suc m) n h lt = elim (Bool-cases (n == m)) [
  | inl e ↦ let q : n ≡ m = ground arith in rw q (ground arith)
  | inr e ↦ all_below_lem p m n (ground arith) (ground arith)
]

table : all_below reads_back 256 ≡ true
unfolding reads_back
table = refl

reads_back_lem : (n : ℕ) → n < 256 → reads_back n ≡ true
reads_back_lem n h = all_below_lem reads_back 256 n table h

some_and_eq : (o : Option ℕ) (n : ℕ) → some_and o (λ m. m == n) ≡ true → o ≡ some n
some_and_eq none n h = ground arith
some_and_eq (some m) n h = ap some (ground arith)

pub print_begins : (n : ℕ) → n < 256 → has_first (print n) ≡ true
unfolding reads_back
print_begins n h = ground (arith, reads_back_lem n h)

pub octet-print : (n : ℕ) → n < 256 → octet (print n) ≡ some n
unfolding reads_back
octet-print n h = some_and_eq (octet (print n)) n (ground (arith, reads_back_lem n h))

pub print_digits : (n : ℕ) → n < 256 → all is_digit (print n) ≡ true
unfolding reads_back
print_digits n h = ground (arith, reads_back_lem n h)

print_no_dot : (n : ℕ) → n < 256 → all (λ c. not (c == b'.')) (print n) ≡ true
unfolding reads_back
print_no_dot n h = ground (arith, reads_back_lem n h)

pub split-dotted :
    (a b c d : ℕ)
    → a < 256
    → b < 256
    → c < 256
    → d < 256
    → split b'.' (dotted a b c d) ≡ print a ∷ print b ∷ print c ∷ print d ∷ []
unfolding dotted
split-dotted a b c d ha hb hc hd =
    rw
      (
        split-append b'.' (print a) (print b ++ (b'.' ∷ print c ++ (b'.' ∷ print d)))
            (print_no_dot a ha),
        split-append b'.' (print b) (print c ++ (b'.' ∷ print d)) (print_no_dot b hb),
        split-append b'.' (print c) (print d) (print_no_dot c hc),
        split-one b'.' (print d) (print_no_dot d hd),
      )
      refl

-- The dotted decimal print of four octets is read back as these octets.
pub octets-dotted :
    (a b c d : ℕ)
    → a < 256
    → b < 256
    → c < 256
    → d < 256
    → octets (dotted a b c d) ≡ some (a, b, c, d)
unfolding octets
octets-dotted a b c d ha hb hc hd =
    rw
      (
        split-dotted a b c d ha hb hc hd,
        octet-print a ha,
        octet-print b hb,
        octet-print c hc,
        octet-print d hd,
      )
      refl

pub is_blocked_ipv4-dotted :
    (a b c d : ℕ)
    → a < 256
    → b < 256
    → c < 256
    → d < 256
    → is_blocked_ipv4 (dotted a b c d) ≡ blocked_octets a b c
unfolding is_blocked_ipv4
is_blocked_ipv4-dotted a b c d ha hb hc hd =
    rw (octets-dotted a b c d ha hb hc hd, is_blocked_ipv4) refl
