-- ===== src/Security/Ipv4.antt =====
-- `isBlockedIpv4` of packages/security/src/security.ts. A host name is its list of code points.
-- `Number` reads a decimal literal exactly here, where the source rounds it to a double: a literal
-- with a negative exponent that is no integer but is rounded to one, as `1e-400` to 0, is an octet
-- for the source and none here. What is no integer, or negative, is `none`.
pub mod Networks
pub mod Print
use page2web_mcp.Common.{
  ℕ, ◌+◌, ◌-◌, ◌*◌, ◌/◌, ◌%◌, ◌^◌, Bool, true, false, ◌&&◌, ◌||◌, Option, none, some, List, [], ◌∷◌,
  ltb, leb, ◌==◌, any, if◌then◌else◌,
}
use page2web_mcp.Common.Text.{is_digit, is_lower, is_upper}
use page2web_mcp.Common.Pattern.{split}

-- The white space and the line ends that `Number` trims.
abbrev pub is_space : ℕ → Bool
is_space c =
    (leb 9 c && leb c 13)
    || c == 32
    || c == 160
    || c == 0x1680
    || (leb 0x2000 c && leb c 0x200a)
    || c == 0x2028
    || c == 0x2029
    || c == 0x202f
    || c == 0x205f
    || c == 0x3000
    || c == 0xfeff

unfoldable pub trim_start : List ℕ → List ℕ
trim_start [] = []
trim_start (c ∷ cs) = let rest = trim_start cs in if is_space c then rest else c ∷ cs

unfoldable pub trim_end : List ℕ → List ℕ
trim_end [] = []
trim_end (c ∷ cs) = elim (trim_end cs) [
  | [] ↦ if is_space c then [] else c ∷ []
  | d ∷ ds ↦ c ∷ d ∷ ds
]

-- The value of a digit, of at most thirty-six.
abbrev pub digit_value : ℕ → Option ℕ
digit_value c =
    if is_digit c
    then some (c - 48)
    else if is_lower c
    then some (c - 87)
    else if is_upper c
    then some (c - 55)
    else none

-- The digits of a base, read onto the value of those before them.
unfoldable pub read_digits : ℕ → ℕ → List ℕ → Option ℕ
read_digits base value [] = some value
read_digits base value (c ∷ cs) = elim (digit_value c) [
  | none ↦ none
  | some v ↦ let rest = read_digits base (value * base + v) cs in if ltb v base then rest else none
]

-- At least one digit.
abbrev pub some_digits : ℕ → List ℕ → Option ℕ
some_digits base [] = none
some_digits base (c ∷ cs) = read_digits base 0 (c ∷ cs)

-- The exponent of ten that follows an `e`.
abbrev pub scale : ℕ → List ℕ → Option ℕ
scale m [] = none
scale m (c ∷ cs) =
    if c == b'-'
    then elim (some_digits 10 cs) [
      | none ↦ none
      | some e ↦ if m % 10 ^ e == 0 then some (m / 10 ^ e) else none
    ]
    else elim (some_digits 10 (if c == b'+' then cs else c ∷ cs)) [
      | none ↦ none
      | some e ↦ some (m * 10 ^ e)
    ]

abbrev pub unsigned : List ℕ → Option ℕ
unsigned s = elim (split b'e' s) [
  | [] ↦ none
  | m ∷ [] ↦ some_digits 10 m
  | m ∷ e ∷ [] ↦ elim (some_digits 10 m) [ none ↦ none | some v ↦ scale v e ]
  | m ∷ e ∷ x ∷ more ↦ none
]

-- `-0` is the integer 0, and every other negative number is refused.
abbrev pub signed : List ℕ → Option ℕ
signed [] = some 0
signed (c ∷ cs) =
    if c == b'-'
    then elim (unsigned cs) [ none ↦ none | some v ↦ if v == 0 then some 0 else none ]
    else unsigned (if c == b'+' then cs else c ∷ cs)

-- `0x`, `0o` and `0b` name a base, with no sign before them.
abbrev pub numeral : List ℕ → Option ℕ
numeral (a ∷ b ∷ cs) =
    if a == b'0' && b == b'x'
    then some_digits 16 cs
    else if a == b'0' && b == b'o'
    then some_digits 8 cs
    else if a == b'0' && b == b'b'
    then some_digits 2 cs
    else signed (a ∷ b ∷ cs)
numeral s = signed s

-- `Number(part)` on a part of a host name in lower case.
unfoldable pub number : List ℕ → Option ℕ
unfolding trim_start trim_end read_digits split
number s = numeral (trim_end (trim_start s))

-- `Number.isInteger(octet) && octet >= 0 && octet <= 255`
unfoldable pub octet : List ℕ → Option ℕ
unfolding number
octet s = elim (number s) [ none ↦ none | some n ↦ if leb n 255 then some n else none ]

abbrev pub Address : Type 0
Address = ℕ × ℕ × ℕ × ℕ

-- Four parts that are octets.
abbrev pub four : Option ℕ → Option ℕ → Option ℕ → Option ℕ → Option Address
four (some a) (some b) (some c) (some d) = some (a, b, c, d)
four _ _ _ _ = none

abbrev pub octets_of : List (List ℕ) → Option Address
octets_of (a ∷ b ∷ c ∷ d ∷ []) = four (octet a) (octet b) (octet c) (octet d)
octets_of _ = none

unfoldable pub octets : List ℕ → Option Address
unfolding octet split
octets host = octets_of (split b'.' host)

-- The addresses that the source blocks.
unfoldable pub blocked_octets : ℕ → ℕ → ℕ → Bool
blocked_octets first second third =
    first == 0
    || first == 10
    || (first == 100 && leb 64 second && leb second 127)
    || first == 127
    || (first == 169 && second == 254)
    || (first == 172 && leb 16 second && leb second 31)
    || (first == 192
        && (second == 168
            || (second == 0 && (third == 0 || third == 2))
            || (second == 88 && third == 99)))
    || (first == 198 && (second == 18 || second == 19 || (second == 51 && third == 100)))
    || (first == 203 && second == 0 && third == 113)
    || leb 224 first

unfoldable pub is_blocked_ipv4 : List ℕ → Bool
unfolding octets blocked_octets
is_blocked_ipv4 host = elim (octets host) [ none ↦ false | some x ↦ blocked_octets x.0 x.1 x.2 ]
