-- ===== src/Security/Ipv6.antt =====
-- `parseIpv6`, the prefix table and `isBlockedIpv6` of packages/security/src/security.ts. A mask
-- with leading ones keeps the high bits of a group, so it is a division: `x & 0xfe00` is compared
-- through `x / 512`.
pub mod Groups
pub mod Mapped
use page2web_mcp.Common.{
  ℕ, ◌+◌, ◌-◌, ◌*◌, ◌/◌, ◌%◌, ◌^◌, Bool, true, false, ◌&&◌, ◌||◌, not, Option, none, some, List, [],
  ◌∷◌, ◌++◌, map, ltb, leb, ◌==◌, any, all, length, if◌then◌else◌, get_or,
}
use page2web_mcp.Common.Text.{is_hex, repeated}
use page2web_mcp.Common.Pattern.{split, lower_code, strip_first, strip_last, onto_first}
use page2web_mcp.Security.Ipv4.{digit_value, is_blocked_ipv4}
use page2web_mcp.Security.Ipv4.Print.{dotted}

-- `value.split("::")`
unfoldable pub split_pairs : List ℕ → List (List ℕ)
split_pairs [] = [] ∷ []
split_pairs (a ∷ []) = (a ∷ []) ∷ []
split_pairs (a ∷ b ∷ cs) = elim (a == b':' && b == b':') [
  | true ↦ [] ∷ split_pairs cs
  | false ↦ onto_first a (split_pairs (b ∷ cs))
]

-- `half ? half.split(":") : []`
unfoldable pub parts_of : List ℕ → List (List ℕ)
unfolding split
parts_of [] = []
parts_of (c ∷ cs) = split b':' (c ∷ cs)

-- `/^[0-9a-f]{1,4}$/i`
unfoldable pub is_group : List ℕ → Bool
unfolding repeated
is_group part = repeated (λ c. is_hex (lower_code c)) 1 4 part

-- `Number.parseInt(part, 16)` on hexadecimal digits.
unfoldable pub parse_hex : ℕ → List ℕ → ℕ
parse_hex value [] = value
parse_hex value (c ∷ cs) = parse_hex (value * 16 + get_or (digit_value c) 0) cs

unfoldable pub zeros : ℕ → List ℕ
zeros ℕ.zero = []
zeros (ℕ.suc n) = 0 ∷ zeros n

-- The groups on both sides of the omitted ones, of which there are `8 - given`. One half has none
-- to omit, two halves have at least one.
unfoldable pub assemble : Bool → List (List ℕ) → List (List ℕ) → Option (List ℕ)
unfolding is_group parse_hex zeros
assemble one_half left right =
    let given = length left + length right in
    if not (all is_group left && all is_group right)
    then none
    else if (if one_half then not (given == 8) else leb 8 given)
    then none
    else some (map (parse_hex 0) left ++ (zeros (8 - given) ++ map (parse_hex 0) right))

-- The halves that `::` parts.
abbrev pub assemble_halves : List (List ℕ) → Option (List ℕ)
assemble_halves [] = none
assemble_halves (l ∷ []) = assemble true (parts_of l) []
assemble_halves (l ∷ r ∷ []) = assemble false (parts_of l) (parts_of r)
assemble_halves (l ∷ r ∷ x ∷ xs) = none

-- `value.replace(/^\[|\]$/g, "")`
unfoldable pub strip_brackets : List ℕ → List ℕ
unfolding strip_last
strip_brackets host = strip_last b']' (strip_first b'[' host)

unfoldable pub parse_ipv6 : List ℕ → Option (List ℕ)
unfolding strip_brackets split_pairs assemble parts_of
parse_ipv6 host = assemble_halves (split_pairs (strip_brackets host))

pub record Prefix : Type 0 where
  pub parts : List ℕ
  pub length : ℕ

abbrev pub blocked_global_prefixes : List Prefix
blocked_global_prefixes =
    (record { parts = 0x2001 ∷ 0 ∷ []; length = 32 })
    ∷ (record { parts = 0x2001 ∷ 2 ∷ 0 ∷ []; length = 48 })
    ∷ (record { parts = 0x2001 ∷ 0x10 ∷ []; length = 28 })
    ∷ (record { parts = 0x2001 ∷ 0x20 ∷ []; length = 28 })
    ∷ (record { parts = 0x2001 ∷ 0x30 ∷ []; length = 28 })
    ∷ (record { parts = 0x2001 ∷ 0xdb8 ∷ []; length = 32 })
    ∷ (record { parts = 0x2002 ∷ []; length = 16 })
    ∷ (record { parts = 0x3fff ∷ 0 ∷ []; length = 20 })
    ∷ []

-- `xs[i]`, which is 0 in no case that the source reaches out of range.
abbrev pub at : ℕ → List ℕ → ℕ
at i [] = 0
at ℕ.zero (x ∷ xs) = x
at (ℕ.suc i) (x ∷ xs) = at i xs

-- The complete groups of a prefix, and then the leading bits of the next one.
unfoldable pub matches_bits : ℕ → ℕ → List ℕ → List ℕ → Bool
matches_bits ℕ.zero bits parts prefix =
    bits == 0 || (at 0 parts / 2 ^ (16 - bits)) == (at 0 prefix / 2 ^ (16 - bits))
matches_bits (ℕ.suc n) bits (x ∷ parts) (y ∷ prefix) = x == y && matches_bits n bits parts prefix
matches_bits (ℕ.suc n) bits _ _ = false

unfoldable pub matches_prefix : List ℕ → Prefix → Bool
unfolding matches_bits
matches_prefix parts p = matches_bits (p.length / 16) (p.length % 16) parts p.parts

-- `parts.slice(0, n).every((part) => part === 0)`
unfoldable pub zeros_before : ℕ → List ℕ → Bool
zeros_before ℕ.zero parts = true
zeros_before (ℕ.suc n) [] = true
zeros_before (ℕ.suc n) (x ∷ xs) = x == 0 && zeros_before n xs

-- The address in the last two groups.
unfoldable pub embedded : List ℕ → List ℕ
unfolding dotted
embedded parts = dotted (at 6 parts / 256) (at 6 parts % 256) (at 7 parts / 256) (at 7 parts % 256)

unfoldable pub is_blocked_groups : List ℕ → Bool
unfolding zeros_before matches_prefix is_blocked_ipv4 embedded
is_blocked_groups parts =
    if all (λ x. x == 0) parts || (zeros_before 7 parts && at 7 parts == 1)
    then true
    else if (at 0 parts / 512) == 126 || (at 0 parts / 64) == 1018 || (at 0 parts / 256) == 255
    then true
    else if (zeros_before 5 parts && at 5 parts == 0xffff) || zeros_before 6 parts
    then is_blocked_ipv4 (embedded parts)
    else not ((at 0 parts / 8192) == 1) || any (matches_prefix parts) blocked_global_prefixes

unfoldable pub is_blocked_ipv6 : List ℕ → Bool
unfolding parse_ipv6 is_blocked_groups
is_blocked_ipv6 host = elim (parse_ipv6 host) [
  | none ↦ false
  | some parts ↦ is_blocked_groups parts
]
