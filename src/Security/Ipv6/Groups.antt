-- ===== src/Security/Ipv6/Groups.antt =====
-- The groups that `parseIpv6` returns (packages/security/src/security.ts).
use page2web_mcp.Common.{
  ℕ, zero, suc, ◌+◌, ◌-◌, ◌<◌, ◌≤◌, ◌≡◌, refl, ap, Bool, true, false, some, List, [], ◌∷◌, ◌++◌,
  map, length, length-append, all, All, All-append, arith, get_or, none≢some, some_inj, subst,
}
use page2web_mcp.Common.Text.{is_hex, repeated}
use page2web_mcp.Common.Pattern.{lower_code}
use page2web_mcp.Security.Ipv4.{digit_value}
use page2web_mcp.Security.Ipv6.{
  is_group, parse_hex, zeros, parts_of, assemble, assemble_halves, strip_brackets, split_pairs,
  parse_ipv6,
}

abbrev hex : ℕ → ℕ
hex c = get_or (digit_value c) 0

hex-lt : (c : ℕ) → is_hex (lower_code c) ≡ true → hex c < 16
hex-lt c h = ground arith

parse_hex-lt : (part : List ℕ) → is_group part ≡ true → parse_hex 0 part < 65536
unfolding is_group parse_hex repeated
parse_hex-lt [] h = ground arith
parse_hex-lt (a ∷ []) h = omega (arith, hex-lt a (ground arith))
parse_hex-lt (a ∷ b ∷ []) h = omega (arith, hex-lt a (ground arith), hex-lt b (ground arith))
parse_hex-lt (a ∷ b ∷ c ∷ []) h =
    omega (arith, hex-lt a (ground arith), hex-lt b (ground arith), hex-lt c (ground arith))
parse_hex-lt (a ∷ b ∷ c ∷ d ∷ []) h = omega (
  arith,
  hex-lt a (ground arith),
  hex-lt b (ground arith),
  hex-lt c (ground arith),
  hex-lt d (ground arith),
)
parse_hex-lt (a ∷ b ∷ c ∷ d ∷ e ∷ more) h = absurd (ground arith)

abbrev pub IsGroup : ℕ → Type 0
IsGroup x = x < 65536

-- Eight groups of sixteen bits.
abbrev pub AreGroups : List ℕ → Type 0
AreGroups parts = (length parts ≡ 8) × All IsGroup parts

groups_of :
    (parts : List (List ℕ)) → all is_group parts ≡ true → All IsGroup (map (parse_hex 0) parts)
groups_of [] h = tt
groups_of (part ∷ parts) h = (parse_hex-lt part (ground arith), groups_of parts (ground arith))

zeros_groups : (n : ℕ) → All IsGroup (zeros n)
unfolding zeros
zeros_groups zero = tt
zeros_groups (suc n) = (omega arith, zeros_groups n)

length-zeros : (n : ℕ) → length (zeros n) ≡ n
unfolding zeros
length-zeros zero = refl
length-zeros (suc n) = ap suc (length-zeros n)

length-map : {A B : Type 0} (f : A → B) (xs : List A) → length (map f xs) ≡ length xs
length-map f [] = refl
length-map f (x ∷ xs) = ap suc (length-map f xs)

module _ (left right : List (List ℕ)) where
  abbrev assembled : List ℕ
  assembled =
      map (parse_hex 0) left
      ++ (zeros (8 - (length left + length right)) ++ map (parse_hex 0) right)

  length_assembled : length left + length right ≤ 8 → length assembled ≡ 8
  length_assembled h =
      rw
        (
          length-append (map (parse_hex 0) left)
              (zeros (8 - (length left + length right)) ++ map (parse_hex 0) right),
          length-append (zeros (8 - (length left + length right))) (map (parse_hex 0) right),
          length-zeros,
          length-map (parse_hex 0) left,
          length-map (parse_hex 0) right,
        )
        (omega arith)

  all_groups : all is_group left ≡ true → all is_group right ≡ true → All IsGroup assembled
  all_groups l r =
      All-append IsGroup (map (parse_hex 0) left)
        (zeros (8 - (length left + length right)) ++ map (parse_hex 0) right) (groups_of left l)
        (All-append IsGroup (zeros (8 - (length left + length right))) (map (parse_hex 0) right)
          (zeros_groups (8 - (length left + length right))) (groups_of right r))

assemble-AreGroups :
    (one_half : Bool) (left right : List (List ℕ)) {parts : List ℕ}
    → assemble one_half left right ≡ some parts
    → AreGroups parts
unfolding assemble
assemble-AreGroups one_half left right {parts} e =
    let facts : (length left + length right ≤ 8)
        × (all is_group left ≡ true)
        × (all is_group right ≡ true)
        × (some (assembled left right) ≡ some parts) =
      ground arith in
    subst AreGroups (some_inj facts.3)
      (length_assembled left right facts.0, all_groups left right facts.1 facts.2)

assemble_halves-AreGroups :
    (halves : List (List ℕ)) {parts : List ℕ}
    → assemble_halves halves ≡ some parts
    → AreGroups parts
assemble_halves-AreGroups [] e = absurd (none≢some e)
assemble_halves-AreGroups (l ∷ []) e = assemble-AreGroups true (parts_of l) [] e
assemble_halves-AreGroups (l ∷ r ∷ []) e = assemble-AreGroups false (parts_of l) (parts_of r) e
assemble_halves-AreGroups (l ∷ r ∷ x ∷ xs) e = absurd (none≢some e)

-- A host name that `parseIpv6` accepts gives exactly eight groups, each below 2^16: no access to a
-- group is out of range.
pub parse_ipv6-AreGroups :
    (host : List ℕ) (parts : List ℕ) → parse_ipv6 host ≡ some parts → AreGroups parts
unfolding parse_ipv6
parse_ipv6-AreGroups host parts e = assemble_halves-AreGroups (split_pairs (strip_brackets host)) e
