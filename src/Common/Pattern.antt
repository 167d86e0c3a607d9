-- ===== src/Common/Pattern.antt =====
-- The string methods that the program calls, over code points.
use Prim.Native.Nat.{ℕ, ◌+◌}
use mathlib.Core.Path.{◌≡◌, refl}
use mathlib.Core.Bool.{Bool, true, false, ◌&&◌, ◌||◌, not}
use mathlib.Core.List.{List, [], ◌∷◌, ◌++◌}
use native.Mathlib.Omega.{arith}
use page2web_mcp.Common.Tests.{◌==◌, if◌then◌else◌}
use page2web_mcp.Common.Lists.{all}
use page2web_mcp.Common.Text.{is_upper}

-- `a === b`
unfoldable pub same_codes : List ℕ → List ℕ → Bool
same_codes [] [] = true
same_codes (a ∷ xs) (b ∷ bs) = a == b && same_codes xs bs
same_codes _ _ = false

-- `s.startsWith(p)`
unfoldable pub starts : List ℕ → List ℕ → Bool
starts [] s = true
starts (p ∷ ps) [] = false
starts (p ∷ ps) (c ∷ cs) = p == c && starts ps cs

-- `s.endsWith(p)`
unfoldable pub ends : List ℕ → List ℕ → Bool
unfolding same_codes
ends p [] = same_codes p []
ends p (c ∷ cs) = same_codes p (c ∷ cs) || ends p cs

-- `s.includes(p)`
unfoldable pub contains : List ℕ → List ℕ → Bool
unfolding starts
contains p [] = starts p []
contains p (c ∷ cs) = starts p (c ∷ cs) || contains p cs

-- `s.toLowerCase()` on the letters of ASCII.
abbrev pub lower_code : ℕ → ℕ
lower_code c = if is_upper c then c + 32 else c

unfoldable pub lower : List ℕ → List ℕ
lower [] = []
lower (c ∷ cs) = lower_code c ∷ lower cs

-- Puts a code point before the first of the parts.
abbrev pub onto_first : ℕ → List (List ℕ) → List (List ℕ)
onto_first c [] = (c ∷ []) ∷ []
onto_first c (part ∷ parts) = (c ∷ part) ∷ parts

-- `s.split(c)` at a single code point.
unfoldable pub split : ℕ → List ℕ → List (List ℕ)
split at [] = [] ∷ []
split at (c ∷ cs) = let rest = split at cs in if c == at then [] ∷ rest else onto_first c rest

-- `s.replace(/^c/, "")`
abbrev pub strip_first : ℕ → List ℕ → List ℕ
strip_first at [] = []
strip_first at (c ∷ cs) = if c == at then cs else c ∷ cs

-- `s.replace(/c$/, "")`
unfoldable pub strip_last : ℕ → List ℕ → List ℕ
strip_last at [] = []
strip_last at (c ∷ []) = if c == at then [] else c ∷ []
strip_last at (c ∷ d ∷ cs) = c ∷ strip_last at (d ∷ cs)

-- `s.replace(/c+$/, "")`
unfoldable pub strip_trailing : ℕ → List ℕ → List ℕ
strip_trailing at [] = []
strip_trailing at (c ∷ cs) = elim (strip_trailing at cs) [
  | [] ↦ if c == at then [] else c ∷ []
  | d ∷ ds ↦ c ∷ d ∷ ds
]

-- A text without the separator is one part.
pub split-one : (at : ℕ) (s : List ℕ) → all (λ c. not (c == at)) s ≡ true → split at s ≡ s ∷ []
unfolding split
split-one at [] h = refl
split-one at (c ∷ cs) h = ground (arith, split-one at cs)

-- Splitting after a part that has no separator.
pub split-append :
    (at : ℕ) (s rest : List ℕ)
    → all (λ c. not (c == at)) s ≡ true
    → split at (s ++ (at ∷ rest)) ≡ s ∷ split at rest
unfolding split
split-append at [] rest h = ground arith
split-append at (c ∷ cs) rest h = ground (arith, split-append at cs rest)
