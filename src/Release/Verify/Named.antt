-- ===== src/Release/Verify/Named.antt =====
-- Thirteen checks with thirteen names between them have each of the names
-- (packages/database/src/control-plane.ts).
use text.Mathlib.Text.{◌==◌ as str_eq}
use text.Mathlib.TextEquality.{eq_iff}
use text.Mathlib.TextPositions.{eq_refl}
use mathlib.Core.Bool.{true≢false}
use page2web_mcp.Common.{
  ℕ, ◌+◌, ◌≤◌, String, ◌≡◌, refl, sym, ◌∙◌, ap, inl, inr, Bool, true, false, ◌||◌, List, [], ◌∷◌,
  map, filter, length, arith, Bool-cases, All,
}
use page2web_mcp.Release.Types.{CheckRecord}
use page2web_mcp.Release.Checks.{includes, distinct_from, check_names, passed_names}

-- Each check passed, and has one of the names that is not among those before it.
abbrev pub AllPass : List String → List CheckRecord → Type 0
AllPass seen [] = Unit
AllPass seen (c ∷ cs) =
    (c.passed ≡ true)
    × (includes c.name check_names ≡ true)
    × (includes c.name seen ≡ false)
    × AllPass (c.name ∷ seen) cs

abbrev names : List CheckRecord → List String
names cs = map (λ c. c.name) cs

abbrev bit : Bool → ℕ
bit true = 1
bit false = 0

-- How many of the texts pass the test.
abbrev count : (String → Bool) → List String → ℕ
count p [] = 0
count p (x ∷ xs) = bit (p x) + count p xs

count-or :
    (p : String → Bool) (y : String) (xs : List String)
    → count p xs ≤ count (λ x. str_eq y x || p x) xs
count-or p y [] = omega arith
count-or p y (x ∷ xs) = ground (arith, count-or p y xs)

-- One more text is counted once it passes as well.
count-one :
    (p : String → Bool) (y : String) (xs : List String)
    → includes y xs ≡ true
    → p y ≡ false
    → count p xs + 1 ≤ count (λ x. str_eq y x || p x) xs
count-one p y [] h n = absurd (true≢false (sym h))
count-one p y (x ∷ xs) h n = elim (Bool-cases (str_eq x y)) [
  | inl e ↦
      let same : x ≡ y = (eq_iff x y).0 e in
      rw (same, eq_refl y, n) (let k = count-or p y xs in omega (arith, k))
  | inr e ↦ let k = count-one p y xs (rw e at h) n in ground (arith, k)
]

-- What is among the names of the checks was not seen before them.
unseen :
    (y : String) (seen : List String) (cs : List CheckRecord)
    → includes y seen ≡ true
    → AllPass seen cs
    → includes y (names cs) ≡ false
unseen y seen [] i h = refl
unseen y seen (c ∷ cs) i h = elim (Bool-cases (str_eq c.name y)) [
  | inl e ↦
      let same : c.name ≡ y = (eq_iff c.name y).0 e in
      absurd (true≢false (sym i ∙ ap (λ x. includes x seen) (sym same) ∙ h.2))
  | inr e ↦ rw e (unseen y (c.name ∷ seen) cs (rw i (ground arith)) h.3)
]

counted :
    (seen : List String) (cs : List CheckRecord)
    → AllPass seen cs
    → length cs ≤ count (λ x. includes x (names cs)) check_names
counted seen [] h = omega arith
counted seen (c ∷ cs) h =
    let rest = counted (c.name ∷ seen) cs h.3 in
    let new = unseen c.name (c.name ∷ seen) cs (rw (eq_refl c.name) refl) h.3 in
    let one = count-one (λ x. includes x (names cs)) c.name check_names h.1 new in
    omega (arith, rest, one)

count-le : (p : String → Bool) (xs : List String) → count p xs ≤ length xs
count-le p [] = omega arith
count-le p (x ∷ xs) = ground (arith, count-le p xs)

-- If as many pass as there are, each passes.
count-All :
    (p : String → Bool) (xs : List String) → length xs ≤ count p xs → All (λ x. p x ≡ true) xs
count-All p [] h = tt
count-All p (x ∷ xs) h =
    let most = count-le p xs in
    elim (Bool-cases (p x)) [
      | inl e ↦ (e, count-All p xs (ground (arith, h, e, most)))
      | inr e ↦ absurd (ground (arith, h, e, most))
    ]

-- The names of checks that all pass are the passed names.
passed_all :
    (seen : List String) (cs : List CheckRecord)
    → AllPass seen cs
    → distinct_from seen (map (λ c. c.name) (filter (λ c. c.passed) cs)) ≡ names cs
unfolding distinct_from
passed_all seen [] h = refl
passed_all seen (c ∷ cs) h =
    rw (h.0, h.2, distinct_from) (ap (λ xs. c.name ∷ xs) (passed_all (c.name ∷ seen) cs h.3))

length-names : (cs : List CheckRecord) → length (names cs) ≡ length cs
length-names [] = refl
length-names (c ∷ cs) = omega (arith, length-names cs)

-- What all texts of a list pass, one that is among them passes.
passes_among :
    (p : String → Bool) (xs : List String)
    → All (λ x. p x ≡ true) xs
    → (y : String) → includes y xs ≡ true
    → p y ≡ true
passes_among p [] h y i = absurd (true≢false (sym i))
passes_among p (x ∷ xs) h y i = elim (Bool-cases (str_eq x y)) [
  | inl e ↦ let same : x ≡ y = (eq_iff x y).0 e in rw (sym same) h.0
  | inr e ↦ passes_among p xs h.1 y (rw e at i)
]

-- Thirteen checks that pass have among them each of the thirteen names.
pub names_passed :
    (cs : List CheckRecord)
    → length cs ≡ 13
    → AllPass [] cs
    → ((y : String) → includes y check_names ≡ true → includes y (passed_names cs) ≡ true)
      × (length (passed_names cs) ≡ 13)
unfolding distinct_from
names_passed cs n h =
    let same = passed_all [] cs h in
    let enough = counted [] cs h in
    rw same (
      passes_among (λ x. includes x (names cs)) check_names
          (count-All (λ x. includes x (names cs)) check_names (omega (arith, n, enough))),
      length-names cs ∙ n,
    )
