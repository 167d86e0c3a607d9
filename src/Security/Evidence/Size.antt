-- ===== src/Security/Evidence/Size.antt =====
-- The size of a sanitized value, and the counter of characters of `sanitizeEvidence`
-- (packages/security/src/security.ts).
use page2web_mcp.Common.{
  ℕ, ◌+◌, ◌≤◌, ◌<◌, ◌≡◌, refl, inl, inr, true, ◌||◌, Option, none, some, List, [], ◌∷◌, ltb, leb,
  length, arith, Bool-cases, ltb→lt,
}
use page2web_mcp.Security.Evidence.{
  Text, Value, Clean, clean_text, clean_plain, clean_array, clean_fields, Items, no_items, item,
  Fields, no_fields, field, Counters, max_items, max_output_chars, marker, keep, Child,
  sanitize_items, with_field, sanitize_entries,
}

unfoldable mutual
  -- The characters of the texts, the other primitive values and the keys.
  pub size : Clean → ℕ
  size (clean_text t) = length t
  size (clean_plain t) = length t
  size (clean_array xs) = items_size xs
  size (clean_fields xs) = fields_size xs

  pub items_size : Items → ℕ
  items_size no_items = 0
  items_size (item c xs) = size c + items_size xs

  pub fields_size : Fields → ℕ
  fields_size no_fields = 0
  fields_size (field key c xs) = length key + size c + fields_size xs

unfoldable pub size_if_some : Option Fields → ℕ
unfolding fields_size
size_if_some none = 0
size_if_some (some xs) = fields_size xs

-- An output of `n` characters between two values of the counter: within the budget it is counted,
-- and past the budget it exceeds what was left by at most `extra`.
abbrev pub Fits : ℕ → ℕ → ℕ → ℕ → Type 0
Fits extra n before after =
    (before ≤ after)
    × (after ≤ 35000 → n + before ≤ after)
    × (35000 < after → n + before ≤ 35000 + extra)

abbrev pub FitsChild : ℕ → Child → Type 0
FitsChild extra child =
    (v : Value) (s : Counters)
    → s.output_chars ≤ 35000
    → Fits extra (size (child v s).0) s.output_chars (child v s).1.output_chars

abbrev pub FitsResult : ℕ → Counters → Clean × Counters → Type 0
FitsResult extra s r = Fits extra (size r.0) s.output_chars r.1.output_chars

pub marker-Fits :
    (extra : ℕ) (t : Text) (s : Counters)
    → length t ≤ extra
    → s.output_chars ≤ 35000
    → FitsResult extra s (marker t s)
unfolding size size_if_some
marker-Fits extra t s h le = (omega arith, (λ a. omega arith), (λ a. omega arith))

pub keep-Fits :
    (extra : ℕ) (c : Clean) (n : ℕ) (s : Counters)
    → size c ≡ n
    → 11 ≤ extra
    → s.output_chars ≤ 35000
    → FitsResult extra s (keep c n s)
unfolding size size_if_some
keep-Fits extra c n s h e le = elim (Bool-cases (ltb max_output_chars (s.output_chars + n))) [
  | inl t ↦
      let lt = ltb→lt max_output_chars (s.output_chars + n) t in
      rw t (omega arith, (λ a. omega arith), (λ a. omega arith))
  | inr t ↦ rw t (omega arith, (λ a. omega arith), (λ a. ground arith))
]

-- The two loops past the budget.
pub items_over :
    (child : Child) (vs : List Value) (s : Counters)
    → 35000 < s.output_chars
    → (items_size (sanitize_items child vs s).0 ≤ 11)
      × (35000 < (sanitize_items child vs s).1.output_chars)
unfolding items_size size sanitize_items
items_over child [] s over = (omega arith, over)
items_over child (v ∷ vs) s over =
    let t : (ltb max_items (s.items + 1) || leb max_output_chars (s.output_chars + 3)) ≡ true =
      ground arith in
    rw t (omega arith, omega arith)

pub entries_over :
    (child : Child) (es : List (Text × Value)) (s : Counters)
    → 35000 < s.output_chars
    → (size_if_some (sanitize_entries child es s).0 ≡ 0)
      × (35000 < (sanitize_entries child es s).1.output_chars)
unfolding fields_size size_if_some sanitize_entries
entries_over child [] s over = (refl, over)
entries_over child ((key, v) ∷ es) s over = elim (Bool-cases (ltb max_items (s.items + 1))) [
  | inl t ↦ rw t (refl, over)
  | inr t ↦
      let f : ltb max_output_chars (s.output_chars + (length key + 4)) ≡ true = ground arith in
      rw (t, f) (refl, omega arith)
]

pub with_field_size :
    (key : Text) (c : Clean) (o : Option Fields)
    → size_if_some (with_field key c o) ≤ length key + size c + size_if_some o
unfolding fields_size size size_if_some
with_field_size key c none = omega arith
with_field_size key c (some xs) = omega arith
