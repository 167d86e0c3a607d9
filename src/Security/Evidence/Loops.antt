-- ===== src/Security/Evidence/Loops.antt =====
-- The loops of `sanitizeEvidence` over arrays and objects, and its budget
-- (packages/security/src/security.ts).
use page2web_mcp.Common.{
  ℕ, ◌+◌, ◌≤◌, ◌<◌, inl, inr, ◌||◌, List, [], ◌∷◌, ltb, leb, length, arith, Bool-cases, leb→lt,
  leb→le,
}
use page2web_mcp.Security.Evidence.Sensitive.{is_sensitive_key}
use page2web_mcp.Security.Evidence.{
  Text, Value, Counters, count_chars, max_items, max_output_chars, Child, sanitize_items,
  sanitize_field, sanitize_entries,
}
use page2web_mcp.Security.Evidence.Size.{
  size, items_size, fields_size, size_if_some, Fits, FitsChild, FitsResult, items_over,
  entries_over, with_field_size,
}

module _ (extra : ℕ) (child : Child) (fits : FitsChild extra child) where
  pub items-Fits :
      (vs : List Value) (s : Counters)
      → s.output_chars ≤ 35000
      → Fits
          (extra + 11)
          (items_size (sanitize_items child vs s).0)
          s.output_chars
          (sanitize_items child vs s).1.output_chars
  unfolding items_size size sanitize_items
  items-Fits [] s le = (omega arith, (λ a. omega arith), (λ a. omega arith))
  items-Fits (v ∷ vs) s le =
      let s' = record s { items = s.items + 1 } in
      let r = child v (count_chars 3 s') in
      elim (Bool-cases (ltb max_items (s.items + 1) || leb max_output_chars (s.output_chars + 3))) [
        | inl t ↦ rw t (omega arith, (λ a. omega arith), (λ a. omega arith))
        | inr t ↦
            let lt : s.output_chars + 3 < 35000 = ground arith in
            let here = fits v (count_chars 3 s') (omega arith) in
            elim (Bool-cases (leb r.1.output_chars 35000)) [
              | inl b ↦
                  let there = items-Fits vs r.1 (leb→le _ _ b) in
                  let first = here.1 (leb→le _ _ b) in
                  rw t (
                    omega (arith, there.0, here.0),
                    (λ a. omega (arith, there.1 a, first)),
                    (λ a. omega (arith, there.2 a, first)),
                  )
              | inr b ↦
                  let there = items_over child vs r.1 (leb→lt _ _ b) in
                  let first = here.2 (leb→lt _ _ b) in
                  rw t (
                    omega (arith, there.1, le),
                    (λ a. absurd (omega (arith, there.1, a))),
                    (λ a. omega (arith, there.0, first)),
                  )
            ]
      ]

  pub field-Fits :
      (key : Text) (v : Value) (s : Counters)
      → 19 ≤ extra
      → s.output_chars ≤ 35000
      → FitsResult extra s (sanitize_field child key v s)
  unfolding size size_if_some
  field-Fits key v s e le = elim (Bool-cases (is_sensitive_key key)) [
    | inl t ↦ rw t (omega arith, (λ a. omega arith), (λ a. omega arith))
    | inr t ↦ rw t (fits v s le)
  ]

  pub entries-Fits :
      (es : List (Text × Value)) (s : Counters)
      → 19 ≤ extra
      → s.output_chars ≤ 35000
      → Fits extra
          (size_if_some (sanitize_entries child es s).0)
          s.output_chars
          (sanitize_entries child es s).1.output_chars
  unfolding fields_size size size_if_some sanitize_entries
  entries-Fits [] s e le = (omega arith, (λ a. omega arith), (λ a. omega arith))
  entries-Fits ((key, v) ∷ es) s e le =
      let counted = record s {
        items = s.items + 1;
        output_chars = s.output_chars + (length key + 4);
      } in
      let r = sanitize_field child key v counted in
      let total = with_field_size key r.0 (sanitize_entries child es r.1).0 in
      elim (Bool-cases (ltb max_items (s.items + 1))) [
        | inl t ↦ rw t (omega arith, (λ a. omega arith), (λ a. omega arith))
        | inr t ↦ elim (Bool-cases (ltb max_output_chars counted.output_chars)) [
          | inl f ↦ rw (t, f) (omega arith, (λ a. omega arith), (λ a. omega arith))
          | inr f ↦
              let room : counted.output_chars ≤ 35000 = ground arith in
              let here = field-Fits key v counted e room in
              elim (Bool-cases (leb r.1.output_chars 35000)) [
                | inl b ↦
                    let there = entries-Fits es r.1 e (leb→le _ _ b) in
                    let first = here.1 (leb→le _ _ b) in
                    rw (t, f)
                      (
                        omega (arith, there.0, here.0),
                        (λ a. omega (arith, there.1 a, first, total)),
                        (λ a. omega (arith, there.2 a, first, total)),
                      )
                | inr b ↦
                    let there = entries_over child es r.1 (leb→lt _ _ b) in
                    let first = here.2 (leb→lt _ _ b) in
                    rw (t, f)
                      (
                        omega (arith, there.1, le),
                        (λ a. absurd (omega (arith, there.1, a))),
                        (λ a. omega (arith, there.0, first, total)),
                      )
              ]
        ]
      ]
