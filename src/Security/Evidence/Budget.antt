-- ===== src/Security/Evidence/Budget.antt =====
-- The size of the output of `sanitizeEvidence` (packages/security/src/security.ts).
use page2web_mcp.Common.{
  ℕ, zero, suc, ◌+◌, ◌≤◌, ◌<◌, refl, inl, inr, Option, none, some, ◌∷◌, ltb, leb, length, arith,
  Bool-cases, any, ◌==◌, leb→lt, leb→le,
}
use page2web_mcp.Security.Evidence.Sensitive.{is_sensitive_value}
use page2web_mcp.Security.Evidence.{
  Value, text, unsupported, plain, reference, HeapObject, array, entries, Heap, Clean, clean_text,
  clean_plain, clean_array, clean_fields, Fields, Counters, count_chars, max_nodes,
  max_output_chars, shorten, Child, sanitize_entries, close_fields, sanitize_object, sanitize_value,
  sanitize, no_counters, levels, as_record, evidence_of, sanitize_evidence,
}
use page2web_mcp.Security.Evidence.Size.{
  size, fields_size, size_if_some, Fits, FitsChild, FitsResult, keep-Fits, items_over, entries_over,
}
use page2web_mcp.Security.Evidence.Loops.{items-Fits, entries-Fits}

close-Fits :
    (extra before : ℕ) (o : Option Fields) (s : Counters)
    → 19 ≤ extra
    → before ≤ 35000
    → Fits extra (size_if_some o) before s.output_chars
    → Fits extra (size (close_fields o s).0) before (close_fields o s).1.output_chars
unfolding size fields_size size_if_some
close-Fits extra before none s e le h =
    (omega (arith, h.0), (λ a. omega (arith, h.0)), (λ a. omega arith))
close-Fits extra before (some xs) s e le h = h

module _ (extra : ℕ) (child : Child) (fits : FitsChild extra child) (e : 19 ≤ extra) where
  object-Fits :
      (o : HeapObject) (s : Counters)
      → s.output_chars < 35000
      → FitsResult (extra + 11) s (sanitize_object child o s)
  unfolding size size_if_some
  object-Fits (array vs) s lt = elim (Bool-cases (leb (s.output_chars + 2) 35000)) [
    | inl b ↦
        let h = items-Fits extra child fits vs (count_chars 2 s) (leb→le _ _ b) in
        (omega (arith, h.0), (λ a. omega (arith, h.1 a)), (λ a. omega (arith, h.2 a)))
    | inr b ↦
        let h = items_over child vs (count_chars 2 s) (leb→lt _ _ b) in
        (omega (arith, h.1), (λ a. absurd (omega (arith, h.1, a))), (λ a. omega (arith, h.0)))
  ]
  object-Fits (entries es) s lt =
      let r = sanitize_entries child es (count_chars 2 s) in
      let close = close-Fits (extra + 11) s.output_chars r.0 r.1 (omega arith) (omega arith) in
      elim (Bool-cases (leb (s.output_chars + 2) 35000)) [
        | inl b ↦
            let h = entries-Fits extra child fits es (count_chars 2 s) e (leb→le _ _ b) in
            close (omega (arith, h.0), (λ a. omega (arith, h.1 a)), (λ a. omega (arith, h.2 a)))
        | inr b ↦
            let h = entries_over child es (count_chars 2 s) (leb→lt _ _ b) in
            close
              (omega (arith, h.1), (λ a. absurd (omega (arith, h.1, a))), (λ a. omega (arith, h.0)))
      ]

  value-Fits :
      (heap : Heap) (v : Value) (s : Counters)
      → s.output_chars < 35000
      → FitsResult (extra + 11) s (sanitize_value child heap v s)
  unfolding size size_if_some
  value-Fits heap (text t) s lt = elim (Bool-cases (is_sensitive_value t)) [
    | inl f ↦ rw f (omega arith, (λ a. omega arith), (λ a. omega arith))
    | inr f ↦ rw f (
        keep-Fits (extra + 11) (clean_text (shorten t)) (length (shorten t)) s refl (omega arith)
          (omega arith))
  ]
  value-Fits heap unsupported s lt = (omega arith, (λ a. omega arith), (λ a. omega arith))
  value-Fits heap (plain t) s lt =
      keep-Fits (extra + 11) (clean_plain t) (length t) s refl (omega arith) (omega arith)
  value-Fits heap (reference r) s lt =
      let visited = record s { nodes = s.nodes + 1; seen = r ∷ s.seen } in
      elim (Bool-cases (any (λ x. x == r) s.seen)) [
        | inl f ↦ rw f (omega arith, (λ a. omega arith), (λ a. omega arith))
        | inr f ↦ elim (Bool-cases (ltb max_nodes (s.nodes + 1))) [
          | inl g ↦ rw (f, g) (omega arith, (λ a. omega arith), (λ a. omega arith))
          | inr g ↦ rw (f, g) (object-Fits (heap r) visited lt)
        ]
      ]

-- What a value may exceed the budget by, with this many levels left.
abbrev slack : ℕ → ℕ
slack zero = 19
slack (suc left) = slack left + 11

slack-le : (left : ℕ) → 19 ≤ slack left
slack-le zero = omega arith
slack-le (suc left) = omega (arith, slack-le left)

sanitize-Fits : (heap : Heap) (left : ℕ) → FitsChild (slack left) (sanitize heap left)
unfolding sanitize size
sanitize-Fits heap zero v s le = elim (Bool-cases (leb max_output_chars s.output_chars)) [
  | inl b ↦ rw b (omega arith, (λ a. omega arith), (λ a. omega arith))
  | inr b ↦ rw b (omega arith, (λ a. omega arith), (λ a. omega arith))
]
sanitize-Fits heap (suc left) v s le = elim (Bool-cases (leb max_output_chars s.output_chars)) [
  | inl b ↦
      let low = slack-le left in rw b (omega arith, (λ a. omega arith), (λ a. omega (arith, low)))
  | inr b ↦ rw b (
      value-Fits (slack left) (sanitize heap left) (sanitize-Fits heap left) (slack-le left) heap v
        s (leb→lt _ _ b))
]

as_record_size : (c : Clean) → fields_size (as_record c) ≤ size c + 10
unfolding size fields_size
as_record_size (clean_text t) = omega arith
as_record_size (clean_plain t) = omega arith
as_record_size (clean_array xs) = omega arith
as_record_size (clean_fields xs) = omega arith

top_size : (heap : Heap) (r : ℕ) → size (sanitize heap levels (reference r) no_counters).0 ≤ 35162
top_size heap r =
    let out = sanitize heap levels (reference r) no_counters in
    let h = sanitize-Fits heap levels (reference r) no_counters (omega arith) in
    elim (Bool-cases (leb out.1.output_chars 35000)) [
      | inl b ↦ omega (arith, h.1 (leb→le _ _ b), leb→le _ _ b)
      | inr b ↦ omega (arith, h.2 (leb→lt _ _ b))
    ]

evidence_size : (heap : Heap) (r : ℕ) (o : HeapObject) → fields_size (evidence_of heap r o) ≤ 35172
unfolding fields_size
evidence_size heap r (array vs) = omega arith
evidence_size heap r (entries es) =
    omega
      (arith, as_record_size (sanitize heap levels (reference r) no_counters).0, top_size heap r)

-- The texts, keys and other primitive values of sanitized evidence have at most 35,172 characters
-- together: the budget of 35,000, one marker for each of the 13 levels and for the value inside,
-- and the key of a truncated record. This holds for every heap and every length of its texts.
pub sanitize_evidence-le :
    (heap : Heap) (v : Value) → fields_size (sanitize_evidence heap v) ≤ 35172
unfolding sanitize_evidence fields_size
sanitize_evidence-le heap (text t) = omega arith
sanitize_evidence-le heap unsupported = omega arith
sanitize_evidence-le heap (plain t) = omega arith
sanitize_evidence-le heap (reference r) = evidence_size heap r (heap r)
