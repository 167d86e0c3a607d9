-- ===== src/Security/Evidence/Safe.antt =====
-- What stands in the output of `sanitizeEvidence` (packages/security/src/security.ts).
use mathlib.Core.Bool.{true≢false}
use page2web_mcp.Common.{
  ℕ, zero, suc, ◌+◌, ◌≡◌, refl, sym, inl, inr, true, false, ◌||◌, Option, none, some, List, [], ◌∷◌,
  ltb, leb, length, Bool-cases, any, ◌==◌,
}
use page2web_mcp.Security.Evidence.Sensitive.{is_sensitive_key, is_sensitive_value}
use page2web_mcp.Security.Evidence.{
  Text, Value, text, unsupported, plain, reference, HeapObject, array, entries, Heap, Clean,
  clean_text, clean_plain, clean_array, clean_fields, Items, no_items, item, Fields, no_fields,
  field, Counters, count_chars, max_nodes, max_items, max_output_chars, truncated, redacted,
  redacted_depth, redacted_cycle, unsupported_value, shorten, keep, Child, sanitize_text,
  sanitize_items, with_field, sanitize_field, sanitize_entries, close_fields, sanitize_object,
  sanitize_value, sanitize, no_counters, levels, as_record, evidence_of, sanitize_evidence,
}

-- A marker, or a text of the input, shortened, that `sensitiveValue` does not match.
pub data IsSafeText : Text → Type 0 where
  is_truncated : IsSafeText truncated
  is_redacted : IsSafeText redacted
  is_redacted_depth : IsSafeText redacted_depth
  is_redacted_cycle : IsSafeText redacted_cycle
  is_unsupported : IsSafeText unsupported_value
  is_shortened : (t : Text) → is_sensitive_value t ≡ false → IsSafeText (shorten t)

unfoldable mutual
  -- A value whose texts are safe, where no field that `sensitiveKey` matches shows its value.
  pub IsSafe : Clean → Type 0
  IsSafe (clean_text t) = IsSafeText t
  IsSafe (clean_plain t) = Unit
  IsSafe (clean_array xs) = AreSafe xs
  IsSafe (clean_fields xs) = AreSafeFields xs

  pub AreSafe : Items → Type 0
  AreSafe no_items = Unit
  AreSafe (item c xs) = IsSafe c × AreSafe xs

  pub AreSafeFields : Fields → Type 0
  AreSafeFields no_fields = Unit
  AreSafeFields (field key c xs) =
      (is_sensitive_key key ≡ true → c ≡ clean_text redacted) × IsSafe c × AreSafeFields xs

abbrev IsSafeChild : Child → Type 0
unfolding IsSafe
IsSafeChild child = (v : Value) (s : Counters) → IsSafe (child v s).0

abbrev AreSafeIfSome : Option Fields → Type 0
unfolding AreSafeFields
AreSafeIfSome none = Unit
AreSafeIfSome (some xs) = AreSafeFields xs

with_field_safe :
    (key : Text) (c : Clean) (o : Option Fields)
    → (is_sensitive_key key ≡ true → c ≡ clean_text redacted)
    → IsSafe c
    → AreSafeIfSome o
    → AreSafeIfSome (with_field key c o)
unfolding AreSafeFields
with_field_safe key c none h k m = tt
with_field_safe key c (some xs) h k m = (h, k, m)

close-IsSafe : (o : Option Fields) (s : Counters) → AreSafeIfSome o → IsSafe (close_fields o s).0
unfolding IsSafe
close-IsSafe none s h = is_truncated
close-IsSafe (some xs) s h = h

keep-IsSafe : (c : Clean) (n : ℕ) (s : Counters) → IsSafe c → IsSafe (keep c n s).0
unfolding IsSafe
keep-IsSafe c n s h = elim (Bool-cases (ltb max_output_chars (s.output_chars + n))) [
  | inl e ↦ rw e is_truncated
  | inr e ↦ rw e h
]

text-IsSafe : (t : Text) (s : Counters) → IsSafe (sanitize_text t s).0
unfolding IsSafe
text-IsSafe t s = elim (Bool-cases (is_sensitive_value t)) [
  | inl e ↦ rw e is_redacted
  | inr e ↦ rw e (keep-IsSafe (clean_text (shorten t)) (length (shorten t)) s (is_shortened t e))
]

module _ (child : Child) (safe : IsSafeChild child) where
  items-AreSafe : (vs : List Value) (s : Counters) → AreSafe (sanitize_items child vs s).0
  unfolding AreSafe IsSafe sanitize_items
  items-AreSafe [] s = tt
  items-AreSafe (v ∷ vs) s =
      let s' = record s { items = s.items + 1 } in
      let r = child v (count_chars 3 s') in
      elim (Bool-cases (ltb max_items (s.items + 1) || leb max_output_chars (s.output_chars + 3))) [
        | inl e ↦ rw e (is_truncated, tt)
        | inr e ↦ rw e (safe v (count_chars 3 s'), items-AreSafe vs r.1)
      ]

  field-IsSafe : (key : Text) (v : Value) (s : Counters) → IsSafe (sanitize_field child key v s).0
  unfolding IsSafe
  field-IsSafe key v s = elim (Bool-cases (is_sensitive_key key)) [
    | inl e ↦ rw e is_redacted
    | inr e ↦ rw e (safe v s)
  ]

  field_hidden :
      (key : Text) (v : Value) (s : Counters)
      → is_sensitive_key key ≡ true
      → (sanitize_field child key v s).0 ≡ clean_text redacted
  field_hidden key v s e = rw e refl

  entries-AreSafe :
      (es : List (Text × Value)) (s : Counters) → AreSafeIfSome (sanitize_entries child es s).0
  unfolding AreSafeFields sanitize_entries
  entries-AreSafe [] s = tt
  entries-AreSafe ((key, v) ∷ es) s =
      let counted = record s {
        items = s.items + 1;
        output_chars = s.output_chars + (length key + 4);
      } in
      let r = sanitize_field child key v counted in
      elim (Bool-cases (ltb max_items (s.items + 1))) [
        | inl e ↦ rw e tt
        | inr e ↦ elim (Bool-cases (ltb max_output_chars counted.output_chars)) [
          | inl f ↦ rw (e, f) tt
          | inr f ↦
              rw (e, f)
                (with_field_safe key r.0 (sanitize_entries child es r.1).0
                  (field_hidden key v counted) (field-IsSafe key v counted)
                  (entries-AreSafe es r.1))
        ]
      ]

  object-IsSafe : (o : HeapObject) (s : Counters) → IsSafe (sanitize_object child o s).0
  unfolding IsSafe
  object-IsSafe (array vs) s = items-AreSafe vs (count_chars 2 s)
  object-IsSafe (entries es) s = close-IsSafe _ _ (entries-AreSafe es (count_chars 2 s))

  value-IsSafe : (heap : Heap) (v : Value) (s : Counters) → IsSafe (sanitize_value child heap v s).0
  unfolding IsSafe
  value-IsSafe heap (text t) s = text-IsSafe t s
  value-IsSafe heap unsupported s = is_unsupported
  value-IsSafe heap (plain t) s = keep-IsSafe (clean_plain t) (length t) s tt
  value-IsSafe heap (reference r) s =
      let visited = record s { nodes = s.nodes + 1; seen = r ∷ s.seen } in
      elim (Bool-cases (any (λ x. x == r) s.seen)) [
        | inl e ↦ rw e is_redacted_cycle
        | inr e ↦ elim (Bool-cases (ltb max_nodes (s.nodes + 1))) [
          | inl f ↦ rw (e, f) is_truncated
          | inr f ↦ rw (e, f) (object-IsSafe (heap r) visited)
        ]
      ]

sanitize-IsSafe :
    (heap : Heap) (left : ℕ) (v : Value) (s : Counters) → IsSafe (sanitize heap left v s).0
unfolding sanitize IsSafe
sanitize-IsSafe heap zero v s = elim (Bool-cases (leb max_output_chars s.output_chars)) [
  | inl e ↦ rw e is_truncated
  | inr e ↦ rw e is_redacted_depth
]
sanitize-IsSafe heap (suc left) v s = elim (Bool-cases (leb max_output_chars s.output_chars)) [
  | inl e ↦ rw e is_truncated
  | inr e ↦ rw e (value-IsSafe (sanitize heap left) (sanitize-IsSafe heap left) heap v s)
]

as_record_safe : (c : Clean) → IsSafe c → AreSafeFields (as_record c)
unfolding IsSafe is_sensitive_key
as_record_safe (clean_text t) h = ((λ e. absurd (true≢false (sym e))), h, tt)
as_record_safe (clean_plain t) h = ((λ e. absurd (true≢false (sym e))), h, tt)
as_record_safe (clean_array xs) h = ((λ e. absurd (true≢false (sym e))), h, tt)
as_record_safe (clean_fields xs) h = h

evidence_safe : (heap : Heap) (r : ℕ) (o : HeapObject) → AreSafeFields (evidence_of heap r o)
unfolding AreSafeFields
evidence_safe heap r (array vs) = tt
evidence_safe heap r (entries es) =
    as_record_safe _ (sanitize-IsSafe heap levels (reference r) no_counters)

-- Each text of sanitized evidence is a marker, or the shortened form of a text that
-- `sensitiveValue` does not match, and each field whose key `sensitiveKey` matches is redacted, for
-- every heap, cycles and shared objects included.
pub sanitize_evidence-AreSafeFields :
    (heap : Heap) (v : Value) → AreSafeFields (sanitize_evidence heap v)
unfolding sanitize_evidence AreSafeFields
sanitize_evidence-AreSafeFields heap (text t) = tt
sanitize_evidence-AreSafeFields heap unsupported = tt
sanitize_evidence-AreSafeFields heap (plain t) = tt
sanitize_evidence-AreSafeFields heap (reference r) = evidence_safe heap r (heap r)
