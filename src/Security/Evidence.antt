-- ===== src/Security/Evidence.antt =====
-- `sanitizeEvidence` of packages/security/src/security.ts. A text is its list of UTF-16 code units.
-- Objects and arrays live on a heap, since the source tells them apart by identity; an object is
-- the list of its entries, in the order of `Object.entries`. A key `__proto__` is a key like
-- others here. The depth is counted down from the 13 levels that the source descends.
pub mod Sensitive
pub mod Safe
pub mod Size
pub mod Loops
pub mod Budget
use page2web_mcp.Common.{
  ℕ, zero, suc, ◌+◌, Bool, true, false, ◌&&◌, ◌||◌, not, Option, none, some, List, [], ◌∷◌, ◌++◌,
  ltb, leb, ◌==◌, any, length, if◌then◌else◌,
}
use page2web_mcp.Common.Text.{codes}
use page2web_mcp.Security.Evidence.Sensitive.{is_sensitive_key, is_sensitive_value}

abbrev pub Text : Type 0
Text = List ℕ

-- A boolean, a finite number and `null` come with their `String(current)`.
pub data Value : Type 0 where
  text : Text → Value
  unsupported : Value
  plain : Text → Value
  reference : ℕ → Value

pub data HeapObject : Type 0 where
  array : List Value → HeapObject
  entries : List (Text × Value) → HeapObject

abbrev pub Heap : Type 0
Heap = ℕ → HeapObject

mutual
  pub data Clean : Type 0 where
    clean_text : Text → Clean
    clean_plain : Text → Clean
    clean_array : Items → Clean
    clean_fields : Fields → Clean

  pub data Items : Type 0 where
    no_items : Items
    item : Clean → Items → Items

  pub data Fields : Type 0 where
    no_fields : Fields
    field : Text → Clean → Fields → Fields

pub record Counters : Type 0 where
  pub seen : List ℕ
  pub nodes : ℕ
  pub items : ℕ
  pub output_chars : ℕ

abbrev pub max_nodes : ℕ
max_nodes = 1000

abbrev pub max_items : ℕ
max_items = 10000

abbrev pub max_string_length : ℕ
max_string_length = 4096

abbrev pub max_output_chars : ℕ
max_output_chars = 35000

abbrev pub truncated : Text
truncated = codes "[TRUNCATED]"

abbrev pub redacted : Text
redacted = codes "[REDACTED]"

abbrev pub redacted_depth : Text
redacted_depth = codes "[REDACTED_DEPTH]"

abbrev pub redacted_cycle : Text
redacted_cycle = codes "[REDACTED_CYCLE]"

abbrev pub unsupported_value : Text
unsupported_value = codes "[UNSUPPORTED_VALUE]"

-- `outputChars += n`
abbrev pub count_chars : ℕ → Counters → Counters
count_chars n s = record s { output_chars = s.output_chars + n }

-- `marker(value)`
abbrev pub marker : Text → Counters → Clean × Counters
marker t s = (clean_text t, count_chars (length t) s)

-- `s.slice(0, n)`
unfoldable pub slice : ℕ → Text → Text
slice zero s = []
slice (suc n) [] = []
slice (suc n) (c ∷ cs) = c ∷ slice n cs

unfoldable pub shorten : Text → Text
unfolding slice
shorten t = if ltb max_string_length (length t) then slice max_string_length t ++ truncated else t

-- Counts a value of this many characters, which is kept if it fits the budget.
abbrev pub keep : Clean → ℕ → Counters → Clean × Counters
keep kept n s =
    if ltb max_output_chars (s.output_chars + n)
    then marker truncated (count_chars n s)
    else (kept, count_chars n s)

abbrev pub sanitize_text : Text → Counters → Clean × Counters
sanitize_text t s =
    if is_sensitive_value t
    then marker redacted s
    else keep (clean_text (shorten t)) (length (shorten t)) s

-- What sanitizes the children of a value.
abbrev pub Child : Type 0
Child = Value → Counters → Clean × Counters

abbrev pub onto_items : Clean × Counters → (Counters → Items × Counters) → Items × Counters
onto_items r rest = (item r.0 (rest r.1).0, (rest r.1).1)

-- The loop over an array.
unfoldable pub sanitize_items : Child → List Value → Counters → Items × Counters
sanitize_items child [] s = (no_items, s)
sanitize_items child (v ∷ vs) s =
    let s' = record s { items = s.items + 1 } in
    let rest = sanitize_items child vs in
    if ltb max_items s'.items || leb max_output_chars (s'.output_chars + 3)
    then (item (clean_text truncated) no_items, count_chars (length truncated) s')
    else onto_items (child v (count_chars 3 s')) rest

-- The value of a field.
abbrev pub sanitize_field : Child → Text → Value → Counters → Clean × Counters
sanitize_field child key v s = if is_sensitive_key key then marker redacted s else child v s

abbrev pub with_field : Text → Clean → Option Fields → Option Fields
with_field key c none = none
with_field key c (some xs) = some (field key c xs)

abbrev pub onto_fields :
    Text → Clean × Counters → (Counters → Option Fields × Counters) → Option Fields × Counters
onto_fields key r rest = (with_field key r.0 (rest r.1).0, (rest r.1).1)

-- The loop over the entries of an object, `none` where it gives the object up.
unfoldable pub sanitize_entries : Child → List (Text × Value) → Counters → Option Fields × Counters
sanitize_entries child [] s = (some no_fields, s)
sanitize_entries child ((key, v) ∷ more) s =
    let rest = sanitize_entries child more in
    let counted = record s {
      items = s.items + 1;
      output_chars = s.output_chars + (length key + 4);
    } in
    if ltb max_items (s.items + 1)
    then (none, record s { items = s.items + 1 })
    else if ltb max_output_chars counted.output_chars
    then (none, counted)
    else onto_fields key (sanitize_field child key v counted) rest

abbrev pub close_array : Items × Counters → Clean × Counters
close_array r = (clean_array r.0, r.1)

abbrev pub close_fields : Option Fields → Counters → Clean × Counters
close_fields none s = marker truncated s
close_fields (some xs) s = (clean_fields xs, s)

abbrev pub sanitize_object : Child → HeapObject → Counters → Clean × Counters
sanitize_object child (array vs) s = close_array (sanitize_items child vs (count_chars 2 s))
sanitize_object child (entries es) s =
    let r = sanitize_entries child es (count_chars 2 s) in close_fields r.0 r.1

-- A node that is visited the first time.
abbrev pub sanitize_reference : Child → Heap → ℕ → Counters → Clean × Counters
sanitize_reference child heap r s =
    if any (λ x. x == r) s.seen
    then marker redacted_cycle s
    else if ltb max_nodes (s.nodes + 1)
    then marker truncated (record s { nodes = s.nodes + 1 })
    else sanitize_object child (heap r) (record s { nodes = s.nodes + 1; seen = r ∷ s.seen })

abbrev pub sanitize_value : Child → Heap → Value → Counters → Clean × Counters
sanitize_value child heap (text t) s = sanitize_text t s
sanitize_value child heap unsupported s = marker unsupported_value s
sanitize_value child heap (plain t) s = keep (clean_plain t) (length t) s
sanitize_value child heap (reference r) s = sanitize_reference child heap r s

-- `sanitize(current, depth)` with `13 - depth` levels left.
unfoldable pub sanitize : Heap → ℕ → Value → Counters → Clean × Counters
unfolding sanitize_items sanitize_entries shorten is_sensitive_value is_sensitive_key
sanitize heap zero v s =
    if leb max_output_chars s.output_chars then marker truncated s else marker redacted_depth s
sanitize heap (suc left) v s =
    let child = sanitize heap left in
    if leb max_output_chars s.output_chars
    then marker truncated s
    else sanitize_value child heap v s

abbrev pub no_counters : Counters
no_counters = record { seen = []; nodes = 0; items = 0; output_chars = 0 }

abbrev pub levels : ℕ
levels = 13

abbrev pub as_record : Clean → Fields
as_record (clean_fields xs) = xs
as_record c = field (codes "_truncated") c no_fields

-- The record of an object that is no array; anything else has no entries.
abbrev pub evidence_of : Heap → ℕ → HeapObject → Fields
evidence_of heap r (array vs) = no_fields
evidence_of heap r (entries es) = as_record (sanitize heap levels (reference r) no_counters).0

unfoldable pub sanitize_evidence : Heap → Value → Fields
unfolding sanitize
sanitize_evidence heap (reference r) = evidence_of heap r (heap r)
sanitize_evidence heap v = no_fields
