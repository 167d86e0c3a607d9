-- ===== src/Cleanup/Resources/Settled.antt =====
-- What an update of the resources keeps (packages/database/src/control-plane.ts).
use page2web_mcp.Common.{
  suc, ◌⊎◌, ◌≡◌, refl, sym, ap, subst, ◌∙◌, String, Bool, true, false, not, ◌&&◌, ◌||◌, Option,
  none, some, List, [], ◌∷◌, ◌++◌, ltb, leb, ◌==◌, if◌then◌else◌, length, find, filter, any, all,
  arith, All, All-map, All-find, Bool-cases, Option-cases, none≢some, some_inj, and-eq-true, inl,
  inr,
}
use text.Mathlib.Text.{◌==◌ as str_eq}
use text.Mathlib.TextPositions.{eq_refl}
use page2web_mcp.Release.Checks.{same_optional}
use page2web_mcp.Common.Sort.{insert, sort, All-sort, All-sort_inv}
use page2web_mcp.Cleanup.Resources.{
  kind_name, Disposition, pending, failed, revoked, released, reconciled, destroyed,
  retained_immutable, rank, Resource, ResourceEnv, is_settled, same_kind, same_disposition,
  same_resource, is_resource, kind_count, by_name, normalize_resources, has_identity, if_identities,
  normalize_update, replace_resource, is_earlier, after_update, found_update, advance_one,
  advance_all, sorted_by_name, advance_resources,
}

module _ {A : Type 0} (before : A → A → Bool) where
  any-insert : (p : A → Bool) (x : A) (ys : List A) → any p (insert before x ys) ≡ (p x || any p ys)
  unfolding insert
  any-insert p x [] = refl
  any-insert p x (y ∷ ys) = ground (arith, any-insert p x ys)

  any-sort : (p : A → Bool) (xs : List A) → any p (sort before xs) ≡ any p xs
  unfolding sort
  any-sort p [] = refl
  any-sort p (x ∷ xs) = any-insert p x (sort before xs) ∙ ap (λ b. p x || b) (any-sort p xs)

  length-insert : (x : A) (ys : List A) → length (insert before x ys) ≡ suc (length ys)
  unfolding insert
  length-insert x [] = refl
  length-insert x (y ∷ ys) = ground (arith, length-insert x ys)

  length-sort : (xs : List A) → length (sort before xs) ≡ length xs
  unfolding sort
  length-sort [] = refl
  length-sort (x ∷ xs) = length-insert x (sort before xs) ∙ ap suc (length-sort xs)

all-All : {A : Type 0} (p : A → Bool) (xs : List A) → all p xs ≡ true → All (λ x. p x ≡ true) xs
all-All p [] e = tt
all-All p (x ∷ xs) e = let h = and-eq-true (p x) (all p xs) e in (h.0, all-All p xs h.1)

settled-rank : (d : Disposition) → is_settled d ≡ leb 2 (rank d)
settled-rank pending = refl
settled-rank failed = refl
settled-rank revoked = refl
settled-rank released = refl
settled-rank reconciled = refl
settled-rank destroyed = refl
settled-rank retained_immutable = refl

-- Resources that agree are both settled or both not.
not_same :
    (e x : Resource)
    → is_settled e.disposition ≡ true
    → is_settled x.disposition ≡ false
    → same_resource e x ≡ false
not_same e x h k = ground (arith, settled-rank e.disposition, settled-rank x.disposition)

module _ (u r : Resource) where
  length-replace_resource : (xs : List Resource) → length (replace_resource u r xs) ≡ length xs
  length-replace_resource [] = refl
  length-replace_resource (x ∷ xs) = ground (arith, length-replace_resource xs)

  All-replace_resource :
      (P : Resource → Type 0) (xs : List Resource)
      → P r
      → All P xs
      → All P (replace_resource u r xs)
  All-replace_resource P [] p h = tt
  All-replace_resource P (x ∷ xs) p h = elim (Bool-cases (same_kind u x)) [
    | inl e ↦ rw e (p, h.1)
    | inr e ↦ rw e (h.0, All-replace_resource P xs p h.1)
  ]

  -- What is replaced does not pass the test.
  any-replace_resource :
      (p : Resource → Bool) (xs : List Resource) (x : Resource)
      → find (same_kind u) xs ≡ some x
      → p x ≡ false
      → any p xs ≡ true
      → any p (replace_resource u r xs) ≡ true
  any-replace_resource p [] x e f h = h
  any-replace_resource p (y ∷ ys) x e f h = elim (Bool-cases (same_kind u y)) [
    | inl t ↦
        let same : y ≡ x = some_inj (rw t at e) in
        let miss : p y ≡ false = subst (λ z. p z ≡ false) (sym same) f in
        rw t (ground (arith, miss))
    | inr t ↦
        let deeper = any-replace_resource p ys x (rw t at e) f in rw t (ground (arith, deeper))
  ]

-- The two are of one kind and one identity.
abbrev pub owns : Resource → Resource → Bool
owns r e = same_kind r e && str_eq e.identity_digest r.identity_digest

any_self :
    {A : Type 0} (R : A → A → Bool) (xs : List A)
    → ((x : A) → R x x ≡ true)
    → All (λ x. any (R x) xs ≡ true) xs
any_self R [] h = tt
any_self R (x ∷ xs) h = (
  ground (arith, h x),
  All-map (λ y. any (R y) xs ≡ true) (λ y. any (R y) (x ∷ xs) ≡ true) xs (λ y k. ground arith)
      (any_self R xs h),
)

has_identity-any :
    (r : Resource) (xs : List Resource) → has_identity xs r ≡ true → any (owns r) xs ≡ true
has_identity-any r [] e = e
has_identity-any r (x ∷ xs) e = elim (Bool-cases (same_kind r x)) [
  | inl t ↦ ground arith
  | inr t ↦ let deeper = has_identity-any r xs (rw t at e) in ground arith
]

same_text : (t : Option String) → same_optional t t ≡ true
same_text none = refl
same_text (some t) = eq_refl t

same_self : (r : Resource) → same_resource r r ≡ true
same_self r =
    rw
      (
        eq_refl (kind_name r.resource),
        eq_refl r.identity_digest,
        same_text r.timestamp,
        same_text r.error_code,
      )
      (ground arith)

owns_self : (r : Resource) → owns r r ≡ true
owns_self r = rw (eq_refl (kind_name r.resource), eq_refl r.identity_digest) refl

-- The resources of a checkpoint as they go on: seven, each of a kind and an identity that was
-- stored, and each that was settled as it was.
pub record IsAdvanced (stored rs : List Resource) : Type 0 where
  pub size : length rs ≡ 7
  pub known : All (λ r. any (owns r) stored ≡ true) rs
  pub kept : All (λ e. is_settled e.disposition ≡ true → any (same_resource e) rs ≡ true) stored

module _ (E : ResourceEnv) where
  after_update_inv :
      (u : Resource) (by_resource next : List Resource) (x r : Option Resource)
      → after_update E u by_resource x r ≡ some next
      → (next ≡ by_resource)
        ⊎ ((y : Resource) × (z : Resource) × (x ≡ some y)
            × (r ≡ some z)
            × (is_settled y.disposition ≡ false)
            × (next ≡ replace_resource u z by_resource))
  after_update_inv u by_resource next none r e = absurd (cc)
  after_update_inv u by_resource next (some y) none e = absurd (cc)
  after_update_inv u by_resource next (some y) (some z) e =
      elim (Bool-cases (is_settled y.disposition)) [
        | inl t ↦
            let h : (if same_resource y z then some by_resource else none) ≡ some next =
              rw t at e in
            elim (Bool-cases (same_resource y z)) [
              | inl q ↦ inl (sym (some_inj (rw q at h)))
              | inr q ↦ absurd (none≢some (rw q at h))
            ]
        | inr t ↦
            let late = same_disposition z.disposition pending || is_earlier E z y in
            let h : (if late then none else some (replace_resource u z by_resource)) ≡ some next =
              rw t at e in
            elim (Bool-cases late) [
              | inl q ↦ absurd (none≢some (rw q at h))
              | inr q ↦ inr (y, z, refl, refl, t, sym (some_inj (rw q at h)))
            ]
      ]

  found_update_inv :
      (u z : Resource) (stored : List Resource) (value : Option (List Resource))
      → found_update u (if_identities stored value) ≡ some z
      → has_identity stored z ≡ true
  found_update_inv u z stored none e = absurd (none≢some e)
  found_update_inv u z stored (some value) e = elim (Bool-cases (all (has_identity stored) value)) [
    | inl t ↦
        All-find (λ r. has_identity stored r ≡ true) (same_kind u) value (rw t at e)
          (all-All (has_identity stored) value t)
    | inr t ↦ absurd (none≢some (rw t at e))
  ]

  advance_one-IsAdvanced :
      (stored : List Resource) (u : Resource) (by_resource next : List Resource)
      → advance_one E stored u by_resource ≡ some next
      → IsAdvanced stored by_resource
      → IsAdvanced stored next
  unfolding advance_one normalize_update
  advance_one-IsAdvanced stored u by_resource next e h =
      elim (after_update_inv u by_resource next (find (same_kind u) by_resource)
        (found_update u
          (normalize_update E (filter (λ r. not (same_kind u r)) stored ++ u ∷ []) stored))
        e) [
          | inl same ↦ subst (IsAdvanced stored) (sym same) h
          | inr (y, z, at, new, loose, changed) ↦ subst (IsAdvanced stored) (sym changed) (record {
            size = length-replace_resource u z by_resource ∙ h.size;
            known =
                All-replace_resource u z (λ r. any (owns r) stored ≡ true) by_resource
                  (has_identity-any z stored (found_update_inv u z stored _ new)) h.known;
            kept =
                All-map
                  (λ e. is_settled e.disposition ≡ true → any (same_resource e) by_resource ≡ true)
                  (λ e.
                    is_settled e.disposition ≡ true
                    → any (same_resource e) (replace_resource u z by_resource) ≡ true)
                  stored
                  (λ e k t.
                    any-replace_resource u z (same_resource e) by_resource y at
                      (not_same e y t loose) (k t))
                  h.kept;
          })
        ]

  advance_all-IsAdvanced :
      (stored us by_resource rs : List Resource)
      → advance_all E stored us by_resource ≡ some rs
      → IsAdvanced stored by_resource
      → IsAdvanced stored rs
  unfolding advance_all
  advance_all-IsAdvanced stored [] by_resource rs e h = subst (IsAdvanced stored) (some_inj e) h
  advance_all-IsAdvanced stored (u ∷ us) by_resource rs e h =
      elim (Option-cases (advance_one E stored u by_resource)) [
        | inl t ↦ absurd (none≢some (rw (t, advance_all) at e))
        | inr (next, t) ↦
            advance_all-IsAdvanced stored us next rs (rw (t, advance_all) at e)
              (advance_one-IsAdvanced stored u by_resource next t h)
      ]

  normalize_resources_inv :
      (value rs : List Resource)
      → normalize_resources E value ≡ some rs
      → (length value ≡ 7) × (rs ≡ sort by_name value)
  unfolding normalize_resources
  normalize_resources_inv value rs e =
      elim (Bool-cases (
        length value == 7
        && leb (E.canonical_bytes value) 16384
        && all (is_resource E) value
        && kind_count value == 7)) [
          | inl t ↦ (ground arith, sym (some_inj (rw t at e)))
          | inr t ↦ absurd (none≢some (rw t at e))
        ]

  sorted_by_name_inv :
      (o : Option (List Resource)) (rs : List Resource)
      → sorted_by_name o ≡ some rs
      → (xs : List Resource) × (o ≡ some xs) × (rs ≡ sort by_name xs)
  unfolding sorted_by_name
  sorted_by_name_inv none rs e = absurd (none≢some e)
  sorted_by_name_inv (some xs) rs e = (xs, refl, sym (some_inj e))

  -- The start of the loop: the map holds what was stored.
  start-IsAdvanced : (rs : List Resource) → length rs ≡ 7 → IsAdvanced rs rs
  start-IsAdvanced rs n = record {
    size = n;
    known = any_self owns rs owns_self;
    kept =
        All-map (λ e. any (same_resource e) rs ≡ true)
          (λ e. is_settled e.disposition ≡ true → any (same_resource e) rs ≡ true) rs (λ e k _. k)
          (any_self same_resource rs same_self);
  }

  -- The order of the resources is of no matter.
  IsAdvanced-sort :
      (stored rs : List Resource)
      → IsAdvanced (sort by_name stored) rs
      → IsAdvanced stored (sort by_name rs)
  IsAdvanced-sort stored rs h = record {
    size = length-sort by_name rs ∙ h.size;
    known =
        All-sort by_name (λ r. any (owns r) stored ≡ true) rs
          (All-map (λ r. any (owns r) (sort by_name stored) ≡ true)
            (λ r. any (owns r) stored ≡ true) rs (λ r k. sym (any-sort by_name (owns r) stored) ∙ k)
            h.known);
    kept =
        All-sort_inv by_name
          (λ e. is_settled e.disposition ≡ true → any (same_resource e) (sort by_name rs) ≡ true)
          stored
          (All-map (λ e. is_settled e.disposition ≡ true → any (same_resource e) rs ≡ true)
            (λ e. is_settled e.disposition ≡ true → any (same_resource e) (sort by_name rs) ≡ true)
            (sort by_name stored) (λ e k t. any-sort by_name (same_resource e) rs ∙ k t) h.kept);
  }

  -- Whatever the updates, resources that an update of the stored ones returns are seven, each has
  -- the kind and the identity of a stored one, and a stored one that was settled, that is neither
  -- pending nor failed, is among them as it was.
  pub advance_resources-IsAdvanced :
      (stored updates rs : List Resource)
      → advance_resources E stored updates ≡ some rs
      → IsAdvanced stored rs
  unfolding advance_resources
  advance_resources-IsAdvanced stored updates rs e =
      elim (Option-cases (normalize_resources E stored)) [
        | inl t ↦ absurd (none≢some (rw (t, advance_resources) at e))
        | inr (ns, t) ↦
            let h : (if ltb 7 (length updates)
                  then none
                  else sorted_by_name (advance_all E ns updates ns))
                ≡ some rs =
              rw (t, advance_resources) at e in
            let start = normalize_resources_inv stored ns t in
            elim (Bool-cases (ltb 7 (length updates))) [
              | inl q ↦ absurd (none≢some (rw q at h))
              | inr q ↦
                  let r = sorted_by_name_inv (advance_all E ns updates ns) rs (rw q at h) in
                  let size : length ns ≡ 7 =
                    ap length start.1 ∙ length-sort by_name stored ∙ start.0 in
                  let done =
                    advance_all-IsAdvanced ns updates ns r.0 r.1 (start-IsAdvanced ns size) in
                  subst (IsAdvanced stored) (sym r.2)
                    (IsAdvanced-sort stored r.0 (subst (λ x. IsAdvanced x r.0) start.1 done))
            ]
      ]
