-- ===== src/Common/Sort.antt =====
-- `xs.sort(compare)[0]`: a stable insertion sort, and that its head comes before all the rest.
use mathlib.Core.Path.{◌≡◌, refl, subst}
use mathlib.Core.Logic.{inl, inr}
use mathlib.Core.Bool.{Bool, true, false}
use mathlib.Core.Option.{some}
use mathlib.Core.List.{List, [], ◌∷◌}
use page2web_mcp.Common.Tests.{if◌then◌else◌, Bool-cases, none≢some, some_inj}
use page2web_mcp.Common.Lists.{All, All-map, head?}

module _ {ℓ} {A : Type ℓ} (before : A → A → Bool) where
  -- `before x y`: `y` may not stand in front of `x`, that is `compare(x, y) <= 0`.
  unfoldable pub insert : A → List A → List A
  insert x [] = x ∷ []
  insert x (y ∷ ys) = if before x y then x ∷ y ∷ ys else y ∷ insert x ys

  unfoldable pub sort : List A → List A
  unfolding insert
  sort [] = []
  sort (x ∷ xs) = insert x (sort xs)

  module _ {κ} (P : A → Type κ) where
    All-insert : (x : A) (ys : List A) → P x → All P ys → All P (insert x ys)
    unfolding insert
    All-insert x [] p h = (p, tt)
    All-insert x (y ∷ ys) p h = elim (Bool-cases (before x y)) [
      | inl e ↦ rw e (p, h)
      | inr e ↦ rw e (h.0, All-insert x ys p h.1)
    ]

    pub All-sort : (xs : List A) → All P xs → All P (sort xs)
    unfolding sort
    All-sort [] h = tt
    All-sort (x ∷ xs) h = All-insert x (sort xs) h.0 (All-sort xs h.1)

    All-insert_inv : (x : A) (ys : List A) → All P (insert x ys) → P x × All P ys
    unfolding insert
    All-insert_inv x [] h = h
    All-insert_inv x (y ∷ ys) h = elim (Bool-cases (before x y)) [
      | inl e ↦ rw e at h
      | inr e ↦
          let k : P y × All P (insert x ys) = rw e at h in
          let r = All-insert_inv x ys k.1 in (r.0, (k.0, r.1))
    ]

    pub All-sort_inv : (xs : List A) → All P (sort xs) → All P xs
    unfolding sort
    All-sort_inv [] h = tt
    All-sort_inv (x ∷ xs) h = let r = All-insert_inv x (sort xs) h in (r.0, All-sort_inv xs r.1)

-- A relation that the comparison decides one way or the other.
module _ {ℓ κ} {A : Type ℓ} (before : A → A → Bool) (R : A → A → Type κ)
    (R-trans : (x y z : A) → R x y → R y z → R x z)
    (R-before : (x y : A) → before x y ≡ true → R x y)
    (R-after : (x y : A) → before x y ≡ false → R y x) where
  module _ (R-refl : (x : A) → R x x) where
    insert-head :
        (x : A) (ys : List A)
        → ((y : A) → head? ys ≡ some y → All (R y) ys)
        → (z : A) → head? (insert before x ys) ≡ some z
        → R z x × All (R z) ys
    unfolding insert
    insert-head x [] h z e = (subst (λ w. R w x) (some_inj e) (R-refl x), tt)
    insert-head x (y ∷ ys) h z e = elim (Bool-cases (before x y)) [
      | inl t ↦
          let below : (w : A) → R y w → R x w = λ w. R-trans x y w (R-before x y t) in
          subst (λ w. R w x × All (R w) (y ∷ ys)) (some_inj (rw t at e))
            (R-refl x, All-map (R y) (R x) (y ∷ ys) below (h y refl))
      | inr t ↦
          subst (λ w. R w x × All (R w) (y ∷ ys)) (some_inj (rw t at e)) (R-after x y t, h y refl)
    ]

    sorted-head :
        (xs : List A) (z : A) → head? (sort before xs) ≡ some z → All (R z) (sort before xs)
    unfolding sort
    sorted-head [] z e = absurd (none≢some e)
    sorted-head (x ∷ xs) z e =
        let h = insert-head x (sort before xs) (sorted-head xs) z e in
        All-insert before (R z) x (sort before xs) h.0 h.1

    -- The first member of the sorted list is related to every member of the list.
    pub sort-head : (xs : List A) (z : A) → head? (sort before xs) ≡ some z → All (R z) xs
    sort-head xs z e = All-sort_inv before (R z) xs (sorted-head xs z e)
