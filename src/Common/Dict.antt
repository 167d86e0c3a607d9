-- ===== src/Common/Dict.antt =====
-- A JavaScript `Map` with text keys, in insertion order: `set` writes in place or appends.
use mathlib.Core.Path.{◌≡◌, refl, sym, subst}
use mathlib.Core.Logic.{◌≢◌, ◌⊎◌, inl, inr}
use mathlib.Core.Bool.{false}
use mathlib.Core.Option.{Option, none, some}
use mathlib.Core.List.{List, [], ◌∷◌}
use Prim.Native.String.{String}
use native.Mathlib.Omega.{arith}
use text.Mathlib.Text.{◌==◌}
use text.Mathlib.TextEquality.{eq_iff}
use text.Mathlib.TextPositions.{eq_refl}
use page2web_mcp.Common.Tests.{if◌then◌else◌, Bool-cases, none≢some, some_inj}
use page2web_mcp.Common.Lists.{All}

abbrev pub Dict {ℓ} : Type ℓ → Type ℓ
Dict V = List (String × V)

pub ne_of_eq_false : {k j : String} → (k == j) ≡ false → k ≢ j
ne_of_eq_false {k} {j} t e = cc (t, (eq_iff k j).1 e)

module _ {ℓ} {V : Type ℓ} where
  unfoldable pub get : String → Dict V → Option V
  get k [] = none
  get k ((j, v) ∷ m) = if j == k then some v else get k m

  unfoldable pub set : String → V → Dict V → Dict V
  set k v [] = (k, v) ∷ []
  set k v ((j, w) ∷ m) = if j == k then (j, v) ∷ m else (j, w) ∷ set k v m

  unfoldable pub delete : String → Dict V → Dict V
  delete k [] = []
  delete k ((j, v) ∷ m) = let rest = delete k m in if j == k then rest else (j, v) ∷ rest

  abbrev pub values : Dict V → List V
  values [] = []
  values ((j, v) ∷ m) = v ∷ values m

  pub get-set :
      (k j : String) (v : V) (m : Dict V) → get j (set k v m) ≡ (if k == j then some v else get j m)
  unfolding get set
  get-set k j v [] = refl
  get-set k j v ((i, w) ∷ m) = ground (arith, eq_iff k j, eq_iff i k, eq_iff i j, get-set k j v m)

  pub get-set_self : (k : String) (v : V) (m : Dict V) → get k (set k v m) ≡ some v
  get-set_self k v m = simp (get-set, eq_refl)

  pub get-set_ne : (k j : String) (v : V) (m : Dict V) → k ≢ j → get j (set k v m) ≡ get j m
  get-set_ne k j v m h = ground (arith, get-set k j v m, eq_iff k j)

  -- What is found after a write is what was written, or was there before under another key.
  pub get-set_cases :
      (k j : String) (v : V) (m : Dict V) {u : V}
      → get j (set k v m) ≡ some u
      → ((k ≡ j) × (v ≡ u)) ⊎ ((k ≢ j) × (get j m ≡ some u))
  get-set_cases k j v m e = elim (Bool-cases (k == j)) [
    | inl t ↦ inl ((eq_iff k j).0 t, some_inj (rw (get-set k j v m, t) at e))
    | inr t ↦ inr (ne_of_eq_false t, rw (get-set k j v m, t) at e)
  ]

  pub get-delete :
      (k j : String) (m : Dict V) → get j (delete k m) ≡ (if k == j then none else get j m)
  unfolding get delete
  get-delete k j [] = ground arith
  get-delete k j ((i, w) ∷ m) = ground (arith, eq_iff k j, eq_iff i k, eq_iff i j, get-delete k j m)

module _ {ℓ} {V : Type ℓ} where
  -- What is found after a removal was there before under another key.
  pub get-delete-some :
      (k j : String) (m : Dict V) {u : V}
      → get j (delete k m) ≡ some u
      → (k ≢ j) × (get j m ≡ some u)
  get-delete-some k j m e = elim (Bool-cases (k == j)) [
    | inl t ↦ absurd (none≢some (rw (get-delete k j m, t) at e))
    | inr t ↦ (ne_of_eq_false t, rw (get-delete k j m, t) at e)
  ]

module _ {ℓ κ} {V : Type ℓ} (P : String → V → Type κ) where
  -- Each entry, with its key, satisfies the predicate.
  abbrev pub Entries : Dict V → Type κ
  Entries [] = Unit
  Entries ((j, v) ∷ m) = P j v × Entries m

  pub Entries-set : (k : String) (v : V) (m : Dict V) → P k v → Entries m → Entries (set k v m)
  unfolding set
  Entries-set k v [] p h = (p, tt)
  Entries-set k v ((j, w) ∷ m) p h = elim (Bool-cases (j == k)) [
    | inl e ↦ rw e (subst (λ i. P i v) (sym ((eq_iff j k).0 e)) p, h.1)
    | inr e ↦ rw e (h.0, Entries-set k v m p h.1)
  ]

  pub Entries-get : (k : String) (m : Dict V) {v : V} → get k m ≡ some v → Entries m → P k v
  unfolding get
  Entries-get k [] e h = absurd (none≢some e)
  Entries-get k ((j, w) ∷ m) {v} e h = elim (Bool-cases (j == k)) [
    | inl t ↦ subst (P k) (some_inj (rw t at e)) (subst (λ i. P i w) ((eq_iff j k).0 t) h.0)
    | inr t ↦ Entries-get k m (rw t at e) h.1
  ]

  pub All-values :
      (Q : V → Type κ) (m : Dict V)
      → ((k : String) (v : V) → P k v → Q v)
      → Entries m
      → All Q (values m)
  All-values Q [] f h = tt
  All-values Q ((j, v) ∷ m) f h = (f j v h.0, All-values Q m f h.1)

  pub Entries-delete : (k : String) (m : Dict V) → Entries m → Entries (delete k m)
  unfolding delete
  Entries-delete k [] h = tt
  Entries-delete k ((j, v) ∷ m) h = elim (Bool-cases (j == k)) [
    | inl e ↦ rw e (Entries-delete k m h.1)
    | inr e ↦ rw e (h.0, Entries-delete k m h.1)
  ]
