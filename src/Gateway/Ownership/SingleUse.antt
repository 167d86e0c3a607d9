-- ===== src/Gateway/Ownership/SingleUse.antt =====
-- The keys of the replay store (apps/website-gateway/src/stores/ownership.ts).
use text.Mathlib.Text.{◌==◌ as str_eq}
use text.Mathlib.TextEquality.{eq_iff}
use page2web_mcp.Common.{
  ℕ, ◌<◌, String, ◌≡◌, refl, inl, inr, true, false, Option, none, some, List, [], ◌∷◌, All, leb,
  arith, Bool-cases, some_inj,
}
use page2web_mcp.Common.Dict.{get, get-set, get-set_self}
use page2web_mcp.Gateway.Ownership.{ReplayStore, purge, consume}

pub record Consumption : Type 0 where
  pub used_key : String
  pub expires_at : Option ℕ
  pub now : ℕ

abbrev pub consume_all : List Consumption → ReplayStore → ReplayStore
consume_all [] s = s
consume_all (c ∷ cs) s = consume_all cs (consume c.used_key c.expires_at c.now s).1

-- A key that has not run out stays.
get-purge :
    (k : String) (now e : ℕ) (s : ReplayStore)
    → now < e
    → get k s ≡ some e
    → get k (purge now s) ≡ some e
unfolding get purge
get-purge k now e [] lt h = h
get-purge k now e ((j, t) ∷ s) lt h = elim (Bool-cases (str_eq j k)) [
  | inl q ↦
      let same : t ≡ e = some_inj (rw q at h) in
      let kept : leb t now ≡ false = ground arith in rw (kept, q) (ground arith)
  | inr q ↦
      let rest = get-purge k now e s lt (rw q at h) in
      elim (Bool-cases (leb t now)) [ inl f ↦ rw f rest | inr f ↦ rw (f, q) rest ]
]

-- A step keeps the key, and refuses it.
consume_keeps :
    (k : String) (e : ℕ) (j : String) (expiry : Option ℕ) (now : ℕ) (s : ReplayStore)
    → now < e
    → get k s ≡ some e
    → get k (consume j expiry now s).1 ≡ some e
unfolding consume
consume_keeps k e j none now s lt h = h
consume_keeps k e j (some expiry) now s lt h =
    let kept = get-purge k now e s lt h in
    ground (arith, kept, get-set j k expiry (purge now s), eq_iff j k)

consume_refuses :
    (k : String) (e : ℕ) (expiry : Option ℕ) (now : ℕ) (s : ReplayStore)
    → now < e
    → get k s ≡ some e
    → (consume k expiry now s).0 ≡ false
unfolding consume
consume_refuses k e none now s lt h = refl
consume_refuses k e (some expiry) now s lt h = ground (arith, get-purge k now e s lt h)

consume_stores :
    (k : String) (e now : ℕ) (s : ReplayStore)
    → (consume k (some e) now s).0 ≡ true
    → get k (consume k (some e) now s).1 ≡ some e
unfolding consume
consume_stores k e now s h = ground (arith, get-set_self k e (purge now s))

consume_all_keep :
    (k : String) (e : ℕ) (cs : List Consumption) (s : ReplayStore)
    → All (λ c. c.now < e) cs
    → get k s ≡ some e
    → get k (consume_all cs s) ≡ some e
consume_all_keep k e [] s before h = h
consume_all_keep k e (c ∷ cs) s before h =
    consume_all_keep k e cs (consume c.used_key c.expires_at c.now s).1 before.1
      (consume_keeps k e c.used_key c.expires_at c.now s before.0 h)

-- A key is good for one use: once it has been consumed, it is refused until it runs out, whatever
-- keys are consumed in between, in any order of their times.
pub consume-once :
    (k : String) (e now : ℕ) (s : ReplayStore) (cs : List Consumption) (again : Option ℕ)
    (later : ℕ)
    → (consume k (some e) now s).0 ≡ true
    → All (λ c. c.now < e) cs
    → later < e
    → (consume k again later (consume_all cs (consume k (some e) now s).1)).0 ≡ false
consume-once k e now s cs again later won before lt =
    consume_refuses k e again later (consume_all cs (consume k (some e) now s).1) lt
      (consume_all_keep k e cs (consume k (some e) now s).1 before (consume_stores k e now s won))
