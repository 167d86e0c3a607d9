-- ===== src/Gateway/Secrets/Disposed.antt =====
-- No secret outlives its store (apps/website-gateway/src/stores/secrets.ts).
use text.Mathlib.Text.{◌==◌ as str_eq}
use text.Mathlib.TextEquality.{eq_iff}
use text.Mathlib.TextPositions.{eq_refl}
use page2web_mcp.Common.{
  ℕ, ◌≡◌, refl, sym, subst, String, true, not, ◌&&◌, none, some, List, [], ◌∷◌, leb, is_some, any,
  arith, Bool-cases, Option-cases, none≢some, inl, inr,
}
use page2web_mcp.Common.Dict.{
  Dict, get, get-delete, Entries, Entries-set, Entries-get, Entries-delete,
}
use page2web_mcp.Common.Text.{is_secret_reference}
use page2web_mcp.Common.Throwing.Keeps.{Keeps, Keeps-bind, Keeps-bind_raise_if, keeps_rules}
use page2web_mcp.Gateway.Secrets.{
  SecretPutInput, SecretEnv, SecretStore, SecretCall, puts, reads, revokes, disposes, no_secrets,
  keys, is_purpose, reference_for, sealed_secret, seal, put_secret, revoke_secret, read_secret,
  describe_secret, revoke_all, dispose_secrets, secret_step, secret_steps,
}

-- A reference that the store makes is one by SECRET_REFERENCE.
abbrev pub MakesReferences : SecretEnv → Type 0
MakesReferences E =
    (purpose : String) (n : ℕ)
    → is_purpose purpose ≡ true
    → is_secret_reference (reference_for E purpose n) ≡ true

-- Every key is such a reference.
abbrev AreReferences : SecretStore → Type 0
AreReferences s = Entries (λ k _. is_secret_reference k ≡ true) s.sealed

revoke-AreReferences :
    (k : String) (s : SecretStore) → AreReferences s → AreReferences (revoke_secret k s).1
unfolding revoke_secret
revoke-AreReferences k s h = elim (Bool-cases (is_some (get k s.sealed) && is_secret_reference k)) [
  | inl e ↦ rw e (Entries-delete _ k s.sealed h)
  | inr e ↦ rw e h
]

revoke_all-AreReferences :
    (ks : List String) (s : SecretStore) → AreReferences s → AreReferences (revoke_all ks s)
unfolding revoke_all
revoke_all-AreReferences [] s h = h
revoke_all-AreReferences (k ∷ ks) s h =
    revoke_all-AreReferences ks (revoke_secret k s).1 (revoke-AreReferences k s h)

read-AreReferences :
    (E : SecretEnv) (k : String) (now : ℕ) (s : SecretStore)
    → AreReferences s
    → AreReferences (read_secret E k now s).1
unfolding read_secret
read-AreReferences E k now s h = elim (Option-cases (get k s.sealed)) [
  | inl e ↦ rw (e, read_secret) h
  | inr (r, e) ↦ elim (Bool-cases (leb r.expires_at_ms now)) [
    | inl t ↦ rw (e, read_secret, t) (revoke-AreReferences k s h)
    | inr t ↦ rw (e, read_secret, t) h
  ]
]

put-AreReferences :
    (E : SecretEnv)
    → MakesReferences E
    → (now : ℕ) (i : SecretPutInput) → Keeps AreReferences (put_secret E now i)
unfolding put_secret seal
put-AreReferences E made now i = Keeps-bind_raise_if (not (is_purpose i.purpose)) _ _ λ known.
    Keeps-bind _ _ (search keeps_rules) λ _. Keeps-bind _ _ (search keeps_rules) λ _.
      Keeps-bind _ _ (search keeps_rules) λ _. Keeps-bind _ _ (search keeps_rules) λ expiry.
        Keeps-bind _ _ (search keeps_rules) λ _. record {
          at = λ s h.
              Entries-set (λ k _. is_secret_reference k ≡ true) (reference_for E i.purpose s.uuids)
                (sealed_secret E expiry i s) s.sealed
                (made i.purpose s.uuids (ground (arith, known))) h;
        }

steps-AreReferences :
    (E : SecretEnv)
    → MakesReferences E
    → (cs : List SecretCall) (s : SecretStore) → AreReferences s
    → AreReferences (secret_steps E cs s)
unfolding secret_steps secret_step dispose_secrets
steps-AreReferences E made [] s h = h
steps-AreReferences E made (puts now i ∷ cs) s h =
    steps-AreReferences E made cs _ ((put-AreReferences E made now i).at s h)
steps-AreReferences E made (reads k now ∷ cs) s h =
    steps-AreReferences E made cs _ (read-AreReferences E k now s h)
steps-AreReferences E made (revokes k ∷ cs) s h =
    steps-AreReferences E made cs _ (revoke-AreReferences k s h)
steps-AreReferences E made (disposes ∷ cs) s h =
    steps-AreReferences E made cs _ (revoke_all-AreReferences (keys s.sealed) s h)

revoke-none :
    (k r : String) (s : SecretStore)
    → get r s.sealed ≡ none
    → get r (revoke_secret k s).1.sealed ≡ none
unfolding revoke_secret
revoke-none k r s e = elim (Bool-cases (is_some (get k s.sealed) && is_secret_reference k)) [
  | inl t ↦ rw t (ground (arith, get-delete k r s.sealed))
  | inr t ↦ rw t e
]

revoke_all-none :
    (ks : List String) (r : String) (s : SecretStore)
    → get r s.sealed ≡ none
    → get r (revoke_all ks s).sealed ≡ none
unfolding revoke_all
revoke_all-none [] r s e = e
revoke_all-none (k ∷ ks) r s e = revoke_all-none ks r (revoke_secret k s).1 (revoke-none k r s e)

-- A revoked reference is gone.
revoke_self :
    (r : String) (s : SecretStore)
    → is_secret_reference r ≡ true
    → get r (revoke_secret r s).1.sealed ≡ none
unfolding revoke_secret
revoke_self r s good = elim (Option-cases (get r s.sealed)) [
  | inl e ↦ rw (e, e) refl
  | inr (v, e) ↦ rw (e, good) (ground (arith, get-delete r r s.sealed, eq_refl r))
]

revoke_all-gone :
    (ks : List String) (r : String) (s : SecretStore)
    → is_secret_reference r ≡ true
    → any (λ k. str_eq k r) ks ≡ true
    → get r (revoke_all ks s).sealed ≡ none
unfolding revoke_all
revoke_all-gone [] r s good e = absurd (cc)
revoke_all-gone (k ∷ ks) r s good e = elim (Bool-cases (str_eq k r)) [
  | inl t ↦ revoke_all-none ks r (revoke_secret k s).1 (
      subst (λ x. get r (revoke_secret x s).1.sealed ≡ none) (sym ((eq_iff k r).0 t))
        (revoke_self r s good))
  | inr t ↦ revoke_all-gone ks r (revoke_secret k s).1 good (rw t at e)
]

key_of_get :
    {V : Type 0} (r : String) (m : Dict V) {v : V}
    → get r m ≡ some v
    → any (λ k. str_eq k r) (keys m) ≡ true
unfolding get
key_of_get r [] e = absurd (none≢some e)
key_of_get r ((k, w) ∷ m) e = elim (Bool-cases (str_eq k r)) [
  | inl t ↦ rw t refl
  | inr t ↦ let deeper = key_of_get r m (rw t at e) in rw t deeper
]

dispose-none :
    (r : String) (s : SecretStore) → AreReferences s → get r (dispose_secrets s).sealed ≡ none
unfolding dispose_secrets
dispose-none r s h = elim (Option-cases (get r s.sealed)) [
  | inl e ↦ revoke_all-none (keys s.sealed) r s e
  | inr (v, e) ↦
      revoke_all-gone (keys s.sealed) r s
        (Entries-get (λ k _. is_secret_reference k ≡ true) r s.sealed e h) (key_of_get r s.sealed e)
]

-- Where the references that the store makes are references by SECRET_REFERENCE: after any calls on
-- an empty store with texts of Unicode scalar values, once the store is disposed of, no reference
-- is read or described at any time.
pub secret_steps-dispose :
    (E : SecretEnv)
    → MakesReferences E
    → (cs : List SecretCall) (reference : String) (now : ℕ)
    → ((read_secret E reference now (dispose_secrets (secret_steps E cs no_secrets))).0 ≡ none)
      × (describe_secret reference now (dispose_secrets (secret_steps E cs no_secrets)) ≡ none)
unfolding read_secret describe_secret
secret_steps-dispose E made cs reference now =
    let gone =
      dispose-none reference (secret_steps E cs no_secrets)
        (steps-AreReferences E made cs no_secrets tt) in
    (rw (gone, read_secret) refl, rw (gone, describe_secret) refl)
