-- ===== src/Gateway/Evidence/Immutable.antt =====
-- Stored evidence stays as it is (apps/website-gateway/src/stores/evidence.ts).
use page2web_mcp.Common.{
  ◌≡◌, ◌≢◌, refl, sym, subst, ◌∙◌, String, true, none, some, List, [], ◌∷◌, ltb, Bool-cases,
  Option-cases, none≢some, inl, inr, Result, ok, err, ◌>>=◌,
}
use page2web_mcp.Common.Dict.{get, set, get-set_self, get-set_ne, Entries, Entries-set, Entries-get}
use page2web_mcp.Gateway.Evidence.{
  EvidenceRecord, EvidenceEnv, EvidenceStore, EvidenceRejected, max_control_bytes, is_record,
  key_of, is_intact, put_evidence, get_evidence, put_all,
}

ok_value : {X A : Type 0} {a b : A} → ◌≡◌ {A = Result X A} (ok a) (ok b) → a ≡ b
ok_value e = cc

module _ (E : EvidenceEnv) where
  -- An answer of a put, and the store it leaves.
  abbrev Answer : Type 0
  Answer = Result EvidenceRejected EvidenceRecord × EvidenceStore

  -- A put is refused, finds a record under its key, or stores an intact one under a new key.
  put-cases :
      (Q : Answer → Type 0) (i : EvidenceRecord) (s : EvidenceStore)
      → ((e : EvidenceRejected) → Q (err e, s))
      → ((r : EvidenceRecord) → get (key_of i) s ≡ some r → Q (ok r, s))
      → (get (key_of i) s ≡ none → is_intact E i ≡ true → Q (ok i, set (key_of i) i s))
      → Q (put_evidence E i s)
  unfolding put_evidence ◌>>=◌
  put-cases Q i s refused known fresh = elim (Bool-cases (is_record i)) [
    | inr a ↦ rw a (refused _)
    | inl a ↦ elim (Bool-cases (ltb max_control_bytes (E.byte_length i.content))) [
      | inl b ↦ rw (a, b) (refused _)
      | inr b ↦ elim (Bool-cases (is_intact E i)) [
        | inr c ↦ rw (a, b, c) (refused _)
        | inl c ↦ elim (Option-cases (get (key_of i) s)) [
          | inl d ↦ rw (a, b, c, d) (fresh d c)
          | inr (r, d) ↦ rw (a, b, c, d) (known r d)
        ]
      ]
    ]
  ]

  -- Every record is intact.
  abbrev AreIntact : EvidenceStore → Type 0
  AreIntact s = Entries (λ _ r. is_intact E r ≡ true) s

  put-AreIntact :
      (i : EvidenceRecord) (s : EvidenceStore) → AreIntact s → AreIntact (put_evidence E i s).1
  put-AreIntact i s h =
      put-cases (λ a. AreIntact a.1) i s (λ _. h) (λ _ _. h)
        (λ _ c. Entries-set (λ _ r. is_intact E r ≡ true) (key_of i) i s c h)

  put_all-AreIntact :
      (rs : List EvidenceRecord) (s : EvidenceStore) → AreIntact s → AreIntact (put_all E rs s)
  unfolding put_all
  put_all-AreIntact [] s h = h
  put_all-AreIntact (r ∷ rs) s h = put_all-AreIntact rs (put_evidence E r s).1 (put-AreIntact r s h)

  -- What stands under a key stands there after a put.
  put-get :
      (k : String) (r i : EvidenceRecord) (s : EvidenceStore)
      → get k s ≡ some r
      → get k (put_evidence E i s).1 ≡ some r
  put-get k r i s h =
      put-cases (λ a. get k a.1 ≡ some r) i s (λ _. h) (λ _ _. h)
        λ d _.
          let other : key_of i ≢ k = λ q. none≢some (sym (subst (λ x. get x s ≡ none) q d) ∙ h) in
          get-set_ne (key_of i) k i s other ∙ h

  put_all-get :
      (k : String) (r : EvidenceRecord) (rs : List EvidenceRecord) (s : EvidenceStore)
      → get k s ≡ some r
      → get k (put_all E rs s) ≡ some r
  unfolding put_all
  put_all-get k r [] s h = h
  put_all-get k r (i ∷ rs) s h = put_all-get k r rs (put_evidence E i s).1 (put-get k r i s h)

  -- What a put answers stands under its key, and is intact.
  put-stored :
      (i r : EvidenceRecord) (s : EvidenceStore)
      → AreIntact s
      → (put_evidence E i s).0 ≡ ok r
      → (get (key_of i) (put_evidence E i s).1 ≡ some r) × (is_intact E r ≡ true)
  put-stored i r s h =
      put-cases (λ a. a.0 ≡ ok r → (get (key_of i) a.1 ≡ some r) × (is_intact E r ≡ true)) i s
        (λ _ e. absurd (cc))
        (λ q d e.
          subst (λ x. (get (key_of i) s ≡ some x) × (is_intact E x ≡ true)) (ok_value e)
            (d, Entries-get (λ _ x. is_intact E x ≡ true) (key_of i) s d h))
        (λ _ c e.
          subst (λ x. (get (key_of i) (set (key_of i) i s) ≡ some x) × (is_intact E x ≡ true))
            (ok_value e) (get-set_self (key_of i) i s, c))

  -- On a store that some puts have made: the record that a put answers is read under the ids and the
  -- reference of the put after any later puts, and its reference is the hash of its content.
  pub put_evidence-get_evidence :
      (before later : List EvidenceRecord) (i r : EvidenceRecord)
      → (put_evidence E i (put_all E before [])).0 ≡ ok r
      → (get_evidence E i.organization_id i.project_id i.analysis_run_id i.reference
            (put_all E later (put_evidence E i (put_all E before [])).1)
          ≡ some r)
        × (is_intact E r ≡ true)
  unfolding get_evidence
  put_evidence-get_evidence before later i r e =
      let s = put_all E before [] in
      let stored = put-stored i r s (put_all-AreIntact before [] tt) e in
      let still = put_all-get (key_of i) r later (put_evidence E i s).1 stored.0 in
      (rw (still, stored.1) refl, stored.1)
