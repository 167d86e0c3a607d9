-- ===== src/Gateway/Ownership/Challenges.antt =====
-- What the ownership store reports (apps/website-gateway/src/stores/ownership.ts).
use text.Mathlib.TextEquality.{eq_iff}
use text.Mathlib.TextPositions.{eq_refl}
use mathlib.Core.Bool.{true≢false}
use page2web_mcp.Common.{
  ℕ, ◌≤◌, ◌<◌, String, ◌≡◌, refl, sym, ap, ◌∙◌, ◌≢◌, inl, inr, true, none, some, List, [], ◌∷◌, leb,
  and-eq-true, arith, Bool-cases, Option-cases, none≢some, some_inj,
}
use page2web_mcp.Common.Dict.{Dict, get, delete, get-delete, get-delete-some}
use page2web_mcp.Gateway.Ownership.{
  missing, expired, recorded, verified, is_verified, RecordState, AttestationRecord,
  OwnershipBinding, OwnershipStore, OwnershipQuery, key, live, status, proves, search,
  find_verified, identities,
}

-- What `live` finds is stored, and has not run out.
live-stored :
    (identity : String) (now : ℕ) (s : OwnershipStore) (r : AttestationRecord)
    → (live identity now s).0 ≡ some r
    → (get identity s.records ≡ some r) × (now < r.expires_at_ms)
unfolding live
live-stored identity now s r e = elim (Option-cases (get identity s.records)) [
  | inl n ↦ absurd (none≢some (rw n at e))
  | inr (x, n) ↦ elim (Bool-cases (leb x.expires_at_ms now)) [
    | inl t ↦ absurd (none≢some (rw (n, t) at e))
    | inr t ↦
        let same : x ≡ r = some_inj (rw (n, t) at e) in
        (rw (sym same) n, rw (sym same) (ground arith))
  ]
]

deleted : (k : String) (m : Dict AttestationRecord) → get k (delete k m) ≡ none
deleted k m = rw (get-delete k k m, eq_refl k) refl

-- Where `live` finds nothing, nothing is left under the key.
live-gone :
    (identity : String) (now : ℕ) (s : OwnershipStore)
    → (live identity now s).0 ≡ none
    → get identity (live identity now s).1.records ≡ none
unfolding live
live-gone identity now s e = elim (Option-cases (get identity s.records)) [
  | inl n ↦ rw n n
  | inr (x, n) ↦ elim (Bool-cases (leb x.expires_at_ms now)) [
    | inl t ↦ rw (n, t) (deleted identity s.records)
    | inr t ↦ absurd (none≢some (sym (rw (n, t) at e)))
  ]
]

-- What is found after `live` was there before.
live_keeps :
    (identity j : String) (now : ℕ) (s : OwnershipStore) (r : AttestationRecord)
    → get j (live identity now s).1.records ≡ some r
    → get j s.records ≡ some r
unfolding live
live_keeps identity j now s r e = elim (Option-cases (get identity s.records)) [
  | inl n ↦ rw n at e
  | inr (x, n) ↦ elim (Bool-cases (leb x.expires_at_ms now)) [
    | inl t ↦ (get-delete-some identity j s.records (rw (n, t) at e)).1
    | inr t ↦ rw (n, t) at e
  ]
]

not_recorded : (r : RecordState) → recorded r ≢ expired
not_recorded r e = cc

not_reported : missing ≢ expired
not_reported e = cc

never_expired :
    (b : OwnershipBinding) (now : ℕ) (s : OwnershipStore) → (status b now s).0.state ≢ expired
unfolding status
never_expired b now s e = elim (Option-cases (live (key b) now s).0) [
  | inl n ↦ not_reported (rw (n, live-gone (key b) now s n, status) at e)
  | inr (r, n) ↦ not_recorded r.state (rw (n, status) at e)
]

-- Where the record of a binding has run out, the status of the binding is missing, and the record
-- is gone.
status-run_out :
    (b : OwnershipBinding) (now : ℕ) (s : OwnershipStore) (r : AttestationRecord)
    → get (key b) s.records ≡ some r
    → r.expires_at_ms ≤ now
    → ((status b now s).0.state ≡ missing) × (get (key b) (status b now s).1.records ≡ none)
unfolding status live
status-run_out b now s r e h =
    let over : leb r.expires_at_ms now ≡ true = ground (arith, h) in
    let nothing : (live (key b) now s).0 ≡ none = rw (e, over, live) refl in
    let gone = live-gone (key b) now s nothing in
    (rw (nothing, gone, status) refl, rw (nothing, status) gone)

-- The status of a binding is never reported as expired, at no time and in no store; where the
-- record of the binding has run out, the status is missing, and the record is gone afterwards.
pub status-not_expired :
    (b : OwnershipBinding) (now : ℕ) (s : OwnershipStore)
    → ((status b now s).0.state ≢ expired)
      × ((r : AttestationRecord)
          → get (key b) s.records ≡ some r
          → r.expires_at_ms ≤ now
          → ((status b now s).0.state ≡ missing) × (get (key b) (status b now s).1.records ≡ none))
status-not_expired b now s = (never_expired b now s, status-run_out b now s)

verified_inv : (x : RecordState) → is_verified x ≡ true → x ≡ verified
verified_inv verified e = refl
verified_inv _ e = absurd (true≢false (sym e))

-- The record is stored, has not run out, has the state verified, and is of the organisation, the
-- project and the origin asked for.
pub record IsProof (q : OwnershipQuery) (now : ℕ) (s : OwnershipStore) (r : AttestationRecord)
    : Type 0 where
  pub identity : String
  pub stored : get identity s.records ≡ some r
  pub in_time : now < r.expires_at_ms
  pub settled : r.state ≡ verified
  pub of_organization : r.organization_id ≡ q.organization_id
  pub of_project : r.project_id ≡ q.project_id
  pub of_origin : r.challenge.target_origin ≡ q.target_origin

keeps-IsProof :
    (q : OwnershipQuery) (i : String) (now : ℕ) (s : OwnershipStore) (r : AttestationRecord)
    → IsProof q now (live i now s).1 r
    → IsProof q now s r
keeps-IsProof q i now s r p = record {
  identity = p.identity;
  stored = live_keeps i p.identity now s r p.stored;
  in_time = p.in_time;
  settled = p.settled;
  of_organization = p.of_organization;
  of_project = p.of_project;
  of_origin = p.of_origin;
}

proof :
    (q : OwnershipQuery) (now : ℕ) (s : OwnershipStore) (i : String) (r : AttestationRecord)
    → (get i s.records ≡ some r) × (now < r.expires_at_ms)
    → proves q r ≡ true
    → IsProof q now s r
proof q now s i r found t =
    let a = and-eq-true _ _ t in
    let b = and-eq-true _ _ a.0 in
    let c = and-eq-true _ _ b.0 in
    record {
      identity = i;
      stored = found.0;
      in_time = found.1;
      settled = verified_inv r.state c.0;
      of_organization = (eq_iff r.organization_id q.organization_id).0 c.1;
      of_project = (eq_iff r.project_id q.project_id).0 b.1;
      of_origin = (eq_iff r.challenge.target_origin q.target_origin).0 a.1;
    }

search-IsProof :
    (q : OwnershipQuery) (now : ℕ) (ids : List String) (s : OwnershipStore) (r : AttestationRecord)
    → (search q now ids s).0 ≡ some r
    → IsProof q now s r
unfolding search
search-IsProof q now [] s r e = absurd (none≢some e)
search-IsProof q now (i ∷ ids) s r e =
    let later = λ (f : (search q now ids (live i now s).1).0 ≡ some r).
      keeps-IsProof q i now s r (search-IsProof q now ids (live i now s).1 r f) in
    elim (Option-cases (live i now s).0) [
      | inl n ↦ later (rw (n, search) at e)
      | inr (x, n) ↦ elim (Bool-cases (proves q x)) [
        | inl t ↦
            let same : x ≡ r = some_inj (rw (n, t, search) at e) in
            let found = live-stored i now s r (n ∙ ap some same) in
            proof q now s i r found (rw (sym same) t)
        | inr t ↦ later (rw (n, t, search) at e)
      ]
    ]

-- An ownership that is reported as verified has its record in the store: one that is in the state
-- verified, has not run out, and is of the organisation, the project and the origin asked for.
pub find_verified-IsProof :
    (q : OwnershipQuery) (now : ℕ) (s : OwnershipStore) (r : AttestationRecord)
    → (find_verified q now s).0 ≡ some r
    → IsProof q now s r
unfolding find_verified
find_verified-IsProof q now s r e = search-IsProof q now (identities s.records) s r e
