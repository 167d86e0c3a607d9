-- ===== src/Gateway/Leases/Exclusive.antt =====
-- The active lease of a run through every call and every history of calls
-- (apps/website-gateway/src/stores/leases.ts).
use text.Mathlib.TextEquality.{eq_iff}
use page2web_mcp.Common.{
  ℕ, ◌+◌, ◌≡◌, inl, inr, refl, sym, ◌∙◌, ap, String, true, Option, none, some, List, [], ◌∷◌, arith,
  is_some, some_inj, none≢some, Bool-cases, ok, gets, raise_if, ◌>>=◌, ◌>>◌,
}
use page2web_mcp.Common.Dict.{get, get-delete, get-delete-some}
use page2web_mcp.Common.Throwing.Keeps.{Keeps, bind-Keeps, keeps_rules}
use page2web_mcp.Gateway.Leases.{
  LeaseClaimInput, LeaseRecord, LeaseStore, LeaseCall, claims, releases, reads, lease_held,
  without_lease, drop, is_active, live, grant, claim, release, active, lease_step, lease_steps,
  empty_lease_store,
}
use page2web_mcp.Gateway.Leases.Live.{
  IsLive, IsExclusive, IsFree, is_active_lem, grant-IsExclusive, live-IsExclusive, live-IsFree,
}

module _ (now : ℕ) where
  module _ (uuid : ℕ → String) where
    granted :
        (i : LeaseClaimInput) (expiry : ℕ) (s : LeaseStore)
        → IsFree now i.ownership.run_id s
        → IsExclusive now (grant uuid i expiry s).1
    unfolding grant ◌>>=◌
    granted i expiry s h = grant-IsExclusive now uuid i expiry s h

    -- After the answer of `live` for the run's active lease.
    held-IsExclusive :
        (i : LeaseClaimInput) (expiry : ℕ) (other : Option LeaseRecord) (s : LeaseStore)
        → IsExclusive now s
        → (other ≡ none → IsFree now i.ownership.run_id s)
        → IsExclusive now ((raise_if (is_some other) lease_held >> grant uuid i expiry) s).1
    unfolding ◌>>=◌
    held-IsExclusive i expiry none s h free = granted i expiry s (free refl)
    held-IsExclusive i expiry (some r) s h free = h

    take-IsExclusive :
        (i : LeaseClaimInput) (expiry : ℕ)
        → Keeps (IsExclusive now) (
            gets (λ s. get i.ownership.run_id s.active_by_run) >>= λ held.
            live now held >>= λ other. raise_if (is_some other) lease_held >> grant uuid i expiry)
    unfolding ◌>>=◌
    take-IsExclusive i expiry = record {
      at = λ s h.
          let held = get i.ownership.run_id s.active_by_run in
          bind-Keeps (IsExclusive now) (live now held) _ s ((live-IsExclusive now held).at s h)
            λ other e.
              held-IsExclusive i expiry other (live now held s).1
                ((live-IsExclusive now held).at s h)
                λ p. live-IsFree now i.ownership.run_id s h (e ∙ ap ok p);
    }

    claim-IsExclusive : (i : LeaseClaimInput) → Keeps (IsExclusive now) (claim uuid now i)
    unfolding claim
    claim-IsExclusive i = search (take-IsExclusive, live-IsExclusive, keeps_rules) depth 16

  released-IsExclusive :
      (id : String) (r : LeaseRecord) (s : LeaseStore)
      → IsExclusive now s
      → is_active r.ownership.run_id id s ≡ true
      → IsExclusive now (without_lease id r s)
  released-IsExclusive id r s h e = record {
    active = λ j q l.
        let old = get-delete-some id j s.by_lease_id l.0 in
        let there = h.active j q (old.1, l.1) in
        ground (
          arith,
          old.0,
          there,
          get-delete r.ownership.run_id q.ownership.run_id s.active_by_run,
          eq_iff r.ownership.run_id q.ownership.run_id,
          is_active_lem r.ownership.run_id id s e,
        );
    keyed = λ j q e. h.keyed j q (get-delete-some id j s.by_lease_id e).1;
  }

  drop-IsExclusive : (id : String) (r : LeaseRecord) → Keeps (IsExclusive now) (drop id r)
  unfolding drop
  drop-IsExclusive id r = record { at = at }
    where
      at : (s : LeaseStore) → IsExclusive now s → IsExclusive now (drop id r s).1
      at s h = elim (Bool-cases (is_active r.ownership.run_id id s)) [
        | inl e ↦ rw e (released-IsExclusive id r s h e)
        | inr e ↦ rw e h
      ]

  release-IsExclusive : (id : String) → Keeps (IsExclusive now) (release now id)
  unfolding release
  release-IsExclusive id = search (drop-IsExclusive, live-IsExclusive, keeps_rules) depth 16

  pub lease_step-IsExclusive :
      (uuid : ℕ → String) (c : LeaseCall) (s : LeaseStore)
      → IsExclusive now s
      → IsExclusive now (lease_step uuid now c s)
  unfolding lease_step active
  lease_step-IsExclusive uuid (claims i) s h = (claim-IsExclusive uuid i).at s h
  lease_step-IsExclusive uuid (releases id) s h = (release-IsExclusive id).at s h
  lease_step-IsExclusive uuid (reads id) s h = (live-IsExclusive now (some id)).at s h

later-IsExclusive :
    (now elapsed : ℕ) (s : LeaseStore) → IsExclusive now s → IsExclusive (now + elapsed) s
later-IsExclusive now elapsed s h = record {
  active = λ id r l. h.active id r (l.0, omega (arith, l.1));
  keyed = h.keyed;
}

lease_steps-IsExclusive :
    (uuid : ℕ → String) (cs : List (ℕ × LeaseCall)) (now : ℕ) (s : LeaseStore)
    → IsExclusive now s
    → IsExclusive (lease_steps uuid cs now s).0 (lease_steps uuid cs now s).1
unfolding lease_steps
lease_steps-IsExclusive uuid [] now s h = h
lease_steps-IsExclusive uuid ((elapsed, c) ∷ cs) now s h =
    lease_steps-IsExclusive uuid cs (now + elapsed) _
      (lease_step-IsExclusive (now + elapsed) uuid c s (later-IsExclusive now elapsed s h))

-- Whatever was claimed, released and read before, at times that never go back, two stored leases
-- that have not run out and belong to the same run are the same lease.
pub lease_steps-one_live :
    (uuid : ℕ → String) (cs : List (ℕ × LeaseCall)) (start : ℕ) (a b : String) (q r : LeaseRecord)
    → IsLive
        (lease_steps uuid cs start empty_lease_store).0
        (lease_steps uuid cs start empty_lease_store).1
        a
        q
    → IsLive
        (lease_steps uuid cs start empty_lease_store).0
        (lease_steps uuid cs start empty_lease_store).1
        b
        r
    → q.ownership.run_id ≡ r.ownership.run_id
    → a ≡ b
unfolding get
lease_steps-one_live uuid cs start a b q r l k same =
    let h = lease_steps-IsExclusive uuid cs start empty_lease_store (record {
      active = λ id r l. absurd (none≢some l.0);
      keyed = λ id r e. absurd (none≢some e);
    }) in
    some_inj (sym (h.active a q l) ∙ rw same (h.active b r k))
