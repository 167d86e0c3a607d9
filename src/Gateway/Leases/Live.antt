-- ===== src/Gateway/Leases/Live.antt =====
-- The function `live`, and the write of a new lease
-- (apps/website-gateway/src/stores/leases.ts).
use text.Mathlib.Text.{◌==◌ as str_eq}
use text.Mathlib.TextEquality.{eq_iff}
use text.Mathlib.TextPositions.{len-append}
use Prim.Native.String.{len}
use mathlib.Core.Bool.{true≢false}
use page2web_mcp.Common.{
  ℕ, ◌≤◌, ◌<◌, ◌≡◌, ◌≢◌, ◌⊎◌, inl, inr, refl, sym, ◌∙◌, ap, subst, String, true, Option, none, some,
  arith, leb, none≢some, Bool-cases, Option-cases, ok, ◌>>=◌, leb→le, ne_true, Result,
}
use page2web_mcp.Common.Dict.{
  get, set, get-set_self, get-set_ne, get-set_cases, get-delete, get-delete-some,
}
use page2web_mcp.Common.Throwing.Keeps.{Keeps}
use page2web_mcp.Workflow.Store.{◌^^◌}
use page2web_mcp.Gateway.Leases.{
  LeaseClaimInput, LeaseRecord, LeaseStore, LeaseRejected, is_active, forget, unless_expired, live,
  named, with_lease, leased_record,
}

-- A stored lease that has not run out.
abbrev pub IsLive : ℕ → LeaseStore → String → LeaseRecord → Type 0
IsLive now s id r = (get id s.by_lease_id ≡ some r) × (now < r.expires_at_ms)

-- Each live lease is the active one of its run, under its own id, which is not empty.
pub record IsExclusive (now : ℕ) (s : LeaseStore) : Type 0 where
  pub active :
      (id : String) (r : LeaseRecord)
      → IsLive now s id r
      → get r.ownership.run_id s.active_by_run ≡ some id
  pub keyed :
      (id : String) (r : LeaseRecord)
      → get id s.by_lease_id ≡ some r
      → (r.lease_id ≡ id) × (id ≢ "")

pub lease_id_ne_empty : (u : String) → ("lease-" ^^ u) ≢ ""
lease_id_ne_empty u e = absurd (omega (arith, len-append "lease-" u, ap len e))

pub is_active_lem :
    (run id : String) (s : LeaseStore)
    → is_active run id s ≡ true
    → get run s.active_by_run ≡ some id
is_active_lem run id s e = elim (Option-cases (get run s.active_by_run)) [
  | inl p ↦ absurd (true≢false (sym e ∙ rw p refl))
  | inr (a, p) ↦ p ∙ ap some ((eq_iff a id).0 (rw p at e))
]

pub named_lem : (id : String) → id ≢ "" → named (some id) ≡ some id
named_lem id n = rw (ne_true (str_eq id "") (λ t. n ((eq_iff id "").0 t))) refl

module _ (now : ℕ) where
  pub forget-IsExclusive :
      (id : String) (r : LeaseRecord) (s : LeaseStore)
      → r.expires_at_ms ≤ now
      → get id s.by_lease_id ≡ some r
      → IsExclusive now s
      → IsExclusive now (forget id r s)
  unfolding forget
  forget-IsExclusive id r s expired found h = record {
    active = λ j q l.
        let old = get-delete-some id j s.by_lease_id l.0 in
        let there = h.active j q (old.1, l.1) in
        ground (
          arith,
          old.0,
          there,
          get-delete r.ownership.run_id q.ownership.run_id s.active_by_run,
          eq_iff r.ownership.run_id q.ownership.run_id,
          is_active_lem r.ownership.run_id id s,
        );
    keyed = λ j q e. h.keyed j q (get-delete-some id j s.by_lease_id e).1;
  }

  -- Of the run no lease is live.
  pub record IsFree (run : String) (s : LeaseStore) : Type 0 where
    pub exclusive : IsExclusive now s
    pub none_live : (id : String) (r : LeaseRecord) → IsLive now s id r → r.ownership.run_id ≢ run

  pub grant-IsExclusive :
      (uuid : ℕ → String) (i : LeaseClaimInput) (expiry : ℕ) (s : LeaseStore)
      → IsFree i.ownership.run_id s
      → IsExclusive now (with_lease i expiry ("lease-" ^^ uuid s.uuids) s)
  grant-IsExclusive uuid i expiry s h = record {
    active = λ j q l.
        set_active j q l.1 (get-set_cases _ j (leased_record i expiry _) s.by_lease_id l.0);
    keyed = λ j q e. set_keyed j q (get-set_cases _ j (leased_record i expiry _) s.by_lease_id e);
  }
    where
      lease : String
      lease = "lease-" ^^ uuid s.uuids

      set_active :
          (j : String) (q : LeaseRecord)
          → now < q.expires_at_ms
          → ((lease ≡ j) × (leased_record i expiry lease ≡ q))
            ⊎ ((lease ≢ j) × (get j s.by_lease_id ≡ some q))
          → get q.ownership.run_id (set i.ownership.run_id lease s.active_by_run) ≡ some j
      set_active j q l (inl (p, e)) =
          subst
            (λ (x : LeaseRecord).
              get x.ownership.run_id (set i.ownership.run_id lease s.active_by_run) ≡ some j)
            e (get-set_self i.ownership.run_id lease s.active_by_run ∙ ap some p)
      set_active j q l (inr (p, e)) =
          get-set_ne i.ownership.run_id q.ownership.run_id lease s.active_by_run
            (λ same. h.none_live j q (e, l) (sym same))
          ∙ h.exclusive.active j q (e, l)

      set_keyed :
          (j : String) (q : LeaseRecord)
          → ((lease ≡ j) × (leased_record i expiry lease ≡ q))
            ⊎ ((lease ≢ j) × (get j s.by_lease_id ≡ some q))
          → (q.lease_id ≡ j) × (j ≢ "")
      set_keyed j q (inl (p, e)) = (
        sym (ap (λ (x : LeaseRecord). x.lease_id) e) ∙ p,
        λ z. lease_id_ne_empty (uuid s.uuids) (p ∙ z),
      )
      set_keyed j q (inr (p, e)) = h.exclusive.keyed j q e

  unless_expired-IsExclusive :
      (id : String) (r : LeaseRecord) (s : LeaseStore)
      → get id s.by_lease_id ≡ some r
      → IsExclusive now s
      → IsExclusive now (unless_expired now id r s).1
  unfolding unless_expired
  unless_expired-IsExclusive id r s found h = elim (Bool-cases (leb r.expires_at_ms now)) [
    | inl e ↦ rw e (forget-IsExclusive id r s (leb→le r.expires_at_ms now e) found h)
    | inr e ↦ rw e h
  ]

  pub live-IsExclusive : (o : Option String) → Keeps (IsExclusive now) (live now o)
  unfolding live ◌>>=◌
  live-IsExclusive o = record { at = at }
    where
      at : (s : LeaseStore) → IsExclusive now s → IsExclusive now (live now o s).1
      at s h = elim (Option-cases (named o)) [
        | inl e ↦ rw e h
        | inr (id, e) ↦ elim (Option-cases (get id s.by_lease_id)) [
          | inl p ↦ rw (e, p) h
          | inr (r, p) ↦ rw (e, p) (unless_expired-IsExclusive id r s p h)
        ]
      ]

  -- `live` makes no lease live.
  live_before :
      (o : Option String) (s : LeaseStore) (id : String) (r : LeaseRecord)
      → IsLive now (live now o s).1 id r
      → IsLive now s id r
  unfolding live unless_expired forget ◌>>=◌
  live_before o s id r l = elim (Option-cases (named o)) [
    | inl e ↦ rw e at l
    | inr (k, e) ↦ elim (Option-cases (get k s.by_lease_id)) [
      | inl p ↦ rw (e, p) at l
      | inr (q, p) ↦ elim (Bool-cases (leb q.expires_at_ms now)) [
        | inl t ↦
            let m : IsLive now (forget k q s) id r = rw (e, p, t) at l in
            ((get-delete-some k id s.by_lease_id m.0).1, m.1)
        | inr t ↦ rw (e, p, t) at l
      ]
    ]
  ]

  -- What `live` answers none for has no live lease behind it afterwards.
  live-none :
      (id : String) (s : LeaseStore)
      → id ≢ ""
      → (live now (some id) s).0 ≡ ok none
      → (r : LeaseRecord) → ¬ IsLive now (live now (some id) s).1 id r
  unfolding live unless_expired forget ◌>>=◌
  live-none id s n e r l = elim (Option-cases (get id s.by_lease_id)) [
    | inl p ↦ none≢some (sym p ∙ (live_before (some id) s id r l).0)
    | inr (q, p) ↦ elim (Bool-cases (leb q.expires_at_ms now)) [
      | inl t ↦
          let m : IsLive now (forget id q s) id r = rw (named_lem id n, p, t) at l in
          (get-delete-some id id s.by_lease_id m.0).0 refl
      | inr t ↦
          let m : ◌≡◌ {A = Result LeaseRejected (Option LeaseRecord)} (ok (some q)) (ok none) =
            rw (named_lem id n, p, t) at e in
          cc
    ]
  ]

  pub live-IsFree :
      (run : String) (s : LeaseStore)
      → IsExclusive now s
      → (live now (get run s.active_by_run) s).0 ≡ ok none
      → IsFree run (live now (get run s.active_by_run) s).1
  live-IsFree run s h e = record {
    exclusive = (live-IsExclusive (get run s.active_by_run)).at s h;
    none_live = none_live;
  }
    where
      none_live :
          (id : String) (r : LeaseRecord)
          → IsLive now (live now (get run s.active_by_run) s).1 id r
          → r.ownership.run_id ≢ run
      none_live id r l same =
          let before = live_before (get run s.active_by_run) s id r l in
          let held : get run s.active_by_run ≡ some id = rw same at (h.active id r before) in
          live-none id s (h.keyed id r before.0).1 (rw held at e) r (rw held at l)
