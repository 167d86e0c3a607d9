-- ===== src/Gateway/Policies/Confined.antt =====
-- The routes of the stored policies, and what is live among them
-- (apps/website-gateway/src/stores/policies.ts).
use mathlib.Core.Bool.{true≢false}
use text.Mathlib.TextEquality.{eq_iff}
use page2web_mcp.Common.{
  ℕ, ◌+◌, ◌*◌, ◌<◌, ◌≡◌, refl, sym, ap, String, Bool, true, false, not, none, some, List, [], ◌∷◌,
  arith, and-eq-true, Option-cases, inl, inr, ◌>>=◌,
}
use page2web_mcp.Common.Dict.{get, get-set_self, Entries, Entries-set, Entries-get}
use page2web_mcp.Common.Throwing.Keeps.{
  Keeps, Keeps-bind, Keeps-bind_raise_if, Keeps-bind_gets, Keeps-modify, Keeps-when_some,
  Keeps-or_run, keeps_rules,
}
use page2web_mcp.Gateway.Egress.{EgressRoute}
use page2web_mcp.Gateway.Policies.{
  PolicyIssueInput, PolicyRecord, PolicyStore, PolicyCall, issues, revokes, same_texts, same_route,
  read_route, valid_routes, issued, issue, live, revoke, policy_steps, empty_policy_store,
}

same_texts_eq : (xs ys : List String) → same_texts xs ys ≡ true → xs ≡ ys
same_texts_eq [] [] e = refl
same_texts_eq [] (y ∷ ys) e = absurd (true≢false (sym e))
same_texts_eq (x ∷ xs) [] e = absurd (true≢false (sym e))
same_texts_eq (x ∷ xs) (y ∷ ys) e = ground (arith, eq_iff x y, same_texts_eq xs ys)

same_route_eq : (a b : EgressRoute) → same_route a b ≡ true → a ≡ b
same_route_eq a b e = ground (
  arith,
  same_texts_eq a.methods b.methods,
  eq_iff a.origin b.origin,
  eq_iff a.path_prefix b.path_prefix,
)

valid_routes_lem :
    (rs : List EgressRoute) (origin : String)
    → valid_routes rs origin ≡ true
    → rs ≡ read_route origin ∷ []
unfolding valid_routes
valid_routes_lem [] origin e = absurd (true≢false (sym e))
valid_routes_lem (r ∷ []) origin e =
    ap (λ x. x ∷ []) (same_route_eq r (read_route origin) (and-eq-true _ true e).0)
valid_routes_lem (r ∷ q ∷ rs) origin e =
    absurd (true≢false (sym (and-eq-true (same_route r (read_route origin)) false e).1))

-- The policy has one route, which reads from its target origin only.
pub record IsConfined (k : String) (p : PolicyRecord) : Type 0 where
  pub keyed : p.reference ≡ k
  pub confined : p.routes ≡ read_route p.target_origin ∷ []

abbrev AreConfined : PolicyStore → Type 0
AreConfined s = Entries IsConfined s.by_reference

issue-AreConfined :
    (uuid : ℕ → String) (now : ℕ) (i : PolicyIssueInput) → Keeps AreConfined (issue uuid now i)
unfolding issue
issue-AreConfined uuid now i = Keeps-bind _ _ (search keeps_rules) λ _.
    Keeps-bind_raise_if _ _ _ λ e. Keeps-bind _ _ (search keeps_rules) λ ttl.
      Keeps-bind _ _ (search keeps_rules) λ _. Keeps-bind _ _ (search keeps_rules) λ old.
        Keeps-or_run _ _ (
          Keeps-bind _ _ (search keeps_rules) λ reference.
            Keeps-bind _ _
              (Keeps-modify _ λ s h.
                Entries-set IsConfined reference (issued i (now + ttl * 1000) reference)
                  s.by_reference
                  (record {
                    keyed = refl;
                    confined =
                        valid_routes_lem i.routes i.target_origin
                          (passed (valid_routes i.routes i.target_origin) e);
                  })
                  h)
              λ _. search keeps_rules)
  where
    passed : (b : Bool) → not b ≡ false → b ≡ true
    passed b e = ground arith

revoke-AreConfined : (reference : String) → Keeps AreConfined (revoke reference)
unfolding revoke
revoke-AreConfined reference =
    Keeps-bind_gets (λ o. (p : PolicyRecord) → o ≡ some p → IsConfined reference p) _ _
      (λ s h p e. Entries-get IsConfined reference s.by_reference e h)
      λ found confined. Keeps-when_some found _ _ λ p e.
        Keeps-bind _ _
          (Keeps-modify _ λ s h.
            Entries-set IsConfined reference (record p { revoked = true }) s.by_reference
              (record { keyed = (confined p e).keyed; confined = (confined p e).confined }) h)
          λ _. search keeps_rules

pub policy_steps-AreConfined :
    (uuid : ℕ → String) (cs : List PolicyCall) (s : PolicyStore)
    → AreConfined s
    → AreConfined (policy_steps uuid cs s)
unfolding policy_steps
policy_steps-AreConfined uuid [] s h = h
policy_steps-AreConfined uuid (issues now i ∷ cs) s h =
    policy_steps-AreConfined uuid cs _ ((issue-AreConfined uuid now i).at s h)
policy_steps-AreConfined uuid (revokes reference ∷ cs) s h =
    policy_steps-AreConfined uuid cs _ ((revoke-AreConfined reference).at s h)

live_found :
    (now : ℕ) (reference : String) (s : PolicyStore) (p : PolicyRecord)
    → live now reference s ≡ some p
    → (get reference s.by_reference ≡ some p) × (p.revoked ≡ false) × (now < p.expires_at_ms)
unfolding live
live_found now reference s p e = ground arith

-- Whatever was issued and revoked before, a policy that is live under a reference has that
-- reference, is not revoked, has not run out, and has exactly one route, which lets GET and HEAD
-- through to its target origin.
pub live-IsConfined :
    (uuid : ℕ → String) (cs : List PolicyCall) (now : ℕ) (reference : String) (p : PolicyRecord)
    → live now reference (policy_steps uuid cs empty_policy_store) ≡ some p
    → (p.revoked ≡ false) × (now < p.expires_at_ms) × IsConfined reference p
live-IsConfined uuid cs now reference p e =
    let s = policy_steps uuid cs empty_policy_store in
    let found = live_found now reference s p e in
    (
      found.1,
      found.2,
      Entries-get IsConfined reference s.by_reference found.0
          (policy_steps-AreConfined uuid cs empty_policy_store tt),
    )

-- Once a policy is revoked nothing is live under its reference, at any time.
pub revoke-live :
    (reference : String) (s : PolicyStore) (now : ℕ)
    → live now reference (revoke reference s).1 ≡ none
unfolding revoke live ◌>>=◌
revoke-live reference s now = elim (Option-cases (get reference s.by_reference)) [
  | inl e ↦ rw (e, e) refl
  | inr (p, e) ↦ rw (e, get-set_self reference (record p { revoked = true }) s.by_reference) refl
]
