-- ===== src/Gateway/Egress/Checks.antt =====
-- The check of a request against an independent description, and revoked policies
-- (apps/website-gateway/src/stores/enforcement.ts).
use mathlib.Core.Bool.{true≢false}
use text.Mathlib.TextBridge.{IsPrefix}
use text.Mathlib.Text.{◌==◌ as str_eq}
use text.Mathlib.TextEquality.{eq_iff, starts_with_iff}
use page2web_mcp.Common.{
  ℕ, ◌<◌, ◌≡◌, ◌⊎◌, ◌↔◌, refl, sym, ◌∙◌, subst, inl, inr, String, Bool, true, false, not,
  and-eq-true, none≢some, some_inj, ◌&&◌, none, some, List, [], ◌∷◌, leb, any, arith, Bool-cases,
  Option-cases,
}
use page2web_mcp.Common.Dict.{get, delete, values, get-delete-some}
use page2web_mcp.Gateway.Egress.{
  EgressRoute, EnforcedPolicy, ParsedUrl, EgressRequest, Installed, revoke, route_allows, scan,
  check,
}

-- The policy has not run out and has a route for the request.
abbrev permits : ℕ → String → ParsedUrl → EnforcedPolicy → Bool
permits now method u p = not (leb p.expires_at_ms now) && any (route_allows method u) p.routes

scan_lem :
    (now : ℕ) (method : String) (u : ParsedUrl) (ps : List EnforcedPolicy) (s : Installed)
    → (scan now method u ps s).0 ≡ any (permits now method u) ps
unfolding scan
scan_lem now method u [] s = refl
scan_lem now method u (p ∷ ps) s =
    ground (arith, scan_lem now method u ps s, scan_lem now method u ps (delete p.reference s))

-- A member of the list has the property.
module _ {A : Type 0} where
  abbrev pub Some : (A → Type 0) → List A → Type 0
  Some P [] = ⊥
  Some P (x ∷ xs) = P x ⊎ Some P xs

module _ {A : Type 0} (p : A → Bool) (P : A → Type 0) (same : (x : A) → (p x ≡ true) ↔ P x) where
  any-Some : (xs : List A) → (any p xs ≡ true) ↔ Some P xs
  any-Some [] = ((λ e. true≢false (sym e)), (λ h. absurd h))
  any-Some (x ∷ xs) =
      let rest = any-Some xs in
      (
        (λ e. elim (Bool-cases (p x)) [
          | inl a ↦ inl ((same x).0 a)
          | inr a ↦ inr (rest.0 (rw a at e))
        ]),
        (λ h. elim h [ inl a ↦ rw ((same x).1 a) refl | inr a ↦ ground (arith, rest.1 a) ]),
      )

-- The route is of the URL's origin, names the method, and has a prefix of the path.
abbrev pub IsAllowed : String → ParsedUrl → EgressRoute → Type 0
IsAllowed method u r =
    (r.origin ≡ u.origin) × Some (λ m. m ≡ method) r.methods × IsPrefix r.path_prefix u.pathname

-- The policy has not run out and has a route for the request.
abbrev pub IsPermitted : ℕ → String → ParsedUrl → EnforcedPolicy → Type 0
IsPermitted now method u p = (now < p.expires_at_ms) × Some (IsAllowed method u) p.routes

route_allows_lem :
    (method : String) (u : ParsedUrl) (r : EgressRoute)
    → (route_allows method u r ≡ true) ↔ IsAllowed method u r
route_allows_lem method u r = (into, from)
  where
    methods : (any (λ m. str_eq m method) r.methods ≡ true) ↔ Some (λ m. m ≡ method) r.methods
    methods = any-Some _ (λ m. m ≡ method) (λ m. eq_iff m method) r.methods

    into : route_allows method u r ≡ true → IsAllowed method u r
    into e =
        let a = and-eq-true _ _ e in
        let b = and-eq-true _ _ a.0 in
        (
          (eq_iff r.origin u.origin).0 b.0,
          methods.0 b.1,
          (starts_with_iff u.pathname r.path_prefix).0 a.1,
        )

    from : IsAllowed method u r → route_allows method u r ≡ true
    from h =
        rw
          (
            (eq_iff r.origin u.origin).1 h.0,
            methods.1 h.1,
            (starts_with_iff u.pathname r.path_prefix).1 h.2,
          )
          refl

permits_lem :
    (now : ℕ) (method : String) (u : ParsedUrl) (p : EnforcedPolicy)
    → (permits now method u p ≡ true) ↔ IsPermitted now method u p
permits_lem now method u p = (into, from)
  where
    routes : (any (route_allows method u) p.routes ≡ true) ↔ Some (IsAllowed method u) p.routes
    routes = any-Some _ (IsAllowed method u) (route_allows_lem method u) p.routes

    into : permits now method u p ≡ true → IsPermitted now method u p
    into e =
        let a = and-eq-true (not (leb p.expires_at_ms now)) _ e in
        (ground (arith, a.0), routes.0 a.1)

    from : IsPermitted now method u p → permits now method u p ≡ true
    from h =
        let a : leb p.expires_at_ms now ≡ false = ground (arith, h.0) in rw (a, routes.1 h.1) refl

-- The URL parses, and one of the policies permits the request.
abbrev pub IsPassed : EgressRequest → List EnforcedPolicy → Type 0
IsPassed q ps = (u : ParsedUrl) × (q.url ≡ some u) × Some (IsPermitted q.now q.method u) ps

scan_iff :
    (now : ℕ) (method : String) (u : ParsedUrl) (ps : List EnforcedPolicy) (s : Installed)
    → ((scan now method u ps s).0 ≡ true) ↔ Some (IsPermitted now method u) ps
scan_iff now method u ps s =
    let same = scan_lem now method u ps s in
    let found = any-Some _ (IsPermitted now method u) (permits_lem now method u) ps in
    ((λ e. found.0 (sym same ∙ e)), (λ h. same ∙ found.1 h))

-- A request passes the check exactly if its URL parses and some installed policy that has not run
-- out has a route of the URL's origin that names the request's method and whose path prefix, with
-- some rest behind it, is the URL's path.
pub check_lem : (q : EgressRequest) (s : Installed) → ((check q s).0 ≡ true) ↔ IsPassed q (values s)
unfolding check
check_lem q s = elim (Option-cases q.url) [
  | inl n ↦ ((λ e. absurd (true≢false (sym (rw n at e)))), (λ h. absurd (none≢some (sym n ∙ h.1))))
  | inr (u, n) ↦
      let found = scan_iff q.now q.method u (values s) s in
      (
        (λ e. (u, n, found.0 (rw n at e))),
        (λ h.
            let same : h.0 ≡ u = some_inj (sym h.1 ∙ n) in
            rw n (found.1 (subst (λ v. Some (IsPermitted q.now q.method v) (values s)) same h.2))),
      )
]

scan_keeps :
    (now : ℕ) (method : String) (u : ParsedUrl) (ps : List EnforcedPolicy) (s : Installed)
    (k : String) (p : EnforcedPolicy)
    → get k (scan now method u ps s).1 ≡ some p
    → get k s ≡ some p
unfolding scan
scan_keeps now method u [] s k p e = e
scan_keeps now method u (x ∷ ps) s k p e = elim (Bool-cases (leb x.expires_at_ms now)) [
  | inl t ↦
      let there = scan_keeps now method u ps (delete x.reference s) k p (rw t at e) in
      (get-delete-some x.reference k s there).1
  | inr t ↦ elim (Bool-cases (any (route_allows method u) x.routes)) [
    | inl a ↦ rw (t, a) at e
    | inr a ↦ scan_keeps now method u ps s k p (rw (t, a) at e)
  ]
]

check_keeps :
    (q : EgressRequest) (s : Installed) (k : String) (p : EnforcedPolicy)
    → get k (check q s).1 ≡ some p
    → get k s ≡ some p
unfolding check
check_keeps q s k p e = elim (Option-cases q.url) [
  | inl n ↦ rw n at e
  | inr (u, n) ↦ scan_keeps q.now q.method u (values s) s k p (rw n at e)
]

abbrev pub checks : List EgressRequest → Installed → Installed
checks [] s = s
checks (q ∷ qs) s = checks qs (check q s).1

checks_keep :
    (qs : List EgressRequest) (s : Installed) (k : String) (p : EnforcedPolicy)
    → get k (checks qs s) ≡ some p
    → get k s ≡ some p
checks_keep [] s k p e = e
checks_keep (q ∷ qs) s k p e = check_keeps q s k p (checks_keep qs (check q s).1 k p e)

-- A check installs nothing: a policy that was revoked is not there after any number of checks.
pub checks-revoke :
    (qs : List EgressRequest) (s : Installed) (reference : String)
    → get reference (checks qs (revoke reference s).1) ≡ none
checks-revoke qs s reference =
    elim (Option-cases (get reference (checks qs (revoke reference s).1))) [
      | inl e ↦ e
      | inr (p, e) ↦
          let there = checks_keep qs (revoke reference s).1 reference p e in
          absurd ((get-delete-some reference reference s there).0 refl)
    ]
