-- ===== src/Gateway/Policies.antt =====
-- `createPolicyStore` of apps/website-gateway/src/stores/policies.ts: the egress policies that the
-- gateway issues. Times are milliseconds; an ISO text of a time is the time itself. `sameJson` on
-- routes is equality of their fields, in order.
pub mod Confined
use text.Mathlib.Text.{◌==◌ as str_eq}
use page2web_mcp.Common.{
  ℕ, ◌+◌, ◌*◌, String, Bool, true, false, not, ◌&&◌, ◌||◌, Option, none, some, List, [], ◌∷◌, leb,
  ltb, ◌==◌, if◌then◌else◌, is_some, Exec, ok, err, pure, gets, or_raise, or_run, when_some,
  raise_if, modify, ◌>>=◌, ◌>>◌,
}
use page2web_mcp.Common.Dict.{Dict, get, set, delete}
use page2web_mcp.Workflow.Store.{◌^^◌}
use page2web_mcp.Gateway.Egress.{EgressRoute}

-- `MAX_POLICY_TTL_MS`
abbrev pub max_policy_ttl_ms : ℕ
max_policy_ttl_ms = 10 * 60000

pub record PolicyIssueInput : Type 0 where
  pub deny_by_default : Bool
  -- `none` where `ttlSeconds` is no whole number or is negative
  pub ttl_seconds : Option ℕ
  pub routes : List EgressRoute
  pub target_origin : String
  pub idempotency_key : String

pub record PolicyRecord : Type 0 where
  pub reference : String
  pub routes : List EgressRoute
  pub target_origin : String
  pub expires_at_ms : ℕ
  pub revoked : Bool

pub data PolicyRejected : Type 0 where
  policy_ttl_invalid policy_routes_invalid : PolicyRejected

pub record PolicyStore : Type 0 where
  pub by_reference : Dict PolicyRecord
  pub by_idempotency_key : Dict String
  pub uuids : ℕ

abbrev pub PolicyMethod : Type 0 → Type 0
PolicyMethod A = Exec PolicyStore PolicyRejected A

abbrev pub same_texts : List String → List String → Bool
same_texts [] [] = true
same_texts (x ∷ xs) (y ∷ ys) = str_eq x y && same_texts xs ys
same_texts _ _ = false

abbrev pub same_route : EgressRoute → EgressRoute → Bool
same_route a b =
    same_texts a.methods b.methods && str_eq a.origin b.origin && str_eq a.path_prefix b.path_prefix

abbrev pub same_routes : List EgressRoute → List EgressRoute → Bool
same_routes [] [] = true
same_routes (x ∷ xs) (y ∷ ys) = same_route x y && same_routes xs ys
same_routes _ _ = false

-- The one route that a policy may have.
abbrev pub read_route : String → EgressRoute
read_route origin = record { methods = "GET" ∷ "HEAD" ∷ []; origin = origin; path_prefix = "/" }

-- `validRoutes`
unfoldable pub valid_routes : List EgressRoute → String → Bool
valid_routes routes origin = same_routes routes (read_route origin ∷ [])

abbrev pub is_live : ℕ → PolicyRecord → Bool
is_live now p = not p.revoked && ltb now p.expires_at_ms

abbrev only_live : ℕ → Option PolicyRecord → Option PolicyRecord
only_live now none = none
only_live now (some p) = if is_live now p then some p else none

-- `live`
unfoldable pub live : ℕ → String → PolicyStore → Option PolicyRecord
live now reference s = only_live now (get reference s.by_reference)

-- `existing ? byReference.get(existing) : undefined`, if it is live.
abbrev pub replayed : ℕ → Option String → PolicyStore → Option PolicyRecord
replayed now none s = none
replayed now (some reference) s =
    if str_eq reference "" then none else only_live now (get reference s.by_reference)

abbrev answer : PolicyRecord → String × ℕ
answer p = (p.reference, p.expires_at_ms)

abbrev answer_of : Option PolicyRecord → Option (String × ℕ)
answer_of none = none
answer_of (some p) = some (answer p)

abbrev pub issued : PolicyIssueInput → ℕ → String → PolicyRecord
issued i expires_at reference = record {
  reference = reference;
  routes = i.routes;
  target_origin = i.target_origin;
  expires_at_ms = expires_at;
  revoked = false;
}

module _ (uuid : ℕ → String) where
  -- `issue`
  unfoldable pub issue : ℕ → PolicyIssueInput → PolicyMethod (String × ℕ)
  unfolding valid_routes
  issue now i = do
    raise_if (not i.deny_by_default) policy_routes_invalid
    raise_if (not (valid_routes i.routes i.target_origin)) policy_routes_invalid
    ttl ← or_raise i.ttl_seconds policy_ttl_invalid
    raise_if (ltb ttl 1 || ltb max_policy_ttl_ms (ttl * 1000)) policy_ttl_invalid
    old ← gets (λ s. replayed now (get i.idempotency_key s.by_idempotency_key) s)
    or_run (answer_of old) do
      reference ← gets (λ s. "secretref:policy." ^^ uuid s.uuids)
      modify (λ s. record {
        by_reference = set reference (issued i (now + ttl * 1000) reference) s.by_reference;
        by_idempotency_key = set i.idempotency_key reference s.by_idempotency_key;
        uuids = s.uuids + 1;
      })
      pure (reference, now + ttl * 1000)

-- `matching`
unfoldable pub matching :
    ℕ → String → List EgressRoute → String → ℕ → PolicyStore → Option PolicyRecord
unfolding live
matching now reference routes origin expires_at s = elim (live now reference s) [
  | none ↦ none
  | some p ↦
      if str_eq p.target_origin origin
        && p.expires_at_ms == expires_at
        && same_routes p.routes routes
      then some p
      else none
]

-- `revoke`
unfoldable pub revoke : String → PolicyMethod Bool
revoke reference = do
  found ← gets (λ s. get {V = PolicyRecord} reference s.by_reference)
  when_some found false λ p. do
    modify (λ s. record s {
      by_reference = set reference (record p { revoked = true }) s.by_reference;
    })
    pure true

pub data PolicyCall : Type 0 where
  issues : ℕ → PolicyIssueInput → PolicyCall
  revokes : String → PolicyCall

module _ (uuid : ℕ → String) where
  unfoldable pub policy_steps : List PolicyCall → PolicyStore → PolicyStore
  unfolding issue revoke
  policy_steps [] s = s
  policy_steps (issues now i ∷ cs) s = policy_steps cs (issue uuid now i s).1
  policy_steps (revokes reference ∷ cs) s = policy_steps cs (revoke reference s).1

abbrev pub empty_policy_store : PolicyStore
empty_policy_store = record { by_reference = []; by_idempotency_key = []; uuids = 0 }
