-- ===== src/Capability/Status.antt =====
-- What a history of events can make of a capability (packages/capability-ir/src/status.ts).
use page2web_mcp.Common.{String, ◌≡◌, refl, ◌≢◌, Bool, true, some, List, [], ◌∷◌, arith, All, ◌≤◌}
use page2web_mcp.Capability.{
  RiskTier, r0, r1, r2, r3, verified, production_ready, blocked, CapabilityEvent, review_approved,
  verification_passed, publish_requested, Capability, Verification, create_capability,
  transition_capability, transitions,
}

-- Each check of a report passed.
pub record IsPassed (v : Verification) : Type 0 where
  pub schema : v.schema ≡ true
  pub authenticated : v.authenticated ≡ true
  pub replayed : 3 ≤ v.replay_passes
  pub no_leak : v.no_secret_leakage ≡ true
  pub executed : v.browser_execution ≡ true
  pub selected : 18 ≤ v.selection_score

pub record IsSound (c : Capability) : Type 0 where
  pub blocked_r3 : c.safety.risk_tier ≡ r3 → c.status ≡ blocked
  pub only_r3 : c.status ≡ blocked → c.safety.risk_tier ≡ r3
  pub verified_passed : c.status ≡ verified → IsPassed c.verification
  pub ready_passed : c.status ≡ production_ready → IsPassed c.verification

create-IsSound :
    (name : String) (tier : RiskTier) (ro : Bool) {c : Capability}
    → create_capability name tier ro ≡ some c
    → IsSound c
unfolding create_capability
create-IsSound name r0 ro e = ground arith
create-IsSound name r1 ro e = ground arith
create-IsSound name r2 ro e = ground arith
create-IsSound name r3 ro e = ground arith

transition-IsSound :
    (c : Capability) (e : CapabilityEvent) → IsSound c → IsSound (transition_capability c e)
unfolding transition_capability
transition-IsSound c review_approved h = ground arith
transition-IsSound c verification_passed h = ground arith
transition-IsSound c publish_requested h = ground arith

transitions-IsSound :
    (c : Capability) (es : List CapabilityEvent) → IsSound c → IsSound (transitions c es)
unfolding transitions
transitions-IsSound c [] h = h
transitions-IsSound c (e ∷ es) h =
    transitions-IsSound (transition_capability c e) es (transition-IsSound c e h)

-- Whatever events follow its creation, a capability is blocked exactly if its tier is R3, and it
-- is verified or ready for production only with a report in which every check passed, with at
-- least 3 replays and a selection score of at least 18.
pub create-transitions-IsSound :
    (name : String) (tier : RiskTier) (ro : Bool) (es : List CapabilityEvent) {c : Capability}
    → create_capability name tier ro ≡ some c
    → IsSound (transitions c es)
create-transitions-IsSound name tier ro es {c} e =
    transitions-IsSound c es (create-IsSound name tier ro e)

abbrev IsUnverified : Capability → Type 0
IsUnverified c = (c.status ≢ verified) × (c.status ≢ production_ready)

create-IsUnverified :
    (name : String) (tier : RiskTier) (ro : Bool) {c : Capability}
    → create_capability name tier ro ≡ some c
    → IsUnverified c
unfolding create_capability
create-IsUnverified name r0 ro e = ground arith
create-IsUnverified name r1 ro e = ground arith
create-IsUnverified name r2 ro e = ground arith
create-IsUnverified name r3 ro e = ground arith

transition-IsUnverified :
    (c : Capability) (e : CapabilityEvent)
    → e ≢ verification_passed
    → IsUnverified c
    → IsUnverified (transition_capability c e)
unfolding transition_capability
transition-IsUnverified c review_approved n h = ground arith
transition-IsUnverified c verification_passed n h = absurd (n refl)
transition-IsUnverified c publish_requested n h = ground arith

transitions-IsUnverified :
    (c : Capability) (es : List CapabilityEvent)
    → All (λ e. e ≢ verification_passed) es
    → IsUnverified c
    → IsUnverified (transitions c es)
unfolding transitions
transitions-IsUnverified c [] n h = h
transitions-IsUnverified c (e ∷ es) n h =
    transitions-IsUnverified (transition_capability c e) es n.1 (transition-IsUnverified c e n.0 h)

-- A history without a passed verification never makes a created capability verified or ready for
-- production, however often it is approved or asked to be published.
pub not_ready_without_verification :
    (name : String) (tier : RiskTier) (ro : Bool) (es : List CapabilityEvent) {c : Capability}
    → create_capability name tier ro ≡ some c
    → All (λ e. e ≢ verification_passed) es
    → ((transitions c es).status ≢ verified) × ((transitions c es).status ≢ production_ready)
not_ready_without_verification name tier ro es {c} e n =
    transitions-IsUnverified c es n (create-IsUnverified name tier ro e)
