-- ===== src/Capability.antt =====
-- packages/capability-ir/src/status.ts: the capability record and its status machine.
-- Scores and pass counts are natural numbers.
pub mod Status
use page2web_mcp.Common.{
  ℕ, String, Bool, true, false, ◌&&◌, not, Option, none, some, List, [], ◌∷◌, leb, if◌then◌else◌,
}
use text.Mathlib.Text.{◌==◌ as str_eq}

pub data RiskTier : Type 0 where
  r0 r1 r2 r3 : RiskTier

pub data CapabilityStatus : Type 0 where
  discovered proposed reviewed verified production_ready blocked : CapabilityStatus

pub data CapabilityEvent : Type 0 where
  review_approved verification_passed publish_requested : CapabilityEvent

pub data Confirmation : Type 0 where
  unconfirmed first_in_session always confirmation_blocked : Confirmation

pub record Safety : Type 0 where
  pub risk_tier : RiskTier
  pub read_only : Bool
  pub confirmation : Confirmation

pub record Verification : Type 0 where
  pub schema : Bool
  pub authenticated : Bool
  pub replay_passes : ℕ
  pub no_secret_leakage : Bool
  pub browser_execution : Bool
  pub selection_score : ℕ

pub record Capability : Type 0 where
  pub name : String
  pub safety : Safety
  pub verification : Verification
  pub status : CapabilityStatus

abbrev pub is_r3 : RiskTier → Bool
is_r3 r3 = true
is_r3 _ = false

abbrev initial_confirmation : RiskTier → Confirmation
initial_confirmation r3 = confirmation_blocked
initial_confirmation r1 = first_in_session
initial_confirmation _ = unconfirmed

abbrev initial_status : RiskTier → CapabilityStatus
initial_status r3 = blocked
initial_status _ = proposed

-- `CapabilityIRSchema`: the texts and the unions are typed; these are its bounds.
unfoldable pub schema_accepts : Capability → Bool
schema_accepts c = not (str_eq c.name "") && leb c.verification.selection_score 20

-- `none` where `CapabilityIRSchema.parse` throws.
unfoldable pub create_capability : String → RiskTier → Bool → Option Capability
unfolding schema_accepts
create_capability name tier read_only = if schema_accepts capability then some capability else none
  where
    capability : Capability
    capability = record {
      name = name;
      safety = record {
        risk_tier = tier;
        read_only = read_only;
        confirmation = initial_confirmation tier;
      };
      verification = record {
        schema = false;
        authenticated = false;
        replay_passes = 0;
        no_secret_leakage = false;
        browser_execution = false;
        selection_score = 0;
      };
      status = initial_status tier;
    }

-- The helper `verified(capability)`.
unfoldable pub is_verified : Capability → Bool
is_verified c =
    r.schema
    && r.authenticated
    && leb 3 r.replay_passes
    && r.no_secret_leakage
    && r.browser_execution
    && leb 18 r.selection_score
  where
    r : Verification
    r = c.verification

abbrev passed_report : Verification
passed_report = record {
  schema = true;
  authenticated = true;
  replay_passes = 3;
  no_secret_leakage = true;
  browser_execution = true;
  selection_score = 20;
}

abbrev promote : CapabilityStatus → Bool → CapabilityStatus
promote verified ready = if ready then production_ready else verified
promote s ready = s

abbrev apply_event : Capability → CapabilityEvent → Capability
apply_event c review_approved = record c { status = reviewed }
apply_event c verification_passed = record c { verification = passed_report; status = verified }
apply_event c publish_requested = record c { status = promote c.status (is_verified c) }

unfoldable pub transition_capability : Capability → CapabilityEvent → Capability
unfolding is_verified
transition_capability c e =
    if is_r3 c.safety.risk_tier then record c { status = blocked } else apply_event c e

-- A history of events.
unfoldable pub transitions : Capability → List CapabilityEvent → Capability
transitions c [] = c
transitions c (e ∷ es) = transitions (transition_capability c e) es
