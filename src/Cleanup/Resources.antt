-- ===== src/Cleanup/Resources.antt =====
-- `normalizeWebsiteCleanupResources` and `advanceWebsiteCleanupResources`
-- (packages/database/src/control-plane.ts). Each error they throw is INVALID_STATE: `none` stands
-- for it. A resource has the five properties of its type and no other.
pub mod Settled
use text.Mathlib.Text.{◌==◌ as str_eq}
use page2web_mcp.Common.{
  suc, ℕ, String, Bool, true, false, not, ◌&&◌, ◌||◌, Option, none, some, List, [], ◌∷◌, ◌++◌, ltb,
  leb, ◌==◌, if◌then◌else◌, some_and, length, find, filter, any, all,
}
use page2web_mcp.Common.Sort.{sort}
use page2web_mcp.Common.Text.{is_sha256, is_error_code}
use page2web_mcp.Release.Checks.{text_le, same_optional}

pub data ResourceKind : Type 0 where
  authentication_handoff_checkpoint browser_lease browser_session cdp_observation_lease
        egress_policy_proxy evidence_lease ttl_secrets :
      ResourceKind

abbrev pub kind_name : ResourceKind → String
kind_name authentication_handoff_checkpoint = "authentication_handoff_checkpoint"
kind_name browser_lease = "browser_lease"
kind_name browser_session = "browser_session"
kind_name cdp_observation_lease = "cdp_observation_lease"
kind_name egress_policy_proxy = "egress_policy_proxy"
kind_name evidence_lease = "evidence_lease"
kind_name ttl_secrets = "ttl_secrets"

pub data Disposition : Type 0 where
  pending failed revoked released reconciled destroyed retained_immutable : Disposition

abbrev pub rank : Disposition → ℕ
rank pending = 0
rank failed = 1
rank revoked = 2
rank released = 3
rank reconciled = 4
rank destroyed = 5
rank retained_immutable = 6

abbrev pub same_disposition : Disposition → Disposition → Bool
same_disposition a b = rank a == rank b

pub record Resource : Type 0 where
  pub resource : ResourceKind
  pub identity_digest : String
  pub disposition : Disposition
  pub timestamp : Option String
  pub error_code : Option String

-- The bytes of the canonical JSON text of a list, and the time of a text that `toISOString` would
-- write, `none` for any other text.
pub record ResourceEnv : Type 0 where
  pub canonical_bytes : List Resource → ℕ
  pub iso_time : String → Option ℕ

-- `WEBSITE_CLEANUP_TERMINAL_DISPOSITIONS[resource].has(disposition)`
abbrev pub is_terminal_disposition : ResourceKind → Disposition → Bool
is_terminal_disposition authentication_handoff_checkpoint destroyed = true
is_terminal_disposition authentication_handoff_checkpoint reconciled = true
is_terminal_disposition browser_lease released = true
is_terminal_disposition browser_lease reconciled = true
is_terminal_disposition browser_session destroyed = true
is_terminal_disposition browser_session reconciled = true
is_terminal_disposition cdp_observation_lease released = true
is_terminal_disposition cdp_observation_lease reconciled = true
is_terminal_disposition egress_policy_proxy revoked = true
is_terminal_disposition egress_policy_proxy reconciled = true
is_terminal_disposition evidence_lease released = true
is_terminal_disposition evidence_lease retained_immutable = true
is_terminal_disposition ttl_secrets destroyed = true
is_terminal_disposition ttl_secrets revoked = true
is_terminal_disposition _ _ = false

-- `disposition !== "pending" && disposition !== "failed"`
abbrev pub is_settled : Disposition → Bool
is_settled pending = false
is_settled failed = false
is_settled _ = true

abbrev pub same_kind : Resource → Resource → Bool
same_kind a b = str_eq (kind_name a.resource) (kind_name b.resource)

abbrev pub is_absent : Option String → Bool
is_absent none = true
is_absent (some t) = false

abbrev pub is_time : Option ℕ → Bool
is_time none = false
is_time (some t) = true

-- `canonicalJson(a) === canonicalJson(b)`
abbrev pub same_resource : Resource → Resource → Bool
same_resource a b =
    same_kind a b
    && str_eq a.identity_digest b.identity_digest
    && same_disposition a.disposition b.disposition
    && same_optional a.timestamp b.timestamp
    && same_optional a.error_code b.error_code

-- `new Set(kinds).size`
abbrev pub kind_count : List Resource → ℕ
kind_count [] = 0
kind_count (r ∷ rs) = let rest = kind_count rs in if any (same_kind r) rs then rest else suc rest

abbrev pub by_name : Resource → Resource → Bool
by_name a b = text_le (kind_name a.resource) (kind_name b.resource)

-- The identity digest is the expected one of its kind.
abbrev pub has_identity : List Resource → Resource → Bool
has_identity expected r =
    some_and (find (same_kind r) expected) (λ e. str_eq e.identity_digest r.identity_digest)

abbrev pub if_identities : List Resource → Option (List Resource) → Option (List Resource)
if_identities expected none = none
if_identities expected (some value) = if all (has_identity expected) value then some value else none

-- `byResource.set(update.resource, r)` for a kind that the map has
abbrev pub replace_resource : Resource → Resource → List Resource → List Resource
replace_resource update r [] = []
replace_resource update r (x ∷ xs) =
    if same_kind update x then r ∷ xs else x ∷ replace_resource update r xs

abbrev pub found_update : Resource → Option (List Resource) → Option Resource
found_update update none = none
found_update update (some rs) = find (same_kind update) rs

abbrev pub sorted_by_name : Option (List Resource) → Option (List Resource)
unfolding sort
sorted_by_name none = none
sorted_by_name (some rs) = some (sort by_name rs)

module _ (E : ResourceEnv) where
  -- The timestamp and the error code that a resource has by its disposition.
  abbrev pub fits_disposition : Disposition → Resource → Bool
  fits_disposition pending r = is_absent r.timestamp && is_absent r.error_code
  fits_disposition failed r =
      some_and r.timestamp (λ t. is_time (E.iso_time t)) && some_and r.error_code is_error_code
  fits_disposition _ r =
      some_and r.timestamp (λ t. is_time (E.iso_time t))
      && is_absent r.error_code
      && is_terminal_disposition r.resource r.disposition

  abbrev pub is_resource : Resource → Bool
  is_resource r = is_sha256 r.identity_digest && fits_disposition r.disposition r

  -- `normalizeWebsiteCleanupResources` with one argument
  unfoldable pub normalize_resources : List Resource → Option (List Resource)
  unfolding sort
  normalize_resources value =
      if length value == 7
        && leb (E.canonical_bytes value) 16384
        && all is_resource value
        && kind_count value == 7
      then some (sort by_name value)
      else none

  -- `normalizeWebsiteCleanupResources` with both arguments
  unfoldable pub normalize_update : List Resource → List Resource → Option (List Resource)
  unfolding normalize_resources
  normalize_update value expected = if_identities expected (normalize_resources value)

  -- The update is older than what it replaces.
  abbrev pub is_earlier : Resource → Resource → Bool
  is_earlier update existing = some_and update.timestamp λ t.
      some_and existing.timestamp
        λ u. some_and (E.iso_time t) (λ a. some_and (E.iso_time u) (λ b. ltb a b))

  -- The map after an update that is normalised to `r`.
  abbrev pub after_update :
      Resource → List Resource → Option Resource → Option Resource → Option (List Resource)
  after_update update by_resource (some existing) (some r) =
      if is_settled existing.disposition
      then if same_resource existing r then some by_resource else none
      else if same_disposition r.disposition pending || is_earlier r existing
      then none
      else some (replace_resource update r by_resource)
  after_update update by_resource _ _ = none

  -- One round of the loop over the updates.
  unfoldable pub advance_one : List Resource → Resource → List Resource → Option (List Resource)
  unfolding normalize_update
  advance_one stored update by_resource =
      after_update update by_resource (find (same_kind update) by_resource) (
        found_update update
          (normalize_update (filter (λ r. not (same_kind update r)) stored ++ update ∷ []) stored))

  unfoldable pub advance_all :
      List Resource → List Resource → List Resource → Option (List Resource)
  unfolding advance_one
  advance_all stored [] by_resource = some by_resource
  advance_all stored (u ∷ us) by_resource = elim (advance_one stored u by_resource) [
    | none ↦ none
    | some next ↦ advance_all stored us next
  ]

  -- `advanceWebsiteCleanupResources`
  unfoldable pub advance_resources : List Resource → List Resource → Option (List Resource)
  unfolding normalize_resources advance_all
  advance_resources stored updates = elim (normalize_resources stored) [
    | none ↦ none
    | some rs ↦ if ltb 7 (length updates) then none else sorted_by_name (advance_all rs updates rs)
  ]
