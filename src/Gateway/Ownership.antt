-- ===== src/Gateway/Ownership.antt =====
-- `createOwnershipStore` and `createReplayStore` of apps/website-gateway/src/stores/ownership.ts:
-- the proofs that an organisation owns an origin, and the keys that are good for one use. Times are
-- milliseconds; an ISO text of a time is the time itself, `none` where `Date.parse` gives no
-- number. The tokens of the random source are a parameter, and the store counts those drawn.
pub mod Challenges
pub mod SingleUse
use text.Mathlib.Text.{◌==◌ as str_eq}
use page2web_mcp.Common.{
  ℕ, ◌+◌, ◌-◌, ◌*◌, String, Bool, true, false, ◌&&◌, ◌||◌, Option, none, some, List, [], ◌∷◌, leb,
  ltb, if◌then◌else◌, is_some, get_or,
}
use page2web_mcp.Common.Dict.{Dict, get, set, delete}
use page2web_mcp.Workflow.Store.{◌^^◌}

-- `MAX_OWNERSHIP_CHALLENGE_TTL_MS`
abbrev pub max_challenge_ttl_ms : ℕ
max_challenge_ttl_ms = 15 * 60000

pub data OwnershipMethod : Type 0 where
  well_known dns_txt : OwnershipMethod

pub record OwnershipChallenge : Type 0 where
  pub method : OwnershipMethod
  pub target_origin : String
  pub token : String
  pub expires_at : ℕ

-- The states of a record, and those that are reported for none.
pub data RecordState : Type 0 where
  pending verified failed : RecordState

pub data OwnershipState : Type 0 where
  missing expired : OwnershipState
  recorded : RecordState → OwnershipState

pub record AttestationRecord : Type 0 where
  pub organization_id : String
  pub project_id : String
  pub source_identity_hash : String
  pub source_url : String
  pub challenge : OwnershipChallenge
  pub expires_at_ms : ℕ
  pub state : RecordState

pub record OwnershipBinding : Type 0 where
  pub organization_id : String
  pub project_id : String
  pub source_identity_hash : String
  pub source_url : String
  pub target_origin : String

pub record OwnershipStore : Type 0 where
  pub records : Dict AttestationRecord
  pub tokens : ℕ

pub record OwnershipAnswer : Type 0 where
  pub state : OwnershipState
  pub challenge : Option OwnershipChallenge

-- `key`
abbrev pub key : OwnershipBinding → String
key b = b.organization_id ^^ "\0" ^^ b.project_id ^^ "\0" ^^ b.source_identity_hash

abbrev pub is_verified : RecordState → Bool
is_verified verified = true
is_verified _ = false

-- `live`: a record that has run out is removed as it is found.
abbrev live_of :
    String
    → ℕ
    → Option AttestationRecord
    → OwnershipStore
    → Option AttestationRecord × OwnershipStore
live_of identity now none s = (none, s)
live_of identity now (some r) s =
    if leb r.expires_at_ms now
    then (none, record s { records = delete identity s.records })
    else (some r, s)

unfoldable pub live : String → ℕ → OwnershipStore → Option AttestationRecord × OwnershipStore
live identity now s = live_of identity now (get identity s.records) s

abbrev pub answer : AttestationRecord → OwnershipAnswer
answer r = record { state = recorded r.state; challenge = some r.challenge }

-- `existing.state === "verified" && existing.challenge.targetOrigin === binding.targetOrigin`
abbrev pub is_proof : OwnershipBinding → AttestationRecord → Bool
is_proof b r = is_verified r.state && str_eq r.challenge.target_origin b.target_origin

abbrev pub new_record :
    (ℕ → String) → OwnershipBinding → ℕ → OwnershipMethod → ℕ → AttestationRecord
new_record token b now method drawn = record {
  organization_id = b.organization_id;
  project_id = b.project_id;
  source_identity_hash = b.source_identity_hash;
  source_url = b.source_url;
  challenge = record {
    method = method;
    target_origin = b.target_origin;
    token = token drawn;
    expires_at = now + max_challenge_ttl_ms;
  };
  expires_at_ms = now + max_challenge_ttl_ms;
  state = pending;
}

abbrev pub issue_new :
    (ℕ → String)
    → OwnershipBinding
    → ℕ
    → OwnershipMethod
    → OwnershipStore
    → OwnershipAnswer × OwnershipStore
issue_new token b now method s =
    let r = new_record token b now method s.tokens in
    (answer r, record { records = set (key b) r s.records; tokens = s.tokens + 1 })

-- `issue`, by default at a well-known path.
unfoldable pub issue :
    (ℕ → String)
    → OwnershipBinding
    → ℕ
    → Option OwnershipMethod
    → OwnershipStore
    → OwnershipAnswer × OwnershipStore
unfolding live
issue token b now method s =
    let found = live (key b) now s in
    let fresh = issue_new token b now (get_or method well_known) found.1 in
    elim found.0 [
      | none ↦ fresh
      | some r ↦
          if is_proof b r
          then (record { state = recorded verified; challenge = some r.challenge }, found.1)
          else fresh
    ]

-- `status`
unfoldable pub status : OwnershipBinding → ℕ → OwnershipStore → OwnershipAnswer × OwnershipStore
unfolding live
status b now s =
    let found = live (key b) now s in
    elim found.0 [
      | none ↦ (
        record {
          state = if is_some (get (key b) found.1.records) then expired else missing;
          challenge = none;
        },
        found.1,
      )
      | some r ↦ (answer r, found.1)
    ]

-- `record`
unfoldable pub read_record :
    OwnershipBinding → ℕ → OwnershipStore → Option AttestationRecord × OwnershipStore
unfolding live
read_record b now s = live (key b) now s

-- `settle`
unfoldable pub settle :
    OwnershipBinding → Bool → ℕ → OwnershipStore → OwnershipAnswer × OwnershipStore
unfolding live
settle b is_owner now s =
    let found = live (key b) now s in
    elim found.0 [
      | none ↦ (record { state = missing; challenge = none }, found.1)
      | some r ↦
          let settled = record r { state = if is_owner then verified else failed } in
          (answer settled, record found.1 { records = set (key b) settled found.1.records })
    ]

pub record OwnershipQuery : Type 0 where
  pub organization_id : String
  pub project_id : String
  pub target_origin : String

-- The test of `verified` on a record.
abbrev pub proves : OwnershipQuery → AttestationRecord → Bool
proves q r =
    is_verified r.state
    && str_eq r.organization_id q.organization_id
    && str_eq r.project_id q.project_id
    && str_eq r.challenge.target_origin q.target_origin

abbrev pub identities : Dict AttestationRecord → List String
identities [] = []
identities ((k, r) ∷ rest) = k ∷ identities rest

-- The loop of `verified` over the keys.
unfoldable pub search :
    OwnershipQuery → ℕ → List String → OwnershipStore → Option AttestationRecord × OwnershipStore
unfolding live
search q now [] s = (none, s)
search q now (identity ∷ more) s =
    let found = live identity now s in
    let rest = search q now more found.1 in
    elim found.0 [ none ↦ rest | some r ↦ if proves q r then (some r, found.1) else rest ]

-- `verified`
unfoldable pub find_verified :
    OwnershipQuery → ℕ → OwnershipStore → Option AttestationRecord × OwnershipStore
unfolding search
find_verified q now s = search q now (identities s.records) s

-- The keys of a replay store, each with the time when it runs out.
abbrev pub ReplayStore : Type 0
ReplayStore = Dict ℕ

-- The loop that removes what has run out.
unfoldable pub purge : ℕ → ReplayStore → ReplayStore
purge now [] = []
purge now ((k, expires_at) ∷ rest) =
    let kept = purge now rest in if leb expires_at now then kept else (k, expires_at) ∷ kept

abbrev pub is_good_expiry : ℕ → ℕ → Bool
is_good_expiry now expiry = ltb now expiry && leb (expiry - now) max_challenge_ttl_ms

-- `consume`
unfoldable pub consume : String → Option ℕ → ℕ → ReplayStore → Bool × ReplayStore
unfolding purge
consume k none now s = (false, s)
consume k (some expiry) now s =
    let kept = purge now s in
    if is_good_expiry now expiry
    then if is_some (get k kept) then (false, kept) else (true, set k expiry kept)
    else (false, s)
