-- ===== src/Gateway/Leases.antt =====
-- `createLeaseStore` of apps/website-gateway/src/stores/leases.ts: the exclusive browser leases of
-- the runs. Times are milliseconds, and `uuid n` is the n-th draw of `randomUUID`.
pub mod Live
pub mod Exclusive
use text.Mathlib.Text.{◌==◌ as str_eq}
use page2web_mcp.Common.{
  ℕ, ◌+◌, ◌-◌, ◌*◌, String, Bool, true, false, not, ◌&&◌, ◌||◌, Option, none, some, List, [], ◌∷◌,
  ltb, leb, if◌then◌else◌, is_some, some_and, Exec, ok, pure, gets, or_raise, or_run, when_some,
  raise_if, modify, ◌>>=◌, ◌>>◌,
}
use page2web_mcp.Common.Dict.{Dict, get, set, delete}
use page2web_mcp.Workflow.Store.{◌^^◌}

-- `MAX_LEASE_TTL_MS`
abbrev pub max_lease_ttl_ms : ℕ
max_lease_ttl_ms = 10 * 60000

pub record LeaseOwnership : Type 0 where
  pub organization_id : String
  pub project_id : String
  pub run_id : String

pub record LeaseClaimInput : Type 0 where
  pub ownership : LeaseOwnership
  pub target_origin : String
  pub expires_at : String
  -- `Date.parse(expiresAt)`, `none` where it is not finite
  pub expiry : Option ℕ
  pub policy_digest : String
  pub idempotency_key : String

pub record LeaseRecord : Type 0 where
  pub lease_id : String
  pub ownership : LeaseOwnership
  pub target_origin : String
  pub expires_at_ms : ℕ
  pub expires_at : String
  pub policy_digest : String

pub data LeaseRejected : Type 0 where
  lease_ttl_invalid lease_held : LeaseRejected

pub record LeaseStore : Type 0 where
  pub by_lease_id : Dict LeaseRecord
  pub active_by_run : Dict String
  pub by_idempotency_key : Dict String
  pub uuids : ℕ

abbrev pub LeaseMethod : Type 0 → Type 0
LeaseMethod A = Exec LeaseStore LeaseRejected A

-- `leaseId || undefined`
abbrev pub named : Option String → Option String
named none = none
named (some id) = if str_eq id "" then none else some id

abbrev pub is_active : String → String → LeaseStore → Bool
is_active run id s = some_and (get run s.active_by_run) (λ a. str_eq a id)

-- The tables without a lease that has run out.
unfoldable pub forget : String → LeaseRecord → LeaseStore → LeaseStore
forget id r s = record s {
  by_lease_id = delete id s.by_lease_id;
  active_by_run =
      if is_active r.ownership.run_id id s
      then delete r.ownership.run_id s.active_by_run
      else s.active_by_run;
}

-- The rest of `live`, once the record is found.
unfoldable pub unless_expired : ℕ → String → LeaseRecord → LeaseMethod (Option LeaseRecord)
unfolding forget
unless_expired now id r s =
    if leb r.expires_at_ms now then (ok none, forget id r s) else (ok (some r), s)

-- `live(leaseId, now)`
unfoldable pub live : ℕ → Option String → LeaseMethod (Option LeaseRecord)
unfolding unless_expired
live now lease_id =
    when_some (named lease_id) none λ id. do
      found ← gets (λ s. get id s.by_lease_id)
      when_some found none (unless_expired now id)

abbrev pub leased_record : LeaseClaimInput → ℕ → String → LeaseRecord
leased_record i expiry id = record {
  lease_id = id;
  ownership = i.ownership;
  target_origin = i.target_origin;
  expires_at_ms = expiry;
  expires_at = i.expires_at;
  policy_digest = i.policy_digest;
}

abbrev pub with_lease : LeaseClaimInput → ℕ → String → LeaseStore → LeaseStore
with_lease i expiry id s = record {
  by_lease_id = set id (leased_record i expiry id) s.by_lease_id;
  active_by_run = set i.ownership.run_id id s.active_by_run;
  by_idempotency_key = set i.idempotency_key id s.by_idempotency_key;
  uuids = s.uuids + 1;
}

module _ (uuid : ℕ → String) where
  -- What follows the tests of `claim`.
  unfoldable pub grant : LeaseClaimInput → ℕ → LeaseMethod String
  grant i expiry = do
    id ← gets (λ s. "lease-" ^^ uuid s.uuids)
    modify (with_lease i expiry id)
    pure id

  -- `claim`
  unfoldable pub claim : ℕ → LeaseClaimInput → LeaseMethod String
  unfolding live grant
  claim now i = do
    expiry ← or_raise i.expiry lease_ttl_invalid
    raise_if (leb expiry now || ltb max_lease_ttl_ms (expiry - now)) lease_ttl_invalid
    known ← gets (λ s. get i.idempotency_key s.by_idempotency_key)
    replayed ← live now known
    or_run (lease_id_of replayed) do
      held ← gets (λ s. get i.ownership.run_id s.active_by_run)
      other ← live now held
      raise_if (is_some other) lease_held
      grant i expiry
    where
      lease_id_of : Option LeaseRecord → Option String
      lease_id_of none = none
      lease_id_of (some r) = some r.lease_id

abbrev pub without_lease : String → LeaseRecord → LeaseStore → LeaseStore
without_lease id r s = record s {
  by_lease_id = delete id s.by_lease_id;
  active_by_run = delete r.ownership.run_id s.active_by_run;
}

-- The rest of `release`, once the live record is found.
unfoldable pub drop : String → LeaseRecord → LeaseMethod Bool
drop id r s =
    if is_active r.ownership.run_id id s then (ok true, without_lease id r s) else (ok false, s)

-- `release`
unfoldable pub release : ℕ → String → LeaseMethod Bool
unfolding live drop
release now id = do found ← live now (some id); when_some found false (drop id)

-- `active`
unfoldable pub active : ℕ → String → LeaseMethod (Option LeaseRecord)
unfolding live
active now id = live now (some id)

-- A call, after so many milliseconds.
pub data LeaseCall : Type 0 where
  claims : LeaseClaimInput → LeaseCall
  releases : String → LeaseCall
  reads : String → LeaseCall

module _ (uuid : ℕ → String) where
  unfoldable pub lease_step : ℕ → LeaseCall → LeaseStore → LeaseStore
  lease_step now (claims i) s = (claim uuid now i s).1
  lease_step now (releases id) s = (release now id s).1
  lease_step now (reads id) s = (active now id s).1

  -- The tables and the time after the calls, each with the milliseconds since the one before.
  unfoldable pub lease_steps : List (ℕ × LeaseCall) → ℕ → LeaseStore → ℕ × LeaseStore
  unfolding lease_step
  lease_steps [] now s = (now, s)
  lease_steps ((elapsed, c) ∷ cs) now s =
      lease_steps cs (now + elapsed) (lease_step (now + elapsed) c s)

abbrev pub empty_lease_store : LeaseStore
empty_lease_store = record {
  by_lease_id = [];
  active_by_run = [];
  by_idempotency_key = [];
  uuids = 0;
}
