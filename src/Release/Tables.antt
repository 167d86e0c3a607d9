-- ===== src/Release/Tables.antt =====
-- The private methods of `InMemoryControlPlaneRepository` that review, verification and
-- publication share (packages/database/src/control-plane.ts).
pub mod Passed
use text.Mathlib.Text.{◌==◌ as str_eq}
use page2web_mcp.Common.{
  ℕ, ◌+◌, ◌*◌, String, Bool, true, false, not, ◌&&◌, ◌||◌, Option, none, some, List, [], ◌∷◌, ◌++◌,
  leb, filter, if◌then◌else◌, Exec, Result, pure, gets, or_raise, or_run, when_some, raise_if,
  modify, ◌>>=◌, ◌>>◌, any,
}
use page2web_mcp.Common.Dict.{get, set, delete, values}
use page2web_mcp.Common.Sort.{sort}
use page2web_mcp.Workflow.Types.{Actor, Project}
use page2web_mcp.Workflow.Store.{◌^^◌}
use page2web_mcp.Release.Types.{
  ReleaseError, not_found, idempotency_conflict, invalid_state, release_gate_failed,
  CapabilityRecord, IdempotencyRecord, AuditEvent, ReleaseTables, ReleaseEnv,
}
use page2web_mcp.Release.Checks.{text_le, binding_valid}

abbrev pub ReleaseMethod : Type 0 → Type 0
ReleaseMethod A = Exec ReleaseTables ReleaseError A

-- `throw new RepositoryError("RELEASE_GATE_FAILED", [code])`
abbrev pub gate : String → ReleaseError
gate code = release_gate_failed (code ∷ [])

-- `IDEMPOTENCY_TTL_MS`
abbrev pub idempotency_ttl_ms : ℕ
idempotency_ttl_ms = 24 * 60 * 60 * 1000

-- `#assertProject`
unfoldable pub assert_project : Actor → String → ReleaseMethod Project
assert_project actor id = do
  found ← gets (λ s. get id s.projects)
  project ← or_raise found not_found
  raise_if (not (str_eq project.organization_id actor.organization_id)) not_found
  pure project

-- `#idempotencyId`
abbrev pub idempotency_id : String → Actor → String → String
idempotency_id operation actor key =
    operation ^^ ":" ^^ actor.organization_id ^^ ":" ^^ actor.id ^^ ":" ^^ key

-- What is found under the key, once what has run out is removed.
unfoldable pub drop_expired : ℕ → String → ReleaseMethod (Option IdempotencyRecord)
drop_expired now id = do
  previous ← gets (λ s. get id s.idempotency)
  when_some previous none λ p.
      if leb p.expires_at now
      then (modify (λ s. record s { idempotency = delete id s.idempotency }) >> pure none)
      else pure (some p)

-- `#idempotentReplay`
unfoldable pub idempotent_replay : ℕ → String → String → ReleaseMethod (Option IdempotencyRecord)
unfolding drop_expired
idempotent_replay now id input_hash = do
  previous ← drop_expired now id
  when_some previous none
      λ p. do raise_if (not (str_eq p.input_hash input_hash)) idempotency_conflict; pure (some p)

-- `#reserveIdempotency`
unfoldable pub reserve : ℕ → String → String → String → ReleaseMethod (Unit {0})
reserve now id input_hash result_id = modify λ s. record s {
  idempotency =
      set id
        (record {
          input_hash = input_hash;
          result_id = result_id;
          expires_at = now + idempotency_ttl_ms;
        })
        s.idempotency;
}

-- The order of capabilities: by their stable names, and by their ids where these agree.
abbrev pub capability_le : CapabilityRecord → CapabilityRecord → Bool
capability_le a b =
    if str_eq a.stable_name b.stable_name
    then text_le a.id b.id
    else text_le a.stable_name b.stable_name

-- `slice(0, n)`
unfoldable pub take {ℓ} : {A : Type ℓ} → ℕ → List A → List A
take ℕ.zero xs = []
take (ℕ.suc n) [] = []
take (ℕ.suc n) (x ∷ xs) = x ∷ take n xs

-- `#analysisCapabilities`
unfoldable pub analysis_capabilities : String → ReleaseTables → List CapabilityRecord
unfolding sort take
analysis_capabilities run s =
    take 1000
      (sort capability_le (filter (λ c. str_eq c.analysis_run_id run) (values s.capabilities)))

module _ (E : ReleaseEnv) where
  -- `randomUUID()`
  unfoldable pub random_uuid : ReleaseMethod String
  random_uuid s = (Result.ok (E.uuid s.uuids), record s { uuids = s.uuids + 1 })

  -- `#auditEvent`
  unfoldable pub audit_event : ℕ → Actor → String → String → ReleaseMethod (Unit {0})
  audit_event now actor action target = modify λ s. record s {
    audit =
        s.audit
        ++ (record {
          id = E.uuid s.uuids;
          organization_id = actor.organization_id;
          actor_id = actor.id;
          action = action;
          target_id = target;
          created_at = now;
        })
          ∷ [];
    uuids = s.uuids + 1;
  }

  -- The capabilities of a run, each bound to its plan, in the state that the digest names.
  unfoldable pub current_capabilities : String → String → ReleaseMethod (List CapabilityRecord)
  unfolding analysis_capabilities
  current_capabilities run digest = do
    capabilities ← gets (analysis_capabilities run)
    raise_if (any (λ c. not (binding_valid E c)) capabilities) (gate "CAPABILITY_PLAN_MISMATCH")
    raise_if (not (str_eq (E.state_digest capabilities) digest)) (gate "CAPABILITIES_CHANGED")
    pure capabilities
