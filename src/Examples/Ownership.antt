-- ===== src/Examples/Ownership.antt =====
-- The ownership properties at concrete challenges and keys.
use page2web_mcp.Common.{◌≤◌, ◌≡◌, ◌≢◌, refl, arith, true, false, none, some, List, [], ◌∷◌}
use page2web_mcp.Common.Decimal.{decimal}
use page2web_mcp.Common.Dict.{get, set, delete}
use page2web_mcp.Gateway.Ownership.{
  OwnershipBinding, OwnershipStore, OwnershipQuery, AttestationRecord, new_record, verified, key,
  well_known, expired, missing, issue, status, settle, find_verified, consume, ReplayStore,
}
use page2web_mcp.Gateway.Ownership.Challenges.{IsProof, status-not_expired, find_verified-IsProof}
use page2web_mcp.Gateway.Ownership.SingleUse.{Consumption, consume_all, consume-once}

abbrev binding : OwnershipBinding
binding = record {
  organization_id = "org";
  project_id = "project";
  source_identity_hash = "hash";
  source_url = "https://example.com";
  target_origin = "https://example.com";
}

abbrev empty_store : OwnershipStore
empty_store = record { records = []; tokens = 0 }

abbrev issued_store : OwnershipStore
issued_store = (issue decimal binding 0 none empty_store).1

abbrev settled_store : OwnershipStore
settled_store = (settle binding true 10 issued_store).1

abbrev query : OwnershipQuery
query = record {
  organization_id = "org";
  project_id = "project";
  target_origin = "https://example.com";
}

abbrev proof_record : AttestationRecord
proof_record = record (new_record decimal binding 0 well_known 0) { state = verified }

-- A challenge that has run out is reported as missing.
run_out : (status binding 900000 issued_store).0.state ≡ missing
unfolding status issue get set delete
run_out = refl

status-not_expired_example :
    ((status binding 900000 issued_store).0.state ≢ expired)
    × ((r : AttestationRecord)
        → get (key binding) issued_store.records ≡ some r
        → r.expires_at_ms ≤ 900000
        → ((status binding 900000 issued_store).0.state ≡ missing)
          × (get (key binding) (status binding 900000 issued_store).1.records ≡ none))
status-not_expired_example = status-not_expired binding 900000 issued_store

find_verified-IsProof_example : IsProof query 20 settled_store proof_record
unfolding issue settle find_verified get set
find_verified-IsProof_example = find_verified-IsProof query 20 settled_store proof_record refl

abbrev no_keys : ReplayStore
no_keys = []

abbrev others : List Consumption
others = (record { used_key = "other"; expires_at = some 900; now = 50 }) ∷ []

consume-once_example :
    (consume "key" (some 700) 60 (consume_all others (consume "key" (some 500) 0 no_keys).1)).0
    ≡ false
unfolding consume get set
consume-once_example =
    consume-once "key" 500 0 no_keys others (some 700) 60 refl (omega arith, tt) (omega arith)
