-- ===== src/Gateway/Checkpoints.antt =====
-- `createCheckpointStore` of apps/website-gateway/src/stores/checkpoints.ts. Its records are
-- objects that callers keep and write to, so a record has an address in a heap.
pub mod Records
pub mod Resume
use text.Mathlib.Text.{◌==◌ as str_eq}
use page2web_mcp.Common.{
  ℕ, suc, ◌+◌, ◌*◌, String, Bool, true, false, ◌&&◌, ◌||◌, Option, none, some, List, [], ◌∷◌, leb,
  ◌==◌, if◌then◌else◌, some_and,
}
use page2web_mcp.Common.Dict.{Dict, get, set, delete}
use page2web_mcp.Gateway.Checkpoints.Records.{
  CheckpointBinding, Attestation, Platform, attestation_for, AuthenticationSignal, CheckpointRecord,
  RetiredCheckpoint,
}

-- The maps, the heap of the records, and its first free address.
pub record CheckpointStore : Type 0 where
  pub records : Dict ℕ
  pub by_handoff : Dict String
  pub retired : Dict RetiredCheckpoint
  pub cells : ℕ → CheckpointRecord
  pub next : ℕ

abbrev pub write : ℕ → CheckpointRecord → CheckpointStore → CheckpointStore
write n r s = record s { cells = λ m. if m == n then r else s.cells m }

abbrev pub fresh_record : CheckpointBinding → Attestation → CheckpointRecord
fresh_record b a = record {
  attestation = a;
  provider_session_id = b.provider_session_id;
  expires_at_ms = b.expiry;
  target_origin = none;
  handoff_id = none;
  authentication = none;
  authentication_evidence_reference = none;
  resume_claimed = false;
  terminal = false;
}

-- `find`
abbrev pub find : String → CheckpointStore → Option ℕ
find reference s = get reference s.records

-- `expiresAtMs <= now`, which is false for NaN
abbrev pub is_past : ℕ → Option ℕ → Bool
is_past now t = some_and t (λ e. leb e now)

abbrev pub usable : ℕ → CheckpointStore → Option ℕ → Option ℕ
usable now s none = none
usable now s (some n) =
    if (s.cells n).terminal || is_past now (s.cells n).expires_at_ms then none else some n

-- `get`
unfoldable pub get_record : String → ℕ → CheckpointStore → Option ℕ
get_record reference now s = usable now s (get reference s.records)

-- `byHandoff`
unfoldable pub record_by_handoff : String → ℕ → CheckpointStore → Option ℕ
unfolding get_record
record_by_handoff handoff now s = elim (get handoff s.by_handoff) [
  | none ↦ none
  | some reference ↦ if str_eq reference "" then none else get_record reference now s
]

-- `if (record.handoffId) byHandoff.delete(record.handoffId);`
abbrev pub without_handoff : Option String → Dict String → Dict String
without_handoff none m = m
without_handoff (some h) m = if str_eq h "" then m else delete h m

-- `bindHumanHandoff`
unfoldable pub bind_human_handoff : ℕ → String → String → CheckpointStore → CheckpointStore
bind_human_handoff n origin handoff s =
    write n (record (s.cells n) { target_origin = some origin; handoff_id = some handoff })
      (record s {
        by_handoff =
            set handoff (s.cells n).attestation.checkpoint_reference
              (without_handoff (s.cells n).handoff_id s.by_handoff);
      })

-- `recordAuthentication`
unfoldable pub record_authentication :
    ℕ → AuthenticationSignal → String → CheckpointStore → CheckpointStore
record_authentication n signal reference s =
    write n
      (record (s.cells n) {
        authentication = some signal;
        authentication_evidence_reference = some reference;
      })
      s

-- `claimResume`
unfoldable pub claim_resume : ℕ → CheckpointStore → Bool × CheckpointStore
claim_resume n s =
    if (s.cells n).resume_claimed
    then (false, s)
    else (true, write n (record (s.cells n) { resume_claimed = true }) s)

abbrev hour_later : Option ℕ → Option ℕ
hour_later none = none
hour_later (some t) = some (t + 60 * 60000)

-- `retire`
unfoldable pub retire : String → String → CheckpointStore → CheckpointStore
retire reference resources s = elim (get reference s.records) [
  | none ↦ s
  | some n ↦
      write n (record (s.cells n) { terminal = true })
        (record s {
          by_handoff = without_handoff (s.cells n).handoff_id s.by_handoff;
          records = delete reference s.records;
          retired =
              set reference
                (record {
                  attestation = (s.cells n).attestation;
                  cleanup_resources = resources;
                  forget_at_ms = hour_later (s.cells n).expires_at_ms;
                })
                s.retired;
        })
]

-- `retired`
unfoldable pub read_retired :
    String → ℕ → CheckpointStore → Option RetiredCheckpoint × CheckpointStore
read_retired reference now s = elim (get reference s.retired) [
  | none ↦ (none, s)
  | some r ↦
      if is_past now r.forget_at_ms
      then (none, record s { retired = delete reference s.retired })
      else (some r, s)
]

module _ (P : Platform) where
  abbrev pub created : CheckpointBinding → Attestation → CheckpointStore → CheckpointStore
  created b a s =
      write s.next (fresh_record b a)
        (record s { records = set a.checkpoint_reference s.next s.records; next = suc s.next })

  -- `create`
  unfoldable pub create : CheckpointBinding → CheckpointStore → Attestation × CheckpointStore
  create b s = elim (get (attestation_for P b).checkpoint_reference s.records) [
    | some n ↦ ((s.cells n).attestation, s)
    | none ↦ (attestation_for P b, created b (attestation_for P b) s)
  ]

-- The calls that write.
pub data CheckpointCall : Type 0 where
  creates : CheckpointBinding → CheckpointCall
  binds : ℕ → String → String → CheckpointCall
  authenticates : ℕ → AuthenticationSignal → String → CheckpointCall
  claims : ℕ → CheckpointCall
  retires : String → String → CheckpointCall
  reads_retired : String → ℕ → CheckpointCall

module _ (P : Platform) where
  unfoldable pub checkpoint_step : CheckpointCall → CheckpointStore → CheckpointStore
  unfolding create bind_human_handoff record_authentication claim_resume retire read_retired
  checkpoint_step (creates b) s = (create P b s).1
  checkpoint_step (binds n origin handoff) s = bind_human_handoff n origin handoff s
  checkpoint_step (authenticates n signal reference) s = record_authentication n signal reference s
  checkpoint_step (claims n) s = (claim_resume n s).1
  checkpoint_step (retires reference resources) s = retire reference resources s
  checkpoint_step (reads_retired reference now) s = (read_retired reference now s).1

  -- The call claims the resume of the record and wins it.
  unfoldable pub wins : ℕ → CheckpointCall → CheckpointStore → Bool
  unfolding claim_resume
  wins n (claims m) s = m == n && (claim_resume m s).0
  wins n _ s = false

  -- How many calls win the resume of the record.
  unfoldable pub resumes_won : ℕ → List CheckpointCall → CheckpointStore → ℕ
  unfolding checkpoint_step wins
  resumes_won n [] s = 0
  resumes_won n (c ∷ cs) s =
      let rest = resumes_won n cs (checkpoint_step c s) in if wins n c s then suc rest else rest
