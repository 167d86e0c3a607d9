-- ===== src/Gateway/Evidence.antt =====
-- `createEvidenceStore` of apps/website-gateway/src/stores/evidence.ts. SHA-256 in hexadecimal and
-- the byte length of a text in UTF-8 are parameters. A record's source is "runtime" by its type.
pub mod Immutable
use text.Mathlib.Text.{◌==◌ as str_eq}
use page2web_mcp.Common.{
  ℕ, ◌*◌, String, Bool, true, false, not, ◌&&◌, Option, none, some, List, [], ◌∷◌, ltb,
  if◌then◌else◌, Exec, pure, gets, or_run, raise_if, modify, ◌>>=◌, ◌>>◌,
}
use page2web_mcp.Common.Dict.{Dict, get, set}
use page2web_mcp.Common.Text.{is_hash_reference, is_identifier}
use page2web_mcp.Workflow.Store.{◌^^◌}

-- `MAX_CONTROL_BYTES`
abbrev pub max_control_bytes : ℕ
max_control_bytes = 64 * 1024

pub record EvidenceRecord : Type 0 where
  pub organization_id : String
  pub project_id : String
  pub analysis_run_id : String
  pub content : String
  pub reference : String

pub data EvidenceRejected : Type 0 where
  evidence_record_invalid evidence_integrity_failed evidence_too_large : EvidenceRejected

pub record EvidenceEnv : Type 0 where
  pub sha256 : String → String
  pub byte_length : String → ℕ

abbrev pub EvidenceStore : Type 0
EvidenceStore = Dict EvidenceRecord

abbrev pub is_record : EvidenceRecord → Bool
is_record r =
    is_hash_reference r.reference
    && is_identifier 127 r.organization_id
    && is_identifier 127 r.project_id
    && is_identifier 127 r.analysis_run_id

abbrev pub evidence_key : String → String → String → String → String
evidence_key organization project run reference =
    organization ^^ "\0" ^^ project ^^ "\0" ^^ run ^^ "\0" ^^ reference

abbrev pub key_of : EvidenceRecord → String
key_of r = evidence_key r.organization_id r.project_id r.analysis_run_id r.reference

module _ (E : EvidenceEnv) where
  -- The reference is the hash of the content.
  abbrev pub is_intact : EvidenceRecord → Bool
  is_intact r = str_eq ("urn:sha256:" ^^ E.sha256 r.content) r.reference

  -- `put`
  unfoldable pub put_evidence : EvidenceRecord → Exec EvidenceStore EvidenceRejected EvidenceRecord
  put_evidence r = do
    raise_if (not (is_record r)) evidence_record_invalid
    raise_if (ltb max_control_bytes (E.byte_length r.content)) evidence_too_large
    raise_if (not (is_intact r)) evidence_integrity_failed
    stored ← gets (get (key_of r))
    or_run stored do modify (set (key_of r) r); pure r

  abbrev pub if_intact : Option EvidenceRecord → Option EvidenceRecord
  if_intact none = none
  if_intact (some r) = if is_intact r then some r else none

  -- `get`
  unfoldable pub get_evidence :
      String → String → String → String → EvidenceStore → Option EvidenceRecord
  get_evidence organization project run reference s =
      if_intact (get (evidence_key organization project run reference) s)

  -- The store after some puts.
  unfoldable pub put_all : List EvidenceRecord → EvidenceStore → EvidenceStore
  unfolding put_evidence
  put_all [] s = s
  put_all (r ∷ rs) s = put_all rs (put_evidence r s).1
