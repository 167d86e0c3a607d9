-- ===== src/Gateway/Secrets.antt =====
-- `createSecretStore` and `readGatewaySecret` of apps/website-gateway/src/stores/secrets.ts. AES in
-- mode GCM, SHA-256, random bytes and `Date.parse` are parameters. A revoked record is dropped, so
-- that the zeros written over its buffers are not modelled. Texts are of Unicode scalar values: a value
-- with a lone surrogate is outside the model.
pub mod Lifetime
pub mod Disposed
use text.Mathlib.Text.{◌==◌ as str_eq}
use page2web_mcp.Common.{
  ℕ, ◌+◌, ◌-◌, ◌*◌, String, Bool, true, false, not, ◌&&◌, ◌||◌, Option, none, some, List, [], ◌∷◌,
  leb, ltb, ◌==◌, if◌then◌else◌, is_some, Exec, ok, err, or_raise, raise_if, ◌>>=◌, ◌>>◌,
}
use page2web_mcp.Common.Dict.{Dict, get, set, delete}
use page2web_mcp.Common.Text.{utf16_length, is_secret_reference}
use page2web_mcp.Workflow.Store.{◌^^◌}

-- `MAX_SECRET_TTL_MS`
abbrev pub max_secret_ttl_ms : ℕ
max_secret_ttl_ms = 10 * 60000

-- `SECRET_PURPOSES`
abbrev pub is_purpose : String → Bool
is_purpose p = str_eq p "browser_live_url" || str_eq p "browser_cdp_url"

pub record SecretOwnership : Type 0 where
  pub organization_id : String
  pub project_id : String
  pub run_id : String

pub record SecretPutInput : Type 0 where
  pub value : String
  pub purpose : String
  pub expires_at : String
  pub value_digest : String
  pub kms_key_id : String
  pub ownership : SecretOwnership

-- What a cipher writes, and its authentication tag.
pub record Box : Type 0 where
  pub ciphertext : String
  pub tag : String

pub record SealedSecret : Type 0 where
  pub reference : String
  pub purpose : String
  pub expires_at_ms : ℕ
  pub expires_at : String
  pub value_digest : String
  pub kms_key_id : String
  pub ownership : SecretOwnership
  pub wrapped_key : Box
  pub wrap_nonce : String
  pub nonce : String
  pub content : Box

pub data SecretRejected : Type 0 where
  secret_purpose_unsupported secret_value_digest_mismatch secret_kms_key_mismatch secret_ttl_invalid
        secret_value_invalid :
      SecretRejected

-- `encrypt key nonce data text` and `decrypt key nonce data box`, which is `none` where the tag
-- does not fit; the draws of random bytes by their size, and of `randomUUID`; `parse_time` is
-- `none` where `Date.parse` is not finite.
pub record SecretEnv : Type 0 where
  pub encrypt : String → String → String → String → Box
  pub decrypt : String → String → String → Box → Option String
  pub sha256 : String → String
  pub random_bytes : ℕ → ℕ → String
  pub uuid : ℕ → String
  pub parse_time : String → Option ℕ
  pub kms_key_id : String
  pub root_key : String

-- `draws` counts the draws of random bytes, `uuids` those of `randomUUID`.
pub record SecretStore : Type 0 where
  pub sealed : Dict SealedSecret
  pub draws : ℕ
  pub uuids : ℕ

abbrev pub no_secrets : SecretStore
no_secrets = record { sealed = []; draws = 0; uuids = 0 }

pub record SecretTicket : Type 0 where
  pub reference : String
  pub expires_at : String

pub record SecretDescription : Type 0 where
  pub purpose : String
  pub expires_at : String
  pub ownership : SecretOwnership

abbrev pub keys : {V : Type 0} → Dict V → List String
keys [] = []
keys ((k, v) ∷ m) = k ∷ keys m

-- `revoke`
unfoldable pub revoke_secret : String → SecretStore → Bool × SecretStore
revoke_secret reference s =
    if is_some (get reference s.sealed) && is_secret_reference reference
    then (true, record s { sealed = delete reference s.sealed })
    else (false, s)

-- `describe`
unfoldable pub describe_secret : String → ℕ → SecretStore → Option SecretDescription
describe_secret reference now s = elim (get reference s.sealed) [
  | none ↦ none
  | some r ↦
      if leb r.expires_at_ms now
      then none
      else some (record { purpose = r.purpose; expires_at = r.expires_at; ownership = r.ownership })
]

unfoldable pub revoke_all : List String → SecretStore → SecretStore
unfolding revoke_secret
revoke_all [] s = s
revoke_all (k ∷ ks) s = revoke_all ks (revoke_secret k s).1

-- `dispose`
unfoldable pub dispose_secrets : SecretStore → SecretStore
unfolding revoke_all
dispose_secrets s = revoke_all (keys s.sealed) s

module _ (E : SecretEnv) where
  -- `unseal`, from the data key.
  abbrev pub open_content : SealedSecret → Option String → Option String
  open_content r none = none
  open_content r (some data_key) =
      elim (E.decrypt data_key r.nonce (r.reference ^^ "\0" ^^ r.purpose) r.content) [
        | none ↦ none
        | some plaintext ↦
            if str_eq (E.sha256 plaintext) r.value_digest then some plaintext else none
      ]

  abbrev pub unseal : SealedSecret → Option String
  unseal r =
      open_content r
        (E.decrypt E.root_key r.wrap_nonce (r.reference ^^ "\0" ^^ r.kms_key_id) r.wrapped_key)

  abbrev pub reference_for : String → ℕ → String
  reference_for purpose n = "secretref:" ^^ purpose ^^ "." ^^ E.uuid n

  -- The record that a put stores, for the draws of the store.
  abbrev pub sealed_secret : ℕ → SecretPutInput → SecretStore → SealedSecret
  sealed_secret expiry i s =
      let reference = reference_for i.purpose s.uuids in
      let data_key = E.random_bytes 32 s.draws in
      let nonce = E.random_bytes 12 (s.draws + 1) in
      let wrap_nonce = E.random_bytes 12 (s.draws + 2) in
      record {
        reference = reference;
        purpose = i.purpose;
        expires_at_ms = expiry;
        expires_at = i.expires_at;
        value_digest = i.value_digest;
        kms_key_id = E.kms_key_id;
        ownership = i.ownership;
        wrapped_key = E.encrypt E.root_key wrap_nonce (reference ^^ "\0" ^^ E.kms_key_id) data_key;
        wrap_nonce = wrap_nonce;
        nonce = nonce;
        content = E.encrypt data_key nonce (reference ^^ "\0" ^^ i.purpose) i.value;
      }

  -- The end of `put`, after its checks.
  unfoldable pub seal : ℕ → SecretPutInput → Exec SecretStore SecretRejected SecretTicket
  seal expiry i s = (
    ok (record { reference = reference_for i.purpose s.uuids; expires_at = i.expires_at }),
    record s {
      sealed = set (reference_for i.purpose s.uuids) (sealed_secret expiry i s) s.sealed;
      draws = s.draws + 3;
      uuids = s.uuids + 1;
    },
  )

  -- `put`
  unfoldable pub put_secret : ℕ → SecretPutInput → Exec SecretStore SecretRejected SecretTicket
  unfolding seal
  put_secret now i = do
    raise_if (not (is_purpose i.purpose)) secret_purpose_unsupported
    raise_if (utf16_length i.value == 0 || ltb 4096 (utf16_length i.value)) secret_value_invalid
    raise_if (not (str_eq i.kms_key_id E.kms_key_id)) secret_kms_key_mismatch
    raise_if (not (str_eq (E.sha256 i.value) i.value_digest)) secret_value_digest_mismatch
    expiry ← or_raise (E.parse_time i.expires_at) secret_ttl_invalid
    raise_if (leb expiry now || ltb max_secret_ttl_ms (expiry - now)) secret_ttl_invalid
    seal expiry i

  -- `read`
  unfoldable pub read_secret : String → ℕ → SecretStore → Option String × SecretStore
  unfolding revoke_secret
  read_secret reference now s = elim (get reference s.sealed) [
    | none ↦ (none, s)
    | some r ↦
        if leb r.expires_at_ms now then (none, (revoke_secret reference s).1) else (unseal r, s)
  ]

  -- `readGatewaySecret`, over the stores of the process that are not disposed.
  unfoldable pub read_gateway_secret :
      String → ℕ → List SecretStore → Option String × List SecretStore
  unfolding read_secret
  read_gateway_secret reference now [] = (none, [])
  read_gateway_secret reference now (s ∷ ss) =
      let rest = read_gateway_secret reference now ss in
      elim (read_secret reference now s).0 [
        | some value ↦ (some value, (read_secret reference now s).1 ∷ ss)
        | none ↦ (rest.0, (read_secret reference now s).1 ∷ rest.1)
      ]

pub data SecretCall : Type 0 where
  puts : ℕ → SecretPutInput → SecretCall
  reads : String → ℕ → SecretCall
  revokes : String → SecretCall
  disposes : SecretCall

abbrev pub secret_step : SecretEnv → SecretCall → SecretStore → SecretStore
unfolding put_secret read_secret revoke_secret dispose_secrets
secret_step E (puts now i) s = (put_secret E now i s).1
secret_step E (reads reference now) s = (read_secret E reference now s).1
secret_step E (revokes reference) s = (revoke_secret reference s).1
secret_step E disposes s = dispose_secrets s

-- A history of calls.
unfoldable pub secret_steps : SecretEnv → List SecretCall → SecretStore → SecretStore
unfolding secret_step
secret_steps E [] s = s
secret_steps E (c ∷ cs) s = secret_steps E cs (secret_step E c s)
