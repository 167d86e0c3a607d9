-- ===== src/Examples/Stores.antt =====
-- The properties of the stores of secrets and of evidence at concrete values.
use Prim.Native.String.{len}
use text.Mathlib.Text.{◌==◌ as str_eq}
use text.Mathlib.TextEquality.{eq_iff}
use text.Mathlib.TextPositions.{eq_refl}
use page2web_mcp.Common.{
  ℕ, ◌≡◌, refl, sym, subst, String, true, none, some, [], ◌∷◌, if◌then◌else◌, ok, Bool-cases, inl,
  inr, ◌>>=◌,
}
use page2web_mcp.Common.Dict.{get, set}
use page2web_mcp.Common.Text.{utf16_units, is_identifier, is_hash_reference, is_secret_reference}
use page2web_mcp.Workflow.Store.{◌^^◌}
use page2web_mcp.Gateway.Secrets.{
  SecretPutInput, SecretEnv, SecretTicket, puts, no_secrets, put_secret, read_secret,
  describe_secret, dispose_secrets, secret_steps,
}
use page2web_mcp.Gateway.Secrets.Lifetime.{IsCipher, IsReadUntil, put_secret-IsReadUntil}
use page2web_mcp.Gateway.Secrets.Disposed.{MakesReferences, secret_steps-dispose}
use page2web_mcp.Gateway.Evidence.{
  EvidenceRecord, EvidenceEnv, is_intact, put_evidence, get_evidence, put_all,
}
use page2web_mcp.Gateway.Evidence.Immutable.{put_evidence-get_evidence}

abbrev digest : String
digest = "0123456789abcdef0123456789abcdef0123456789abcdef0123456789abcdef"

-- A cipher that shows the text and keeps what it was encrypted with in the tag.
abbrev env : SecretEnv
env = record {
  encrypt = λ key nonce aad text. record { ciphertext = text; tag = key ^^ nonce ^^ aad };
  decrypt = λ key nonce aad box.
      if str_eq box.tag (key ^^ nonce ^^ aad) then some box.ciphertext else none;
  sha256 = λ _. digest;
  random_bytes = λ _ _. "bytes";
  uuid = λ _. "3f2c";
  parse_time = λ t. if str_eq t "1970-01-01T00:01:00.000Z" then some 60000 else none;
  kms_key_id = "kms-1";
  root_key = "root";
}

env-IsCipher : IsCipher env
env-IsCipher key nonce aad text = rw (eq_refl (key ^^ nonce ^^ aad)) refl

live_reference : is_secret_reference "secretref:browser_live_url.3f2c" ≡ true
unfolding is_secret_reference
live_reference = refl

cdp_reference : is_secret_reference "secretref:browser_cdp_url.3f2c" ≡ true
unfolding is_secret_reference
cdp_reference = refl

env-MakesReferences : MakesReferences env
env-MakesReferences purpose n e = elim (Bool-cases (str_eq purpose "browser_live_url")) [
  | inl t ↦
      subst (λ p. is_secret_reference ("secretref:" ^^ p ^^ ".3f2c") ≡ true)
        (sym ((eq_iff purpose "browser_live_url").0 t)) live_reference
  | inr t ↦
      let other : str_eq purpose "browser_cdp_url" ≡ true = rw t at e in
      subst (λ p. is_secret_reference ("secretref:" ^^ p ^^ ".3f2c") ≡ true)
        (sym ((eq_iff purpose "browser_cdp_url").0 other)) cdp_reference
]

abbrev input : SecretPutInput
input = record {
  value = "wss://browser.example";
  purpose = "browser_cdp_url";
  expires_at = "1970-01-01T00:01:00.000Z";
  value_digest = digest;
  kms_key_id = "kms-1";
  ownership = record { organization_id = "org"; project_id = "shop"; run_id = "run" };
}

abbrev ticket : SecretTicket
ticket = record {
  reference = "secretref:browser_cdp_url.3f2c";
  expires_at = "1970-01-01T00:01:00.000Z";
}

put : (put_secret env 1000 input no_secrets).0 ≡ ok ticket
unfolding put_secret ◌>>=◌ utf16_units
put = refl

put_secret-IsReadUntil_example :
    (expiry : ℕ) × (env.parse_time input.expires_at ≡ some expiry)
    × IsReadUntil env 1000 input.value ticket.reference
        (put_secret env 1000 input no_secrets).1
        expiry
put_secret-IsReadUntil_example =
    put_secret-IsReadUntil env env-IsCipher 1000 input no_secrets ticket put

secret_steps-dispose_example :
    ((read_secret env ticket.reference 1001
        (dispose_secrets (secret_steps env (puts 1000 input ∷ []) no_secrets))).0
      ≡ none)
    × (describe_secret ticket.reference 1001
          (dispose_secrets (secret_steps env (puts 1000 input ∷ []) no_secrets))
        ≡ none)
secret_steps-dispose_example =
    secret_steps-dispose env env-MakesReferences (puts 1000 input ∷ []) ticket.reference 1001

abbrev evidence_env : EvidenceEnv
evidence_env = record { sha256 = λ _. digest; byte_length = len }

abbrev page : EvidenceRecord
page = record {
  organization_id = "org";
  project_id = "shop";
  analysis_run_id = "run";
  content = "<html></html>";
  reference = "urn:sha256:0123456789abcdef0123456789abcdef0123456789abcdef0123456789abcdef";
}

page_put : (put_evidence evidence_env page (put_all evidence_env (page ∷ []) [])).0 ≡ ok page
unfolding put_all get set is_identifier is_hash_reference ◌>>=◌
page_put = refl

put_evidence-get_evidence_example :
    (get_evidence evidence_env "org" "shop" "run" page.reference (
        put_all evidence_env
          (page ∷ [])
          (put_evidence evidence_env page (put_all evidence_env (page ∷ []) [])).1)
      ≡ some page)
    × (is_intact evidence_env page ≡ true)
put_evidence-get_evidence_example =
    put_evidence-get_evidence evidence_env (page ∷ []) (page ∷ []) page page page_put
