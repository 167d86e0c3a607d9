-- ===== src/Gateway/Secrets/Lifetime.antt =====
-- A secret is read until it runs out (apps/website-gateway/src/stores/secrets.ts).
use text.Mathlib.Text.{◌==◌ as str_eq}
use page2web_mcp.Common.{
  ℕ, ◌+◌, ◌-◌, ◌≤◌, ◌<◌, ◌≡◌, refl, ap, subst, String, true, false, not, ◌||◌, none, some, leb, ltb,
  ◌==◌, arith, or-eq-false, lt→leb, le→leb, leb→lt, Result, ok, ◌>>=◌,
}
use page2web_mcp.Common.Dict.{get-set_self}
use page2web_mcp.Common.Throwing.Ensures.{guard_inv, or_raise_inv}
use page2web_mcp.Workflow.Store.{◌^^◌}
use page2web_mcp.Common.Text.{utf16_length}
use page2web_mcp.Gateway.Secrets.{
  SecretPutInput, SecretEnv, SecretStore, SecretTicket, max_secret_ttl_ms, is_purpose, open_content,
  unseal, sealed_secret, reference_for, seal, put_secret, read_secret,
}

-- What is decrypted with the key, the nonce and the data that it was encrypted with is the text.
abbrev pub IsCipher : SecretEnv → Type 0
IsCipher E =
    (key nonce aad text : String)
    → E.decrypt key nonce aad (E.encrypt key nonce aad text) ≡ some text

-- The secret runs out at `expiry`, after now and in ten minutes at most; it is read until then, and
-- not from then on.
pub record IsReadUntil (E : SecretEnv) (now : ℕ) (value reference : String) (s : SecretStore)
    (expiry : ℕ) : Type 0 where
  pub later : now < expiry
  pub soon : expiry ≤ now + max_secret_ttl_ms
  pub readable : (at : ℕ) → at < expiry → (read_secret E reference at s).0 ≡ some value
  pub gone : (at : ℕ) → expiry ≤ at → (read_secret E reference at s).0 ≡ none

ok_value : {X A : Type 0} {a b : A} → ◌≡◌ {A = Result X A} (ok a) (ok b) → a ≡ b
ok_value e = cc

module _ (E : SecretEnv) (cipher : IsCipher E) where
  unseal-sealed_secret :
      (expiry : ℕ) (i : SecretPutInput) (s : SecretStore)
      → str_eq (E.sha256 i.value) i.value_digest ≡ true
      → unseal E (sealed_secret E expiry i s) ≡ some i.value
  unseal-sealed_secret expiry i s e =
      let n = s.draws in
      let data_key = E.random_bytes 32 n in
      let wrapped =
        cipher E.root_key (E.random_bytes 12 (n + 2))
          (reference_for E i.purpose s.uuids ^^ "\0" ^^ E.kms_key_id) data_key in
      let content =
        cipher data_key (E.random_bytes 12 (n + 1))
          (reference_for E i.purpose s.uuids ^^ "\0" ^^ i.purpose) i.value in
      rw (wrapped, content, open_content, e) refl

  seal-IsReadUntil :
      (now expiry : ℕ) (i : SecretPutInput) (s : SecretStore)
      → str_eq (E.sha256 i.value) i.value_digest ≡ true
      → (leb expiry now || ltb max_secret_ttl_ms (expiry - now)) ≡ false
      → IsReadUntil E now i.value (reference_for E i.purpose s.uuids) (seal E expiry i s).1 expiry
  unfolding seal read_secret
  seal-IsReadUntil now expiry i s e t =
      let reference = reference_for E i.purpose s.uuids in
      let there = get-set_self reference (sealed_secret E expiry i s) s.sealed in
      let bounds = or-eq-false (leb expiry now) (ltb max_secret_ttl_ms (expiry - now)) t in
      let later : now < expiry = leb→lt expiry now bounds.0 in
      record {
        later = later;
        soon = ground (arith, bounds.1);
        readable =
            λ at h. rw (there, read_secret, lt→leb expiry at h) (unseal-sealed_secret expiry i s e);
        gone = λ at h. rw (there, read_secret, le→leb expiry at h) refl;
      }

  -- Where the cipher decrypts what it has encrypted: a secret, a text of Unicode scalar values, that
  -- was put, whatever the store held, has an expiry after the put and in ten minutes at most, is read
  -- as it was put at each time before its expiry, and is not read at its expiry or later.
  pub put_secret-IsReadUntil :
      (now : ℕ) (i : SecretPutInput) (s : SecretStore) (ticket : SecretTicket)
      → (put_secret E now i s).0 ≡ ok ticket
      → (expiry : ℕ) × (E.parse_time i.expires_at ≡ some expiry)
        × IsReadUntil E now i.value ticket.reference (put_secret E now i s).1 expiry
  unfolding put_secret ◌>>=◌
  put_secret-IsReadUntil now i s ticket e =
      let a = guard_inv (not (is_purpose i.purpose)) _ _ s ticket e in
      let b =
        guard_inv (utf16_length i.value == 0 || ltb 4096 (utf16_length i.value)) _ _ s ticket a.1 in
      let c = guard_inv (not (str_eq i.kms_key_id E.kms_key_id)) _ _ s ticket b.1 in
      let d = guard_inv (not (str_eq (E.sha256 i.value) i.value_digest)) _ _ s ticket c.1 in
      let x = or_raise_inv (E.parse_time i.expires_at) _ _ s ticket d.1 in
      let late = leb x.0 now || ltb max_secret_ttl_ms (x.0 - now) in
      let y = guard_inv late _ _ s ticket x.2 in
      let digest : str_eq (E.sha256 i.value) i.value_digest ≡ true = ground (arith, d.0) in
      let named : reference_for E i.purpose s.uuids ≡ ticket.reference =
        ap (λ (t : SecretTicket). t.reference) (ok_value y.1) in
      (
        x.0,
        x.1,
        rw (a.0, b.0, c.0, d.0, x.1, y.0)
            (subst (λ r. IsReadUntil E now i.value r (seal E x.0 i s).1 x.0) named
              (seal-IsReadUntil now x.0 i s digest y.0)),
      )
