-- ===== src/Release/Tables/Passed.antt =====
-- What the capabilities of a run have passed (packages/database/src/control-plane.ts).
use text.Mathlib.Text.{◌==◌ as str_eq}
use page2web_mcp.Common.{
  String, ◌≡◌, refl, subst, Bool, false, not, List, arith, ok, Exec, pure, raise_if, ◌>>=◌, ◌>>◌,
  any,
}
use page2web_mcp.Release.Types.{CapabilityRecord, ReleaseTables, ReleaseEnv}
use page2web_mcp.Release.Checks.{binding_valid}
use page2web_mcp.Release.Tables.{analysis_capabilities, current_capabilities}

module _ {S E A : Type 0} where
  -- Two guards, and the value that they let through.
  abbrev pub guarded : Bool → E → Bool → E → A → Exec S E A
  unfolding ◌>>=◌
  guarded p x q y a = raise_if p x >> (raise_if q y >> pure a)

  pub guarded_ok :
      (p : Bool) (x : E) (q : Bool) (y : E) (a b : A) (s : S)
      → (guarded p x q y a s).0 ≡ ok b
      → (p ≡ false) × (q ≡ false) × (a ≡ b)
  unfolding ◌>>=◌
  guarded_ok p x q y a b s e = ground arith

  pub guarded_state :
      (p : Bool) (x : E) (q : Bool) (y : E) (a : A) (s : S) → (guarded p x q y a s).1 ≡ s
  unfolding ◌>>=◌
  guarded_state p x q y a s = ground arith

module _ (E : ReleaseEnv) (run digest : String) (s : ReleaseTables) where
  pub current_capabilities_ok :
      (cs : List CapabilityRecord)
      → (current_capabilities E run digest s).0 ≡ ok cs
      → (any (λ c. not (binding_valid E c)) cs ≡ false)
        × (not (str_eq (E.state_digest cs) digest) ≡ false)
        × (analysis_capabilities run s ≡ cs)
  unfolding current_capabilities ◌>>=◌
  current_capabilities_ok cs e =
      let found = analysis_capabilities run s in
      let h =
        guarded_ok (any (λ c. not (binding_valid E c)) found) _
          (not (str_eq (E.state_digest found) digest)) _ found cs s e in
      subst
        (λ xs.
          (any (λ c. not (binding_valid E c)) xs ≡ false)
          × (not (str_eq (E.state_digest xs) digest) ≡ false)
          × (found ≡ xs))
        h.2 (h.0, h.1, refl)

  pub current_capabilities_state : (current_capabilities E run digest s).1 ≡ s
  unfolding current_capabilities ◌>>=◌
  current_capabilities_state =
      let found = analysis_capabilities run s in
      guarded_state (any (λ c. not (binding_valid E c)) found) _
        (not (str_eq (E.state_digest found) digest)) _ found s
