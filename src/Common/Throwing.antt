-- ===== src/Common/Throwing.antt =====
-- A method of a class that may throw: the state comes back after a throw too, since what was
-- written stays written. `Throwing/Keeps` has the rules for invariants.
pub mod Keeps
pub mod Ensures
use mathlib.Core.Bool.{Bool, true, false}
use mathlib.Core.Option.{Option, none, some}

pub data Result (E : Type 0) (A : Type 0) : Type 0 where
  ok : A → Result E A
  err : E → Result E A

abbrev pub Exec : Type 0 → Type 0 → Type 0 → Type 0
Exec S E A = S → Result E A × S

module _ {S E A : Type 0} where
  unfoldable pub pure : A → Exec S E A
  pure a s = (ok a, s)

  unfoldable pub raise : E → Exec S E A
  raise e s = (err e, s)

  unfoldable pub gets : (S → A) → Exec S E A
  gets f s = (ok (f s), s)

  unfoldable pub lift : Result E A → Exec S E A
  lift r s = (r, s)

  -- `if (o === undefined) throw e;`
  unfoldable pub or_raise : Option A → E → Exec S E A
  or_raise none e s = (err e, s)
  or_raise (some a) e s = (ok a, s)

  -- `if (o) return o;`
  unfoldable pub or_run : Option A → Exec S E A → Exec S E A
  or_run none m s = m s
  or_run (some a) m s = (ok a, s)

module _ {S E A B : Type 0} where
  -- `if (!o) return b;`
  unfoldable pub when_some : Option A → B → (A → Exec S E B) → Exec S E B
  when_some none b f s = (ok b, s)
  when_some (some a) b f s = f a s

  abbrev pub continue : Result E A → (A → Exec S E B) → Exec S E B
  continue (ok a) f s = f a s
  continue (err e) f s = (err e, s)

module _ {S E : Type 0} where
  -- `if (b) throw e;`
  unfoldable pub raise_if : Bool → E → Exec S E (Unit {0})
  raise_if true e s = (err e, s)
  raise_if false e s = (ok tt, s)

  unfoldable pub modify : (S → S) → Exec S E (Unit {0})
  modify f s = (ok tt, f s)

module _ {S E A B : Type 0} where
  infixl 5 ◌>>=◌ ◌>>◌
  -- Opening this opens the actions above too.
  unfoldable pub ◌>>=◌ : Exec S E A → (A → Exec S E B) → Exec S E B
  unfolding pure raise gets lift or_raise or_run when_some raise_if modify
  ◌>>=◌ m f s = continue (m s).0 f (m s).1

  abbrev pub ◌>>◌ : Exec S E A → Exec S E B → Exec S E B
  m >> n = m >>= λ _. n
