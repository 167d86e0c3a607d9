-- ===== src/Common/Throwing/Keeps.antt =====
-- Invariants of methods, with one rule for each way to build a method.
use mathlib.Core.Path.{◌≡◌, refl, subst}
use mathlib.Core.Bool.{Bool, true, false}
use mathlib.Core.Option.{Option, none, some}
use page2web_mcp.Common.Throwing.{
  Result, ok, err, Exec, pure, raise, gets, lift, or_raise, or_run, when_some, continue, raise_if,
  modify, ◌>>=◌,
}

ok_inj : {E A : Type 0} {a b : A} → ◌≡◌ {A = Result E A} (ok a) (ok b) → a ≡ b
ok_inj e = cc

-- The method keeps `P`, whether it returns or throws.
pub record Keeps {S E A : Type 0} (P : S → Type 0) (m : Exec S E A) : Type 0 where
  pub at : (s : S) → P s → P (m s).1

module _ {S E A : Type 0} {P : S → Type 0} where
  pub Keeps-pure : (a : A) → Keeps {E = E} P (pure a)
  unfolding pure
  Keeps-pure a = record { at = λ s h. h }

  pub Keeps-raise : (e : E) → Keeps {A = A} P (raise e)
  unfolding raise
  Keeps-raise e = record { at = λ s h. h }

  pub Keeps-gets : (f : S → A) → Keeps {E = E} P (gets f)
  unfolding gets
  Keeps-gets f = record { at = λ s h. h }

  pub Keeps-lift : (r : Result E A) → Keeps P (lift r)
  unfolding lift
  Keeps-lift r = record { at = λ s h. h }

  pub Keeps-or_raise : (o : Option A) (e : E) → Keeps P (or_raise o e)
  unfolding or_raise
  Keeps-or_raise none e = record { at = λ s h. h }
  Keeps-or_raise (some a) e = record { at = λ s h. h }

  pub Keeps-or_run : (o : Option A) (m : Exec S E A) → Keeps P m → Keeps P (or_run o m)
  unfolding or_run
  Keeps-or_run none m k = record { at = λ s h. k.at s h }
  Keeps-or_run (some a) m k = record { at = λ s h. h }

module _ {S E A B : Type 0} (P : S → Type 0) where
  Keeps-continue :
      (r : Result E A) (f : A → Exec S E B) (s : S)
      → ((a : A) → r ≡ ok a → P (f a s).1)
      → P s
      → P (continue r f s).1
  Keeps-continue (ok a) f s k h = k a refl
  Keeps-continue (err e) f s k h = h

  -- The rule at one state: the rest of the method may use what the first part returned.
  pub bind-Keeps :
      (m : Exec S E A) (f : A → Exec S E B) (s : S)
      → P (m s).1
      → ((a : A) → (m s).0 ≡ ok a → P (f a (m s).1).1)
      → P ((m >>= f) s).1
  unfolding ◌>>=◌
  bind-Keeps m f s h k = Keeps-continue (m s).0 f (m s).1 k h

module _ {S E A B : Type 0} {P : S → Type 0} where
  pub Keeps-when_some :
      (o : Option A) (b : B) (f : A → Exec S E B)
      → ((a : A) → o ≡ some a → Keeps P (f a))
      → Keeps P (when_some o b f)
  unfolding when_some
  Keeps-when_some none b f k = record { at = λ s h. h }
  Keeps-when_some (some a) b f k = record { at = λ s h. (k a refl).at s h }

  pub Keeps-bind :
      (m : Exec S E A) (f : A → Exec S E B)
      → Keeps P m
      → ((a : A) → Keeps P (f a))
      → Keeps P (m >>= f)
  unfolding ◌>>=◌
  Keeps-bind m f km kf = record {
    at = λ s h. bind-Keeps P m f s (km.at s h) (λ a _. (kf a).at (m s).1 (km.at s h));
  }

  -- What was read has a property, for the rest of the method.
  pub Keeps-bind_gets :
      (Q : A → Type 0) (g : S → A) (f : A → Exec S E B)
      → ((s : S) → P s → Q (g s))
      → ((a : A) → Q a → Keeps P (f a))
      → Keeps P (gets g >>= f)
  unfolding ◌>>=◌
  Keeps-bind_gets Q g f q k = record { at = λ s h. (k (g s) (q s h)).at s h }

  -- The same of a method that reads and may throw.
  pub Keeps-bind_with :
      (Q : A → Type 0) (m : Exec S E A) (f : A → Exec S E B)
      → Keeps P m
      → ((s : S) (a : A) → P s → (m s).0 ≡ ok a → Q a)
      → ((a : A) → Q a → Keeps P (f a))
      → Keeps P (m >>= f)
  Keeps-bind_with Q m f km q k = record {
    at = λ s h. bind-Keeps P m f s (km.at s h) λ a e. (k a (q s a h e)).at (m s).1 (km.at s h);
  }

module _ {S E B : Type 0} {P : S → Type 0} where
  pub Keeps-bind_raise_if :
      (b : Bool) (e : E) (f : Unit {0} → Exec S E B)
      → (b ≡ false → Keeps P (f tt))
      → Keeps P (raise_if b e >>= f)
  unfolding ◌>>=◌
  Keeps-bind_raise_if true e f k = record { at = λ s h. h }
  Keeps-bind_raise_if false e f k = record { at = λ s h. (k refl).at s h }

module _ {S E : Type 0} {P : S → Type 0} where
  pub Keeps-raise_if : (b : Bool) (e : E) → Keeps P (raise_if b e)
  unfolding raise_if
  Keeps-raise_if true e = record { at = λ s h. h }
  Keeps-raise_if false e = record { at = λ s h. h }

  pub Keeps-modify : (f : S → S) → ((s : S) → P s → P (f s)) → Keeps {E = E} P (modify f)
  unfolding modify
  Keeps-modify f k = record { at = k }

pub ruleset keeps_rules = (
  Keeps-pure, Keeps-raise, Keeps-gets, Keeps-lift, Keeps-or_raise, Keeps-or_run, Keeps-when_some,
  Keeps-bind, Keeps-raise_if,
)

-- Where `P` held, what the method returns satisfies `Q`.
pub record Returns {S E A : Type 0} (P : S → Type 0) (Q : A → Type 0) (m : Exec S E A)
    : Type 0 where
  pub at : (s : S) (a : A) → P s → (m s).0 ≡ ok a → Q a

module _ {S E A : Type 0} {P : S → Type 0} {Q : A → Type 0} where
  pub Returns-pure : (a : A) → Q a → Returns {E = E} P Q (pure a)
  unfolding pure
  Returns-pure a q = record { at = λ s b h e. subst Q (ok_inj e) q }

  pub Returns-or_run :
      (o : Option A) (m : Exec S E A)
      → ((a : A) → o ≡ some a → Q a)
      → Returns P Q m
      → Returns P Q (or_run o m)
  unfolding or_run
  Returns-or_run none m q k = record { at = λ s b h e. k.at s b h e }
  Returns-or_run (some a) m q k = record { at = λ s b h e. subst Q (ok_inj e) (q a refl) }

module _ {S E A B : Type 0} {P : S → Type 0} {Q : B → Type 0} where
  Returns-continue :
      (r : Result E A) (f : A → Exec S E B) (s : S)
      → ((a : A) → Returns P Q (f a))
      → P s
      → (b : B) → (continue r f s).0 ≡ ok b
      → Q b
  Returns-continue (ok a) f s k h b e = (k a).at s b h e
  Returns-continue (err x) f s k h b e = absurd (cc)

  pub Returns-bind :
      (m : Exec S E A) (f : A → Exec S E B)
      → Keeps P m
      → ((a : A) → Returns P Q (f a))
      → Returns P Q (m >>= f)
  unfolding ◌>>=◌
  Returns-bind m f km k = record {
    at = λ s b h e. Returns-continue (m s).0 f (m s).1 k (km.at s h) b e;
  }

  pub Returns-bind_gets :
      (R : A → Type 0) (g : S → A) (f : A → Exec S E B)
      → ((s : S) → P s → R (g s))
      → ((a : A) → R a → Returns P Q (f a))
      → Returns P Q (gets g >>= f)
  unfolding ◌>>=◌
  Returns-bind_gets R g f r k = record { at = λ s b h e. (k (g s) (r s h)).at s b h e }
