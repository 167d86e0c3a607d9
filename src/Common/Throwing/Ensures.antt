-- ===== src/Common/Throwing/Ensures.antt =====
-- What holds once a method has returned, of its result and of the state it leaves.
use mathlib.Core.Bool.{Bool, true, false}
use mathlib.Core.Option.{Option, none, some}
use mathlib.Core.Path.{◌≡◌, refl, sym, subst}
use page2web_mcp.Common.Throwing.Keeps.{Keeps}
use page2web_mcp.Common.Throwing.{
  or_raise, or_run, Result, ok, err, Exec, pure, lift, continue, raise_if, modify, ◌>>=◌, ◌>>◌,
}

pub record Ensures {S E A : Type 0} (Q : A → S → Type 0) (m : Exec S E A) : Type 0 where
  pub at : (s : S) (a : A) → (m s).0 ≡ ok a → Q a (m s).1

ok_inj : {E A : Type 0} {a b : A} → ◌≡◌ {A = Result E A} (ok a) (ok b) → a ≡ b
ok_inj e = cc

module _ {S E A B : Type 0} (Q : B → S → Type 0) where
  Ensures-continue :
      (r : Result E A) (f : A → Exec S E B) (s : S)
      → ((a : A) → r ≡ ok a → (b : B) → (f a s).0 ≡ ok b → Q b (f a s).1)
      → (b : B) → (continue r f s).0 ≡ ok b
      → Q b (continue r f s).1
  Ensures-continue (ok a) f s k b e = k a refl b e
  Ensures-continue (err x) f s k b e = absurd (cc)

  -- At one state: the first part has returned, and the rest has.
  pub bind-Ensures :
      (m : Exec S E A) (f : A → Exec S E B) (s : S)
      → ((a : A) → (m s).0 ≡ ok a → (b : B) → (f a (m s).1).0 ≡ ok b → Q b (f a (m s).1).1)
      → (b : B) → ((m >>= f) s).0 ≡ ok b
      → Q b ((m >>= f) s).1
  unfolding ◌>>=◌
  bind-Ensures m f s k b e = Ensures-continue (m s).0 f (m s).1 k b e

module _ {S E A B : Type 0} {Q : B → S → Type 0} where
  pub Ensures-bind :
      (m : Exec S E A) (f : A → Exec S E B) → ((a : A) → Ensures Q (f a)) → Ensures Q (m >>= f)
  Ensures-bind m f k = record {
    at = λ s b e. bind-Ensures Q m f s (λ a p c q. (k a).at (m s).1 c q) b e;
  }

  -- A pure computation that may throw has returned its value.
  pub Ensures-bind_lift :
      (r : Result E A) (f : A → Exec S E B)
      → ((a : A) → r ≡ ok a → Ensures Q (f a))
      → Ensures Q (lift r >>= f)
  unfolding ◌>>=◌
  Ensures-bind_lift r f k = record {
    at = λ s b e. bind-Ensures Q (lift r) f s (λ a p c q. (k a p).at s c q) b e;
  }

module _ {S E B : Type 0} {Q : B → S → Type 0} where
  -- The last write and the result.
  pub Ensures-write :
      (f : S → S) (b : B) → ((s : S) → Q b (f s)) → Ensures {E = E} Q (modify f >> pure b)
  unfolding ◌>>=◌
  Ensures-write f b k = record { at = λ s a e. subst (λ x. Q x (f s)) (ok_inj e) (k s) }

-- From a state of the first kind the method comes to one of the second, if it returns.
pub record Leads {S E A : Type 0} (P R : S → Type 0) (m : Exec S E A) : Type 0 where
  pub at : (s : S) (a : A) → P s → (m s).0 ≡ ok a → R (m s).1

module _ {S E A B : Type 0} {P R : S → Type 0} where
  -- What the first part returned has a property, and it stays in the first kind.
  pub Leads-after :
      (Q : A → Type 0) (m : Exec S E A) (f : A → Exec S E B)
      → Keeps P m
      → ((s : S) (a : A) → P s → (m s).0 ≡ ok a → Q a)
      → ((a : A) → Q a → Leads P R (f a))
      → Leads P R (m >>= f)
  Leads-after Q m f km q k = record {
    at = λ s b h e.
        bind-Ensures (λ _ t. R t) m f s (λ a p c r. (k a (q s a h p)).at (m s).1 c (km.at s h) r) b
          e;
  }

  -- The rest keeps what the first part has led to.
  pub Leads-then :
      (m : Exec S E A) (f : A → Exec S E B)
      → Leads P R m
      → ((a : A) → Keeps R (f a))
      → Leads P R (m >>= f)
  Leads-then m f km k = record {
    at = λ s b h e.
        bind-Ensures (λ _ t. R t) m f s (λ a p c r. (k a).at (m s).1 (km.at s a h p)) b e;
  }

module _ {S E A : Type 0} {P R : S → Type 0} where
  pub Leads-or_run :
      (o : Option A) (m : Exec S E A) → o ≡ none → Leads P R m → Leads P R (or_run o m)
  unfolding or_run
  Leads-or_run none m e k = k
  Leads-or_run (some a) m e k = absurd (cc)

  pub Leads-map :
      {T : S → Type 0} (m : Exec S E A) → ((s : S) → R s → T s) → Leads P R m → Leads P T m
  Leads-map m f k = record { at = λ s a h e. f (m s).1 (k.at s a h e) }

module _ {S E A B : Type 0} where
  continue_inv :
      (r : Result E A) (f : A → Exec S E B) (s : S) (b : B)
      → (continue r f s).0 ≡ ok b
      → (a : A) × (r ≡ ok a) × ((f a s).0 ≡ ok b)
  continue_inv (ok a) f s b e = (a, refl, e)
  continue_inv (err x) f s b e = absurd (cc)

  -- A method that begins by reading has returned: what was read, and what the rest returned.
  pub bind_inv :
      (m : Exec S E A) (f : A → Exec S E B) (s : S) (b : B)
      → (m s).1 ≡ s
      → ((m >>= f) s).0 ≡ ok b
      → (a : A) × ((m s).0 ≡ ok a) × ((f a s).0 ≡ ok b)
  unfolding ◌>>=◌
  bind_inv m f s b q e =
      continue_inv (m s).0 f s b (subst (λ t. (continue (m s).0 f t).0 ≡ ok b) q e)

  continue_state :
      (r : Result E A) (f : A → Exec S E B) (s : S)
      → ((a : A) → (f a s).1 ≡ s)
      → (continue r f s).1 ≡ s
  continue_state (ok a) f s k = k a
  continue_state (err x) f s k = refl

  -- Two parts that only read.
  pub bind_state :
      (m : Exec S E A) (f : A → Exec S E B) (s : S)
      → (m s).1 ≡ s
      → ((a : A) → (f a s).1 ≡ s)
      → ((m >>= f) s).1 ≡ s
  unfolding ◌>>=◌
  bind_state m f s q k =
      subst (λ t. (continue (m s).0 f t).1 ≡ s) (sym q) (continue_state (m s).0 f s k)

module _ {S E B : Type 0} where
  -- A guard has let the rest through.
  pub guard_inv :
      (p : Bool) (x : E) (m : Exec S E B) (s : S) (b : B)
      → ((raise_if p x >> m) s).0 ≡ ok b
      → (p ≡ false) × ((m s).0 ≡ ok b)
  unfolding ◌>>=◌
  guard_inv true x m s b e = absurd (cc)
  guard_inv false x m s b e = (refl, e)

module _ {S E : Type 0} where
  pub raise_if_inv :
      (p : Bool) (x : E) (s : S) (u : Unit {0}) → (raise_if p x s).0 ≡ ok u → p ≡ false
  unfolding raise_if
  raise_if_inv true x s u e = absurd (cc)
  raise_if_inv false x s u e = refl

module _ {S E A B : Type 0} where
  -- An optional value was there.
  pub or_raise_inv :
      (o : Option A) (x : E) (f : A → Exec S E B) (s : S) (b : B)
      → ((or_raise o x >>= f) s).0 ≡ ok b
      → (a : A) × (o ≡ some a) × ((f a s).0 ≡ ok b)
  unfolding ◌>>=◌
  or_raise_inv none x f s b e = absurd (cc)
  or_raise_inv (some a) x f s b e = (a, refl, e)

module _ {S E B : Type 0} {R : S → Type 0} where
  -- A write has led to the second kind of states, and the rest keeps it.
  pub Ensures-modify :
      (f : S → S) (m : Exec S E B)
      → ((s : S) → R (f s))
      → Keeps R m
      → Ensures (λ _ s. R s) (modify f >> m)
  unfolding ◌>>=◌
  Ensures-modify f m h k = record { at = λ s b e. k.at (f s) (h s) }
