-- ===== src/Base/Exec.antt =====
-- Code that changes a state and may fail: what was changed before a failure stays changed.
use mathlib.Core.Path.{◌≡◌, refl, sym, ap}
use mathlib.Core.Logic.{◌⊎◌, inl, inr}
use mathlib.Core.Bool.{Bool, true, false}
use mirum.Base.Fallible.{Result, ok, err}
use mirum.Base.Tests.{if◌then◌else◌}

abbrev pub Exec {ℓ} : Type ℓ → Type ℓ → Type ℓ → Type ℓ
Exec S E A = S → Result E A × S

module _ {ℓ} {S E A : Type ℓ} where
  unfoldable pub pure : A → Exec S E A
  pure a s = (ok a, s)

  unfoldable pub raise : E → Exec S E A
  raise e s = (err e, s)

  -- `result?`
  unfoldable pub lift : Result E A → Exec S E A
  lift r s = (r, s)

  unfoldable pub gets : (S → A) → Exec S E A
  gets f s = (ok (f s), s)

module _ {ℓ} {S E A B : Type ℓ} where
  unfoldable pub continue : Result E A → (A → Exec S E B) → Exec S E B
  continue (ok a) f s = f a s
  continue (err e) f s = (err e, s)

  infixl 5 ◌>>=◌ ◌>>◌
  unfoldable pub ◌>>=◌ : Exec S E A → (A → Exec S E B) → Exec S E B
  unfolding continue pure raise lift gets
  ◌>>=◌ m f s = let (r, s') = m s in continue r f s'

  abbrev pub ◌>>◌ : Exec S E A → Exec S E B → Exec S E B
  m >> n = m >>= λ _. n

-- Whatever `m` does, succeed or fail, `R` relates the state before to the state after, for a
-- relation that a sequence of steps stays in.
pub record IsOrder {ℓ} {S : Type ℓ} (R : S → S → Type ℓ) : Type ℓ where
  pub refl : (s : S) → R s s
  pub trans : (s t u : S) → R s t → R t u → R s u

pub record Stays {ℓ} {S E A : Type ℓ} (R : S → S → Type ℓ) (m : Exec S E A) : Type ℓ where
  pub at : (s : S) → R s (m s).1

module _ {ℓ} {S E A : Type ℓ} {R : S → S → Type ℓ} (order : IsOrder R) where
  pub Stays-pure : (a : A) → Stays R (pure {E = E} a)
  unfolding pure
  Stays-pure a = record { at = order.refl }

  pub Stays-raise : (e : E) → Stays R (raise {A = A} e)
  unfolding raise
  Stays-raise e = record { at = order.refl }

  pub Stays-lift : (r : Result E A) → Stays R (lift r)
  unfolding lift
  Stays-lift r = record { at = order.refl }

  pub Stays-gets : (f : S → A) → Stays R (gets {E = E} f)
  unfolding gets
  Stays-gets f = record { at = order.refl }

  pub Stays-if :
      (b : Bool) (m n : Exec S E A) → Stays R m → Stays R n → Stays R (if b then m else n)
  Stays-if true m n h k = h
  Stays-if false m n h k = k

module _ {ℓ} {S E A B : Type ℓ} {R : S → S → Type ℓ} (order : IsOrder R) where
  Stays-continue :
      (r : Result E A) (f : A → Exec S E B) (s : S)
      → ((a : A) → Stays R (f a))
      → R s (continue r f s).1
  unfolding continue
  Stays-continue (ok a) f s h = (h a).at s
  Stays-continue (err e) f s h = order.refl s

  pub Stays-bind :
      (m : Exec S E A) (f : A → Exec S E B)
      → Stays R m
      → ((a : A) → Stays R (f a))
      → Stays R (m >>= f)
  unfolding ◌>>=◌
  Stays-bind m f h k = record {
    at = λ s. let (r, s') = m s in order.trans s s' _ (h.at s) (Stays-continue r f s' k);
  }

module _ {ℓ} {S E A B : Type ℓ} {R : S → S → Type ℓ} (order : IsOrder R) where
  -- The rest may use that the result was a success.
  pub Stays-bind-lift :
      (r : Result E A) (f : A → Exec S E B)
      → ((a : A) → r ≡ ok a → Stays R (f a))
      → Stays R (lift r >>= f)
  unfolding ◌>>=◌
  Stays-bind-lift (ok a) f h = record { at = (h a refl).at }
  Stays-bind-lift (err e) f h = record { at = order.refl }

ok-ne-err {ℓ} : {E A : Type ℓ} {a : A} {e : E} → ◌≡◌ {A = Result E A} (ok a) (err e) → ⊥
ok-ne-err h = cc

module _ {ℓ} {S E A : Type ℓ} where
  pub lift-eq-ok :
      (r : Result E A) (s : S) {a : A} {t : S} → lift r s ≡ (ok a, t) → (r ≡ ok a) × (t ≡ s)
  unfolding lift
  lift-eq-ok r s h = (ap (λ p. p.0) h, sym (ap (λ p. p.1) h))

  pub pure-eq-ok :
      (b : A) (s : S) {a : A} {t : S} → pure {E = E} b s ≡ (ok a, t) → (b ≡ a) × (t ≡ s)
  unfolding pure
  pure-eq-ok b s h = (ap (λ p. value b p.0) h, sym (ap (λ p. p.1) h))
    where
      value : A → Result E A → A
      value b (ok a) = a
      value b (err e) = b

module _ {ℓ} {S E A B : Type ℓ} where
  -- Inversion of a successful sequence.
  pub bind-eq-ok :
      (m : Exec S E A) (f : A → Exec S E B) (s : S) {b : B} {u : S}
      → (m >>= f) s ≡ (ok b, u)
      → (a : A) × (t : S) × (m s ≡ (ok a, t)) × (f a t ≡ (ok b, u))
  unfolding ◌>>=◌
  bind-eq-ok m f s h = go (m s) refl h
    where
      go :
          {b : B} {u : S} (r : Result E A × S)
          → m s ≡ r
          → continue r.0 f r.1 ≡ (ok b, u)
          → (a : A) × (t : S) × (m s ≡ (ok a, t)) × (f a t ≡ (ok b, u))
      go (ok a, t) e h = (a, t, e, h)
      go (err x, t) e h = absurd (ok-ne-err (sym (ap (λ p. p.0) h)))

module _ {ℓ} {S E A B : Type ℓ} where
  -- How a sequence ends: it goes on after the first part, or ends with it.
  pub bind-cases :
      (m : Exec S E A) (f : A → Exec S E B) (s : S)
      → ((a : A) × (t : S) × (m s ≡ (ok a, t)) × ((m >>= f) s ≡ f a t))
        ⊎ ((e : E) × (t : S) × (m s ≡ (err e, t)) × ((m >>= f) s ≡ (err e, t)))
  unfolding ◌>>=◌
  bind-cases m f s = go (m s) refl
    where
      go :
          (r : Result E A × S)
          → m s ≡ r
          → ((a : A) × (t : S) × (m s ≡ (ok a, t)) × (continue (m s).0 f (m s).1 ≡ f a t))
            ⊎ ((e : E) × (t : S) × (m s ≡ (err e, t)) × (continue (m s).0 f (m s).1 ≡ (err e, t)))
      go (ok a, t) h = inl (a, t, h, ap (λ p. continue p.0 f p.1) h)
      go (err e, t) h = inr (e, t, h, ap (λ p. continue p.0 f p.1) h)
