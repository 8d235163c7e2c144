-- ===== src/Exec/Hoare.antt =====
-- Pre- and postconditions of actions, normal and exceptional, one rule for each way to build one.
use hail_system.Prelude.{◌≡◌, refl, Bool, true, false}
use hail_system.Exec.{
  Result, ok, raised, Exec, pure, raise, gets, handle, catch, test◌then◌else◌, continue, ◌>>=◌,
}

module _ {ℓ} {E S A : Type ℓ} where
  abbrev pub Post : (A → S → Type ℓ) → (E → S → Type ℓ) → Result E A → S → Type ℓ
  Post Q R (ok a) s = Q a s
  Post Q R (raised e) s = R e s

  -- From a state with `P`, the action returns with `Q` or raises with `R`.
  pub record Ensures (P : S → Type ℓ) (m : Exec E S A) (Q : A → S → Type ℓ) (R : E → S → Type ℓ)
      : Type ℓ where
    pub at : (s : S) → P s → Post Q R (m s).0 (m s).1

module _ {ℓ} {E S A : Type ℓ} where
  relaxed :
      (Q : A → S → Type ℓ) (R R' : E → S → Type ℓ)
      → ((e : E) (s : S) → R e s → R' e s)
      → (r : Result E A) (s : S) → Post Q R r s
      → Post Q R' r s
  relaxed Q R R' h (ok a) s p = p
  relaxed Q R R' h (raised e) s p = h e s p

module _ {ℓ} {E S A : Type ℓ} {P : S → Type ℓ} {Q : A → S → Type ℓ} {R : E → S → Type ℓ} where
  pub Ensures-pure : (a : A) → ((s : S) → P s → Q a s) → Ensures P (pure a) Q R
  unfolding pure
  Ensures-pure a h = record { at = h }

  pub weaken :
      {P' : S → Type ℓ} {m : Exec E S A}
      → ((s : S) → P' s → P s)
      → Ensures P m Q R
      → Ensures P' m Q R
  weaken h k = record { at = λ s p. k.at s (h s p) }

  pub relax :
      {R' : E → S → Type ℓ} {m : Exec E S A}
      → ((e : E) (s : S) → R e s → R' e s)
      → Ensures P m Q R
      → Ensures P m Q R'
  relax {R'} {m} h k = record { at = λ s p. relaxed Q R R' h (m s).0 (m s).1 (k.at s p) }

  pub Ensures-raise : (e : E) → ((s : S) → P s → R e s) → Ensures P (raise {A = A} e) Q R
  unfolding raise
  Ensures-raise e h = record { at = h }

  pub Ensures-if :
      (b : Bool) (m n : Exec E S A)
      → (b ≡ true → Ensures P m Q R)
      → (b ≡ false → Ensures P n Q R)
      → Ensures P (test b then m else n) Q R
  unfolding test◌then◌else◌
  Ensures-if true m n km kn = km refl
  Ensures-if false m n km kn = kn refl

module _ {ℓ} {E S A B : Type ℓ} {M : A → S → Type ℓ} {Q : B → S → Type ℓ} {R : E → S → Type ℓ} where
  Post-continue :
      (r : Result E A) (s : S) (f : A → Exec E S B)
      → ((a : A) → Ensures (M a) (f a) Q R)
      → Post M R r s
      → Post Q R (continue r f s).0 (continue r f s).1
  Post-continue (ok a) s f kf h = (kf a).at s h
  Post-continue (raised e) s f kf h = h

  pub Ensures-bind :
      {P : S → Type ℓ} (m : Exec E S A) (f : A → Exec E S B)
      → Ensures P m M R
      → ((a : A) → Ensures (M a) (f a) Q R)
      → Ensures P (m >>= f) Q R
  unfolding ◌>>=◌
  Ensures-bind m f km kf = record { at = λ s h. Post-continue (m s).0 (m s).1 f kf (km.at s h) }

module _ {ℓ} {E S A : Type ℓ} {Q : A → S → Type ℓ} {M R : E → S → Type ℓ} where
  Post-handle :
      (r : Result E A) (s : S) (h : E → Exec E S A)
      → ((e : E) → Ensures (M e) (h e) Q R)
      → Post Q M r s
      → Post Q R (handle r h s).0 (handle r h s).1
  Post-handle (ok a) s h kh p = p
  Post-handle (raised e) s h kh p = (kh e).at s p

  pub Ensures-catch :
      {P : S → Type ℓ} (m : Exec E S A) (h : E → Exec E S A)
      → Ensures P m Q M
      → ((e : E) → Ensures (M e) (h e) Q R)
      → Ensures P (catch m h) Q R
  unfolding catch
  Ensures-catch m h km kh = record { at = λ s p. Post-handle (m s).0 (m s).1 h kh (km.at s p) }

-- A read, whose value the rest may rely on.
module _ {ℓ} {E S A B : Type ℓ} {P : S → Type ℓ} {Q : B → S → Type ℓ} {R : E → S → Type ℓ} where
  pub Ensures-gets :
      (f : S → A) (k : A → Exec E S B)
      → ((a : A) → Ensures (λ s. P s × (f s ≡ a)) (k a) Q R)
      → Ensures P (gets f >>= k) Q R
  unfolding ◌>>=◌
  Ensures-gets f k h = record { at = λ s p. (h (f s)).at s (p, refl) }
