-- ===== src/Exec.antt =====
-- Code that mutates a state and may raise: the state comes back beside an exception too, since
-- what was written (and committed) before the raise stays written.
pub mod Hoare
use mathlib.Core.Path.{◌≡◌}
use hail_system.Prelude.{Bool, true, false}

pub data Result {ℓ} (E A : Type ℓ) : Type ℓ where
  ok : A → Result E A
  raised : E → Result E A

abbrev pub Exec {ℓ} : Type ℓ → Type ℓ → Type ℓ → Type ℓ
Exec E S A = S → Result E A × S

module _ {ℓ} {E S A : Type ℓ} where
  unfoldable pub pure : A → Exec E S A
  pure a s = (ok a, s)

  unfoldable pub raise : E → Exec E S A
  raise e s = (raised e, s)

  unfoldable pub gets : (S → A) → Exec E S A
  gets f s = (ok (f s), s)

  -- The handler of an `except`, run from the state that the raise left.
  abbrev pub handle : Result E A → (E → Exec E S A) → Exec E S A
  handle (ok a) h s = (ok a, s)
  handle (raised e) h s = h e s

  unfoldable pub catch : Exec E S A → (E → Exec E S A) → Exec E S A
  catch m h s = let (r, s') = m s in handle r h s'

infix 1 test◌then◌else◌
-- `if` between actions, shut so that proofs go by its rule.
unfoldable pub test◌then◌else◌ {ℓ} : {E S A : Type ℓ} → Bool → Exec E S A → Exec E S A → Exec E S A
test true then m else n = m
test false then m else n = n

module _ {ℓ} {E S A B : Type ℓ} where
  abbrev pub continue : Result E A → (A → Exec E S B) → Exec E S B
  continue (ok a) f s = f a s
  continue (raised e) f s = (raised e, s)

  infixl 10 ◌>>=◌ ◌>>◌
  -- Opening this opens the ways to build an action.
  unfoldable pub ◌>>=◌ : Exec E S A → (A → Exec E S B) → Exec E S B
  unfolding pure raise gets catch test◌then◌else◌
  ◌>>=◌ m f s = let (r, s') = m s in continue r f s'

  abbrev pub ◌>>◌ : Exec E S A → Exec E S B → Exec E S B
  m >> n = m >>= λ _. n
