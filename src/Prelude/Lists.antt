-- ===== src/Prelude/Lists.antt =====
-- Lists measured by native numbers, and predicates on all their elements.
use Prim.Native.Nat.{ℕ, suc, ◌+◌}
use mathlib.Core.Path.{◌≡◌, refl, subst}
use mathlib.Core.Bool.{Bool, true, false, ◌||◌}
use mathlib.Core.Logic.{◌⊎◌, inl, inr}
use mathlib.Core.List.{List, [], ◌∷◌, ◌++◌, map}
use native.Mathlib.Omega.{arith}
use hail_system.Prelude.Tests.{◌==◌, ltb, if◌then◌else◌, if_cases}

module _ {ℓ} {A : Type ℓ} where
  abbrev pub length : List A → ℕ
  length [] = 0
  length (x ∷ xs) = suc (length xs)

  abbrev pub any : (A → Bool) → List A → Bool
  any p [] = false
  any p (x ∷ xs) = p x || any p xs

  abbrev pub sum_by : (A → ℕ) → List A → ℕ
  sum_by f [] = 0
  sum_by f (x ∷ xs) = f x + sum_by f xs

  pub length-append : (xs ys : List A) → length (xs ++ ys) ≡ length xs + length ys
  length-append [] ys = omega arith
  length-append (x ∷ xs) ys = omega (arith, length-append xs ys)

  pub sum_by-append : (f : A → ℕ) (xs ys : List A) → sum_by f (xs ++ ys) ≡ sum_by f xs + sum_by f ys
  sum_by-append f [] ys = omega arith
  sum_by-append f (x ∷ xs) ys = omega (arith, sum_by-append f xs ys)

module _ {ℓ κ} {A : Type ℓ} (P : A → Type κ) where
  abbrev pub All : List A → Type κ
  All [] = Unit
  All (x ∷ xs) = P x × All xs

  pub All-append : (xs ys : List A) → All xs → All ys → All (xs ++ ys)
  All-append [] ys _ k = k
  All-append (x ∷ xs) ys (p, h) k = (p, All-append xs ys h k)

unfoldable pub filter : {A : Type 0} → (A → Bool) → List A → List A
filter p [] = []
filter p (x ∷ xs) = let rest = filter p xs in if p x then x ∷ rest else rest

-- A set of ids, sorted
unfoldable pub add_id : ℕ → List ℕ → List ℕ
add_id id [] = id ∷ []
add_id id (j ∷ ids) =
    let rest = add_id id ids in
    if id == j then j ∷ ids else if ltb id j then id ∷ j ∷ ids else j ∷ rest

pub filter-All :
    {A : Type 0} (P Q : A → Type 0) (p : A → Bool) (xs : List A)
    → ((x : A) → P x → p x ≡ true → Q x)
    → All P xs
    → All Q (filter p xs)
unfolding filter
filter-All P Q p [] f h = tt
filter-All P Q p (x ∷ xs) f (h, k) =
    if_cases (All Q) (p x) (λ e. (f x h e, filter-All P Q p xs f k)) (λ _. filter-All P Q p xs f k)

pub All-of : {A : Type 0} (Q : A → Type 0) (xs : List A) → ((x : A) → Q x) → All Q xs
All-of Q [] f = tt
All-of Q (x ∷ xs) f = (f x, All-of Q xs f)

module _ {A : Type 0} where
  -- An element of the list.
  abbrev pub Has : A → List A → Type 0
  Has w [] = ⊥
  Has w (x ∷ xs) = (x ≡ w) ⊎ Has w xs

  pub All-Has {κ} : (P : A → Type κ) (w : A) (xs : List A) → All P xs → Has w xs → P w
  All-Has P w [] h k = absurd k
  All-Has P w (x ∷ xs) (h, hs) (inl e) = subst P e h
  All-Has P w (x ∷ xs) (h, hs) (inr k) = All-Has P w xs hs k

pub Has-filter :
    {A : Type 0} (p : A → Bool) (w : A) (xs : List A) → p w ≡ true → Has w xs → Has w (filter p xs)
unfolding filter
Has-filter p w [] e h = h
Has-filter p w (x ∷ xs) e (inl q) =
    if_cases (λ ys. Has w ys) (p x) (λ _. inl q) (λ f. absurd (cc (e, q, f)))
Has-filter p w (x ∷ xs) e (inr h) =
    if_cases (λ ys. Has w ys) (p x) (λ _. inr (Has-filter p w xs e h)) (λ _. Has-filter p w xs e h)

pub All-map :
    {A : Type 0} (P Q : A → Type 0) (xs : List A) → ((x : A) → P x → Q x) → All P xs → All Q xs
All-map P Q [] f h = tt
All-map P Q (x ∷ xs) f (h, hs) = (f x h, All-map P Q xs f hs)

pub own_members : {A : Type 0} (xs : List A) → All (λ x. Has x xs) xs
own_members [] = tt
own_members (x ∷ xs) =
    (inl refl, All-map (λ y. Has y xs) (λ y. Has y (x ∷ xs)) xs (λ y h. inr h) (own_members xs))

pub All-filter :
    {A : Type 0} (Q : A → Type 0) (p : A → Bool) (xs : List A)
    → All Q (filter p xs)
    → All (λ h. p h ≡ true → Q h) xs
unfolding filter
All-filter Q p [] h = tt
All-filter Q p (x ∷ xs) given =
    if_cases (λ ys. All Q ys → All (λ h. p h ≡ true → Q h) (x ∷ xs)) (p x)
      (λ _ h. (λ _. h.0, All-filter Q p xs h.1))
      (λ f h. (λ t. absurd (cc (t, f)), All-filter Q p xs h)) given

pub All-of_map :
    {A B : Type 0} (P : B → Type 0) (f : A → B) (xs : List A)
    → All P (map f xs)
    → All (λ x. P (f x)) xs
All-of_map P f [] h = tt
All-of_map P f (x ∷ xs) (h, hs) = (h, All-of_map P f xs hs)

pub Has-map :
    {A B : Type 0} (f : A → B) (w : B) (xs : List A)
    → Has w (map f xs)
    → (x : A) × Has x xs × (f x ≡ w)
Has-map f w [] h = absurd h
Has-map f w (x ∷ xs) (inl e) = (x, inl refl, e)
Has-map f w (x ∷ xs) (inr h) = let (y, m, e) = Has-map f w xs h in (y, inr m, e)

pub Has-of_filter :
    {A : Type 0} (p : A → Bool) (w : A) (xs : List A)
    → Has w (filter p xs)
    → Has w xs × (p w ≡ true)
unfolding filter
Has-of_filter p w [] h = absurd h
Has-of_filter p w (x ∷ xs) given =
    if_cases (λ ys. Has w ys → Has w (x ∷ xs) × (p w ≡ true)) (p x)
      (λ e h. elim h [
        | inl q ↦ (inl q, subst (λ y. p y ≡ true) q e)
        | inr k ↦ let (m, f) = Has-of_filter p w xs k in (inr m, f)
      ])
      (λ _ h. let (m, f) = Has-of_filter p w xs h in (inr m, f)) given
