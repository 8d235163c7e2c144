-- ===== src/SendList/Houses/Lookup.antt =====
-- The table of the best hits: what a lookup finds after another hit came, and the order of ranks.
use hail_system.Prelude.{
  ℕ, ◌≡◌, refl, ap, subst, ◌∙◌, String, Bool, true, false, Option, none, some, [], ◌∷◌,
  if◌then◌else◌, if_cases, eq_iff, arith, inl, inr, Bool-cases, ==_refl,
}
use hail_system.SendList.{
  Hit, House, keyed, own, same_house, same_key, Rank, rank, outranks, Best, best_for, put_best,
}

same_house-eq : (a b : House) → same_house a b ≡ true → a ≡ b
same_house-eq (keyed a) (keyed b) h = ap (λ (s : String). keyed s) ((eq_iff a b).0 h)
same_house-eq (own a) (own b) h = ap (λ (n : ℕ). own n) (ground (arith, h))
same_house-eq (keyed a) (own b) h = absurd (cc h)
same_house-eq (own a) (keyed b) h = absurd (cc h)

same_house_refl : (a : House) → same_house a a ≡ true
same_house_refl (keyed a) = (eq_iff a a).1 refl
same_house_refl (own a) = ==_refl a

pub same_key-eq : (k j : House × ℕ) → same_key k j ≡ true → k ≡ j
same_key-eq (a, n) (b, m) h =
    let e : a ≡ b = same_house-eq a b (ground (arith, h)) in
    let f : n ≡ m = ground (arith, h) in ap (λ (c : House). (c, n)) e ∙ ap (λ (i : ℕ). (b, i)) f

pub same_key_refl : (k : House × ℕ) → same_key k k ≡ true
same_key_refl (a, n) = ground (arith, same_house_refl a)

-- The hit that stands for a house after another one comes.
abbrev pub better : Hit → Option Hit → Hit
better h none = h
better h (some b) = if outranks (rank h) (rank b) then h else b

module _ (h w : Hit) (x : Option Hit) where
  read_same :
      (b c : Bool)
      → c ≡ b
      → (if b then some (if outranks (rank h) (rank w) then h else w) else x)
        ≡ (if c then some (better h (if b then some w else x)) else (if b then some w else x))
  read_same true true e = refl
  read_same false false e = refl
  read_same true false e = absurd (cc e)
  read_same false true e = absurd (cc e)

  read_past :
      (b c : Bool) (rest : Option Hit)
      → (b ≡ true → c ≡ false)
      → rest ≡ (if c then some (better h x) else x)
      → (if b then some w else rest)
        ≡ (if c then some (better h (if b then some w else x)) else (if b then some w else x))
  read_past true true rest e f = absurd (cc (e refl))
  read_past true false rest e f = refl
  read_past false true rest e f = f
  read_past false false rest e f = f

module _ (k j : House × ℕ) (h : Hit) where
  pub best_for-put_best :
      (best : Best)
      → best_for k (put_best j h best)
        ≡ (if same_key k j then some (better h (best_for k best)) else best_for k best)
  unfolding best_for put_best
  best_for-put_best [] = refl
  best_for-put_best ((i, w) ∷ best) =
      if_cases
        (λ (bs : Best). best_for k bs ≡ (
          if same_key k j
          then some (better h (best_for k ((i, w) ∷ best)))
          else best_for k ((i, w) ∷ best)))
        (same_key j i)
        (λ e.
          read_same h w (best_for k best) (same_key k i) (same_key k j)
            (ap (λ l. same_key k l) (same_key-eq j i e)))
        (λ e.
          read_past h w (best_for k best) (same_key k i) (same_key k j)
            (best_for k (put_best j h best))
            (λ f. elim (Bool-cases (same_key k j)) [
              | inl g ↦ absurd (cc (e, subst (λ l. same_key l i ≡ true) (same_key-eq k j g) f))
              | inr g ↦ g
            ])
            (best_for-put_best best))

pub outranks_trans :
    (a b c : Rank) → outranks a b ≡ false → outranks c b ≡ true → outranks a c ≡ false
outranks_trans a b c h k = ground (arith, h, k)

pub outranks_irrefl : (a : Rank) → outranks a a ≡ false
outranks_irrefl a = ground arith
