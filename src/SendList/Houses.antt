-- ===== src/SendList/Houses.antt =====
-- `_one_agent_per_house`: one agent has a house on a day, and a house that any agent has goes to the best ranked.
mod Lookup
use hail_system.Prelude.{
  ℕ, ◌≡◌, refl, sym, ap, subst, ◌∙◌, String, Bool, true, false, not, Option, none, some, List, [],
  ◌∷◌, is_some, if◌then◌else◌, if_cases, filter, filter-All, All, All-map, Has, Has-filter,
  own_members, eq_iff, arith, inl, inr, Bool-cases, ==_refl,
}
use hail_system.SendList.{
  Hit, House, keyed, own, same_house, same_key, Rank, rank, outranks, Best, best_for, put_best,
  best_from, house_day, winner, is_beaten_by, same_realtor, one_agent_per_house,
}
use hail_system.SendList.Houses.Lookup.{
  same_key-eq, same_key_refl, better, best_for-put_best, outranks_trans, outranks_irrefl,
}

module _ (denver_day : ℕ → ℕ) (all : List Hit) where
  -- What the table holds for a house is one of the hits, of that house and day.
  IsSound : House × ℕ → Hit → Type 0
  IsSound k w = (house_day denver_day w ≡ k) × Has w all × (is_some w.address_key ≡ true)

  abbrev HoldsSound : Best → Type 0
  HoldsSound best = (k : House × ℕ) (w : Hit) → best_for k best ≡ some w → IsSound k w

  -- The table has a hit of the house that this one does not outrank.
  abbrev IsCovered : Best → Hit → Type 0
  IsCovered best h =
      is_some h.address_key ≡ true
      → (w : Hit) × (best_for (house_day denver_day h) best ≡ some w)
        × (outranks (rank h) (rank w) ≡ false)

  better-IsSound :
      (k : House × ℕ) (h : Hit) (o : Option Hit) (w : Hit)
      → IsSound k h
      → ((v : Hit) → o ≡ some v → IsSound k v)
      → some (better h o) ≡ some w
      → IsSound k w
  better-IsSound k h none w s t e = subst (IsSound k) (cc e) s
  better-IsSound k h (some b) w s t given =
      if_cases (λ (v : Hit). some v ≡ some w → IsSound k w) (outranks (rank h) (rank b))
        (λ _ e. subst (IsSound k) (cc e) s) (λ _ e. subst (IsSound k) (cc e) (t b refl)) given

  put_best-Sound :
      (h : Hit) (best : Best)
      → IsSound (house_day denver_day h) h
      → HoldsSound best
      → HoldsSound (put_best (house_day denver_day h) h best)
  put_best-Sound h best s t k w given =
      if_cases (λ (o : Option Hit). o ≡ some w → IsSound k w) (same_key k (house_day denver_day h))
        (λ e f.
          better-IsSound k h (best_for k best) w
            (subst (λ l. IsSound l h) (sym (same_key-eq k _ e)) s) (t k) f)
        (λ _ f. t k w f) (sym (best_for-put_best k (house_day denver_day h) h best) ∙ given)

  better_covers :
      (a h : Hit) (o : Option Hit)
      → ((w : Hit) × (o ≡ some w) × (outranks (rank a) (rank w) ≡ false))
      → (w : Hit) × (some (better h o) ≡ some w) × (outranks (rank a) (rank w) ≡ false)
  better_covers a h none (w, e, f) = absurd (cc e)
  better_covers a h (some b) (w, e, f) =
      let below : outranks (rank a) (rank b) ≡ false =
        subst (λ (u : Hit). outranks (rank a) (rank u) ≡ false) {x = w} {y = b} (cc e) f in
      if_cases (λ (v : Hit). (u : Hit) × (some v ≡ some u) × (outranks (rank a) (rank u) ≡ false))
        (outranks (rank h) (rank b))
        (λ g. (h, refl, outranks_trans (rank a) (rank b) (rank h) below g)) (λ _. (b, refl, below))

  better_own :
      (h : Hit) (o : Option Hit)
      → (w : Hit) × (some (better h o) ≡ some w) × (outranks (rank h) (rank w) ≡ false)
  better_own h none = (h, refl, outranks_irrefl (rank h))
  better_own h (some b) =
      if_cases (λ (v : Hit). (u : Hit) × (some v ≡ some u) × (outranks (rank h) (rank u) ≡ false))
        (outranks (rank h) (rank b)) (λ _. (h, refl, outranks_irrefl (rank h))) (λ g. (b, refl, g))

  put_best-keeps :
      (h a : Hit) (best : Best)
      → IsCovered best a
      → IsCovered (put_best (house_day denver_day h) h best) a
  put_best-keeps h a best c k =
      let (w, e, f) = c k in
      let best' : Best = put_best (house_day denver_day h) h best in
      let at : House × ℕ = house_day denver_day a in
      if_cases
        (λ (o : Option Hit).
          best_for at best' ≡ o
          → (u : Hit) × (best_for at best' ≡ some u) × (outranks (rank a) (rank u) ≡ false))
        (same_key at (house_day denver_day h))
        (λ _ q. let (u, r, s) = better_covers a h (best_for at best) (w, e, f) in (u, q ∙ r, s))
        (λ _ q. (w, q ∙ e, f)) (best_for-put_best at (house_day denver_day h) h best)

  put_best-covers : (h : Hit) (best : Best) → IsCovered (put_best (house_day denver_day h) h best) h
  put_best-covers h best k =
      let at : House × ℕ = house_day denver_day h in
      let best' : Best = put_best at h best in
      if_cases
        (λ (o : Option Hit).
          best_for at best' ≡ o
          → (u : Hit) × (best_for at best' ≡ some u) × (outranks (rank h) (rank u) ≡ false))
        (same_key at at) (λ _ q. let (u, r, s) = better_own h (best_for at best) in (u, q ∙ r, s))
        (λ n _. absurd (cc (n, same_key_refl at))) (best_for-put_best at at h best)

  -- The table after one more hit.
  abbrev next : Hit → Best → Best
  next h best = if is_some h.address_key then put_best (house_day denver_day h) h best else best

  next-Sound : (h : Hit) (best : Best) → Has h all → HoldsSound best → HoldsSound (next h best)
  unfolding IsSound
  next-Sound h best m t =
      if_cases HoldsSound (is_some h.address_key) (λ e. put_best-Sound h best (refl, m, e) t)
        (λ _. t)

  next-keeps : (h a : Hit) (best : Best) → IsCovered best a → IsCovered (next h best) a
  next-keeps h a best c =
      if_cases (λ (b : Best). IsCovered b a) (is_some h.address_key)
        (λ _. put_best-keeps h a best c) (λ _. c)

  next-covers : (h : Hit) (best : Best) → IsCovered (next h best) h
  next-covers h best =
      if_cases (λ (b : Best). IsCovered b h) (is_some h.address_key) (λ _. put_best-covers h best)
        (λ n k. absurd (cc (n, k)))

  best_from-Sound :
      (best : Best) (hits : List Hit)
      → All (λ h. Has h all) hits
      → HoldsSound best
      → HoldsSound (best_from denver_day best hits)
  unfolding best_from
  best_from-Sound best [] m t = t
  best_from-Sound best (h ∷ hits) (m, ms) t =
      best_from-Sound (next h best) hits ms (next-Sound h best m t)

  best_from-keeps :
      (a : Hit) (best : Best) (hits : List Hit)
      → IsCovered best a
      → IsCovered (best_from denver_day best hits) a
  unfolding best_from
  best_from-keeps a best [] c = c
  best_from-keeps a best (h ∷ hits) c = best_from-keeps a (next h best) hits (next-keeps h a best c)

  best_from-covers :
      (best : Best) (hits : List Hit) → All (IsCovered (best_from denver_day best hits)) hits
  unfolding best_from
  best_from-covers best [] = tt
  best_from-covers best (h ∷ hits) = (
    best_from-keeps h (next h best) hits (next-covers h best),
    best_from-covers (next h best) hits,
  )

  abbrev table : Best
  table = best_from denver_day [] all

  -- A hit that stays: the house is its agent's, or it is not known by an address.
  abbrev Stays : Hit → Type 0
  Stays h =
      is_some h.address_key ≡ true
      → (w : Hit) × (best_for (house_day denver_day h) table ≡ some w)
        × (w.realtor_id ≡ h.realtor_id)

  same_realtor-eq : (a b : Option ℕ) → same_realtor a b ≡ true → a ≡ b
  same_realtor-eq none none h = refl
  same_realtor-eq (some a) (some b) h = ap (λ (n : ℕ). some n) (ground (arith, h))
  same_realtor-eq none (some b) h = absurd (cc h)
  same_realtor-eq (some a) none h = absurd (cc h)

  same_realtor_refl : (a : Option ℕ) → same_realtor a a ≡ true
  same_realtor_refl none = refl
  same_realtor_refl (some a) = ==_refl a

  stays :
      (h : Hit) (o : Option Hit)
      → ((w : Hit) × (o ≡ some w) × (outranks (rank h) (rank w) ≡ false))
      → not (is_beaten_by h o) ≡ true
      → (w : Hit) × (o ≡ some w) × (w.realtor_id ≡ h.realtor_id)
  stays h none (w, e, f) k = absurd (cc e)
  stays h (some v) (w, e, f) k =
      (v, refl, same_realtor-eq v.realtor_id h.realtor_id (ground (arith, k)))

  winner_keyed :
      (h : Hit)
      → is_some h.address_key ≡ true
      → winner denver_day table h ≡ best_for (house_day denver_day h) table
  winner_keyed h k =
      if_cases (λ (o : Option Hit). o ≡ best_for (house_day denver_day h) table)
        (is_some h.address_key) (λ _. refl) (λ n. absurd (cc (n, k)))

  IsCovered-Stays :
      (h : Hit)
      → IsCovered table h
      → not (is_beaten_by h (winner denver_day table h)) ≡ true
      → Stays h
  IsCovered-Stays h c e k =
      stays h (best_for (house_day denver_day h) table) (c k)
        (subst (λ (o : Option Hit). not (is_beaten_by h o) ≡ true) (winner_keyed h k) e)

  -- The winner of a house is not beaten.
  winner_stays :
      (k : House × ℕ) (w : Hit)
      → best_for k table ≡ some w
      → IsSound k w
      → not (is_beaten_by w (winner denver_day table w)) ≡ true
  unfolding IsSound
  winner_stays k w e (d, m, a) =
      subst (λ (o : Option Hit). not (is_beaten_by w o) ≡ true)
        (sym (winner_keyed w a ∙ ap (λ (l : House × ℕ). best_for l table) d ∙ e))
        (ground (arith, same_realtor_refl w.realtor_id))

  table-Sound : HoldsSound table
  unfolding best_for
  table-Sound = best_from-Sound [] all (own_members all) (λ k w e. absurd (cc e))

  -- A house that any of the hits names goes to one that none of its hits outranks.
  abbrev pub IsGiven : Hit → Type 0
  IsGiven h =
      is_some h.address_key ≡ true
      → (w : Hit) × Has w (one_agent_per_house denver_day all)
        × (house_day denver_day w ≡ house_day denver_day h)
        × (outranks (rank h) (rank w) ≡ false)

  given : (h : Hit) → IsCovered table h → IsGiven h
  unfolding one_agent_per_house IsSound
  given h c k =
      let (w, e, f) = c k in
      let s : IsSound (house_day denver_day h) w = table-Sound (house_day denver_day h) w e in
      let (d, m, a) = s in
      (w, Has-filter _ w all (winner_stays (house_day denver_day h) w e s) m, d, f)

-- Two hits that name one house and day name one agent.
abbrev pub Agree : (ℕ → ℕ) → Hit → Hit → Type 0
Agree denver_day a b =
    is_some a.address_key ≡ true
    → is_some b.address_key ≡ true
    → house_day denver_day a ≡ house_day denver_day b
    → a.realtor_id ≡ b.realtor_id

Stays-Agree :
    (denver_day : ℕ → ℕ) (all : List Hit) (a b : Hit)
    → Stays denver_day all a
    → Stays denver_day all b
    → Agree denver_day a b
Stays-Agree denver_day all a b s t k l e =
    let (w, p, q) = s k in
    let (v, p', q') = t l in
    let same : w ≡ v = cc (p, p', ap (λ (i : House × ℕ). best_for i (table denver_day all)) e) in
    sym q ∙ ap (λ (h : Hit). h.realtor_id) same ∙ q'

-- Of the hits that are left for one address and one day, all name the same agent; and each address and day that any
-- of the hits names keeps one, which no hit of that address and day outranks (seen later, or as late with a lower
-- listing id).
pub one_agent_per_house-Agree :
    (denver_day : ℕ → ℕ) (hits : List Hit)
    → All
        (λ a. All (Agree denver_day a) (one_agent_per_house denver_day hits))
        (one_agent_per_house denver_day hits)
      × All (IsGiven denver_day hits) hits
unfolding one_agent_per_house
one_agent_per_house-Agree denver_day hits =
    let best : Best = table denver_day hits in
    let covers : All (IsCovered denver_day hits best) hits =
      best_from-covers denver_day hits [] hits in
    let left : List Hit = filter (λ h. not (is_beaten_by h (winner denver_day best h))) hits in
    let agents : All (Stays denver_day hits) left =
      filter-All (IsCovered denver_day hits best) (Stays denver_day hits) _ hits
        (IsCovered-Stays denver_day hits) covers in
    (
      All-map (Stays denver_day hits) (λ a. All (Agree denver_day a) left) left
          (λ a s.
            All-map (Stays denver_day hits) (Agree denver_day a) left
              (λ b t. Stays-Agree denver_day hits a b s t) agents)
          agents,
      All-map (IsCovered denver_day hits best) (IsGiven denver_day hits) hits
          (given denver_day hits) covers,
    )
