-- ===== src/SendList/Agents.antt =====
-- `_one_agent_per_house` of queries/sendlist.py.
use hail_system.Prelude.{
  ℕ, Bool, true, false, not, Option, none, some, List, [], ◌∷◌, ◌==◌, is_some, if◌then◌else◌,
  filter,
}
use hail_system.SendList.Hits.{Hit, House, same_key, rank, outranks, house_day}

-- `best`, a dict
abbrev pub Best : Type 0
Best = List ((House × ℕ) × Hit)

unfoldable pub best_for : House × ℕ → Best → Option Hit
best_for k [] = none
best_for k (e ∷ best) = if same_key k e.0 then some e.1 else best_for k best

unfoldable pub put_best : House × ℕ → Hit → Best → Best
put_best k h [] = (k, h) ∷ []
put_best k h ((j, b) ∷ best) =
    let rest = put_best k h best in
    if same_key k j then (j, if outranks (rank h) (rank b) then h else b) ∷ best else (j, b) ∷ rest

abbrev pub same_realtor : Option ℕ → Option ℕ → Bool
same_realtor none none = true
same_realtor (some a) (some b) = a == b
same_realtor none (some b) = false
same_realtor (some a) none = false

-- Whether another agent has the house.
abbrev pub is_beaten_by : Hit → Option Hit → Bool
is_beaten_by h none = false
is_beaten_by h (some w) = not (same_realtor w.realtor_id h.realtor_id)

module _ (denver_day : ℕ → ℕ) where
  -- The first loop of `_one_agent_per_house`
  unfoldable pub best_from : Best → List Hit → Best
  unfolding put_best
  best_from best [] = best
  best_from best (h ∷ hits) =
      best_from (if is_some h.address_key then put_best (house_day denver_day h) h best else best)
        hits

  abbrev pub winner : Best → Hit → Option Hit
  winner best h = if is_some h.address_key then best_for (house_day denver_day h) best else none

  -- The hits that `_one_agent_per_house` keeps, and those that it drops
  unfoldable pub one_agent_per_house : List Hit → List Hit
  unfolding filter best_from best_for
  one_agent_per_house hits =
      let best = best_from [] hits in filter (λ h. not (is_beaten_by h (winner best h))) hits

  unfoldable pub beaten : List Hit → List Hit
  unfolding filter best_from best_for
  beaten hits = let best = best_from [] hits in filter (λ h. is_beaten_by h (winner best h)) hits
