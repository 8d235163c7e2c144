-- ===== src/Tests/SendLists.antt =====
-- Three hits of one house on one day: two agents' listings, and an old report of the second.
use hail_system.Prelude.{
  ℕ, ◌+◌, ◌-◌, ◌*◌, ◌/◌, ◌≡◌, refl, true, false, none, some, [], ◌∷◌, map, All, List,
}
use hail_system.SendList.{Hit, hundredths, not_finite, Event, kept, one_agent_per_house, collapse}
use hail_system.SendList.Rules.{IsEligible, kept-IsEligible}
use hail_system.SendList.Houses.{Agree, IsGiven, one_agent_per_house-Agree}
use hail_system.SendList.Events.{times_in, times_hit, IsCovered, IsSorted, collapse-Covers}

abbrev day : ℕ → ℕ
day t = t / 86400

abbrev hit : Hit
hit = record {
  match_id = 1;
  listing_id = 10;
  realtor_id = some 5;
  list_status = "Active";
  list_last_seen = some (100 * 86400);
  address = "1 Elm St";
  address_key = some "1 elm";
  utc_datetime = 100 * 86400 + 60;
  magnitude = hundredths 125;
  distance = 40;
  agent_name = none;
  email = some "ann@example.com";
  already_sent = false;
  on_dnc = false;
  has_permission = true;
  in_cap = false;
  key_emailed = false;
}

abbrev rival : Hit
rival = record hit {
  match_id = 2;
  listing_id = 11;
  realtor_id = some 6;
  email = some "bob@example.com";
  list_last_seen = some (99 * 86400);
}

abbrev again : Hit
again = record hit { match_id = 3; magnitude = not_finite; utc_datetime = 100 * 86400 }

abbrev hits : List Hit
hits = rival ∷ hit ∷ again ∷ []

kept-IsEligible_example : All (IsEligible day (101 - 30) (101 - 7)) (kept day 101 30 7 hits)
kept-IsEligible_example = kept-IsEligible day 101 30 7 hits

one_agent_per_house-Agree_example :
    All (λ a. All (Agree day a) (one_agent_per_house day hits)) (one_agent_per_house day hits)
    × All (IsGiven day hits) hits
one_agent_per_house-Agree_example = one_agent_per_house-Agree day hits

collapse-Covers_example :
    ((id : ℕ) → times_in id (collapse day hits) ≡ times_hit id hits)
    × All (IsCovered (collapse day hits)) hits
    × IsSorted (collapse day hits)
collapse-Covers_example = collapse-Covers day hits

-- The rival is left out, and the other two are one event.
two_kept : map (λ (h : Hit). h.match_id) (kept day 101 30 7 hits) ≡ 1 ∷ 3 ∷ []
unfolding kept
two_kept = refl

one_event : map (λ (e : Event). e.match_ids) (collapse day (hit ∷ again ∷ [])) ≡ (1 ∷ 3 ∷ []) ∷ []
unfolding collapse
one_event = refl
