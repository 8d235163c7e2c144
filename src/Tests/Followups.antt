-- ===== src/Tests/Followups.antt =====
-- Two realtors of a first batch: one whose listing is confirmed, one who bounced.
use hail_system.Prelude.{
  ℕ, ◌≡◌, refl, true, false, Option, none, some, List, [], ◌∷◌, All, length, ◌==◌, if◌then◌else◌,
}
use hail_system.Email.Store.{SendStatus}
use hail_system.RentCast.Check.{CheckOutcome}
use hail_system.Drip.Followup.{
  Hit, Realtor, hard_bounced, kept, realtors, to_stop, reason_of, held_back, stop_reason, stops_of,
  realtor_ids,
}
use hail_system.Drip.Followup.Chosen.{IsConfirmed, realtors-IsConfirmed}
use hail_system.Drip.Followup.Listings.{is_listed, IsOrdered, kept-is_listed}
use hail_system.Drip.Followup.{listings_to_check}

abbrev hit : ℕ → ℕ → SendStatus → Hit
hit realtor listing status = record {
  match_id = listing;
  listing_id = listing;
  rentcast_id = some "h";
  realtor_id = realtor;
  email = "a@x.com";
  send_status = status;
  on_dnc = false;
  has_permission = true;
  in_cap = false;
}

abbrev hits : List Hit
hits = hit 1 10 SendStatus.sent ∷ hit 2 20 SendStatus.bounced ∷ hit 1 11 SendStatus.sent ∷ []

-- Listing 10 is active, 11 was never checked.
abbrev verdicts : ℕ → Option CheckOutcome
verdicts id = if id == 11 then none else some CheckOutcome.active

realtors-IsConfirmed_example :
    All
      (λ (r : Realtor). All (IsConfirmed hits [] verdicts r.realtor_id) r.rows)
      (realtors hits [] verdicts)
realtors-IsConfirmed_example = realtors-IsConfirmed hits [] verdicts

kept-is_listed_example :
    IsOrdered (listings_to_check hits [])
    × All
        (λ (h : Hit). is_listed h.listing_id (listings_to_check hits []) ≡ true)
        (kept hits [] verdicts)
kept-is_listed_example = kept-is_listed hits [] verdicts

-- The listing of the one who bounced is not checked.
two_listed : length (listings_to_check hits []) ≡ 2
unfolding listings_to_check held_back
two_listed = refl

one_kept : kept hits [] verdicts ≡ hit 1 10 SendStatus.sent ∷ []
unfolding kept reason_of held_back
one_kept = refl

one_stopped : to_stop hits [] verdicts ≡ record { realtor_id = 2; reason = hard_bounced } ∷ []
unfolding to_stop stop_reason kept reason_of held_back stops_of realtor_ids
one_stopped = refl
