-- ===== src/Drip/Followup.antt =====
-- queries/dripfollowup.py: who gets a drip follow-up about which listings, from the hits of the first batch,
-- the listings found dead by earlier steps and this step's verdicts. The events that a realtor's hits are
-- grouped into by sendlist.collapse are left as the hits.
pub mod Chosen
pub mod Listings
use hail_system.Prelude.{
  ℕ, zero, suc, ◌+◌, String, Bool, true, false, not, ◌&&◌, ◌||◌, Option, none, some, List, [], ◌∷◌,
  map, any, length, ltb, leb, ◌==◌, is_some, if◌then◌else◌, filter, add_id,
}
use hail_system.Email.Store.{SendStatus}
use hail_system.RentCast.Check.{CheckOutcome, active, inactive, not_found}
use hail_system.RentCast.Step.{Item}

pub record Hit : Type 0 where
  pub match_id : ℕ
  pub listing_id : ℕ
  pub rentcast_id : Option String
  pub realtor_id : ℕ
  pub email : String
  pub send_status : SendStatus
  pub on_dnc : Bool
  pub has_permission : Bool
  pub in_cap : Bool

-- `REASONS`
pub data Reason : Type 0 where
  recipient_bounced on_dnc_list no_permission within_cap : Reason
  listing_dead_earlier listing_inactive listing_not_found listing_unconfirmed : Reason

-- `_DEAD`
abbrev pub is_dead : Reason → Bool
is_dead listing_dead_earlier = true
is_dead listing_inactive = true
is_dead listing_not_found = true
is_dead _ = false

abbrev pub place : Reason → ℕ
place recipient_bounced = 0
place on_dnc_list = 1
place no_permission = 2
place within_cap = 3
place listing_dead_earlier = 4
place listing_inactive = 5
place listing_not_found = 6
place listing_unconfirmed = 7

abbrev pub is_reason : Reason → Option Reason → Bool
is_reason r none = false
is_reason r (some q) = place r == place q

abbrev pub is_bounced : SendStatus → Bool
is_bounced SendStatus.bounced = true
is_bounced _ = false

abbrev pub is_of : ℕ → Hit → Bool
is_of realtor_id h = h.realtor_id == realtor_id

-- The branches of the loop of `_held_back`
abbrev pub own_reason : Bool → Hit → Option Reason
own_reason has_bounced h =
    if has_bounced
    then some recipient_bounced
    else if h.on_dnc
    then some on_dnc_list
    else if not h.has_permission
    then some no_permission
    else if h.in_cap
    then some within_cap
    else none

abbrev pub first_some : Option Reason → Option Reason → Option Reason
first_some (some r) later = some r
first_some none later = later

-- The first reason among the hits of a realtor.
unfoldable pub held_by : Bool → List Hit → Option Reason
held_by has_bounced [] = none
held_by has_bounced (h ∷ hits) = first_some (own_reason has_bounced h) (held_by has_bounced hits)

-- `_held_back`, read at a realtor
unfoldable pub held_back : List Hit → ℕ → Option Reason
unfolding filter held_by
held_back hits realtor_id =
    held_by (any (λ (h : Hit). is_bounced h.send_status) (filter (is_of realtor_id) hits))
      (filter (is_of realtor_id) hits)

abbrev pub outcome_reason : Option CheckOutcome → Option Reason
outcome_reason (some active) = none
outcome_reason (some inactive) = some listing_inactive
outcome_reason (some not_found) = some listing_not_found
outcome_reason (some CheckOutcome.error) = some listing_unconfirmed
outcome_reason none = some listing_unconfirmed

-- `_listing_reason`
abbrev pub listing_reason : Hit → List ℕ → (ℕ → Option CheckOutcome) → Option Reason
listing_reason h dead verdicts =
    if any (λ i. i == h.listing_id) dead
    then some listing_dead_earlier
    else outcome_reason (verdicts h.listing_id)

unfoldable pub realtor_ids : List Hit → List ℕ
unfolding add_id
realtor_ids [] = []
realtor_ids (h ∷ hits) = add_id h.realtor_id (realtor_ids hits)

-- A listing to check, unless it is there; they are kept in the order of their ids.
unfoldable pub add_listing : Item → List Item → List Item
add_listing item [] = item ∷ []
add_listing item (j ∷ items) =
    let rest = add_listing item items in
    if item.listing_id == j.listing_id
    then j ∷ items
    else if ltb item.listing_id j.listing_id
    then item ∷ j ∷ items
    else j ∷ rest

abbrev pub item_of : Hit → Item
item_of h = record { listing_id = h.listing_id; rentcast_id = h.rentcast_id; email = some h.email }

abbrev pub is_left_out : List Hit → List ℕ → Hit → Bool
is_left_out hits dead h = is_some (held_back hits h.realtor_id) || any (λ i. i == h.listing_id) dead

unfoldable pub listings_from : List Hit → List ℕ → List Item → List Hit → List Item
unfolding add_listing held_back
listings_from all dead items [] = items
listings_from all dead items (h ∷ hits) =
    listings_from all dead (if is_left_out all dead h then items else add_listing (item_of h) items)
      hits

-- `listings_to_check`
unfoldable pub listings_to_check : List Hit → List ℕ → List Item
unfolding listings_from
listings_to_check hits dead = listings_from hits dead [] hits

-- 'bounced', 'unsubscribed', 'no_permission', 'no_active_listings'
pub data StopReason : Type 0 where
  hard_bounced unsubscribed permission_removed no_active_listings : StopReason

pub record Realtor : Type 0 where
  pub realtor_id : ℕ
  pub rows : List Hit

pub record Stop : Type 0 where
  pub realtor_id : ℕ
  pub reason : StopReason

module _ (hits : List Hit) (dead : List ℕ) (verdicts : ℕ → Option CheckOutcome) where
  -- `held.get(rid) or _listing_reason(…)`
  unfoldable pub reason_of : Hit → Option Reason
  reason_of h = first_some (held_back hits h.realtor_id) (listing_reason h dead verdicts)

  unfoldable pub kept : List Hit
  kept = filter (λ h. not (is_some (reason_of h))) hits

  abbrev pub dead_reason : Option Reason → Bool
  dead_reason none = true
  dead_reason (some r) = is_dead r

  -- `all(r in _DEAD for r in reasons[rid])`
  unfoldable pub all_dead : ℕ → Bool
  all_dead realtor_id = not (any (λ h. is_of realtor_id h && not (dead_reason (reason_of h))) hits)

  unfoldable pub stop_reason : Option Reason → ℕ → Option StopReason
  stop_reason (some recipient_bounced) realtor_id = some hard_bounced
  stop_reason (some on_dnc_list) realtor_id = some unsubscribed
  stop_reason (some no_permission) realtor_id = some permission_removed
  stop_reason (some _) realtor_id = none
  stop_reason none realtor_id = if all_dead realtor_id then some no_active_listings else none

  unfoldable pub add_stop : ℕ → Option StopReason → List Stop → List Stop
  add_stop realtor_id none stops = stops
  add_stop realtor_id (some reason) stops =
      record { realtor_id = realtor_id; reason = reason } ∷ stops

  unfoldable pub stops_of : List ℕ → List Stop
  unfolding add_stop
  stops_of [] = []
  stops_of (id ∷ ids) =
      let rest = stops_of ids in
      if any (is_of id) kept then rest else add_stop id (stop_reason (held_back hits id) id) rest

  -- `select_followup`: its `realtors` and its `to_stop`
  unfoldable pub realtors : List Realtor
  realtors =
      map (λ id. record { realtor_id = id; rows = filter (is_of id) kept }) (realtor_ids kept)

  unfoldable pub to_stop : List Stop
  to_stop = stops_of (realtor_ids hits)

  -- The matches dropped for a reason.
  unfoldable pub excluded : Reason → ℕ
  excluded reason = length (filter (λ h. is_reason reason (reason_of h)) hits)
