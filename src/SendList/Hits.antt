-- ===== src/SendList/Hits.antt =====
-- The hits of queries/sendlist.py, the house and day of one, and how listings rank.
use hail_system.Prelude.{ℕ, String, Bool, false, ◌&&◌, ◌||◌, Option, none, some, ltb, ◌==◌, str_eq}

-- A measured size: a NULL, one that is not finite, or a number
pub data Size : Type 0 where
  unmeasured not_finite : Size
  hundredths : ℕ → Size

pub record Hit : Type 0 where
  pub match_id : ℕ
  pub listing_id : ℕ
  pub realtor_id : Option ℕ
  pub list_status : String
  pub list_last_seen : Option ℕ
  pub address : String
  pub address_key : Option String
  pub utc_datetime : ℕ
  pub magnitude : Size
  pub distance : ℕ
  pub agent_name : Option String
  pub email : Option String
  pub already_sent : Bool
  pub on_dnc : Bool
  pub has_permission : Bool
  pub in_cap : Bool
  pub key_emailed : Bool

-- `REASONS`
pub data Reason : Type 0 where
  too_old inactive_listing stale_listing no_agent_email already_emailed on_dnc_list no_permission
        within_cap :
      Reason
  duplicate_address : Reason

-- `_finite`, with the number
abbrev pub finite : Size → Option ℕ
finite (hundredths n) = some n
finite _ = none

-- Where the house is: its key, or the listing.
pub data House : Type 0 where
  keyed : String → House
  own : ℕ → House

abbrev pub house_of : Option String → ℕ → House
house_of (some key) listing_id = keyed key
house_of none listing_id = own listing_id

abbrev pub same_house : House → House → Bool
same_house (keyed k) (keyed j) = str_eq k j
same_house (own a) (own b) = a == b
same_house (keyed k) (own a) = false
same_house (own a) (keyed k) = false

abbrev pub same_key : House × ℕ → House × ℕ → Bool
same_key k j = same_house k.0 j.0 && k.1 == j.1

-- `_rank`
pub record Rank : Type 0 where
  pub seen : ℕ
  pub listing_id : ℕ

abbrev pub seen_at : Option ℕ → ℕ
seen_at none = 0
seen_at (some seen) = seen

abbrev pub rank : Hit → Rank
rank h = record { seen = seen_at h.list_last_seen; listing_id = h.listing_id }

-- `_rank(a) < _rank(b)`
abbrev pub outranks : Rank → Rank → Bool
outranks a b = ltb b.seen a.seen || (a.seen == b.seen && ltb a.listing_id b.listing_id)

module _ (denver_day : ℕ → ℕ) where
  -- `_house_day`
  abbrev pub house_day : Hit → House × ℕ
  house_day h = (house_of h.address_key h.listing_id, denver_day h.utc_datetime)
