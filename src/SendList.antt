-- ===== src/SendList.antt =====
-- hailsys/queries/sendlist.py: who is emailed about the ticked storm days, from the hits that the query gathers.
-- Times are seconds from 1970 on, days their number, sizes and distances whole hundredths.
mod Hits
mod Agents
mod Grouping
pub mod Rules
pub mod Houses
pub mod Events
use hail_system.Prelude.{
  ℕ, zero, suc, ◌+◌, ◌-◌, ◌*◌, String, Bool, true, false, not, ◌&&◌, ◌||◌, Option, none, some, List,
  [], ◌∷◌, ◌++◌, map, length, ltb, ◌==◌, str_eq, is_some, if◌then◌else◌, filter, add_id,
}
use hail_system.Text.{is_empty}
pub use Hits.*
pub use Agents.*
unfoldable pub use Agents.{best_for, put_best, best_from, one_agent_per_house, beaten}
pub use Grouping.*
unfoldable pub use Grouping.{add_hit, sort_in, sorted, events_from, collapse}

abbrev pub place : Reason → ℕ
place too_old = 0
place inactive_listing = 1
place stale_listing = 2
place no_agent_email = 3
place already_emailed = 4
place on_dnc_list = 5
place no_permission = 6
place within_cap = 7
place duplicate_address = 8

abbrev pub or_else : {A : Type 0} → Option A → Option A → Option A
or_else none later = later
or_else (some r) later = some r

abbrev pub is_seen : (ℕ → ℕ) → ℕ → Option ℕ → Bool
is_seen denver_day freshest_day none = false
is_seen denver_day freshest_day (some seen) = not (ltb (denver_day seen) freshest_day)

-- `not email`, of an email that may be NULL
abbrev pub is_missing : Option String → Bool
is_missing none = true
is_missing (some email) = is_empty email

-- The rules after the listing's.
abbrev pub sending_reason : Hit → Option Reason
sending_reason h =
    if not (is_some h.realtor_id) || is_missing h.email
    then some no_agent_email
    else if h.already_sent
    then some already_emailed
    else if h.key_emailed
    then some duplicate_address
    else if h.on_dnc
    then some on_dnc_list
    else if not h.has_permission
    then some no_permission
    else if h.in_cap
    then some within_cap
    else none

module _ (denver_day : ℕ → ℕ) where
  -- `listing_reason`
  unfoldable pub listing_reason : String → Option ℕ → ℕ → Option Reason
  listing_reason list_status list_last_seen freshest_day =
      if not (str_eq list_status "Active")
      then some inactive_listing
      else if not (is_seen denver_day freshest_day list_last_seen)
      then some stale_listing
      else none

  -- `_reason`
  unfoldable pub reason_of : ℕ → ℕ → Hit → Option Reason
  unfolding listing_reason
  reason_of oldest_day freshest_day h =
      if ltb (denver_day h.utc_datetime) oldest_day
      then some too_old
      else or_else (listing_reason h.list_status h.list_last_seen freshest_day) (sending_reason h)

abbrev pub is_dropped : Reason → Option Reason → Bool
is_dropped r none = false
is_dropped r (some q) = place r == place q

-- A set of realtors, without NULL
abbrev pub add_realtor : Option ℕ → List ℕ → List ℕ
add_realtor none ids = ids
add_realtor (some id) ids = add_id id ids

unfoldable pub realtors_of : List Hit → List ℕ
unfolding add_id
realtors_of [] = []
realtors_of (h ∷ hits) = add_realtor h.realtor_id (realtors_of hits)

pub record Recipient : Type 0 where
  pub realtor_id : ℕ
  pub agent_name : Option String
  pub email : Option String
  pub events : List Event

-- A number of matches and of realtors
pub record Sizes : Type 0 where
  pub matches : ℕ
  pub realtors : ℕ

abbrev pub sizes : List Hit → Sizes
sizes hits = record { matches = length hits; realtors = length (realtors_of hits) }

pub record Selection : Type 0 where
  pub realtors : List Recipient
  pub considered : Sizes
  pub excluded : Reason → Sizes

abbrev pub first_agent : List Hit → Option String
first_agent [] = none
first_agent (h ∷ hits) = h.agent_name

abbrev pub first_email : List Hit → Option String
first_email [] = none
first_email (h ∷ hits) = h.email

abbrev pub is_duplicate : Reason → Bool
is_duplicate duplicate_address = true
is_duplicate _ = false

module _ (denver_day : ℕ → ℕ) (today max_age_days freshness_days : ℕ) (hits : List Hit) where
  abbrev pub reason : Hit → Option Reason
  reason h = reason_of denver_day (today - max_age_days) (today - freshness_days) h

  unfoldable pub survivors : List Hit
  unfolding filter reason_of
  survivors = filter (λ h. not (is_some (reason h))) hits

  unfoldable pub kept : List Hit
  unfolding survivors one_agent_per_house
  kept = one_agent_per_house denver_day survivors

  -- The hits counted under a reason
  unfoldable pub dropped : Reason → List Hit
  unfolding survivors beaten filter reason_of
  dropped r =
      filter (λ h. is_dropped r (reason h)) hits
      ++ (if is_duplicate r then beaten denver_day survivors else [])

  abbrev pub is_for : ℕ → Hit → Bool
  is_for realtor_id h = same_realtor (some realtor_id) h.realtor_id

  unfoldable pub rows_of : ℕ → List Hit
  unfolding filter kept
  rows_of realtor_id = filter (is_for realtor_id) kept

  abbrev pub recipient : ℕ → Recipient
  recipient realtor_id = record {
    realtor_id = realtor_id;
    agent_name = first_agent (rows_of realtor_id);
    email = first_email (rows_of realtor_id);
    events = collapse denver_day (rows_of realtor_id);
  }

  -- `select`, with its own `collapse`
  unfoldable pub select : Selection
  unfolding rows_of kept dropped collapse realtors_of
  select = record {
    realtors = map recipient (realtors_of kept);
    considered = sizes hits;
    excluded = λ r. sizes (dropped r);
  }

-- `build_send_list`; `query` is _HITS_SQL from a time on, which a send that overrides the cap leaves out.
abbrev pub cap_start : ℕ → Option ℕ → Option ℕ
cap_start now none = none
cap_start now (some cap_days) = some (now - cap_days * 86400)

unfoldable pub build_send_list : (ℕ → ℕ) → (Option ℕ → List Hit) → ℕ → ℕ → Option ℕ → ℕ → Selection
unfolding select
build_send_list denver_day query now max_age_days cap_days freshness_days =
    select denver_day (denver_day now) max_age_days freshness_days (query (cap_start now cap_days))
