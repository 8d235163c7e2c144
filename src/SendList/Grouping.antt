-- ===== src/SendList/Grouping.antt =====
-- `collapse` of queries/sendlist.py, which groups hits into the events of an email.
use hail_system.Prelude.{
  ℕ, String, Bool, ◌&&◌, ◌||◌, Option, none, some, List, [], ◌∷◌, ◌++◌, map, ltb, ◌==◌,
  if◌then◌else◌,
}
use hail_system.SendList.Hits.{
  Size, hundredths, Hit, House, same_key, Rank, rank, outranks, house_day,
}

-- An event, and how its listing ranks
pub record Event : Type 0 where
  pub listing_id : ℕ
  pub address : String
  pub utc_datetime : ℕ
  pub magnitude : Option ℕ
  pub distance : ℕ
  pub match_ids : List ℕ
  pub rank : Rank

abbrev pub nearer : ℕ → ℕ → ℕ
nearer a b = if ltb a b then a else b

abbrev pub larger : Size → Option ℕ → Option ℕ
larger (hundredths n) none = some n
larger (hundredths n) (some m) = if ltb m n then some n else some m
larger _ m = m

-- A hit joins an event.
abbrev pub join : Hit → Event → Event
join h e = record {
  listing_id = if outranks (rank h) e.rank then h.listing_id else e.listing_id;
  address = if outranks (rank h) e.rank then h.address else e.address;
  utc_datetime = nearer h.utc_datetime e.utc_datetime;
  magnitude = larger h.magnitude e.magnitude;
  distance = nearer h.distance e.distance;
  match_ids = e.match_ids ++ (h.match_id ∷ []);
  rank = if outranks (rank h) e.rank then rank h else e.rank;
}

abbrev pub first_event : Hit → Event
first_event h = record {
  listing_id = h.listing_id;
  address = h.address;
  utc_datetime = h.utc_datetime;
  magnitude = none;
  distance = h.distance;
  match_ids = [];
  rank = rank h;
}

-- `events`, a dict in the order of its first hits
unfoldable pub add_hit : House × ℕ → Hit → List ((House × ℕ) × Event) → List ((House × ℕ) × Event)
add_hit k h [] = (k, join h (first_event h)) ∷ []
add_hit k h ((j, e) ∷ events) =
    let rest = add_hit k h events in if same_key k j then (j, join h e) ∷ events else (j, e) ∷ rest

-- The order of the sort
abbrev pub is_later : Event → Event → Bool
is_later a b =
    ltb b.utc_datetime a.utc_datetime
    || (a.utc_datetime == b.utc_datetime && ltb b.listing_id a.listing_id)

unfoldable pub sort_in : Event → List Event → List Event
sort_in e [] = e ∷ []
sort_in e (f ∷ events) =
    let rest = sort_in e events in if is_later e f then f ∷ rest else e ∷ f ∷ events

unfoldable pub sorted : List Event → List Event
unfolding sort_in
sorted [] = []
sorted (e ∷ events) = sort_in e (sorted events)

module _ (denver_day : ℕ → ℕ) where
  unfoldable pub events_from : List ((House × ℕ) × Event) → List Hit → List ((House × ℕ) × Event)
  unfolding add_hit
  events_from events [] = events
  events_from events (h ∷ hits) = events_from (add_hit (house_day denver_day h) h events) hits

  -- `collapse`
  unfoldable pub collapse : List Hit → List Event
  unfolding events_from sorted
  collapse hits = sorted (map (λ (e : (House × ℕ) × Event). e.1) (events_from [] hits))
