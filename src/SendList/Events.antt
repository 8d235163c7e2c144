-- ===== src/SendList/Events.antt =====
-- `collapse`: every match is in one event, in its event's bounds, and the events come in order.
use hail_system.Prelude.{
  ℕ, ◌+◌, ◌≤◌, ◌≡◌, refl, Bool, true, false, Option, none, some, List, [], ◌∷◌, map, ltb, ◌==◌,
  if◌then◌else◌, if_cases, All, All-map, inl, inr, ◌⊎◌, sum_by, sum_by-append, arith,
}
use hail_system.SendList.{
  Hit, House, Size, unmeasured, not_finite, hundredths, same_key, Event, nearer, larger, join,
  first_event, add_hit, is_later, sort_in, sorted, house_day, events_from, collapse,
}

abbrev one_if : Bool → ℕ
one_if b = if b then 1 else 0

one_if_refl : (n : ℕ) → one_if (n == n) ≡ 1
one_if_refl n = ground arith

-- How often a match is named.
abbrev pub times : ℕ → List ℕ → ℕ
times id ids = sum_by (λ i. one_if (i == id)) ids

abbrev pub times_in : ℕ → List Event → ℕ
times_in id events = sum_by (λ (e : Event). times id e.match_ids) events

abbrev of_events : List ((House × ℕ) × Event) → List Event
of_events events = map (λ (e : (House × ℕ) × Event). e.1) events

times-join :
    (id : ℕ) (h : Hit) (e : Event)
    → times id (join h e).match_ids ≡ times id e.match_ids + one_if (h.match_id == id)
times-join id h e =
    omega (arith, sum_by-append (λ i. one_if (i == id)) e.match_ids (h.match_id ∷ []))

times_in-add_hit :
    (id : ℕ) (k : House × ℕ) (h : Hit) (events : List ((House × ℕ) × Event))
    → times_in id (of_events (add_hit k h events))
      ≡ times_in id (of_events events) + one_if (h.match_id == id)
unfolding add_hit
times_in-add_hit id k h [] = omega arith
times_in-add_hit id k h ((j, e) ∷ events) =
    if_cases
      (λ (es : List ((House × ℕ) × Event)).
        times_in id (of_events es)
        ≡ times_in id (of_events ((j, e) ∷ events)) + one_if (h.match_id == id))
      (same_key k j) (λ _. omega (arith, times-join id h e))
      (λ _. omega (arith, times_in-add_hit id k h events))

times_in-sort_in :
    (id : ℕ) (e : Event) (events : List Event)
    → times_in id (sort_in e events) ≡ times id e.match_ids + times_in id events
unfolding sort_in
times_in-sort_in id e [] = refl
times_in-sort_in id e (f ∷ events) =
    if_cases (λ (es : List Event). times_in id es ≡ times id e.match_ids + times_in id (f ∷ events))
      (is_later e f) (λ _. omega (arith, times_in-sort_in id e events)) (λ _. refl)

times_in-sorted : (id : ℕ) (events : List Event) → times_in id (sorted events) ≡ times_in id events
unfolding sorted
times_in-sorted id [] = refl
times_in-sorted id (e ∷ events) =
    omega (arith, times_in-sort_in id e (sorted events), times_in-sorted id events)

abbrev pub times_hit : ℕ → List Hit → ℕ
times_hit id hits = sum_by (λ (h : Hit). one_if (h.match_id == id)) hits

times_in-events_from :
    (denver_day : ℕ → ℕ) (id : ℕ) (events : List ((House × ℕ) × Event)) (hits : List Hit)
    → times_in id (of_events (events_from denver_day events hits))
      ≡ times_in id (of_events events) + times_hit id hits
unfolding events_from
times_in-events_from denver_day id events [] = omega arith
times_in-events_from denver_day id events (h ∷ hits) = omega (
  arith,
  times_in-events_from denver_day id (add_hit (house_day denver_day h) h events) hits,
  times_in-add_hit id (house_day denver_day h) h events,
)

-- Each event is no later than the next, and at one time the lower listing id comes first.
abbrev pub IsSorted : List Event → Type 0
IsSorted [] = Unit
IsSorted (e ∷ []) = Unit
IsSorted (e ∷ f ∷ events) = (is_later e f ≡ false) × IsSorted (f ∷ events)

later_asym : (e f : Event) → is_later e f ≡ true → is_later f e ≡ false
later_asym e f h = ground (arith, h)

sort_in-IsSorted : (e : Event) (events : List Event) → IsSorted events → IsSorted (sort_in e events)
unfolding sort_in
sort_in-IsSorted e [] h = tt
sort_in-IsSorted e (f ∷ []) h =
    if_cases IsSorted (is_later e f) (λ k. (later_asym e f k, tt)) (λ k. (k, tt))
sort_in-IsSorted e (f ∷ g ∷ events) (h, hs) =
    if_cases IsSorted (is_later e f)
      (λ k.
        if_cases (λ (es : List Event). IsSorted es → IsSorted (f ∷ es)) (is_later e g)
          (λ _ r. (h, r)) (λ _ r. (later_asym e f k, r)) (sort_in-IsSorted e (g ∷ events) hs))
      (λ k. (k, (h, hs)))

sorted-IsSorted : (events : List Event) → IsSorted (sorted events)
unfolding sorted
sorted-IsSorted [] = tt
sorted-IsSorted (e ∷ events) = sort_in-IsSorted e (sorted events) (sorted-IsSorted events)

-- A size that the event's covers; one that is not a number needs none.
abbrev pub AtLeast : Size → Option ℕ → Type 0
AtLeast (hundredths n) (some m) = n ≤ m
AtLeast (hundredths n) none = ⊥
AtLeast unmeasured _ = Unit
AtLeast not_finite _ = Unit

-- The event names the match, and is no later, no farther and no smaller than the hit.
abbrev pub Covers : Hit → Event → Type 0
Covers h e =
    (1 ≤ times h.match_id e.match_ids)
    × (e.utc_datetime ≤ h.utc_datetime)
    × (e.distance ≤ h.distance)
    × AtLeast h.magnitude e.magnitude

abbrev pub IsCovered : List Event → Hit → Type 0
IsCovered [] h = ⊥
IsCovered (e ∷ events) h = Covers h e ⊎ IsCovered events h

larger_own : (s : Size) (o : Option ℕ) → AtLeast s (larger s o)
larger_own (hundredths n) none = omega arith
larger_own (hundredths n) (some m) =
    if_cases (λ (o : Option ℕ). AtLeast (hundredths n) o) (ltb m n) (λ _. omega arith)
      (λ h. ground (arith, h))
larger_own unmeasured o = tt
larger_own not_finite o = tt

larger_keeps : (s g : Size) (o : Option ℕ) → AtLeast s o → AtLeast s (larger g o)
larger_keeps unmeasured g o h = tt
larger_keeps not_finite g o h = tt
larger_keeps (hundredths n) unmeasured o h = h
larger_keeps (hundredths n) not_finite o h = h
larger_keeps (hundredths n) (hundredths k) none h = absurd h
larger_keeps (hundredths n) (hundredths k) (some m) h =
    if_cases (λ (o : Option ℕ). AtLeast (hundredths n) o) (ltb m k) (λ e. ground (arith, e, h))
      (λ _. h)

nearer-bounds : (a b : ℕ) → (nearer a b ≤ a) × (nearer a b ≤ b)
nearer-bounds a b = (ground arith, ground arith)

join-Covers : (h : Hit) (e : Event) → Covers h (join h e)
join-Covers h e = (
  omega (arith, times-join h.match_id h e, one_if_refl h.match_id),
  (nearer-bounds h.utc_datetime e.utc_datetime).0,
  (nearer-bounds h.distance e.distance).0,
  larger_own h.magnitude e.magnitude,
)

join_keeps : (h g : Hit) (e : Event) → Covers h e → Covers h (join g e)
join_keeps h g e (i, t, d, m) = (
  omega (arith, times-join h.match_id g e, i),
  omega (arith, nearer-bounds g.utc_datetime e.utc_datetime, t),
  omega (arith, nearer-bounds g.distance e.distance, d),
  larger_keeps h.magnitude g.magnitude e.magnitude m,
)

add_hit-covers :
    (k : House × ℕ) (h : Hit) (events : List ((House × ℕ) × Event))
    → IsCovered (of_events (add_hit k h events)) h
unfolding add_hit
add_hit-covers k h [] = inl (join-Covers h (first_event h))
add_hit-covers k h ((j, e) ∷ events) =
    if_cases (λ (es : List ((House × ℕ) × Event)). IsCovered (of_events es) h) (same_key k j)
      (λ _. inl (join-Covers h e)) (λ _. inr (add_hit-covers k h events))

add_hit_keeps :
    (k : House × ℕ) (g h : Hit) (events : List ((House × ℕ) × Event))
    → IsCovered (of_events events) h
    → IsCovered (of_events (add_hit k g events)) h
unfolding add_hit
add_hit_keeps k g h [] c = absurd c
add_hit_keeps k g h ((j, e) ∷ events) (inl c) =
    if_cases (λ (es : List ((House × ℕ) × Event)). IsCovered (of_events es) h) (same_key k j)
      (λ _. inl (join_keeps h g e c)) (λ _. inl c)
add_hit_keeps k g h ((j, e) ∷ events) (inr c) =
    if_cases (λ (es : List ((House × ℕ) × Event)). IsCovered (of_events es) h) (same_key k j)
      (λ _. inr c) (λ _. inr (add_hit_keeps k g h events c))

module _ (denver_day : ℕ → ℕ) where
  events_from_keeps :
      (h : Hit) (events : List ((House × ℕ) × Event)) (hits : List Hit)
      → IsCovered (of_events events) h
      → IsCovered (of_events (events_from denver_day events hits)) h
  unfolding events_from
  events_from_keeps h events [] c = c
  events_from_keeps h events (g ∷ hits) c =
      events_from_keeps h (add_hit (house_day denver_day g) g events) hits
        (add_hit_keeps (house_day denver_day g) g h events c)

  events_from-covers :
      (events : List ((House × ℕ) × Event)) (hits : List Hit)
      → All (IsCovered (of_events (events_from denver_day events hits))) hits
  unfolding events_from
  events_from-covers events [] = tt
  events_from-covers events (h ∷ hits) = (
    events_from_keeps h (add_hit (house_day denver_day h) h events) hits
        (add_hit-covers (house_day denver_day h) h events),
    events_from-covers (add_hit (house_day denver_day h) h events) hits,
  )

sort_in_keeps :
    (h : Hit) (e : Event) (events : List Event)
    → IsCovered (e ∷ events) h
    → IsCovered (sort_in e events) h
unfolding sort_in
sort_in_keeps h e [] c = c
sort_in_keeps h e (f ∷ events) (inl c) =
    if_cases (λ (es : List Event). IsCovered es h) (is_later e f)
      (λ _. inr (sort_in_keeps h e events (inl c))) (λ _. inl c)
sort_in_keeps h e (f ∷ events) (inr (inl c)) =
    if_cases (λ (es : List Event). IsCovered es h) (is_later e f) (λ _. inl c) (λ _. inr (inl c))
sort_in_keeps h e (f ∷ events) (inr (inr c)) =
    if_cases (λ (es : List Event). IsCovered es h) (is_later e f)
      (λ _. inr (sort_in_keeps h e events (inr c))) (λ _. inr (inr c))

sorted_keeps : (h : Hit) (events : List Event) → IsCovered events h → IsCovered (sorted events) h
unfolding sorted
sorted_keeps h [] c = absurd c
sorted_keeps h (e ∷ events) (inl c) = sort_in_keeps h e (sorted events) (inl c)
sorted_keeps h (e ∷ events) (inr c) =
    sort_in_keeps h e (sorted events) (inr (sorted_keeps h events c))

-- The events that hits collapse to name every match exactly as often as the hits do; each hit is in an event that
-- names it and is no later, no farther and, where its size is a number, no smaller; and they come in the order of
-- their time, then of their listing.
pub collapse-Covers :
    (denver_day : ℕ → ℕ) (hits : List Hit)
    → ((id : ℕ) → times_in id (collapse denver_day hits) ≡ times_hit id hits)
      × All (IsCovered (collapse denver_day hits)) hits
      × IsSorted (collapse denver_day hits)
unfolding collapse
collapse-Covers denver_day hits =
    let events : List Event = of_events (events_from denver_day [] hits) in
    (
      (λ id. omega (arith, times_in-sorted id events, times_in-events_from denver_day id [] hits)),
      All-map (IsCovered events) (IsCovered (sorted events)) hits (λ h c. sorted_keeps h events c)
          (events_from-covers denver_day [] hits),
      sorted-IsSorted events,
    )
