-- ===== src/Drip/Followup/Listings.antt =====
-- The listings that a step checks: those of every hit that could still be emailed, each once.
use hail_system.Prelude.{
  ℕ, ◌≡◌, ◌<◌, refl, Bool, true, false, not, ◌||◌, Option, none, some, List, [], ◌∷◌, any, is_some,
  ltb, ◌==◌, if◌then◌else◌, if_cases, All, filter-All, ap, arith,
}
use hail_system.RentCast.Check.{CheckOutcome}
use hail_system.RentCast.Step.{Item}
use hail_system.Drip.Followup.{
  Hit, Reason, held_back, listing_reason, reason_of, kept, add_listing, item_of, is_left_out,
  listings_from, listings_to_check,
}
use hail_system.Drip.Followup.Chosen.{first_some-none, listing_reason-none}

abbrev pub is_listed : ℕ → List Item → Bool
is_listed id items = any (λ (i : Item). i.listing_id == id) items

-- Each listing once, the lowest id first.
abbrev pub IsOrdered : List Item → Type 0
IsOrdered [] = Unit
IsOrdered (i ∷ []) = Unit
IsOrdered (i ∷ j ∷ items) = (i.listing_id < j.listing_id) × IsOrdered (j ∷ items)

add_listing-is_listed :
    (item : Item) (items : List Item) → is_listed item.listing_id (add_listing item items) ≡ true
unfolding add_listing
add_listing-is_listed item [] = ground arith
add_listing-is_listed item (j ∷ items) =
    if_cases (λ (is : List Item). is_listed item.listing_id is ≡ true)
      (item.listing_id == j.listing_id) (λ e. ground (arith, e))
      (λ _.
        if_cases (λ (is : List Item). is_listed item.listing_id is ≡ true)
          (ltb item.listing_id j.listing_id) (λ _. ground arith)
          (λ _. ground (arith, add_listing-is_listed item items)))

or_keeps : (a b c : Bool) → (b ≡ true → c ≡ true) → (a || b) ≡ true → (a || c) ≡ true
or_keeps true b c f h = refl
or_keeps false b c f h = f h

add_listing_keeps :
    (item : Item) (id : ℕ) (items : List Item)
    → is_listed id items ≡ true
    → is_listed id (add_listing item items) ≡ true
unfolding add_listing
add_listing_keeps item id [] h = absurd (cc h)
add_listing_keeps item id (j ∷ items) h =
    if_cases (λ (is : List Item). is_listed id is ≡ true) (item.listing_id == j.listing_id) (λ _. h)
      (λ _.
        if_cases (λ (is : List Item). is_listed id is ≡ true) (ltb item.listing_id j.listing_id)
          (λ _. ground (arith, h))
          (λ _.
            or_keeps (j.listing_id == id) (is_listed id items)
              (is_listed id (add_listing item items)) (add_listing_keeps item id items) h))

add_listing-IsOrdered :
    (item : Item) (items : List Item) → IsOrdered items → IsOrdered (add_listing item items)
unfolding add_listing
add_listing-IsOrdered item [] h = tt
add_listing-IsOrdered item (j ∷ []) h =
    if_cases IsOrdered (item.listing_id == j.listing_id) (λ _. tt)
      (λ n.
        if_cases IsOrdered (ltb item.listing_id j.listing_id) (λ l. (ground (arith, l), tt))
          (λ l. (ground (arith, l, n), tt)))
add_listing-IsOrdered item (j ∷ k ∷ items) (h, hs) =
    if_cases IsOrdered (item.listing_id == j.listing_id) (λ _. (h, hs))
      (λ n.
        if_cases IsOrdered (ltb item.listing_id j.listing_id) (λ l. (ground (arith, l), (h, hs)))
          (λ l.
            if_cases (λ (is : List Item). IsOrdered is → IsOrdered (j ∷ is))
              (item.listing_id == k.listing_id) (λ _ r. (h, r))
              (λ _.
                if_cases (λ (is : List Item). IsOrdered is → IsOrdered (j ∷ is))
                  (ltb item.listing_id k.listing_id) (λ _ r. (ground (arith, l, n), r))
                  (λ _ r. (h, r)))
              (add_listing-IsOrdered item (k ∷ items) hs)))

module _ (all : List Hit) (dead : List ℕ) where
  abbrev after_hit : Hit → List Item → List Item
  after_hit h items = if is_left_out all dead h then items else add_listing (item_of h) items

  listings_from_keeps :
      (id : ℕ) (items : List Item) (hits : List Hit)
      → is_listed id items ≡ true
      → is_listed id (listings_from all dead items hits) ≡ true
  unfolding listings_from
  listings_from_keeps id items [] e = e
  listings_from_keeps id items (h ∷ hits) e = listings_from_keeps id (after_hit h items) hits (
      if_cases (λ (is : List Item). is_listed id is ≡ true) (is_left_out all dead h) (λ _. e)
        (λ _. add_listing_keeps (item_of h) id items e))

  listings_from-is_listed :
      (items : List Item) (hits : List Hit)
      → All
          (λ (h : Hit).
            is_left_out all dead h ≡ false
            → is_listed h.listing_id (listings_from all dead items hits) ≡ true)
          hits
  unfolding listings_from
  listings_from-is_listed items [] = tt
  listings_from-is_listed items (h ∷ hits) = (
    (λ e. listings_from_keeps h.listing_id (after_hit h items) hits (
        if_cases (λ (is : List Item). is_listed h.listing_id is ≡ true) (is_left_out all dead h)
          (λ f. absurd (cc (e, f))) (λ _. add_listing-is_listed (item_of h) items))),
    listings_from-is_listed (after_hit h items) hits,
  )

  listings_from-IsOrdered :
      (items : List Item) (hits : List Hit)
      → IsOrdered items
      → IsOrdered (listings_from all dead items hits)
  unfolding listings_from
  listings_from-IsOrdered items [] o = o
  listings_from-IsOrdered items (h ∷ hits) o = listings_from-IsOrdered (after_hit h items) hits (
      if_cases IsOrdered (is_left_out all dead h) (λ _. o)
        (λ _. add_listing-IsOrdered (item_of h) items o))

free :
    (hits : List Hit) (dead : List ℕ) (verdicts : ℕ → Option CheckOutcome) (h : Hit)
    → not (is_some (reason_of hits dead verdicts h)) ≡ true
    → is_left_out hits dead h ≡ false
unfolding reason_of
free hits dead verdicts h e =
    let (held, seen) =
      first_some-none (held_back hits h.realtor_id) (listing_reason h dead verdicts)
        (none_of _ e) in
    let (alive, v) = listing_reason-none hits dead verdicts h seen in
    ground (arith, ap is_some held, alive)
  where
    none_of : (o : Option Reason) → not (is_some o) ≡ true → o ≡ none
    none_of none f = refl
    none_of (some r) f = absurd (cc f)

-- The listings to check are listed once each, in the order of their ids; and whatever the checks then say, every hit
-- that is kept for an email is of a listing that was to be checked.
pub kept-is_listed :
    (hits : List Hit) (dead : List ℕ) (verdicts : ℕ → Option CheckOutcome)
    → IsOrdered (listings_to_check hits dead)
      × All
          (λ (h : Hit). is_listed h.listing_id (listings_to_check hits dead) ≡ true)
          (kept hits dead verdicts)
unfolding listings_to_check kept reason_of
kept-is_listed hits dead verdicts = (
  listings_from-IsOrdered hits dead [] hits tt,
  filter-All
      (λ (h : Hit).
        is_left_out hits dead h ≡ false
        → is_listed h.listing_id (listings_to_check hits dead) ≡ true)
      (λ (h : Hit). is_listed h.listing_id (listings_to_check hits dead) ≡ true)
      (λ h. not (is_some (reason_of hits dead verdicts h))) hits
      (λ h f e. f (free hits dead verdicts h e)) (listings_from-is_listed hits dead [] hits),
)
