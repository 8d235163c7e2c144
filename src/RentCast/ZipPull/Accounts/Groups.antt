-- ===== src/RentCast/ZipPull/Accounts/Groups.antt =====
-- The items of a listing are in the groups, or have no zip, as often as the listing is among the items.
use hail_system.Prelude.{
  ℕ, ◌+◌, ◌≡◌, refl, String, Bool, not, Option, none, some, List, [], ◌∷◌, ◌++◌, sum_by,
  sum_by-append, str_eq, is_some, ◌==◌, if◌then◌else◌, if_cases, filter, arith,
}
use hail_system.RentCast.Step.{Item}
use hail_system.RentCast.ZipPull.{Group, is_before, place_item, place_in, group, has_no_zip}

module _ (id : ℕ) where
  -- How many of the items are of the listing.
  abbrev pub times_in : List Item → ℕ
  times_in items = sum_by (λ (i : Item). if i.listing_id == id then 1 else 0) items

  abbrev pub times_grouped : List Group → ℕ
  times_grouped groups = sum_by (λ (g : Group). times_in g.items) groups

  times_in-append : (xs ys : List Item) → times_in (xs ++ ys) ≡ times_in xs + times_in ys
  times_in-append xs ys = sum_by-append (λ (i : Item). if i.listing_id == id then 1 else 0) xs ys

  place_item-times :
      (zip_code : String) (item : Item) (groups : List Group)
      → times_grouped (place_item zip_code item groups)
        ≡ times_grouped groups + times_in (item ∷ [])
  unfolding place_item
  place_item-times zip_code item [] = omega arith
  place_item-times zip_code item (g ∷ groups) =
      if_cases
        (λ (gs : List Group). times_grouped gs ≡ times_grouped (g ∷ groups) + times_in (item ∷ []))
        (str_eq zip_code g.zip_code) (λ _. omega (arith, times_in-append g.items (item ∷ [])))
        (λ _.
          if_cases
            (λ (gs : List Group).
              times_grouped gs ≡ times_grouped (g ∷ groups) + times_in (item ∷ []))
            (is_before zip_code g.zip_code) (λ _. omega arith)
            (λ _. omega (arith, place_item-times zip_code item groups)))

  -- The item where the listing has no zip.
  abbrev left_over : Bool → Item → ℕ
  left_over no_zip item = if no_zip then times_in (item ∷ []) else 0

  place_in-times :
      (zip : Option String) (item : Item) (groups : List Group)
      → times_grouped (place_in zip item groups) + left_over (not (is_some zip)) item
        ≡ times_grouped groups + times_in (item ∷ [])
  place_in-times none item groups = refl
  place_in-times (some zip_code) item groups = omega (arith, place_item-times zip_code item groups)

  times_in-filter :
      (p : Item → Bool) (x : Item) (xs : List Item)
      → times_in (filter p (x ∷ xs)) ≡ left_over (p x) x + times_in (filter p xs)
  unfolding filter
  times_in-filter p x xs =
      if_cases (λ (ys : List Item). times_in ys ≡ left_over (p x) x + times_in (filter p xs)) (p x)
        (λ h. ground (arith, h)) (λ h. ground (arith, h))

  pub group-times :
      (zips : ℕ → Option String) (items : List Item) (groups : List Group)
      → times_grouped (group zips items groups) + times_in (filter (has_no_zip zips) items)
        ≡ times_grouped groups + times_in items
  unfolding group filter
  group-times zips [] groups = refl
  group-times zips (item ∷ items) groups = omega (
    arith,
    group-times zips items (place_in (zips item.listing_id) item groups),
    place_in-times (zips item.listing_id) item groups,
    times_in-filter (has_no_zip zips) item items,
  )
