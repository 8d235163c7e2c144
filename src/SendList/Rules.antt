-- ===== src/SendList/Rules.antt =====
-- The rules of `_reason`.
use hail_system.Prelude.{
  ℕ, ◌-◌, ◌≤◌, ◌≡◌, refl, String, Bool, true, false, not, Option, none, some, List, ltb, str_eq,
  is_some, if_cases, filter, filter-All, All, All-of, eq_iff, arith,
}
use hail_system.Text.{is_empty}
use hail_system.SendList.{
  Hit, Reason, is_missing, is_seen, listing_reason, sending_reason, reason_of, or_else,
  one_agent_per_house, reason, survivors, kept,
}

-- What a hit that no rule drops is like.
pub record IsEligible (denver_day : ℕ → ℕ) (oldest_day freshest_day : ℕ) (h : Hit) : Type 0 where
  pub recent : oldest_day ≤ denver_day h.utc_datetime
  pub listed : h.list_status ≡ "Active"
  pub seen : (t : ℕ) × (h.list_last_seen ≡ some t) × (freshest_day ≤ denver_day t)
  pub agent : (id : ℕ) × (h.realtor_id ≡ some id)
  pub address : (email : String) × (h.email ≡ some email) × (is_empty email ≡ false)
  pub unsent : h.already_sent ≡ false
  pub house_unsent : h.key_emailed ≡ false
  pub off_dnc : h.on_dnc ≡ false
  pub permitted : h.has_permission ≡ true
  pub outside_cap : h.in_cap ≡ false

module _ (denver_day : ℕ → ℕ) where
  seen_on :
      (day : ℕ) (seen : Option ℕ)
      → is_seen denver_day day seen ≡ true
      → (t : ℕ) × (seen ≡ some t) × (day ≤ denver_day t)
  seen_on day none h = absurd (cc h)
  seen_on day (some t) h = (t, refl, ground (arith, h))

  some_of : {A : Type 0} (o : Option A) → is_some o ≡ true → (a : A) × (o ≡ some a)
  some_of none h = absurd (cc h)
  some_of (some a) h = (a, refl)

  address_of :
      (o : Option String)
      → is_missing o ≡ false
      → (email : String) × (o ≡ some email) × (is_empty email ≡ false)
  address_of none h = absurd (cc h)
  address_of (some email) h = (email, refl, h)

  or_else-none : {A : Type 0} (a b : Option A) → or_else a b ≡ none → (a ≡ none) × (b ≡ none)
  or_else-none none b h = (refl, h)
  or_else-none (some r) b h = absurd (cc h)

  listing_reason-none :
      (status : String) (seen : Option ℕ) (day : ℕ)
      → listing_reason denver_day status seen day ≡ none
      → (str_eq status "Active" ≡ true) × (is_seen denver_day day seen ≡ true)
  unfolding listing_reason
  listing_reason-none status seen day h = ground (arith, h)

  abbrev Cleared : Hit → Type 0
  Cleared h =
      (is_some h.realtor_id ≡ true)
      × (is_missing h.email ≡ false)
      × (h.already_sent ≡ false)
      × (h.key_emailed ≡ false)
      × (h.on_dnc ≡ false)
      × (h.has_permission ≡ true)
      × (h.in_cap ≡ false)

  sending_reason-none : (h : Hit) → sending_reason h ≡ none → Cleared h
  sending_reason-none h e = ground (arith, e)

  reason_of-none :
      (oldest_day freshest_day : ℕ) (h : Hit)
      → reason_of denver_day oldest_day freshest_day h ≡ none
      → IsEligible denver_day oldest_day freshest_day h
  unfolding reason_of
  reason_of-none oldest_day freshest_day h given =
      if_cases (λ (r : Option Reason). r ≡ none → IsEligible denver_day oldest_day freshest_day h)
        (ltb (denver_day h.utc_datetime) oldest_day) (λ _ e. absurd (cc e))
        (λ b e.
          let (l, s) =
            or_else-none (listing_reason denver_day h.list_status h.list_last_seen freshest_day) _
              e in
          let (active, fresh) = listing_reason-none h.list_status h.list_last_seen freshest_day l in
          let (a, m, u, k, d, p, c) = sending_reason-none h s in
          record {
            recent = ground (arith, b);
            listed = (eq_iff h.list_status "Active").0 active;
            seen = seen_on freshest_day h.list_last_seen fresh;
            agent = some_of h.realtor_id a;
            address = address_of h.email m;
            unsent = u;
            house_unsent = k;
            off_dnc = d;
            permitted = p;
            outside_cap = c;
          })
        given

filter-keeps :
    {A : Type 0} (P : A → Type 0) (p : A → Bool) (xs : List A) → All P xs → All P (filter p xs)
filter-keeps P p xs h = filter-All P P p xs (λ x k _. k) h

dropped_none : {A : Type 0} (o : Option A) → not (is_some o) ≡ true → o ≡ none
dropped_none none h = refl
dropped_none (some a) h = absurd (cc h)

-- Every hit that is kept for an email is recent enough, of an active listing seen inside the freshness window, has an
-- agent with an address, was not emailed before and neither was its house for that day, and the address is not on
-- the DNC list, has a permission, and was not emailed within the cap.
pub kept-IsEligible :
    (denver_day : ℕ → ℕ) (today max_age_days freshness_days : ℕ) (hits : List Hit)
    → All
        (IsEligible denver_day (today - max_age_days) (today - freshness_days))
        (kept denver_day today max_age_days freshness_days hits)
unfolding kept survivors one_agent_per_house
kept-IsEligible denver_day today max_age_days freshness_days hits =
    let P : Hit → Type 0 = IsEligible denver_day (today - max_age_days) (today - freshness_days) in
    let f : Hit → Option Reason = reason denver_day today max_age_days freshness_days hits in
    filter-keeps P _ (filter (λ h. not (is_some (f h))) hits) (
      filter-All (λ _. Unit {0}) P (λ h. not (is_some (f h))) hits
        (λ h _ e.
          reason_of-none denver_day (today - max_age_days) (today - freshness_days) h
            (dropped_none (f h) e))
        (All-of (λ _. Unit {0}) hits (λ _. tt)))
