-- ===== src/Drip/Followup/Chosen.antt =====
-- Who is chosen for a follow-up, and about which matches.
use hail_system.Prelude.{
  ℕ, ◌≡◌, refl, Bool, true, false, not, Option, none, some, List, [], ◌∷◌, map, any, ◌==◌, All,
  is_some, arith, if_cases, ==_iff, filter, filter-All, All-filter, All-of,
}
use hail_system.RentCast.Check.{CheckOutcome, active, inactive, not_found}
use hail_system.Drip.Followup.{
  Hit, Reason, is_bounced, is_of, own_reason, first_some, held_by, held_back, outcome_reason,
  listing_reason, Realtor, reason_of, kept, realtors, realtor_ids,
}

-- None of the realtor's matches stands against an email.
abbrev pub IsClean : List Hit → ℕ → Type 0
IsClean hits realtor_id =
    All
      (λ (h : Hit).
        is_of realtor_id h ≡ true
        → (is_bounced h.send_status ≡ false)
          × (h.on_dnc ≡ false)
          × (h.has_permission ≡ true)
          × (h.in_cap ≡ false))
      hits

-- A match that an email may name.
abbrev pub IsConfirmed : List Hit → List ℕ → (ℕ → Option CheckOutcome) → ℕ → Hit → Type 0
IsConfirmed hits dead verdicts realtor_id h =
    (is_of realtor_id h ≡ true)
    × IsClean hits realtor_id
    × (any (λ i. i == h.listing_id) dead ≡ false)
    × (verdicts h.listing_id ≡ some active)

pub first_some-none : (a b : Option Reason) → first_some a b ≡ none → (a ≡ none) × (b ≡ none)
first_some-none none b h = (refl, h)
first_some-none (some r) b h = absurd (cc h)

held_by-none :
    (b : Bool) (hits : List Hit)
    → held_by b hits ≡ none
    → All (λ (h : Hit). own_reason b h ≡ none) hits
unfolding held_by
held_by-none b [] e = tt
held_by-none b (h ∷ hits) e =
    let (p, q) = first_some-none (own_reason b h) (held_by b hits) e in (p, held_by-none b hits q)

own_reason-none :
    (b : Bool) (h : Hit)
    → own_reason b h ≡ none
    → (b ≡ false) × (h.on_dnc ≡ false) × (h.has_permission ≡ true) × (h.in_cap ≡ false)
own_reason-none b h e = ground (arith, e)

any-none : (p : Hit → Bool) (xs : List Hit) → any p xs ≡ false → All (λ h. p h ≡ false) xs
any-none p [] h = tt
any-none p (x ∷ xs) h = (ground (arith, h), any-none p xs (ground (arith, h)))

outcome_reason-none : (o : Option CheckOutcome) → outcome_reason o ≡ none → o ≡ some active
outcome_reason-none none h = absurd (cc h)
outcome_reason-none (some active) h = refl
outcome_reason-none (some inactive) h = absurd (cc h)
outcome_reason-none (some not_found) h = absurd (cc h)
outcome_reason-none (some CheckOutcome.error) h = absurd (cc h)

All-both :
    (P Q R : Hit → Type 0) (xs : List Hit)
    → ((x : Hit) → P x → Q x → R x)
    → All P xs
    → All Q xs
    → All R xs
All-both P Q R [] f h k = tt
All-both P Q R (x ∷ xs) f (h, hs) (k, ks) = (f x h k, All-both P Q R xs f hs ks)

abbrev Clean : Hit → Type 0
Clean h =
    (is_bounced h.send_status ≡ false)
    × (h.on_dnc ≡ false)
    × (h.has_permission ≡ true)
    × (h.in_cap ≡ false)

rows-Clean :
    (b : Bool) (rows : List Hit)
    → any (λ (h : Hit). is_bounced h.send_status) rows ≡ b
    → All (λ (h : Hit). own_reason b h ≡ none) rows
    → All Clean rows
rows-Clean true rows e h =
    All-both (λ h. own_reason true h ≡ none) (λ h. Unit) Clean rows (λ x p _. absurd (cc p)) h
      (All-of (λ h. Unit) rows (λ x. tt))
rows-Clean false rows e h =
    All-both (λ h. own_reason false h ≡ none) (λ h. is_bounced h.send_status ≡ false) Clean rows
      (λ x p q. let (_, d, n, c) = own_reason-none false x p in (q, d, n, c)) h
      (any-none (λ h. is_bounced h.send_status) rows e)

held_back-IsClean :
    (hits : List Hit) (realtor_id : ℕ) → held_back hits realtor_id ≡ none → IsClean hits realtor_id
unfolding held_back
held_back-IsClean hits realtor_id e = All-filter Clean (is_of realtor_id) hits (
    rows-Clean (any (λ (h : Hit). is_bounced h.send_status) (filter (is_of realtor_id) hits))
      (filter (is_of realtor_id) hits) refl (held_by-none _ (filter (is_of realtor_id) hits) e))

module _ (hits : List Hit) (dead : List ℕ) (verdicts : ℕ → Option CheckOutcome) where
  abbrev Free : Hit → Type 0
  Free h = reason_of hits dead verdicts h ≡ none

  kept-Free : All Free (kept hits dead verdicts)
  unfolding kept
  kept-Free =
      filter-All (λ h. Unit) Free (λ h. not (is_some (reason_of hits dead verdicts h))) hits
        (λ h _ e. none_of (reason_of hits dead verdicts h) e) (All-of (λ h. Unit) hits (λ x. tt))
    where
      none_of : (o : Option Reason) → not (is_some o) ≡ true → o ≡ none
      none_of none e = refl
      none_of (some r) e = absurd (cc e)

  pub listing_reason-none :
      (h : Hit)
      → listing_reason h dead verdicts ≡ none
      → (any (λ i. i == h.listing_id) dead ≡ false) × (verdicts h.listing_id ≡ some active)
  listing_reason-none h given =
      if_cases
        (λ (o : Option Reason).
          o ≡ none
          → (any (λ i. i == h.listing_id) dead ≡ false) × (verdicts h.listing_id ≡ some active))
        (any (λ i. i == h.listing_id) dead) (λ _ e. absurd (cc e))
        (λ f e. (f, outcome_reason-none (verdicts h.listing_id) e)) given

  Free-IsConfirmed :
      (id : ℕ) (h : Hit) → Free h → is_of id h ≡ true → IsConfirmed hits dead verdicts id h
  unfolding reason_of
  Free-IsConfirmed id h e q =
      let (a, b) =
        first_some-none (held_back hits h.realtor_id) (listing_reason h dead verdicts) e in
      let (d, v) = listing_reason-none h b in
      (q, held_back-IsClean hits id (rw (← (==_iff h.realtor_id id).0 q) a), d, v)

  rows-IsConfirmed :
      (ids : List ℕ)
      → All
          (λ (r : Realtor). All (IsConfirmed hits dead verdicts r.realtor_id) r.rows)
          (map
            (λ id. record { realtor_id = id; rows = filter (is_of id) (kept hits dead verdicts) })
            ids)
  rows-IsConfirmed [] = tt
  rows-IsConfirmed (id ∷ ids) = (
    filter-All Free (IsConfirmed hits dead verdicts id) (is_of id) (kept hits dead verdicts)
        (Free-IsConfirmed id) kept-Free,
    rows-IsConfirmed ids,
  )

  -- Every match that a follow-up names belongs to the realtor emailed, its listing was confirmed active by this
  -- step's check and not found dead by an earlier one, and no match of that realtor bounced, is on the DNC list,
  -- lacks permission or falls within the cap.
  pub realtors-IsConfirmed :
      All
        (λ (r : Realtor). All (IsConfirmed hits dead verdicts r.realtor_id) r.rows)
        (realtors hits dead verdicts)
  unfolding realtors
  realtors-IsConfirmed = rows-IsConfirmed (realtor_ids (kept hits dead verdicts))
