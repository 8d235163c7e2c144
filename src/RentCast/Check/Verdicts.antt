-- ===== src/RentCast/Check/Verdicts.antt =====
-- A listing is followed up exactly where RentCast's answer vouches for it.
use hail_system.Prelude.{
  ℕ, ◌+◌, ◌-◌, ◌≤◌, String, ◌≡◌, refl, ap, ◌↔◌, Bool, true, false, Option, none, some, ltb, str_eq,
  arith, eq_iff, if_cases,
}
use hail_system.Text.{is_empty, strip, prefix}
use hail_system.RentCast.Client.{Listing, Value, null, text, other}
use hail_system.RentCast.Check.{
  Dates, CheckOutcome, active, inactive, Verdict, when, same_agent, by_agent, by_last_seen,
  by_removal, by_dates, verdict_of, by_status, classify, verdict_of,
}

-- RentCast says Active and no removal, saw the listing inside the window, and names the agent emailed.
pub record IsLive (dates : Dates) (today freshness_days : ℕ) (listing : Listing)
    (agent_email : Option String) : Type 0 where
  pub says_active : listing.status ≡ text "Active"
  pub not_removed : when dates listing.removed_date ≡ some none
  pub seen :
      (m : ℕ) × (when dates listing.last_seen_date ≡ some (some m))
      × (today ≤ dates.denver_day m + freshness_days)
  pub agent : same_agent listing agent_email ≡ some true

abbrev is_active : CheckOutcome → Bool
is_active active = true
is_active _ = false

module _ (dates : Dates) (today freshness_days : ℕ) (listing : Listing)
    (agent_email : Option String) where
  -- What an active verdict vouches for, from the status on.
  abbrev Vouched : Option (Option ℕ) → Option (Option ℕ) → Type 0
  Vouched last_seen removed =
      (removed ≡ some none)
      × ((m : ℕ) × (last_seen ≡ some (some m)) × (today ≤ dates.denver_day m + freshness_days))
      × (same_agent listing agent_email ≡ some true)

  module _ (verdict : CheckOutcome → Option String → Verdict)
      (keeps : (o : CheckOutcome) (d : Option String) → (verdict o d).outcome ≡ o) where
    by_agent-active :
        (same : Option Bool)
        → (by_agent dates today freshness_days verdict same).outcome ≡ active
        → same ≡ some true
    unfolding by_agent
    by_agent-active none h =
        cc (h, keeps CheckOutcome.error (some "the answer does not say who the listing agent is"))
    by_agent-active (some false) h =
        cc (h, keeps inactive (some "the listing agent is no longer the one emailed"))
    by_agent-active (some true) h = refl

    by_last_seen-active :
        (last_seen : Option ℕ)
        → (by_last_seen dates today freshness_days verdict listing agent_email last_seen).outcome
          ≡ active
        → ((m : ℕ) × (last_seen ≡ some m) × (today ≤ dates.denver_day m + freshness_days))
          × (same_agent listing agent_email ≡ some true)
    unfolding by_last_seen
    by_last_seen-active none h =
        absurd (cc (h, keeps CheckOutcome.error (some "the answer has no last-seen date")))
    by_last_seen-active (some m) given =
        if_cases
          (λ (v : Verdict).
            v.outcome ≡ active
            → ((k : ℕ) × (some m ≡ some k) × (today ≤ dates.denver_day k + freshness_days))
              × (same_agent listing agent_email ≡ some true))
          (ltb (dates.denver_day m) (today - freshness_days))
          (λ _ h. absurd (cc (h, keeps inactive _)))
          (λ late h.
            ((m, refl, ground (arith, late)), by_agent-active (same_agent listing agent_email) h))
          given

    by_removal-active :
        (last_seen removed : Option ℕ)
        → (by_removal dates today freshness_days verdict listing agent_email last_seen
            removed).outcome
          ≡ active
        → Vouched (some last_seen) (some removed)
    unfolding by_removal
    by_removal-active last_seen (some r) h =
        absurd (cc (h, keeps inactive (some "RentCast records a removal date")))
    by_removal-active last_seen none h =
        let ((m, e, k), a) = by_last_seen-active last_seen h in
        (refl, (m, ap (λ (o : Option ℕ). some o) e, k), a)

  by_dates-active :
      (status : String) (last_seen removed : Option (Option ℕ))
      → (by_dates dates today freshness_days status listing agent_email last_seen removed).outcome
        ≡ active
      → (status ≡ "Active") × Vouched last_seen removed
  unfolding by_dates
  by_dates-active status none removed h = absurd (cc h)
  by_dates-active status (some last_seen) none h = absurd (cc h)
  by_dates-active status (some last_seen) (some removed) given =
      if_cases
        (λ (v : Verdict).
          v.outcome ≡ active → (status ≡ "Active") × Vouched (some last_seen) (some removed))
        (str_eq status "Active")
        (λ q h. (
          (eq_iff status "Active").0 q,
          by_removal-active (verdict_of (some (prefix 40 (strip status))) last_seen removed)
              (λ o d. refl) last_seen removed h,
        ))
        (λ _ h. absurd (cc h)) given

  by_status-active :
      (v : Value)
      → (by_status dates today freshness_days listing agent_email v).outcome ≡ active
      → (v ≡ text "Active")
        × Vouched (when dates listing.last_seen_date) (when dates listing.removed_date)
  unfolding by_status
  by_status-active null h = absurd (cc h)
  by_status-active other h = absurd (cc h)
  by_status-active (text status) given =
      if_cases
        (λ (v : Verdict).
          v.outcome ≡ active
          → (text status ≡ text "Active")
            × Vouched (when dates listing.last_seen_date) (when dates listing.removed_date))
        (is_empty (strip status)) (λ _ h. absurd (cc h))
        (λ _ h.
          let (e, k) =
            by_dates-active status (when dates listing.last_seen_date)
              (when dates listing.removed_date) h in
          (ap (λ (s : String). text s) e, k))
        given

  -- The other way: each test passes.
  by_removal-live :
      (verdict : CheckOutcome → Option String → Verdict) (m : ℕ)
      → today ≤ dates.denver_day m + freshness_days
      → same_agent listing agent_email ≡ some true
      → by_removal dates today freshness_days verdict listing agent_email (some m) none
        ≡ verdict active none
  unfolding by_removal by_last_seen by_agent
  by_removal-live verdict m k a = rw (late, a)
    where
      late : ltb (dates.denver_day m) (today - freshness_days) ≡ false
      late = ground (arith, k)

  by_status-live :
      (m : ℕ)
      → today ≤ dates.denver_day m + freshness_days
      → same_agent listing agent_email ≡ some true
      → (by_dates dates today freshness_days "Active" listing agent_email
          (some (some m))
          (some none)).outcome
        ≡ active
  unfolding by_dates strip
  by_status-live m k a =
      ap (λ (v : Verdict). v.outcome)
        (by_removal-live (verdict_of (some (prefix 40 (strip "Active"))) (some m) none) m k a)

  -- A listing gets the verdict `active`, and so can be followed up, exactly where RentCast calls it Active and
  -- records no removal, saw it on a day inside the freshness window, and names the agent who was emailed.
  pub classify_active_iff :
      ((classify dates today freshness_days listing agent_email).outcome ≡ active)
      ↔ IsLive dates today freshness_days listing agent_email
  unfolding classify by_status strip
  classify_active_iff = (there, back)
    where
      there :
          (classify dates today freshness_days listing agent_email).outcome ≡ active
          → IsLive dates today freshness_days listing agent_email
      there h =
          let (e, (r, s, a)) = by_status-active listing.status h in
          record { says_active = e; not_removed = r; seen = s; agent = a }

      back :
          IsLive dates today freshness_days listing agent_email
          → (classify dates today freshness_days listing agent_email).outcome ≡ active
      back h =
          let (m, e, k) = h.seen in rw (h.says_active, e, h.not_removed, by_status-live m k h.agent)
