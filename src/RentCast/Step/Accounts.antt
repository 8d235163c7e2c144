-- ===== src/RentCast/Step/Accounts.antt =====
-- The accounts of a step that checks its listings by id.
use hail_system.Prelude.{
  ℕ, suc, ◌+◌, ◌-◌, ◌*◌, ◌≤◌, ◌≡◌, refl, ◌∙◌, ap, Bool, true, false, Option, none, some, List, [],
  ◌∷◌, map, sum_by, length, leb, if◌then◌else◌, arith, if_cases,
}
use hail_system.RentCast.Client.{
  Exc, rentcast, value_error, Result, ok, raised, Api, max_attempts_by_id,
}
use hail_system.RentCast.Check.{Dates, Verdict, CheckRow, State, is_fatal, check_listing}
use hail_system.RentCast.Step.{
  Item, Reason, refused, failed_in_a_row, StepEnd, returned, stopped, passed_on, Tally,
  consecutive_failures, is_error, is_skipped, tally, after_check, check_items, check_by_id,
}
use hail_system.RentCast.Step.Lookup.{Checked, check_listing-Checked}

abbrev pub calls_checked : List CheckRow → ℕ
calls_checked rows = sum_by (λ (r : CheckRow). r.verdict.calls_made) rows

abbrev pub checked_ids : List CheckRow → List ℕ
checked_ids rows = map (λ (r : CheckRow). r.listing_id) rows

-- The newest rows of the log that are errors.
abbrev pub error_run : List CheckRow → ℕ
error_run [] = 0
error_run (r ∷ rows) = if is_error r.verdict.outcome then suc (error_run rows) else 0

-- The listings to check, the last one first, in front of the ids logged before.
abbrev pub todo_onto : List ℕ → List Item → List ℕ → List ℕ
todo_onto skip [] ids = ids
todo_onto skip (item ∷ items) ids =
    let skipped = todo_onto skip items ids in
    let checked = todo_onto skip items (item.listing_id ∷ ids) in
    if is_skipped skip item then skipped else checked

abbrev pub todo_count : List ℕ → List Item → ℕ
todo_count skip [] = 0
todo_count skip (item ∷ items) =
    let rest = todo_count skip items in if is_skipped skip item then rest else suc rest

-- Why a step stopped: the kind of error that would repeat, or as many errors as the newest rows show.
abbrev pub IsWhy : Reason → List CheckRow → Type 0
IsWhy (refused kind) rows = is_fatal kind ≡ true
IsWhy (failed_in_a_row n) rows = (consecutive_failures ≤ n) × (n ≤ error_run rows)

todo_count-le : (skip : List ℕ) (items : List Item) → todo_count skip items ≤ length items
todo_count-le skip [] = omega arith
todo_count-le skip (item ∷ items) = ground (arith, todo_count-le skip items)

module _ {W : Type 0} where
  -- The calls so far, `calls` more than at `s`, are requests sent and are in the log.
  abbrev pub Spends : ℕ → State W → State W → Type 0
  Spends calls s s' =
      (s'.net.requests ≡ s.net.requests + calls)
      × (calls_checked s'.checks ≡ calls_checked s.checks + calls)

  -- A step that began at `s`.
  abbrev pub Accounted : List ℕ → List Item → State W → Option (StepEnd × State W) → Type 0
  Accounted skip listings s none = ⊥
  Accounted skip listings s (some (returned sum, s')) =
      Spends sum.calls s s'
      × (checked_ids s'.checks ≡ todo_onto skip listings (checked_ids s.checks))
      × (sum.checked ≡ todo_count skip listings)
      × (sum.checked + sum.reused ≡ length listings)
      × (sum.calls ≤ max_attempts_by_id * length listings)
  Accounted skip listings s (some (stopped reason calls, s')) =
      Spends calls s s' × IsWhy reason s'.checks × (calls ≤ max_attempts_by_id * length listings)
  Accounted skip listings s (some (passed_on exc, s')) = exc ≡ Exc.unclassified

  -- The rest of the loop, from a tally: the calls spent are those beyond it.
  abbrev Goes : List ℕ → ℕ → List Item → Tally → State W → Option (StepEnd × State W) → Type 0
  Goes skip total items t s none = ⊥
  Goes skip total items t s (some (returned sum, s')) =
      (calls : ℕ) × (sum.calls ≡ t.calls + calls)
      × Spends calls s s'
      × (checked_ids s'.checks ≡ todo_onto skip items (checked_ids s.checks))
      × (sum.checked ≡ t.checked + todo_count skip items)
      × (sum.reused ≡ total - sum.checked)
      × (calls ≤ max_attempts_by_id * length items)
  Goes skip total items t s (some (stopped reason n, s')) =
      (calls : ℕ) × (n ≡ t.calls + calls)
      × Spends calls s s'
      × IsWhy reason s'.checks
      × (calls ≤ max_attempts_by_id * length items)
  Goes skip total items t s (some (passed_on exc, s')) = exc ≡ Exc.unclassified

  module _ (skip : List ℕ) (total : ℕ) (item : Item) (items : List Item) (t : Tally)
      (s : State W) where
    -- A skipped listing changes nothing.
    skip-Goes :
        (r : Option (StepEnd × State W))
        → is_skipped skip item ≡ true
        → Goes skip total items t s r
        → Goes skip total (item ∷ items) t s r
    skip-Goes none q h = h
    skip-Goes (some (returned sum, s')) q (calls, e, sp, ids, n, r, le) =
        (calls, e, sp, rw (q) ids, rw (q) n, r, omega arith)
    skip-Goes (some (stopped reason n, s')) q (calls, e, sp, why, le) =
        (calls, e, sp, why, omega arith)
    skip-Goes (some (passed_on exc, s')) q h = h

    module _ (verdict : Verdict) (s' : State W) (unskipped : is_skipped skip item ≡ false)
        (sent : s'.net.requests ≡ s.net.requests + verdict.calls_made)
        (few : verdict.calls_made ≤ max_attempts_by_id) (row : CheckRow)
        (logged : s'.checks ≡ row ∷ s.checks) (same : row.listing_id ≡ item.listing_id)
        (calls_same : row.verdict.calls_made ≡ verdict.calls_made) where
      added : calls_checked s'.checks ≡ calls_checked s.checks + verdict.calls_made
      added = omega (arith, ap (λ rows. calls_checked rows) logged, calls_same)

      first : checked_ids s'.checks ≡ item.listing_id ∷ checked_ids s.checks
      first = ap (λ rows. checked_ids rows) logged ∙ ap (λ i. i ∷ checked_ids s.checks) same

      spends :
          (calls : ℕ) (s″ : State W) → Spends calls s' s″ → Spends (verdict.calls_made + calls) s s″
      spends calls s″ (h, k) = (omega arith, omega (arith, added))

      -- A checked listing, and then the rest.
      check-Goes :
          (r : Option (StepEnd × State W))
          → Goes skip total items (tally verdict t) s' r
          → Goes skip total (item ∷ items) t s r
      check-Goes none h = h
      check-Goes (some (returned sum, s″)) (calls, e, sp, ids, n, r, le) = (
        verdict.calls_made + calls,
        omega arith,
        spends calls s″ sp,
        rw (unskipped) (ids ∙ ap (λ is. todo_onto skip items is) first),
        rw (unskipped) (omega arith),
        r,
        omega arith,
      )
      check-Goes (some (stopped reason n, s″)) (calls, e, sp, why, le) =
          (verdict.calls_made + calls, omega arith, spends calls s″ sp, why, omega arith)
      check-Goes (some (passed_on exc, s″)) h = h

  module _ (skip : List ℕ) (total : ℕ) (item : Item) (items : List Item) (t : Tally) (s : State W)
      (go : Tally → State W → Option (StepEnd × State W))
      (ih : (t' : Tally) (s' : State W)
        → t'.failures ≤ error_run s'.checks
        → Goes skip total items t' s' (go t' s')) where
    -- The errors in a row are the newest rows of the log.
    run-tally :
        (verdict : Verdict) (row : CheckRow) (rows : List CheckRow)
        → rows ≡ row ∷ s.checks
        → row.verdict.outcome ≡ verdict.outcome
        → t.failures ≤ error_run s.checks
        → (tally verdict t).failures ≤ error_run rows
    run-tally verdict row rows e o h = rw (e, o) (longer (is_error verdict.outcome))
      where
        longer :
            (b : Bool)
            → (if b then t.failures + 1 else 0) ≤ (if b then suc (error_run s.checks) else 0)
        longer true = omega arith
        longer false = omega arith

    after_check-Goes :
        (r : Option (Result Verdict × State W))
        → is_skipped skip item ≡ false
        → t.failures ≤ error_run s.checks
        → Checked item.listing_id s r
        → Goes skip total (item ∷ items) t s (after_check t go r)
    unfolding after_check
    after_check-Goes none u h c = c
    after_check-Goes (some (raised value_error, s')) u h c = absurd c
    after_check-Goes (some (raised Exc.unclassified, s')) u h c = refl
    after_check-Goes (some (raised (rentcast e), s')) u h
          (fatal, (sent, few), (row, logged, same, calls, o)) =
        rw (fatal) (
          e.attempts,
          refl,
          (sent, omega (arith, ap (λ rows. calls_checked rows) logged, calls)),
          fatal,
          omega arith,
        )
    after_check-Goes (some (ok verdict, s')) u h ((sent, few), (row, logged, same, calls, o)) =
        check-Goes skip total item items t s verdict s' u sent few row logged same calls _ (
          if_cases (Goes skip total items (tally verdict t) s')
            (leb consecutive_failures (tally verdict t).failures)
            (λ many. (
              0,
              omega arith,
              (omega arith, omega arith),
              (ground (arith, many), run-tally verdict row s'.checks logged o h),
              omega arith,
            ))
            (λ _. ih (tally verdict t) s' (run-tally verdict row s'.checks logged o h)))

module _ {W : Type 0} (api : Api W) (dates : Dates) (today freshness_days : ℕ) (skip : List ℕ)
    (total : ℕ) where
  item-Goes :
      (item : Item) (items : List Item) (t : Tally) (s : State W)
      (go : Tally → State W → Option (StepEnd × State W)) (b : Bool)
      → is_skipped skip item ≡ b
      → t.failures ≤ error_run s.checks
      → ((t' : Tally) (s' : State W)
          → t'.failures ≤ error_run s'.checks
          → Goes skip total items t' s' (go t' s'))
      → Goes skip total (item ∷ items) t s (
          if b
          then go t s
          else after_check t go (
              check_listing api dates max_attempts_by_id today freshness_days item.listing_id
                item.rentcast_id item.email s))
  item-Goes item items t s go true q h ih = skip-Goes skip total item items t s _ q (ih t s h)
  item-Goes item items t s go false q h ih =
      after_check-Goes skip total item items t s go ih _ q h (
        check_listing-Checked dates today freshness_days item.listing_id item.email s api
          item.rentcast_id)

  check_items-Goes :
      (items : List Item) (t : Tally) (s : State W)
      → t.failures ≤ error_run s.checks
      → Goes skip total items t s
          (check_items api dates max_attempts_by_id today freshness_days skip total items t s)
  unfolding check_items
  check_items-Goes [] t s h =
      (0, omega arith, (omega arith, omega arith), refl, omega arith, refl, omega arith)
  check_items-Goes (item ∷ items) t s h =
      item-Goes item items t s _ (is_skipped skip item) refl h
        (λ t' s' k. check_items-Goes items t' s' k)

Goes-Accounted :
    {W : Type 0} (skip : List ℕ) (listings : List Item) (s : State W)
    (r : Option (StepEnd × State W))
    → Goes skip (length listings) listings (record { calls = 0; checked = 0; failures = 0 }) s r
    → Accounted skip listings s r
Goes-Accounted skip listings s none h = h
Goes-Accounted skip listings s (some (returned sum, s')) (calls, e, (sent, logged), ids, n, r, le) =
    (
      (omega arith, omega arith),
      ids,
      omega arith,
      omega (arith, todo_count-le skip listings),
      omega arith,
    )
Goes-Accounted skip listings s (some (stopped reason n, s')) (calls, e, (sent, logged), why, le) =
    ((omega arith, omega arith), why, omega arith)
Goes-Accounted skip listings s (some (passed_on exc, s')) h = h

-- With fuel for the three requests of each lookup, a step that checks by id ends. The calls that it reports,
-- stopped or not, are the requests sent and the calls that the new log rows add up to, at most three for a
-- listing. One that returns has logged each listing that was not skipped, in order, and counts the others as
-- reused; one that stops was refused by RentCast, or its last ten lookups or more were errors; and only an
-- exception that the client does not classify is passed on.
pub check_by_id-Accounted :
    {W : Type 0} (api : Api W) (dates : Dates) (today freshness_days : ℕ) (listings : List Item)
    (skip : List ℕ) (s : State W)
    → Accounted skip listings s
        (check_by_id api dates max_attempts_by_id today freshness_days listings skip s)
unfolding check_by_id
check_by_id-Accounted api dates today freshness_days listings skip s =
    Goes-Accounted skip listings s _ (
      check_items-Goes api dates today freshness_days skip (length listings) listings _ s
        (omega arith))
