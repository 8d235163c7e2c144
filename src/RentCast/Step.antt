-- ===== src/RentCast/Step.antt =====
-- `check_by_id` of rentcast/dripstep.py, and `choose_method` of rentcast/dripplan.py, which decides between it
-- and a pull.
pub mod Lookup
pub mod Accounts
pub mod Choice
use hail_system.Prelude.{
  ℕ, suc, ◌+◌, ◌-◌, String, Bool, true, false, Option, none, some, List, [], ◌∷◌, any, length, ltb,
  leb, ◌==◌, if◌then◌else◌,
}
use hail_system.RentCast.Client.{ErrorKind, Exc, rentcast, Result, ok, raised, Api}
use hail_system.RentCast.Check.{Dates, CheckOutcome, Verdict, State, is_fatal, check_listing}

pub data Method : Type 0 where
  by_id zip_pull : Method

pub record Plan : Type 0 where
  pub method : Method
  pub calls : ℕ
  pub by_id_calls : ℕ
  pub zip_pull_calls : ℕ
  pub saves : ℕ

-- `choose_method`, of two counts
unfoldable pub choose_method : ℕ → ℕ → Plan
choose_method listings zip_calls = record {
  method = if ltb zip_calls listings then zip_pull else by_id;
  calls = if ltb zip_calls listings then zip_calls else listings;
  by_id_calls = listings;
  zip_pull_calls = zip_calls;
  saves = if ltb zip_calls listings then listings - zip_calls else zip_calls - listings;
}

abbrev pub consecutive_failures : ℕ
consecutive_failures = 10

-- A row of `listings_to_check`.
pub record Item : Type 0 where
  pub listing_id : ℕ
  pub rentcast_id : Option String
  pub email : Option String

-- The reason of a StepStopped.
pub data Reason : Type 0 where
  refused : ErrorKind → Reason
  failed_in_a_row : ℕ → Reason

pub record Summary : Type 0 where
  pub calls : ℕ
  pub checked : ℕ
  pub reused : ℕ

pub data StepEnd : Type 0 where
  returned : Summary → StepEnd
  stopped : Reason → ℕ → StepEnd
  passed_on : Exc → StepEnd

-- The locals of the loop.
pub record Tally : Type 0 where
  pub calls : ℕ
  pub checked : ℕ
  pub failures : ℕ

abbrev pub is_error : CheckOutcome → Bool
is_error CheckOutcome.error = true
is_error _ = false

abbrev pub is_skipped : List ℕ → Item → Bool
is_skipped skip item = any (λ i. i == item.listing_id) skip

abbrev pub tally : Verdict → Tally → Tally
tally verdict t = record {
  calls = t.calls + verdict.calls_made;
  checked = t.checked + 1;
  failures = if is_error verdict.outcome then t.failures + 1 else 0;
}

module _ {W : Type 0} where
  -- One listing, after its lookup; `go` is the rest of the loop.
  unfoldable pub after_check :
      Tally
      → (Tally → State W → Option (StepEnd × State W))
      → Option (Result Verdict × State W)
      → Option (StepEnd × State W)
  after_check t go none = none
  after_check t go (some (raised (rentcast e), s)) =
      if is_fatal e.kind
      then some (stopped (refused e.kind) (t.calls + e.attempts), s)
      else some (passed_on (rentcast e), s)
  after_check t go (some (raised exc, s)) = some (passed_on exc, s)
  after_check t go (some (ok verdict, s)) =
      if leb consecutive_failures (tally verdict t).failures
      then some (stopped (failed_in_a_row (tally verdict t).failures) (tally verdict t).calls, s)
      else go (tally verdict t) s

  module _ (api : Api W) (dates : Dates) (fuel today freshness_days : ℕ) (skip : List ℕ)
      (total : ℕ) where
    unfoldable pub check_items : List Item → Tally → State W → Option (StepEnd × State W)
    unfolding after_check
    check_items [] t s =
        some (
          returned (record { calls = t.calls; checked = t.checked; reused = total - t.checked }),
          s,
        )
    check_items (item ∷ items) t s =
        let rest = check_items items in
        if is_skipped skip item
        then rest t s
        else after_check t rest (
            check_listing api dates fuel today freshness_days item.listing_id item.rentcast_id
              item.email s)

-- `check_by_id`; `fuel` is that of each lookup.
unfoldable pub check_by_id :
    {W : Type 0}
    → Api W
    → Dates
    → ℕ
    → ℕ
    → ℕ
    → List Item
    → List ℕ
    → State W
    → Option (StepEnd × State W)
unfolding check_items
check_by_id api dates fuel today freshness_days listings skip s =
    check_items api dates fuel today freshness_days skip (length listings) listings
      (record { calls = 0; checked = 0; failures = 0 }) s
