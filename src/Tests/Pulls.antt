-- ===== src/Tests/Pulls.antt =====
-- A RentCast that fails once and then answers one page, and a pull of two zips from it.
use hail_system.Prelude.{
  List, Option, String, map, filter, ℕ, ◌+◌, ◌<◌, ◌≡◌, refl, true, none, some, [], ◌∷◌, length, ap,
  subst, ◌==◌, if◌then◌else◌, arith,
}
use hail_system.RentCast.Client.{
  Listing, null, text, Reply, answered, array, object, http_error, ok, Net, Api, Params, get,
  get_sale_listing, search_sale_listings, max_retries, max_attempts_by_id, max_page_size,
}
use hail_system.RentCast.Client.Attempts.{Ends, second, get-Ends, get_sale_listing-Ends}
use hail_system.RentCast.Client.Paging.{Billed, RunsOut, search_sale_listings-Billed}
use hail_system.Text.{strip}
use hail_system.RentCast.Pull.{run_pull}
use hail_system.RentCast.Check.{Dates, garbled, CheckOutcome, CheckRow}
use hail_system.RentCast.Step.{Item}
use hail_system.RentCast.ZipPull.{group, to_do, Desk, ZipEnd, check_by_zip_pull}
use hail_system.RentCast.ZipPull.Accounts.Groups.{times_in}
use hail_system.RentCast.ZipPull.Accounts.{Accounts, check_by_zip_pull-Accounts}
use hail_system.RentCast.Pull.Books.{Balances, run_pull-IsBalanced}

abbrev house : Listing
house = record {
  id = text "h1";
  status = text "Active";
  last_seen_date = null;
  removed_date = null;
  agent_email = none;
}

abbrev reply_at : ℕ → Reply
reply_at n = if n == 0 then http_error 503 else answered 200 (array (house ∷ []))

-- The first request is refused with 503.
abbrev flaky : Api ℕ
flaky = record {
  key = some "k";
  send_search = λ params n. (reply_at n, n + 1);
  send_lookup = λ id n. (answered 200 (object house), n + 1);
}

abbrev fresh : Net ℕ
fresh = record { world = 0; requests = 3; slept = [] }

abbrev params : Params
params = record { zip_code = "80202"; status = "Active"; limit = 500; offset = 0; days_old = none }

get-Ends_example : Ends second (max_retries + 1) 3 (get flaky (max_retries + 1) params fresh)
get-Ends_example = get-Ends flaky params fresh

get_sale_listing-Ends_example :
    Ends second max_attempts_by_id 3 (get_sale_listing flaky max_attempts_by_id (some "h1") fresh)
get_sale_listing-Ends_example = get_sale_listing-Ends flaky (some "h1") fresh

page_of : Reply → ℕ
page_of (answered status (array page)) = length page
page_of reply = 0

flaky_page : (n : ℕ) → page_of (reply_at n) < max_page_size
unfolding page_of
flaky_page n = ground arith

flaky-RunsOut : RunsOut flaky 1
unfolding page_of
flaky-RunsOut p n status page e offset =
    subst (λ k. k < max_page_size) (ap (λ r. page_of r) e) (flaky_page n)

search_sale_listings-Billed_example :
    Billed 3 (search_sale_listings flaky 2 "80202" "Active" none fresh)
search_sale_listings-Billed_example =
    search_sale_listings-Billed flaky 1 flaky-RunsOut 1 "80202" "Active" none fresh (omega arith)

run_pull-IsBalanced_example :
    Balances 2 3
      (run_pull flaky (λ listings n. (true, n)) 2 "Active" none ("80202" ∷ "80203" ∷ []) 2 fresh)
run_pull-IsBalanced_example =
    run_pull-IsBalanced flaky (λ listings n. (true, n)) 1 1 flaky-RunsOut (omega arith) "Active"
      none ("80202" ∷ "80203" ∷ []) 2 fresh

-- One retry after a second's sleep, and two requests in all.
retries :
    get flaky 5 params fresh
    ≡ some (ok (house ∷ [], 2), record { world = 2; requests = 5; slept = 1 ∷ [] })
unfolding get
retries = refl

abbrev dates : Dates
dates = record { fromisoformat = λ s. garbled; denver_day = λ m. m; show_day = λ d. "a day" }

abbrev item : ℕ → Item
item n = record { listing_id = n; rentcast_id = some "h1"; email = some "ann@example.com" }

-- The second listing has no zip on file, and the third was checked before.
abbrev zip_of : ℕ → Option String
zip_of n = if n == 2 then none else some "80202"

abbrev listings : List Item
listings = item 1 ∷ item 2 ∷ item 3 ∷ []

check_by_zip_pull-Accounts_example :
    Accounts 1
      (length (group zip_of (to_do (3 ∷ []) listings) []))
      3
      (0 + times_in 1 (to_do (3 ∷ []) listings))
      (length (to_do (3 ∷ []) listings))
      (check_by_zip_pull flaky dates
        (λ ls n. (true, n))
        2
        2010
        7
        listings
        (3 ∷ [])
        zip_of
        1
        fresh
        [])
check_by_zip_pull-Accounts_example =
    check_by_zip_pull-Accounts flaky 1 1 flaky-RunsOut (omega arith) dates (λ ls n. (true, n)) 2010
      7 1 listings (3 ∷ []) zip_of 1 fresh []

outcomes_of : Option (ZipEnd × Desk ℕ) → List CheckOutcome × ℕ
outcomes_of none = ([], 0)
outcomes_of (some (end, s)) =
    (map (λ (c : CheckRow). c.verdict.outcome) s.checks, s.pull.row.actual_api_calls)

two_recorded :
    outcomes_of (
      check_by_zip_pull flaky dates
        (λ ls n. (true, n))
        2
        2010
        7
        listings
        (3 ∷ [])
        zip_of
        1
        fresh
        [])
    ≡ (CheckOutcome.error ∷ CheckOutcome.error ∷ [], 2)
unfolding outcomes_of check_by_zip_pull filter search_sale_listings get strip
two_recorded = refl
