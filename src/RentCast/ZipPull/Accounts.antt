-- ===== src/RentCast/ZipPull/Accounts.antt =====
-- Every listing is recorded under its own id, and the pull's books balance, however it ends.
pub mod Groups
use hail_system.Prelude.{
  ℕ, suc, ◌+◌, ◌-◌, ◌*◌, ◌≤◌, ◌≡◌, refl, sym, ap, ◌∙◌, String, Bool, not, Option, none, some, List,
  [], ◌∷◌, length, length-append, sum_by, str_eq, is_some, ◌==◌, if◌then◌else◌, if_cases, filter,
  arith,
}
use hail_system.RentCast.Client.{
  Listing, RentCastError, Exc, rentcast, value_error, Result, ok, raised, Net, Api, max_page_size,
  search_sale_listings,
}
use hail_system.RentCast.Client.Paging.{RunsOut, Billed, search_sale_listings-Billed}
use hail_system.RentCast.Pull.{ApiStatus, failed, complete, log_zip, finish_pull}
use hail_system.RentCast.Pull.Books.{calls_logged, listings_logged}
use hail_system.RentCast.Check.{Dates, Verdict, CheckRow, is_fatal, record_check}
use hail_system.RentCast.Step.{Item, StepEnd}
use hail_system.RentCast.ZipPull.{
  Group, is_before, place_item, place_in, group, has_no_zip, to_do, Desk, ZipEnd, of_step,
  upsert_raised, Spent, verdict_in, failed_zip, record_one, record_all, on_pull, on_zip_error, keep,
  after_zip, pull_groups, no_zip_verdict, check_by_zip_pull,
}
use hail_system.RentCast.ZipPull.Accounts.Groups.{times_in, times_grouped, group-times}

-- The pull's row adds up its log, and the pull is over.
pub record IsClosed {W : Type 0} (zips : ℕ) (status : ApiStatus) (s : Desk W) : Type 0 where
  pub calls : s.pull.row.actual_api_calls ≡ calls_logged s.pull.log
  pub listings : s.pull.row.listings_returned ≡ listings_logged s.pull.log
  pub ended : s.pull.row.api_status ≡ status
  pub logged : length s.pull.log ≤ zips

-- The requests sent since `before` are the calls of the pull's row.
abbrev pub IsBilled : {W : Type 0} → ℕ → Desk W → Type 0
IsBilled before s = s.pull.net.requests ≡ before + s.pull.row.actual_api_calls

-- How many of the rows of drip_listing_checks are of the listing.
abbrev pub times_checked : ℕ → List CheckRow → ℕ
times_checked id rows = sum_by (λ (r : CheckRow). if r.listing_id == id then 1 else 0) rows

-- How a step's pull of `zips` zips may end, where the listing `id` is to have `target` rows of checks.
abbrev pub Accounts : {W : Type 0} → ℕ → ℕ → ℕ → ℕ → ℕ → Option (ZipEnd × Desk W) → Type 0
Accounts id zips before target todo none = ⊥
Accounts id zips before target todo (some (of_step (StepEnd.returned sum), s)) =
    IsClosed zips complete s
    × IsBilled before s
    × (sum.calls ≡ s.pull.row.actual_api_calls)
    × (sum.checked ≡ todo)
    × (times_checked id s.checks ≡ target)
Accounts id zips before target todo (some (of_step (StepEnd.stopped reason calls), s)) =
    IsClosed zips failed s × IsBilled before s × (calls ≡ s.pull.row.actual_api_calls)
Accounts id zips before target todo (some (of_step (StepEnd.passed_on exc), s)) =
    IsClosed zips failed s
Accounts id zips before target todo (some (upsert_raised, s)) =
    IsClosed zips failed s × IsBilled before s

record IsRunning {W : Type 0} (id zips before target left waiting : ℕ) (t : Spent) (s : Desk W)
    : Type 0 where
  calls : t.calls ≡ calls_logged s.pull.log
  listings : t.returned ≡ listings_logged s.pull.log
  logged : length s.pull.log + left ≤ zips
  billed : s.pull.net.requests ≡ before + t.calls
  checks : times_checked id s.checks + waiting ≡ target

module _ {W : Type 0} where
  record_all-times :
      (id : ℕ) (f : Item → Verdict) (items : List Item) (s : Desk W)
      → times_checked id (record_all f items s).checks
        ≡ times_checked id s.checks + times_in id items
  unfolding record_all record_check
  record_all-times id f [] s = omega arith
  record_all-times id f (item ∷ items) s =
      omega (arith, record_all-times id f items (record_one (f item) item s))

  record_all-pull :
      (f : Item → Verdict) (items : List Item) (s : Desk W) → (record_all f items s).pull ≡ s.pull
  unfolding record_all record_check
  record_all-pull f [] s = refl
  record_all-pull f (item ∷ items) s = record_all-pull f items (record_one (f item) item s)

module _ {W : Type 0} (id zips before target todo left waiting : ℕ) where
  abbrev Go : (Spent → Desk W → Option (ZipEnd × Desk W)) → Type 0
  Go go =
      (t : Spent) (s : Desk W)
      → IsRunning id zips before target left waiting t s
      → Accounts id zips before target todo (go t s)

  -- The items of a group are recorded, which the pull does not see.
  recorded-IsRunning :
      (f : Item → Verdict) (items : List Item) (t : Spent) (s : Desk W)
      → IsRunning id zips before target left (times_in id items + waiting) t s
      → IsRunning id zips before target left waiting t (record_all f items s)
  recorded-IsRunning f items t s h =
      let e : (record_all f items s).pull ≡ s.pull = record_all-pull f items s in
      record {
        calls = h.calls ∙ ap (λ p. calls_logged p.log) (sym e);
        listings = h.listings ∙ ap (λ p. listings_logged p.log) (sym e);
        logged = omega (arith, h.logged, ap (λ p. length p.log) e);
        billed = ap (λ p. p.net.requests) e ∙ h.billed;
        checks = omega (arith, h.checks, record_all-times id f items s);
      }

  module _ (g : Group) (t : Spent) (go : Spent → Desk W → Option (ZipEnd × Desk W))
      (ih : Go go) where
    on_zip_error-Accounts :
        (exc : Exc) (s : Desk W)
        → t.calls ≡ calls_logged s.pull.log
        → t.returned ≡ listings_logged s.pull.log
        → length s.pull.log + suc left ≤ zips
        → times_checked id s.checks + (times_in id g.items + waiting) ≡ target
        → ((e : RentCastError)
            → exc ≡ rentcast e
            → s.pull.net.requests ≡ before + t.calls + e.attempts)
        → Accounts id zips before target todo (on_zip_error g t go exc s)
    unfolding on_zip_error log_zip finish_pull
    on_zip_error-Accounts (rentcast e) s c l n k b =
        if_cases (Accounts id zips before target todo) (is_fatal e.kind)
          (λ _. (
            record {
              calls = omega (arith, c);
              listings = omega (arith, l);
              ended = refl;
              logged = omega (arith, n);
            },
            omega (arith, b e refl),
            refl,
          ))
          (λ _. ih _ _ (
            recorded-IsRunning (λ item. failed_zip e) g.items _ _
              (record {
                calls = omega (arith, c);
                listings = omega (arith, l);
                logged = omega (arith, n);
                billed = omega (arith, b e refl);
                checks = k;
              })))
    on_zip_error-Accounts value_error s c l n k b = record {
      calls = omega (arith, c);
      listings = omega (arith, l);
      ended = refl;
      logged = omega (arith, n);
    }
    on_zip_error-Accounts Exc.unclassified s c l n k b = record {
      calls = omega (arith, c);
      listings = omega (arith, l);
      ended = refl;
      logged = omega (arith, n);
    }

    keep-Accounts :
        (dates : Dates) (today freshness_days : ℕ) (upsert : List Listing → W → Bool × W)
        (found : List Listing) (s : Desk W)
        → IsRunning id zips before target left (times_in id g.items + waiting) t s
        → Accounts id zips before target todo
            (keep dates today freshness_days upsert found g t go s)
    unfolding keep finish_pull
    keep-Accounts dates today freshness_days upsert [] s h =
        ih t _ (recorded-IsRunning (verdict_in dates today freshness_days []) g.items t s h)
    keep-Accounts dates today freshness_days upsert (l ∷ found) s h =
        if_cases (Accounts id zips before target todo) (upsert (l ∷ found) s.pull.net.world).0
          (λ _. ih t _ (
            recorded-IsRunning (verdict_in dates today freshness_days (l ∷ found)) g.items t _
              (record {
                calls = h.calls;
                listings = h.listings;
                logged = h.logged;
                billed = h.billed;
                checks = h.checks;
              })))
          (λ _. (
            record {
              calls = h.calls;
              listings = h.listings;
              ended = refl;
              logged = omega (arith, h.logged);
            },
            h.billed,
          ))

module _ {W : Type 0} (id zips before target todo left waiting : ℕ) (g : Group) (t : Spent)
    (go : Spent → Desk W → Option (ZipEnd × Desk W))
    (ih : Go id zips before target todo left waiting go) (dates : Dates) (today freshness_days : ℕ)
    (upsert : List Listing → W → Bool × W) where
  attempts_in : Exc → ℕ
  attempts_in (rentcast x) = x.attempts
  attempts_in x = 0

  after_zip-Accounts :
      (s : Desk W) (r : Option (Result (List Listing × ℕ) × Net W))
      → IsRunning id zips before target (suc left) (times_in id g.items + waiting) t s
      → Billed s.pull.net.requests r
      → Accounts id zips before target todo (after_zip dates today freshness_days upsert g t go s r)
  unfolding after_zip log_zip attempts_in
  after_zip-Accounts s none h b = b
  after_zip-Accounts s (some (ok (found, made), net)) h b =
      keep-Accounts id zips before target todo left waiting g _ go ih dates today freshness_days
        upsert found _
        (record {
          calls = omega (arith, h.calls);
          listings = omega (arith, h.listings);
          logged = omega (arith, h.logged);
          billed = omega (arith, h.billed, b);
          checks = h.checks;
        })
  after_zip-Accounts s (some (raised (rentcast e), net)) h b =
      on_zip_error-Accounts id zips before target todo left waiting g t go ih (rentcast e)
        (on_pull (λ p. record p { net = net }) s) h.calls h.listings h.logged h.checks
        (λ e' q. omega (arith, h.billed, b, ap attempts_in q))
  after_zip-Accounts s (some (raised value_error, net)) h b =
      on_zip_error-Accounts id zips before target todo left waiting g t go ih value_error
        (on_pull (λ p. record p { net = net }) s) h.calls h.listings h.logged h.checks
        (λ e q. absurd (cc q))
  after_zip-Accounts s (some (raised Exc.unclassified, net)) h b =
      on_zip_error-Accounts id zips before target todo left waiting g t go ih Exc.unclassified
        (on_pull (λ p. record p { net = net }) s) h.calls h.listings h.logged h.checks
        (λ e q. absurd (cc q))

module _ {W : Type 0} (api : Api W) (total pages : ℕ) (out : RunsOut api total)
    (enough : total ≤ max_page_size * pages) (dates : Dates) (upsert : List Listing → W → Bool × W)
    (today freshness_days : ℕ) where
  pull_groups-Accounts :
      (id zips before target todo reused : ℕ) (groups : List Group) (t : Spent) (s : Desk W)
      → IsRunning id zips before target (length groups) (times_grouped id groups) t s
      → Accounts id zips before target todo
          (pull_groups dates today freshness_days upsert api (suc pages) todo reused groups t s)
  unfolding pull_groups finish_pull
  pull_groups-Accounts id zips before target todo reused [] t s h = (
    record {
      calls = h.calls;
      listings = h.listings;
      ended = refl;
      logged = omega (arith, h.logged);
    },
    h.billed,
    refl,
    refl,
    omega (arith, h.checks),
  )
  pull_groups-Accounts id zips before target todo reused (g ∷ groups) t s h =
      after_zip-Accounts id zips before target todo (length groups) (times_grouped id groups) g t _
        (pull_groups-Accounts id zips before target todo reused groups) dates today freshness_days
        upsert s (search_sale_listings api (suc pages) g.zip_code "Active" none s.pull.net) h
        (search_sale_listings-Billed api total out pages g.zip_code "Active" none s.pull.net enough)

  -- Where no page from offset `total` on is full and the fuel is a page more than `total` listings fill, a step by zip
  -- pull ends, and its pull is closed with the calls and listings that its log adds up to, at most a row for each
  -- zip. One that returns has closed it as complete and has added, for each listing `id`, as many rows of checks as the
  -- listing has items that were not skipped, with a zip or without; every other end has closed it as failed. Unless an unclassified exception
  -- ended it, the calls on the row are the requests sent; they are the calls that the step reports, stopped or not.
  pub check_by_zip_pull-Accounts :
      (id : ℕ) (listings : List Item) (skip : List ℕ) (zips : ℕ → Option String) (estimated : ℕ)
      (net : Net W) (checks : List CheckRow)
      → Accounts id
          (length (group zips (to_do skip listings) []))
          net.requests
          (times_checked id checks + times_in id (to_do skip listings))
          (length (to_do skip listings))
          (check_by_zip_pull api dates upsert
            (suc pages)
            today
            freshness_days
            listings
            skip
            zips
            estimated
            net
            checks)
  unfolding check_by_zip_pull
  check_by_zip_pull-Accounts id listings skip zips estimated net checks =
      let todo : List Item = to_do skip listings in
      let groups : List Group = group zips todo [] in
      pull_groups-Accounts id (length groups) net.requests
        (times_checked id checks + times_in id todo) (length todo) (length listings - length todo)
        groups _ _
        (recorded-IsRunning id (length groups) net.requests
          (times_checked id checks + times_in id todo) (length todo) (length groups)
          (times_grouped id groups) (λ item. no_zip_verdict) (filter (has_no_zip zips) todo)
          (record { calls = 0; returned = 0 }) _
          (record {
            calls = refl;
            listings = refl;
            logged = omega arith;
            billed = omega arith;
            checks = omega (arith, group-times id zips todo []);
          }))
