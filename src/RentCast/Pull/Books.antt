-- ===== src/RentCast/Pull/Books.antt =====
-- The books of a pull balance, however it ends.
use hail_system.Prelude.{
  ℕ, suc, ◌+◌, ◌*◌, ◌≤◌, String, ◌≡◌, ◌≢◌, refl, ap, Bool, true, false, Option, none, some, List,
  [], ◌∷◌, length, sum_by, if_cases, arith,
}
use hail_system.RentCast.Client.{
  Listing, RentCastError, Exc, rentcast, value_error, Result, ok, raised, Net, Api, max_page_size,
  search_sale_listings,
}
use hail_system.RentCast.Client.Paging.{RunsOut, Billed, search_sale_listings-Billed}
use hail_system.RentCast.Pull.{
  running, ZipLog, State, End, passed_on, Totals, final_status, log_zip, finish_pull, is_auth, save,
  on_error, after_search, pull_zips, run_pull,
}

abbrev pub calls_logged : List ZipLog → ℕ
calls_logged = sum_by (λ (z : ZipLog). z.calls_made)

abbrev pub listings_logged : List ZipLog → ℕ
listings_logged = sum_by (λ (z : ZipLog). z.listings_returned)

-- An end that the client did not classify: the request it broke in may or may not have been sent.
abbrev pub is_classified : End → Bool
is_classified (passed_on (rentcast e)) = true
is_classified (passed_on exc) = false
is_classified end = true

-- The pull has ended, its row adds up the log, the log has no more rows than zips, and the calls on the row
-- are the requests sent.
pub record IsBalanced {W : Type 0} (zips before : ℕ) (end : End) (s : State W) : Type 0 where
  pub calls : s.row.actual_api_calls ≡ calls_logged s.log
  pub listings : s.row.listings_returned ≡ listings_logged s.log
  pub ended : s.row.api_status ≢ running
  pub logged : length s.log ≤ zips
  pub billed : is_classified end ≡ true → s.net.requests ≡ before + s.row.actual_api_calls

abbrev pub Balances : {W : Type 0} → ℕ → ℕ → Option (End × State W) → Type 0
Balances zips before none = ⊥
Balances zips before (some (end, s)) = IsBalanced zips before end s

-- The locals and the log at the top of the loop, with `left` zips to go.
record IsRunning {W : Type 0} (zips before left : ℕ) (t : Totals) (s : State W) : Type 0 where
  calls : t.calls ≡ calls_logged s.log
  listings : t.listings ≡ listings_logged s.log
  logged : length s.log + left ≤ zips
  billed : s.net.requests ≡ before + t.calls

final-ended : (n : ℕ) (t : Totals) → final_status n t ≢ running
final-ended n t h = ground arith

module _ {W : Type 0} (zips before left : ℕ) where
  abbrev Go : (Totals → State W → Option (End × State W)) → Type 0
  Go go =
      (t : Totals) (s : State W) → IsRunning zips before left t s → Balances zips before (go t s)

  save-Balances :
      (upsert : List Listing → W → Bool × W) (listings : List Listing) (t : Totals)
      (go : Totals → State W → Option (End × State W)) (s : State W)
      → IsRunning zips before left t s
      → Go go
      → Balances zips before (save upsert listings t go s)
  unfolding save finish_pull
  save-Balances upsert [] t go s h ih = ih t s h
  save-Balances upsert (l ∷ listings) t go s h ih =
      if_cases (Balances zips before) (upsert (l ∷ listings) s.net.world).0
        (λ _.
          ih t _ (record {
            calls = h.calls;
            listings = h.listings;
            logged = h.logged;
            billed = h.billed;
          }))
        (λ _. record {
          calls = h.calls;
          listings = h.listings;
          ended = λ e. absurd (cc e);
          logged = omega arith;
          billed = λ _. h.billed;
        })

  module _ (t : Totals) (go : Totals → State W → Option (End × State W)) (ih : Go go) where
    on_error-Balances :
        (zip_code : String) (exc : Exc) (s : State W)
        → t.calls ≡ calls_logged s.log
        → t.listings ≡ listings_logged s.log
        → length s.log + suc left ≤ zips
        → ((e : RentCastError) → exc ≡ rentcast e → s.net.requests ≡ before + t.calls + e.attempts)
        → Balances zips before (on_error zip_code t go exc s)
    unfolding on_error log_zip finish_pull
    on_error-Balances zip_code (rentcast e) s c l n b =
        if_cases (Balances zips before) (is_auth e.kind)
          (λ _. record {
            calls = omega arith;
            listings = omega arith;
            ended = λ q. absurd (cc q);
            logged = omega arith;
            billed = λ _. omega (arith, b e refl);
          })
          (λ _. ih _ _ (record {
            calls = omega arith;
            listings = omega arith;
            logged = omega arith;
            billed = omega (arith, b e refl);
          }))
    on_error-Balances zip_code value_error s c l n b = record {
      calls = omega arith;
      listings = omega arith;
      ended = λ q. absurd (cc q);
      logged = omega arith;
      billed = λ q. absurd (cc q);
    }
    on_error-Balances zip_code Exc.unclassified s c l n b = record {
      calls = omega arith;
      listings = omega arith;
      ended = λ q. absurd (cc q);
      logged = omega arith;
      billed = λ q. absurd (cc q);
    }

    after_search-Balances :
        (upsert : List Listing → W → Bool × W) (zip_code : String) (s : State W)
        (r : Option (Result (List Listing × ℕ) × Net W))
        → IsRunning zips before (suc left) t s
        → Billed s.net.requests r
        → Balances zips before (after_search upsert zip_code t go s r)
    unfolding after_search log_zip
    after_search-Balances upsert zip_code s none h b = b
    after_search-Balances upsert zip_code s (some (ok (listings, calls_made), net)) h b =
        save-Balances upsert listings _ go _
          (record {
            calls = omega (arith, h.calls);
            listings = omega (arith, h.listings);
            logged = omega (arith, h.logged);
            billed = omega (arith, h.billed, b);
          })
          ih
    after_search-Balances upsert zip_code s (some (raised (rentcast e), net)) h b =
        on_error-Balances zip_code (rentcast e) (record s { net = net }) h.calls h.listings h.logged
          (λ e' q. attempts_of e' q)
      where
        attempts_in : Exc → ℕ
        attempts_in (rentcast x) = x.attempts
        attempts_in x = 0

        attempts_of :
            (e' : RentCastError)
            → rentcast e ≡ rentcast e'
            → net.requests ≡ before + t.calls + e'.attempts
        attempts_of e' q = omega (arith, h.billed, b, ap (λ (x : Exc). attempts_in x) q)
    after_search-Balances upsert zip_code s (some (raised value_error, net)) h b =
        on_error-Balances zip_code value_error (record s { net = net }) h.calls h.listings h.logged
          (λ e q. absurd (cc q))
    after_search-Balances upsert zip_code s (some (raised Exc.unclassified, net)) h b =
        on_error-Balances zip_code Exc.unclassified (record s { net = net }) h.calls h.listings
          h.logged (λ e q. absurd (cc q))

module _ {W : Type 0} (api : Api W) (upsert : List Listing → W → Bool × W) (total pages : ℕ)
    (out : RunsOut api total) (enough : total ≤ max_page_size * pages) (status : String)
    (days_old : Option ℕ) (zip_count before zips : ℕ) where
  pull_zips-Balances :
      (zip_codes : List String) (t : Totals) (s : State W)
      → IsRunning zips before (length zip_codes) t s
      → Balances zips before
          (pull_zips api upsert (suc pages) status days_old zip_count zip_codes t s)
  unfolding pull_zips finish_pull
  pull_zips-Balances [] t s h = record {
    calls = h.calls;
    listings = h.listings;
    ended = final-ended zip_count t;
    logged = omega (arith, h.logged);
    billed = λ _. h.billed;
  }
  pull_zips-Balances (zip_code ∷ zip_codes) t s h =
      after_search-Balances zips before (length zip_codes) t _ (pull_zips-Balances zip_codes) upsert
        zip_code s (search_sale_listings api (suc pages) zip_code status days_old s.net) h
        (search_sale_listings-Billed api total out pages zip_code status days_old s.net enough)

-- Where no page from offset `total` on is full and the fuel is a page more than `total` listings fill,
-- a pull ends, its row is closed with the calls and listings that its log adds up to, the log has at
-- most a row for each zip, and unless an unclassified exception ended it the calls are the requests
-- sent.
pub run_pull-IsBalanced :
    {W : Type 0} (api : Api W) (upsert : List Listing → W → Bool × W) (total pages : ℕ)
    → RunsOut api total
    → total ≤ max_page_size * pages
    → (status : String) (days_old : Option ℕ) (zip_codes : List String) (estimated : ℕ)
      (net : Net W)
    → Balances
        (length zip_codes)
        net.requests
        (run_pull api upsert (suc pages) status days_old zip_codes estimated net)
unfolding run_pull
run_pull-IsBalanced api upsert total pages out enough status days_old zip_codes estimated net =
    pull_zips-Balances api upsert total pages out enough status days_old (length zip_codes)
      net.requests (length zip_codes) zip_codes _ _
      (record { calls = refl; listings = refl; logged = omega arith; billed = omega arith })
