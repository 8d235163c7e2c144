-- ===== src/RentCast/Pull.antt =====
-- rentcast/pull.py `run_pull`: the bookkeeping of one pull. api_call_log is kept newest first, and holds the
-- rows of this pull. `upsert` stands for upsert_listings: it takes the listings into the world or raises.
pub mod Books
use hail_system.Prelude.{
  ℕ, zero, suc, ◌+◌, String, Bool, true, false, ◌&&◌, not, Option, none, some, List, [], ◌∷◌,
  length, ◌==◌, if◌then◌else◌,
}
use hail_system.RentCast.Client.{
  Listing, ErrorKind, auth, RentCastError, Exc, rentcast, Result, ok, raised, Net, Api,
  search_sale_listings,
}

pub data ApiStatus : Type 0 where
  running complete failed : ApiStatus

pub record ZipLog : Type 0 where
  pub zip_code : String
  pub calls_made : ℕ
  pub listings_returned : ℕ
  pub http_status : Option ℕ

-- A row of api_pulls.
pub record PullRow : Type 0 where
  pub zip_count : ℕ
  pub estimated_api_calls : ℕ
  pub actual_api_calls : ℕ
  pub listings_returned : ℕ
  pub api_status : ApiStatus

pub record State (W : Type 0) : Type 0 where
  pub net : Net W
  pub log : List ZipLog
  pub row : PullRow

-- How `run_pull` ends.
pub data End : Type 0 where
  returned : End
  passed_on : Exc → End
  upsert_raised : End

-- The locals of the loop.
pub record Totals : Type 0 where
  pub calls : ℕ
  pub listings : ℕ
  pub failed_zips : ℕ

abbrev pub create_pull : ℕ → ℕ → PullRow
create_pull zip_count estimated = record {
  zip_count = zip_count;
  estimated_api_calls = estimated;
  actual_api_calls = 0;
  listings_returned = 0;
  api_status = running;
}

abbrev pub is_auth : ErrorKind → Bool
is_auth auth = true
is_auth _ = false

-- The status at the end: failed where RentCast answered no zip.
abbrev pub final_status : ℕ → Totals → ApiStatus
final_status zip_count t =
    if not (zip_count == 0) && t.failed_zips == zip_count then failed else complete

module _ {W : Type 0} where
  -- `_log_zip`
  unfoldable pub log_zip : String → ℕ → ℕ → Option ℕ → State W → State W
  log_zip zip_code calls_made found http_status s = record s {
    log =
        record {
          zip_code = zip_code;
          calls_made = calls_made;
          listings_returned = found;
          http_status = http_status;
        }
        ∷ s.log;
  }

  -- `_finish_pull`
  unfoldable pub finish_pull : ℕ → ℕ → ApiStatus → State W → State W
  finish_pull calls listings status s = record s {
    row = record s.row {
      actual_api_calls = calls;
      listings_returned = listings;
      api_status = status;
    };
  }

  unfoldable pub on_error :
      String
      → Totals
      → (Totals → State W → Option (End × State W))
      → Exc
      → State W
      → Option (End × State W)
  unfolding log_zip finish_pull
  on_error zip_code t go (rentcast e) s =
      if is_auth e.kind
      then some (
        passed_on (rentcast e),
        finish_pull (t.calls + e.attempts) t.listings failed
            (log_zip zip_code e.attempts 0 e.status s),
      )
      else go (record t { calls = t.calls + e.attempts; failed_zips = t.failed_zips + 1 })
          (log_zip zip_code e.attempts 0 e.status s)
  on_error zip_code t go exc s =
      some
        (passed_on exc, finish_pull (t.calls + 1) t.listings failed (log_zip zip_code 1 0 none s))

  module _ (upsert : List Listing → W → Bool × W) where
    -- The listings of a zip are upserted, where there are any.
    unfoldable pub save :
        List Listing
        → Totals
        → (Totals → State W → Option (End × State W))
        → State W
        → Option (End × State W)
    unfolding finish_pull
    save [] t go s = go t s
    save (l ∷ listings) t go s =
        let (fine, w) = upsert (l ∷ listings) s.net.world in
        let saved : State W = record s { net = record s.net { world = w } } in
        if fine
        then go t saved
        else some (upsert_raised, finish_pull t.calls t.listings failed saved)

    -- One zip, after its search; `go` is the rest of the loop.
    unfoldable pub after_search :
        String
        → Totals
        → (Totals → State W → Option (End × State W))
        → State W
        → Option (Result (List Listing × ℕ) × Net W)
        → Option (End × State W)
    unfolding save on_error log_zip
    after_search zip_code t go s none = none
    after_search zip_code t go s (some (raised exc, net)) =
        on_error zip_code t go exc (record s { net = net })
    after_search zip_code t go s (some (ok (listings, calls_made), net)) =
        save listings
          (record t { calls = t.calls + calls_made; listings = t.listings + length listings }) go
          (log_zip zip_code calls_made (length listings) (some 200) (record s { net = net }))

  module _ (api : Api W) (upsert : List Listing → W → Bool × W) (pages : ℕ) (status : String)
      (days_old : Option ℕ) (zip_count : ℕ) where
    unfoldable pub pull_zips : List String → Totals → State W → Option (End × State W)
    unfolding after_search finish_pull
    pull_zips [] t s = some (returned, finish_pull t.calls t.listings (final_status zip_count t) s)
    pull_zips (zip_code ∷ zips) t s =
        after_search upsert zip_code t (pull_zips zips) s
          (search_sale_listings api pages zip_code status days_old s.net)

-- `run_pull`, with the row that `create_pull` made.
unfoldable pub run_pull :
    {W : Type 0}
    → Api W
    → (List Listing → W → Bool × W)
    → ℕ
    → String
    → Option ℕ
    → List String
    → ℕ
    → Net W
    → Option (End × State W)
unfolding pull_zips
run_pull api upsert pages status days_old zip_codes estimated net =
    pull_zips api upsert pages status days_old (length zip_codes) zip_codes
      (record { calls = 0; listings = 0; failed_zips = 0 })
      (record { net = net; log = []; row = create_pull (length zip_codes) estimated })
