-- ===== src/RentCast/Client/Paging.antt =====
-- The paged search ends where the pages run out, and bills every request that it sent.
use hail_system.Prelude.{
  ℕ, zero, suc, ◌+◌, ◌*◌, ◌≤◌, ◌<◌, String, ◌≡◌, refl, Option, none, some, List, [], ◌++◌, length,
  ltb, ◌==◌, if_cases, arith,
}
use hail_system.RentCast.Client.{
  Listing, Reply, answered, http_error, url_error, unreadable, array, object, scalar, Exc, rentcast,
  value_error, Result, ok, raised, Net, Api, Params, max_retries, max_page_size, get_step, get,
  get_from, after_page, search_pages, search_sale_listings, on_status, on_url_error,
}
use hail_system.RentCast.Client.Attempts.{
  Ends, Gives, DoneHas, second, get-Ends, request_loop-Gives,
}

-- The requests sent since `before` are the calls that the search reports.
abbrev pub Billed : {W : Type 0} → ℕ → Option (Result (List Listing × ℕ) × Net W) → Type 0
Billed before none = ⊥
Billed before (some (ok (listings, calls_made), net)) = net.requests ≡ before + calls_made
Billed before (some (raised (rentcast e), net)) = net.requests ≡ before + e.attempts
Billed before (some (raised value_error, net)) = Unit
Billed before (some (raised Exc.unclassified, net)) = Unit

module _ {W : Type 0} (api : Api W) (total : ℕ) where
  -- RentCast has `total` listings to give: from that offset on a page is not full.
  abbrev pub RunsOut : Type 0
  RunsOut =
      (params : Params) (w : W) (status : ℕ) (page : List Listing)
      → (api.send_search params w).0 ≡ answered status (array page)
      → total ≤ params.offset
      → length page < max_page_size

  abbrev IsShort : ℕ → Result (List Listing × ℕ) → Type 0
  IsShort offset (ok (page, attempts)) = total ≤ offset → length page < max_page_size
  IsShort offset (raised exc) = Unit

  module _ (out : RunsOut) where
    get_step-IsShort :
        (params : Params) (attempt : ℕ) (w : W) (reply : Reply)
        → (api.send_search params w).0 ≡ reply
        → DoneHas (IsShort params.offset) (get_step attempt reply)
    unfolding get_step on_status on_url_error
    get_step-IsShort params attempt w (answered status (array page)) e = out params w status page e
    get_step-IsShort params attempt w (answered status (object listing)) e = tt
    get_step-IsShort params attempt w (answered status scalar) e = tt
    get_step-IsShort params attempt w (http_error status) e = ground arith
    get_step-IsShort params attempt w url_error e = ground arith
    get_step-IsShort params attempt w unreadable e = tt
    get_step-IsShort params attempt w Reply.unclassified e = tt

    get_from-IsShort :
        (key : Option String) (fuel : ℕ) (params : Params) (net : Net W)
        → Gives (IsShort params.offset) (get_from api key fuel params net)
    unfolding get_from
    get_from-IsShort none fuel params net = tt
    get_from-IsShort (some key) fuel params net =
        request_loop-Gives (api.send_search params) get_step (IsShort params.offset)
          (λ attempt w. get_step-IsShort params attempt w (api.send_search params w).0 refl) fuel 0
          net

    after_page-Billed :
        (go : Params → List Listing → ℕ → Net W → Option (Result (List Listing × ℕ) × Net W))
        (params : Params) (listings : List Listing) (calls_made before : ℕ) (net : Net W)
        (r : Option (Result (List Listing × ℕ) × Net W))
        → net.requests ≡ before + calls_made
        → Ends second (max_retries + 1) net.requests r
        → Gives (IsShort params.offset) r
        → (params.offset < total
            → (listings' : List Listing) (calls : ℕ) (net' : Net W) → net'.requests ≡ before + calls
            → Billed before (
                go (record params { offset = params.offset + max_page_size }) listings' calls net'))
        → Billed before (after_page api go params listings calls_made r)
    unfolding after_page
    after_page-Billed go params listings calls_made before net (some (raised (rentcast e), net'))
          sent e' h ih =
        omega arith
    after_page-Billed go params listings calls_made before net (some (raised value_error, net'))
          sent e h ih =
        tt
    after_page-Billed go params listings calls_made before net
          (some (raised Exc.unclassified, net')) sent e h ih =
        tt
    after_page-Billed go params listings calls_made before net none sent e h ih = e
    after_page-Billed go params listings calls_made before net (some (ok (page, attempts), net'))
          sent e h ih =
        if_cases (Billed before) (length page == 0) (λ _. omega arith)
          (λ _.
            if_cases (Billed before) (ltb (length page) max_page_size) (λ _. omega arith)
              (λ full.
                ih (ground (arith, h)) (listings ++ page) (calls_made + attempts) net'
                  (omega arith)))

    search_pages-Billed :
        (fuel : ℕ) (params : Params) (listings : List Listing) (calls_made before : ℕ) (net : Net W)
        → total ≤ params.offset + max_page_size * fuel
        → net.requests ≡ before + calls_made
        → Billed before
            (search_pages api (suc fuel) (max_retries + 1) params listings calls_made net)
    unfolding search_pages get
    search_pages-Billed zero params listings calls_made before net enough sent =
        after_page-Billed (search_pages api zero (max_retries + 1)) params listings calls_made
          before net (get api (max_retries + 1) params net) sent (get-Ends api params net)
          (get_from-IsShort api.key (max_retries + 1) params net) (λ lt. absurd (omega arith))
    search_pages-Billed (suc fuel) params listings calls_made before net enough sent =
        after_page-Billed (search_pages api (suc fuel) (max_retries + 1)) params listings calls_made
          before net (get api (max_retries + 1) params net) sent (get-Ends api params net)
          (get_from-IsShort api.key (max_retries + 1) params net)
          (λ _ listings' calls net' e.
            search_pages-Billed fuel (record params { offset = params.offset + max_page_size })
              listings' calls before net' (omega arith) e)

    -- Where no page from offset `total` on is full and the fuel is a page more than `total` listings
    -- fill, the paged search ends, and the calls it reports, its errors' attempts included, are the
    -- requests sent.
    pub search_sale_listings-Billed :
        (pages : ℕ) (zip_code status : String) (days_old : Option ℕ) (net : Net W)
        → total ≤ max_page_size * pages
        → Billed net.requests (search_sale_listings api (suc pages) zip_code status days_old net)
    unfolding search_sale_listings
    search_sale_listings-Billed pages zip_code status days_old net enough =
        search_pages-Billed pages _ [] 0 net.requests net (omega arith) (omega arith)
