-- ===== src/RentCast/Client.antt =====
-- rentcast/client.py: one logical request with its retries, the paged search of a zip, and the lookup of
-- one listing. `W` is the state of the outside world, which answers each physical request.
pub mod Attempts
pub mod Paging
use hail_system.Prelude.{
  ℕ, zero, suc, ◌+◌, ◌-◌, ◌*◌, ◌^◌, String, Bool, true, false, not, ◌&&◌, ◌||◌, Option, none, some,
  List, [], ◌∷◌, ◌++◌, length, ltb, leb, ◌==◌, str_eq, if◌then◌else◌,
}
use hail_system.Text.{is_empty, strip}

-- A value of a JSON object, read by `.get`: an absent key reads as null.
pub data Value : Type 0 where
  null : Value
  text : String → Value
  other : Value

pub record Listing : Type 0 where
  pub id : Value
  pub status : Value
  pub last_seen_date : Value
  pub removed_date : Value
  -- `listingAgent`, where it is an object: its email
  pub agent_email : Option Value

-- The parsed body of an answer.
pub data Body : Type 0 where
  array : List Listing → Body
  object : Listing → Body
  scalar : Body

-- What one physical request comes to.
pub data Reply : Type 0 where
  answered : ℕ → Body → Reply
  http_error : ℕ → Reply
  url_error : Reply
  unreadable : Reply
  unclassified : Reply

pub data ErrorKind : Type 0 where
  auth validation not_found server connection response unexpected : ErrorKind

-- `RentCastError` and its subclasses
pub record RentCastError : Type 0 where
  pub kind : ErrorKind
  pub attempts : ℕ
  pub status : Option ℕ

pub data Exc : Type 0 where
  rentcast : RentCastError → Exc
  value_error : Exc
  unclassified : Exc

pub data Result (A : Type 0) : Type 0 where
  ok : A → Result A
  raised : Exc → Result A

abbrev pub max_page_size : ℕ
max_page_size = 500

abbrev pub max_retries : ℕ
max_retries = 4

abbrev pub max_attempts_by_id : ℕ
max_attempts_by_id = 3

abbrev pub is_retryable : ℕ → Bool
is_retryable status = status == 429 || status == 500 || status == 503 || status == 504

abbrev pub fail_with : {A : Type 0} → ErrorKind → ℕ → Option ℕ → Result A
fail_with kind attempts status =
    raised (rentcast (record { kind = kind; attempts = attempts; status = status }))

-- Where the body of the loop goes after a request: out of the loop, or round after a sleep.
pub data Next (A : Type 0) : Type 0 where
  done : Result A → Next A
  retry : ℕ → Next A

abbrev pub backoff : ℕ → ℕ
backoff attempt = 2 ^ (attempt - 1)

-- The `except HTTPError` that both loops share, behind their own reading of a 404.
unfoldable pub on_status : {A : Type 0} → ℕ → ℕ → ℕ → Next A
on_status most attempt status =
    if status == 401 || status == 403
    then done (fail_with auth attempt (some status))
    else if status == 400 || status == 405
    then done (fail_with validation attempt (some status))
    else if is_retryable status
    then (if leb most attempt
        then done (fail_with server attempt (some status))
        else retry (backoff attempt))
    else done (fail_with unexpected attempt (some status))

unfoldable pub on_url_error : {A : Type 0} → ℕ → ℕ → Next A
on_url_error most attempt =
    if leb most attempt then done (fail_with connection attempt none) else retry (backoff attempt)

-- The body of the loop of `_get`.
unfoldable pub get_step : ℕ → Reply → Next (List Listing × ℕ)
unfolding on_status on_url_error
get_step attempt (answered status (array page)) = done (ok (page, attempt))
get_step attempt (answered status (object listing)) =
    done (fail_with response attempt (some status))
get_step attempt (answered status scalar) = done (fail_with response attempt (some status))
get_step attempt (http_error status) =
    if status == 404 then done (ok ([], attempt)) else on_status (max_retries + 1) attempt status
get_step attempt url_error = on_url_error (max_retries + 1) attempt
get_step attempt unreadable = done (fail_with response attempt none)
get_step attempt Reply.unclassified = done (raised Exc.unclassified)

abbrev pub is_text : String → Value → Bool
is_text s null = false
is_text s (text t) = str_eq t s
is_text s other = false

-- The body of the loop of `get_sale_listing`, with the test of the answer that follows it.
unfoldable pub listing_step : String → ℕ → Reply → Next (Listing × ℕ)
unfolding on_status on_url_error
listing_step listing_id attempt (answered status (object listing)) =
    if is_text listing_id listing.id
    then done (ok (listing, attempt))
    else done (fail_with response attempt (some status))
listing_step listing_id attempt (answered status (array page)) =
    done (fail_with response attempt (some status))
listing_step listing_id attempt (answered status scalar) =
    done (fail_with response attempt (some status))
listing_step listing_id attempt (http_error status) =
    if status == 404
    then done (fail_with not_found attempt (some status))
    else on_status max_attempts_by_id attempt status
listing_step listing_id attempt url_error = on_url_error max_attempts_by_id attempt
listing_step listing_id attempt unreadable = done (fail_with response attempt none)
listing_step listing_id attempt Reply.unclassified = done (raised Exc.unclassified)

-- The world, the physical requests that RentCast has been sent, and the sleeps.
pub record Net (W : Type 0) : Type 0 where
  pub world : W
  pub requests : ℕ
  pub slept : List ℕ

module _ {W A : Type 0} (send : W → Reply × W) (step : ℕ → Reply → Next A) where
  -- `while True`, on fuel; `none` is a loop that has not ended.
  unfoldable pub request_loop : ℕ → ℕ → Net W → Option (Result A × Net W)
  request_loop zero attempt net = none
  request_loop (suc fuel) attempt net =
      let (reply, w) = send net.world in
      let net' : Net W = record net { world = w; requests = net.requests + 1 } in
      elim (step (attempt + 1) reply) [
        | done r ↦ some (r, net')
        | retry wait ↦ request_loop fuel (attempt + 1) (record net' { slept = wait ∷ net'.slept })
      ]

-- `params` of one page request
pub record Params : Type 0 where
  pub zip_code : String
  pub status : String
  pub limit : ℕ
  pub offset : ℕ
  pub days_old : Option ℕ

-- The key is read before the loop, so its absence costs no request.
abbrev pub no_key : {A : Type 0} → Result A
no_key = fail_with auth 0 none

-- `_get` and `get_sale_listing` send their requests by these.
pub record Api (W : Type 0) : Type 0 where
  pub key : Option String
  pub send_search : Params → W → Reply × W
  pub send_lookup : String → W → Reply × W

module _ {W : Type 0} (api : Api W) where
  unfoldable pub get_from :
      Option String → ℕ → Params → Net W → Option (Result (List Listing × ℕ) × Net W)
  unfolding get_step request_loop
  get_from none fuel params net = some (no_key, net)
  get_from (some key) fuel params net = request_loop (api.send_search params) get_step fuel 0 net

  -- `_get`
  unfoldable pub get : ℕ → Params → Net W → Option (Result (List Listing × ℕ) × Net W)
  unfolding get_from
  get = get_from api.key

  unfoldable pub lookup_from :
      Option String → ℕ → String → Net W → Option (Result (Listing × ℕ) × Net W)
  unfolding listing_step request_loop
  lookup_from none fuel listing_id net = some (no_key, net)
  lookup_from (some key) fuel listing_id net =
      request_loop (api.send_lookup listing_id) (listing_step listing_id) fuel 0 net

  -- `get_sale_listing`; a blank id is refused before a request.
  unfoldable pub get_sale_listing :
      ℕ → Option String → Net W → Option (Result (Listing × ℕ) × Net W)
  unfolding lookup_from strip
  get_sale_listing fuel none net = some (raised value_error, net)
  get_sale_listing fuel (some listing_id) net =
      if is_empty (strip listing_id)
      then some (raised value_error, net)
      else lookup_from api.key fuel listing_id net

  -- The page that `_get` returned, and what the loop does with it.
  abbrev pub add_calls : ℕ → Exc → Exc
  add_calls calls_made (rentcast e) = rentcast (record e { attempts = calls_made + e.attempts })
  add_calls calls_made exc = exc

  -- One round of the loop of `search_sale_listings` after `_get`; `go` is the next round.
  unfoldable pub after_page :
      (Params → List Listing → ℕ → Net W → Option (Result (List Listing × ℕ) × Net W))
      → Params
      → List Listing
      → ℕ
      → Option (Result (List Listing × ℕ) × Net W)
      → Option (Result (List Listing × ℕ) × Net W)
  after_page go params listings calls_made none = none
  after_page go params listings calls_made (some (raised exc, net)) =
      some (raised (add_calls calls_made exc), net)
  after_page go params listings calls_made (some (ok (page, attempts), net)) =
      if length page == 0
      then some (ok (listings, calls_made + attempts), net)
      else if ltb (length page) max_page_size
      then some (ok (listings ++ page, calls_made + attempts), net)
      else go (record params { offset = params.offset + max_page_size }) (listings ++ page)
          (calls_made + attempts) net

  -- The loop, on fuel for its pages; `tries` is the fuel of each `_get`.
  unfoldable pub search_pages :
      ℕ → ℕ → Params → List Listing → ℕ → Net W → Option (Result (List Listing × ℕ) × Net W)
  unfolding after_page
  search_pages zero tries params listings calls_made net = none
  search_pages (suc fuel) tries params listings calls_made net =
      after_page (search_pages fuel tries) params listings calls_made (get tries params net)

  -- `search_sale_listings`
  unfoldable pub search_sale_listings :
      ℕ → String → String → Option ℕ → Net W → Option (Result (List Listing × ℕ) × Net W)
  unfolding search_pages
  search_sale_listings pages zip_code status days_old net =
      search_pages pages (max_retries + 1)
        (record {
          zip_code = zip_code;
          status = status;
          limit = max_page_size;
          offset = 0;
          days_old = days_old;
        })
        [] 0 net
