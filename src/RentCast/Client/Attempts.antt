-- ===== src/RentCast/Client/Attempts.antt =====
-- The retry loops end, within their limit, and report as many attempts as requests were sent.
use hail_system.Prelude.{
  ℕ, zero, suc, ◌+◌, ◌≤◌, ◌<◌, String, ◌≡◌, refl, Option, none, some, ◌∷◌, arith, if_cases,
}
use hail_system.Text.{is_empty, strip}
use hail_system.RentCast.Client.{
  Reply, answered, http_error, url_error, unreadable, array, object, scalar, Exc, rentcast,
  value_error, Result, ok, raised, Next, done, retry, Net, Api, Params, max_retries,
  max_attempts_by_id, on_status, on_url_error, get_step, listing_step, request_loop, get, get_from,
  get_sale_listing, lookup_from,
}

-- The result reports the attempts made so far, all of them requests, and a retry is below the limit.
abbrev pub Reports : {A : Type 0} → (A → ℕ) → ℕ → ℕ → Next A → Type 0
Reports calls most attempt (done (ok a)) = calls a ≡ attempt
Reports calls most attempt (done (raised (rentcast e))) = e.attempts ≡ attempt
Reports calls most attempt (done (raised value_error)) = ⊥
Reports calls most attempt (done (raised Exc.unclassified)) = Unit
Reports calls most attempt (retry wait) = attempt < most

-- What was spent: as many requests as the result says, at most `most`. An exception that the client did
-- not classify says nothing, but it too is raised within the limit.
abbrev pub Spent : {A : Type 0} → (A → ℕ) → ℕ → ℕ → Result A → ℕ → Type 0
Spent calls most before (ok a) after = (after ≡ before + calls a) × (after ≤ before + most)
Spent calls most before (raised (rentcast e)) after =
    (after ≡ before + e.attempts) × (after ≤ before + most)
Spent calls most before (raised value_error) after = after ≡ before
Spent calls most before (raised Exc.unclassified) after = after ≤ before + most

module _ {A : Type 0} (calls : A → ℕ) (most attempt : ℕ) where
  abbrev Fine : Next A → Type 0
  Fine = Reports calls most attempt

  on_status-Reports : (status : ℕ) → Fine (on_status most attempt status)
  unfolding on_status
  on_status-Reports status = ground arith

  on_url_error-Reports : Fine (on_url_error most attempt)
  unfolding on_url_error
  on_url_error-Reports = ground arith

abbrev pub second : {A : Type 0} → A × ℕ → ℕ
second (a, n) = n

get_step-Reports :
    (attempt : ℕ) (reply : Reply)
    → Reports second (max_retries + 1) attempt (get_step attempt reply)
unfolding get_step
get_step-Reports attempt (answered status (array page)) = refl
get_step-Reports attempt (answered status (object listing)) = refl
get_step-Reports attempt (answered status scalar) = refl
get_step-Reports attempt (http_error status) =
    ground (arith, on_status-Reports second (max_retries + 1) attempt status)
get_step-Reports attempt url_error = on_url_error-Reports second (max_retries + 1) attempt
get_step-Reports attempt unreadable = refl
get_step-Reports attempt Reply.unclassified = tt

listing_step-Reports :
    (id : String) (attempt : ℕ) (reply : Reply)
    → Reports second max_attempts_by_id attempt (listing_step id attempt reply)
unfolding listing_step
listing_step-Reports id attempt (answered status (array page)) = refl
listing_step-Reports id attempt (answered status (object listing)) = ground arith
listing_step-Reports id attempt (answered status scalar) = refl
listing_step-Reports id attempt (http_error status) =
    ground (arith, on_status-Reports second max_attempts_by_id attempt status)
listing_step-Reports id attempt url_error = on_url_error-Reports second max_attempts_by_id attempt
listing_step-Reports id attempt unreadable = refl
listing_step-Reports id attempt Reply.unclassified = tt

-- A loop that has ended, with its result and what it spent.
abbrev pub Ends : {A W : Type 0} → (A → ℕ) → ℕ → ℕ → Option (Result A × Net W) → Type 0
Ends calls most before none = ⊥
Ends calls most before (some (r, net)) = Spent calls most before r net.requests

module _ {W A : Type 0} (send : W → Reply × W) (step : ℕ → Reply → Next A) (calls : A → ℕ)
    (most : ℕ)
    (reports : (attempt : ℕ) (reply : Reply)
      → Reports calls most attempt (step attempt reply)) where
  -- After `attempt` requests of a loop that began with `before` of them sent.
  request_loop-Ends :
      (fuel attempt before : ℕ) (net : Net W)
      → attempt < most
      → most ≤ fuel + attempt
      → net.requests ≡ before + attempt
      → Ends calls most before (request_loop send step fuel attempt net)
  unfolding request_loop
  request_loop-Ends zero attempt before net lt enough sent = absurd (omega arith)
  request_loop-Ends (suc fuel) attempt before net lt enough sent =
      let (reply, w) = send net.world in
      go (step (attempt + 1) reply) (reports (attempt + 1) reply) w
        (λ h net' e. request_loop-Ends fuel (attempt + 1) before net' h (omega arith) e)
    where
      go :
          (next : Next A)
          → Reports calls most (attempt + 1) next
          → (w : W)
          → (attempt + 1 < most
              → (net' : Net W) → net'.requests ≡ before + (attempt + 1)
              → Ends calls most before (request_loop send step fuel (attempt + 1) net'))
          → Ends calls most before (elim next [
            | done r ↦ some (r, record net { world = w; requests = net.requests + 1 })
            | retry wait ↦
                request_loop send step fuel
                  (attempt + 1)
                  (record net { world = w; requests = net.requests + 1; slept = wait ∷ net.slept })
          ])
      go (done (ok a)) h w ih = (omega arith, omega arith)
      go (done (raised (rentcast e))) h w ih = (omega arith, omega arith)
      go (done (raised value_error)) h w ih = absurd h
      go (done (raised Exc.unclassified)) h w ih = omega arith
      go (retry wait) h w ih = ih h _ (omega arith)

-- The result of a loop is the result of one of its steps.
abbrev pub Gives : {A W : Type 0} → (Result A → Type 0) → Option (Result A × Net W) → Type 0
Gives Q none = Unit
Gives Q (some (r, net)) = Q r

abbrev pub DoneHas : {A : Type 0} → (Result A → Type 0) → Next A → Type 0
DoneHas Q (done r) = Q r
DoneHas Q (retry wait) = Unit

module _ {W A : Type 0} (send : W → Reply × W) (step : ℕ → Reply → Next A) (Q : Result A → Type 0)
    (each : (attempt : ℕ) (w : W) → DoneHas Q (step attempt (send w).0)) where
  pub request_loop-Gives :
      (fuel attempt : ℕ) (net : Net W) → Gives Q (request_loop send step fuel attempt net)
  unfolding request_loop
  request_loop-Gives zero attempt net = tt
  request_loop-Gives (suc fuel) attempt net =
      go (step (attempt + 1) (send net.world).0) (each (attempt + 1) net.world)
        (λ net'. request_loop-Gives fuel (attempt + 1) net')
    where
      go :
          (next : Next A)
          → DoneHas Q next
          → ((net' : Net W) → Gives Q (request_loop send step fuel (attempt + 1) net'))
          → Gives Q (elim next [
            | done r ↦
                some (r, record net { world = (send net.world).1; requests = net.requests + 1 })
            | retry wait ↦ request_loop send step fuel (attempt + 1) (record net {
              world = (send net.world).1;
              requests = net.requests + 1;
              slept = wait ∷ net.slept;
            })
          ])
      go (done r) h ih = h
      go (retry wait) h ih = ih _

module _ {W : Type 0} (api : Api W) where
  get_from-Ends :
      (key : Option String) (params : Params) (net : Net W)
      → Ends second (max_retries + 1) net.requests (get_from api key (max_retries + 1) params net)
  unfolding get_from
  get_from-Ends none params net = (omega arith, omega arith)
  get_from-Ends (some key) params net =
      request_loop-Ends (api.send_search params) get_step second (max_retries + 1) get_step-Reports
        (max_retries + 1) 0 net.requests net (omega arith) (omega arith) (omega arith)

  -- With fuel for five requests _get ends within them and reports as many attempts as it sent.
  pub get-Ends :
      (params : Params) (net : Net W)
      → Ends second (max_retries + 1) net.requests (get api (max_retries + 1) params net)
  unfolding get
  get-Ends params net = get_from-Ends api.key params net

  lookup_from-Ends :
      (key : Option String) (id : String) (net : Net W)
      → Ends second max_attempts_by_id net.requests (lookup_from api key max_attempts_by_id id net)
  unfolding lookup_from
  lookup_from-Ends none id net = (omega arith, omega arith)
  lookup_from-Ends (some key) id net =
      request_loop-Ends (api.send_lookup id) (listing_step id) second max_attempts_by_id
        (listing_step-Reports id) max_attempts_by_id 0 net.requests net (omega arith) (omega arith)
        (omega arith)

  -- With fuel for three requests a lookup by id ends within them and reports as many attempts as it
  -- sent.
  pub get_sale_listing-Ends :
      (id : Option String) (net : Net W)
      → Ends second max_attempts_by_id net.requests (get_sale_listing api max_attempts_by_id id net)
  unfolding get_sale_listing
  get_sale_listing-Ends none net = refl
  get_sale_listing-Ends (some id) net =
      if_cases (Ends second max_attempts_by_id net.requests) (is_empty (strip id)) (λ _. refl)
        (λ _. lookup_from-Ends api.key id net)
