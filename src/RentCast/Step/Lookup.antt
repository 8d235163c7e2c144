-- ===== src/RentCast/Step/Lookup.antt =====
-- One lookup of a step: what it bills is what it logs.
use hail_system.Prelude.{
  ℕ, ◌+◌, ◌≤◌, String, ◌≡◌, refl, true, false, Option, none, some, ◌∷◌, arith, if_cases,
}
use hail_system.RentCast.Client.{
  Listing, ErrorKind, auth, validation, server, connection, response, unexpected, Exc, rentcast,
  value_error, RentCastError, Result, ok, raised, Net, Api, max_attempts_by_id,
}
use hail_system.RentCast.Client.Attempts.{Ends, Spent, second, get_sale_listing-Ends}
use hail_system.RentCast.Check.{
  Dates, CheckOutcome, Verdict, CheckRow, State, is_fatal, is_not_found, classify_failure,
  record_check, after_lookup, after_request, check_listing,
}

-- One row was logged for the listing, with these calls and this outcome.
abbrev pub Logged : {W : Type 0} → ℕ → ℕ → CheckOutcome → State W → State W → Type 0
Logged listing_id calls outcome s s' =
    (row : CheckRow) × (s'.checks ≡ row ∷ s.checks)
    × (row.listing_id ≡ listing_id)
    × (row.verdict.calls_made ≡ calls)
    × (row.verdict.outcome ≡ outcome)

abbrev Billed : {W : Type 0} → ℕ → State W → State W → Type 0
Billed calls s s' = (s'.net.requests ≡ s.net.requests + calls) × (calls ≤ max_attempts_by_id)

-- What a lookup leaves: the requests it sent are the calls of its row. Only a fatal error is raised, or one
-- that the client did not classify.
abbrev pub Checked : {W : Type 0} → ℕ → State W → Option (Result Verdict × State W) → Type 0
Checked id s none = ⊥
Checked id s (some (ok v, s')) = Billed v.calls_made s s' × Logged id v.calls_made v.outcome s s'
Checked id s (some (raised (rentcast e), s')) =
    (is_fatal e.kind ≡ true) × Billed e.attempts s s' × Logged id e.attempts CheckOutcome.error s s'
Checked id s (some (raised value_error, s')) = ⊥
Checked id s (some (raised Exc.unclassified, s')) = Unit

classify_failure-calls : (e : RentCastError) → (classify_failure e).calls_made ≡ e.attempts
unfolding classify_failure
classify_failure-calls e =
    if_cases (λ (v : Verdict). v.calls_made ≡ e.attempts) _ (λ _. refl) (λ _. refl)

fatal-outcome :
    (e : RentCastError) → is_fatal e.kind ≡ true → (classify_failure e).outcome ≡ CheckOutcome.error
unfolding classify_failure
fatal-outcome e h = rw (found e.kind h)
  where
    found : (k : ErrorKind) → is_fatal k ≡ true → is_not_found k ≡ false
    found ErrorKind.not_found h = cc h
    found auth h = refl
    found validation h = refl
    found server h = refl
    found connection h = refl
    found response h = refl
    found unexpected h = refl

module _ {W : Type 0} (dates : Dates) (today freshness_days listing_id : ℕ)
    (agent_email : Option String) (s : State W) where
  after_lookup-Checked :
      (r : Result (Listing × ℕ)) (net : Net W)
      → Spent second max_attempts_by_id s.net.requests r net.requests
      → Checked listing_id s (
          some (
            after_lookup dates today freshness_days listing_id agent_email
              (record s { net = net })
              r))
  unfolding after_lookup record_check
  after_lookup-Checked (ok (found, attempts)) net (e, le) =
      ((omega arith, omega arith), (_, refl, refl, refl, refl))
  after_lookup-Checked (raised (rentcast e)) net (sent, le) =
      if_cases
        (λ (r : Result Verdict).
          Checked listing_id s
            (some (r, record_check listing_id (classify_failure e) (record s { net = net }))))
        (is_fatal e.kind)
        (λ h. (
          h,
          (omega arith, omega arith),
          (_, refl, refl, classify_failure-calls e, fatal-outcome e h),
        ))
        (λ _. (
          (omega (arith, classify_failure-calls e), omega (arith, classify_failure-calls e)),
          (_, refl, refl, refl, refl),
        ))
  after_lookup-Checked (raised value_error) net h =
      ((omega arith, omega arith), (_, refl, refl, refl, refl))
  after_lookup-Checked (raised Exc.unclassified) net h = tt

  after_request-Checked :
      (r : Option (Result (Listing × ℕ) × Net W))
      → Ends second max_attempts_by_id s.net.requests r
      → Checked listing_id s (after_request dates today freshness_days listing_id agent_email s r)
  unfolding after_request
  after_request-Checked none h = h
  after_request-Checked (some (r, net)) h = after_lookup-Checked r net h

  -- With fuel for its three requests a lookup ends.
  pub check_listing-Checked :
      (api : Api W) (rentcast_id : Option String)
      → Checked listing_id s (
          check_listing api dates max_attempts_by_id today freshness_days listing_id rentcast_id
            agent_email s)
  unfolding check_listing
  check_listing-Checked api rentcast_id =
      after_request-Checked _ (get_sale_listing-Ends api rentcast_id s.net)
