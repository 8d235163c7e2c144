-- ===== src/RentCast/Check.antt =====
-- rentcast/dripcheck.py: what RentCast's answer says of one listing of a drip campaign, and the log row
-- that records it. Days are counted from a fixed one; a moment is a number, `denver_day` its Denver date.
pub mod Verdicts
use hail_system.Prelude.{
  ℕ, ◌+◌, ◌-◌, String, Bool, true, false, ◌||◌, Option, none, some, List, [], ◌∷◌, ltb, str_eq,
  if◌then◌else◌,
}
use hail_system.Text.{◌⊕◌, is_empty, strip, lower, prefix, decimal}
use hail_system.RentCast.Client
use hail_system.RentCast.Client.{
  Listing, Value, null, text, other, ErrorKind, auth, validation, server, connection, response,
  unexpected, RentCastError, Exc, rentcast, value_error, Result, ok, raised, Net, Api,
  get_sale_listing,
}

-- What `datetime.fromisoformat` makes of a text: no date, a date with no time zone, or a moment.
pub data Parsed : Type 0 where
  garbled naive : Parsed
  aware : ℕ → Parsed

pub record Dates : Type 0 where
  pub fromisoformat : String → Parsed
  pub denver_day : ℕ → ℕ
  pub show_day : ℕ → String

pub data CheckOutcome : Type 0 where
  active inactive not_found error : CheckOutcome

-- `_verdict`
pub record Verdict : Type 0 where
  pub outcome : CheckOutcome
  pub rc_status : Option String
  pub last_seen : Option ℕ
  pub removed_at : Option ℕ
  pub http_status : Option ℕ
  pub calls_made : ℕ
  pub detail : Option String

abbrev pub error_verdict : Option String → String → Verdict
error_verdict rc_status detail = record {
  outcome = error;
  rc_status = rc_status;
  last_seen = none;
  removed_at = none;
  http_status = none;
  calls_made = 0;
  detail = some detail;
}

-- The `verdict` function inside `classify`.
abbrev pub verdict_of : Option String → Option ℕ → Option ℕ → CheckOutcome → Option String → Verdict
verdict_of shown last_seen removed_at outcome detail = record {
  outcome = outcome;
  rc_status = shown;
  last_seen = last_seen;
  removed_at = removed_at;
  http_status = none;
  calls_made = 0;
  detail = detail;
}

-- `_when`: the outer `none` is its ValueError, the inner one a date that is not there.
abbrev pub moment_of : Parsed → Option (Option ℕ)
moment_of garbled = none
moment_of naive = none
moment_of (aware m) = some (some m)

abbrev pub when : Dates → Value → Option (Option ℕ)
when dates null = some none
when dates (text s) = moment_of (dates.fromisoformat s)
when dates other = none

-- `_same_agent`, of the address in the answer and the address emailed; `none` where one does not say.
abbrev pub same_address : String → String → Option Bool
same_address now agent_email =
    if is_empty (strip now)
    then none
    else some (str_eq (lower (strip now)) (lower (strip agent_email)))

abbrev pub agent_is : Option Value → String → Option Bool
agent_is none agent_email = none
agent_is (some null) agent_email = none
agent_is (some other) agent_email = none
agent_is (some (text now)) agent_email = same_address now agent_email

abbrev pub same_agent : Listing → Option String → Option Bool
same_agent listing none = none
same_agent listing (some agent_email) =
    if is_empty (strip agent_email) then none else agent_is listing.agent_email agent_email

module _ (dates : Dates) (today freshness_days : ℕ) where
  -- The verdict from the agent on.
  unfoldable pub by_agent : (CheckOutcome → Option String → Verdict) → Option Bool → Verdict
  by_agent verdict none = verdict error (some "the answer does not say who the listing agent is")
  by_agent verdict (some false) =
      verdict inactive (some "the listing agent is no longer the one emailed")
  by_agent verdict (some true) = verdict active none

  -- From the last-seen date on.
  unfoldable pub by_last_seen :
      (CheckOutcome → Option String → Verdict) → Listing → Option String → Option ℕ → Verdict
  unfolding by_agent
  by_last_seen verdict listing agent_email none =
      verdict error (some "the answer has no last-seen date")
  by_last_seen verdict listing agent_email (some last_seen) =
      if ltb (dates.denver_day last_seen) (today - freshness_days)
      then verdict inactive (some ("not seen since " ⊕ dates.show_day (dates.denver_day last_seen)))
      else by_agent verdict (same_agent listing agent_email)

  -- From the removal date on.
  unfoldable pub by_removal :
      (CheckOutcome → Option String → Verdict)
      → Listing
      → Option String
      → Option ℕ
      → Option ℕ
      → Verdict
  unfolding by_last_seen
  by_removal verdict listing agent_email last_seen (some removed_at) =
      verdict inactive (some "RentCast records a removal date")
  by_removal verdict listing agent_email last_seen none =
      by_last_seen verdict listing agent_email last_seen

  -- With the dates as read; `none` is a date that could not be.
  unfoldable pub by_dates :
      String → Listing → Option String → Option (Option ℕ) → Option (Option ℕ) → Verdict
  unfolding by_removal
  by_dates status listing agent_email none removed =
      error_verdict (some (prefix 40 (strip status))) "the answer has an unreadable date"
  by_dates status listing agent_email (some last_seen) none =
      error_verdict (some (prefix 40 (strip status))) "the answer has an unreadable date"
  by_dates status listing agent_email (some last_seen) (some removed_at) =
      if str_eq status "Active"
      then by_removal (verdict_of (some (prefix 40 (strip status))) last_seen removed_at) listing
          agent_email last_seen removed_at
      else verdict_of (some (prefix 40 (strip status))) last_seen removed_at inactive
          (some "RentCast says the listing is not active")

  unfoldable pub by_status : Listing → Option String → Value → Verdict
  unfolding by_dates
  by_status listing agent_email null = error_verdict none "the answer has no status"
  by_status listing agent_email other = error_verdict none "the answer has no status"
  by_status listing agent_email (text status) =
      if is_empty (strip status)
      then error_verdict none "the answer has no status"
      else by_dates status listing agent_email (when dates listing.last_seen_date)
          (when dates listing.removed_date)

  -- `classify`
  unfoldable pub classify : Listing → Option String → Verdict
  unfolding by_status
  classify listing agent_email = by_status listing agent_email listing.status

abbrev pub class_name : ErrorKind → String
class_name auth = "RentCastAuthError"
class_name validation = "RentCastValidationError"
class_name ErrorKind.not_found = "RentCastNotFound"
class_name server = "RentCastServerError"
class_name connection = "RentCastConnectionError"
class_name response = "RentCastResponseError"
class_name unexpected = "RentCastError"

show_status : Option ℕ → String
show_status none = "None"
show_status (some status) = decimal status

abbrev pub failure_verdict : CheckOutcome → Option String → RentCastError → Verdict
failure_verdict outcome detail e = record {
  outcome = outcome;
  rc_status = none;
  last_seen = none;
  removed_at = none;
  http_status = e.status;
  calls_made = e.attempts;
  detail = detail;
}

abbrev pub is_not_found : ErrorKind → Bool
is_not_found ErrorKind.not_found = true
is_not_found _ = false

unfoldable pub classify_failure : RentCastError → Verdict
unfolding show_status
classify_failure e =
    if is_not_found e.kind
    then failure_verdict CheckOutcome.not_found none e
    else failure_verdict error (some (class_name e.kind ⊕ " status=" ⊕ show_status e.status)) e

-- `FATAL`
abbrev pub is_fatal : ErrorKind → Bool
is_fatal auth = true
is_fatal validation = true
is_fatal _ = false

-- A row of drip_listing_checks of one campaign and step.
pub record CheckRow : Type 0 where
  pub listing_id : ℕ
  pub verdict : Verdict

abbrev pub stored_detail : Option String → Option String
stored_detail none = none
stored_detail (some detail) = if is_empty detail then none else some (prefix 300 detail)

-- The requests and the log, the newest row first.
pub record State (W : Type 0) : Type 0 where
  pub net : Net W
  pub checks : List CheckRow

module _ {W : Type 0} where
  unfoldable pub record_check : ℕ → Verdict → State W → State W
  record_check listing_id v s = record s {
    checks =
        record { listing_id = listing_id; verdict = record v { detail = stored_detail v.detail } }
        ∷ s.checks;
  }

  -- The outcome of a lookup: its verdict is recorded, and only a fatal error is raised after that.
  unfoldable pub after_lookup :
      Dates → ℕ → ℕ → ℕ → Option String → State W → Result (Listing × ℕ) → Result Verdict × State W
  unfolding record_check classify classify_failure
  after_lookup dates today freshness_days listing_id agent_email s (ok (found, attempts)) =
      let verdict : Verdict = record (classify dates today freshness_days found agent_email) {
        calls_made = attempts;
        http_status = some 200;
      } in
      (ok verdict, record_check listing_id verdict s)
  after_lookup dates today freshness_days listing_id agent_email s (raised (rentcast e)) = (
    (if is_fatal e.kind then raised (rentcast e) else ok (classify_failure e)),
    record_check listing_id (classify_failure e) s,
  )
  after_lookup dates today freshness_days listing_id agent_email s (raised value_error) =
      let verdict : Verdict = error_verdict none "the listing has no RentCast id" in
      (ok verdict, record_check listing_id verdict s)
  after_lookup dates today freshness_days listing_id agent_email s (raised Exc.unclassified) =
      (raised Exc.unclassified, s)

  unfoldable pub after_request :
      Dates
      → ℕ
      → ℕ
      → ℕ
      → Option String
      → State W
      → Option (Result (Listing × ℕ) × Net W)
      → Option (Result Verdict × State W)
  unfolding after_lookup
  after_request dates today freshness_days listing_id agent_email s none = none
  after_request dates today freshness_days listing_id agent_email s (some (r, net)) =
      some
        (after_lookup dates today freshness_days listing_id agent_email (record s { net = net }) r)

  -- `check_listing`
  unfoldable pub check_listing :
      Api W
      → Dates
      → ℕ
      → ℕ
      → ℕ
      → ℕ
      → Option String
      → Option String
      → State W
      → Option (Result Verdict × State W)
  unfolding after_request
  check_listing api dates fuel today freshness_days listing_id rentcast_id agent_email s =
      after_request dates today freshness_days listing_id agent_email s
        (get_sale_listing api fuel rentcast_id s.net)
