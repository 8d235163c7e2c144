-- ===== src/RentCast/ZipPull.antt =====
-- `check_by_zip_pull` of rentcast/dripstep.py: the listings of a step, read off a fresh pull of the zips that they sit
-- in, with `plan_method`, which chooses between this and the lookups by id. The items of a step are of different
-- listings, and `zips` has the zip of each, where it is on file.
pub mod Accounts
use Prim.Native.String
use Prim.Native.Char.{code}
use hail_system.Prelude.{
  ℕ, ◌+◌, ◌-◌, String, Bool, true, false, not, ◌&&◌, ◌||◌, Option, none, some, List, [], ◌∷◌, ◌++◌,
  any, length, ltb, ◌==◌, str_eq, is_some, if◌then◌else◌, filter, sum_by,
}
use hail_system.Text.{◌⊕◌, is_empty}
use hail_system.RentCast.Client.{
  Listing, Value, null, text, other, ErrorKind, RentCastError, Exc, rentcast, Result, ok, raised,
  Net, Api, search_sale_listings,
}
use hail_system.RentCast.Pull.{ZipLog, PullRow, failed, complete, create_pull, log_zip, finish_pull}
use hail_system.RentCast.Pull
use hail_system.RentCast.Check.{
  Dates, Verdict, CheckRow, error_verdict, classify, class_name, is_fatal, record_check,
}
use hail_system.RentCast.Check
use hail_system.RentCast.Step.{
  Method, by_id, Plan, choose_method, Item, refused, Summary, StepEnd, is_skipped,
}

-- The order of `sorted` on zip codes
abbrev pub is_before : String → String → Bool
is_before String.[] String.[] = false
is_before String.[] (String.◌∷◌ d t) = true
is_before (String.◌∷◌ c s) String.[] = false
is_before (String.◌∷◌ c s) (String.◌∷◌ d t) =
    ltb (code c) (code d) || (code c == code d && is_before s t)

-- The items of one zip, in their order.
pub record Group : Type 0 where
  pub zip_code : String
  pub items : List Item

-- `by_zip`, with its zips in order
unfoldable pub place_item : String → Item → List Group → List Group
place_item zip_code item [] = record { zip_code = zip_code; items = item ∷ [] } ∷ []
place_item zip_code item (g ∷ groups) =
    let rest = place_item zip_code item groups in
    if str_eq zip_code g.zip_code
    then record g { items = g.items ++ (item ∷ []) } ∷ groups
    else if is_before zip_code g.zip_code
    then record { zip_code = zip_code; items = item ∷ [] } ∷ g ∷ groups
    else g ∷ rest

abbrev pub place_in : Option String → Item → List Group → List Group
place_in none item groups = groups
place_in (some zip_code) item groups = place_item zip_code item groups

unfoldable pub group : (ℕ → Option String) → List Item → List Group → List Group
unfolding place_item
group zips [] groups = groups
group zips (item ∷ items) groups = group zips items (place_in (zips item.listing_id) item groups)

abbrev pub has_no_zip : (ℕ → Option String) → Item → Bool
has_no_zip zips item = not (is_some (zips item.listing_id))

-- A day's definite answers are not asked for again.
abbrev pub to_do : List ℕ → List Item → List Item
to_do skip listings = filter (λ item. not (is_skipped skip item)) listings

-- The cost of pulling zips: the calls last logged for each, or the default.
abbrev pub calls_for : ℕ → Option ℕ → ℕ
calls_for default none = default
calls_for default (some calls) = calls

-- `zip_calls_estimate`, of the zips in order; an empty one is none that is pulled for.
abbrev pub zip_calls_estimate : ℕ → (String → Option ℕ) → List Group → ℕ
zip_calls_estimate default history groups =
    sum_by
      (λ (g : Group). if is_empty g.zip_code then 0 else calls_for default (history g.zip_code))
      groups

abbrev pub force_by_id : Bool → Plan → Plan
force_by_id no_zip p = if no_zip then record p { method = by_id; calls = p.by_id_calls } else p

-- `plan_method`
unfoldable pub plan_method : ℕ → (String → Option ℕ) → (ℕ → Option String) → List Item → Plan
unfolding group choose_method
plan_method default history zips todo =
    force_by_id (any (has_no_zip zips) todo)
      (choose_method (length todo) (zip_calls_estimate default history (group zips todo [])))

-- The pull, and the rows of drip_listing_checks, the newest first.
pub record Desk (W : Type 0) : Type 0 where
  pub pull : Pull.State W
  pub checks : List CheckRow

pub data ZipEnd : Type 0 where
  of_step : StepEnd → ZipEnd
  upsert_raised : ZipEnd

-- The locals of the loop.
pub record Spent : Type 0 where
  pub calls : ℕ
  pub returned : ℕ

abbrev pub same_id : Option String → Value → Bool
same_id (some id) (text s) = str_eq id s
same_id none null = true
same_id _ _ = false

abbrev pub or_later : Option Listing → Option Listing → Option Listing
or_later first (some later) = some later
or_later first none = first

-- `seen.get(…)`: the last one wins.
unfoldable pub seen : Option String → List Listing → Option Listing
seen id [] = none
seen id (f ∷ found) = or_later (if same_id id f.id then some f else none) (seen id found)

module _ (dates : Dates) (today freshness_days : ℕ) where
  -- What the pull says of a listing.
  abbrev pub read_off : Option String → Option Listing → Verdict
  read_off agent_email none = record (error_verdict none "not in the zip pull") {
    outcome = Check.CheckOutcome.not_found;
  }
  read_off agent_email (some raw) = record (classify dates today freshness_days raw agent_email) {
    http_status = some 200;
  }

  abbrev pub verdict_in : List Listing → Item → Verdict
  verdict_in found item = read_off item.email (seen item.rentcast_id found)

abbrev pub failed_zip : RentCastError → Verdict
failed_zip e = record (error_verdict none ("the zip pull failed (" ⊕ class_name e.kind ⊕ ")")) {
  http_status = e.status;
}

module _ {W : Type 0} where
  abbrev pub record_one : Verdict → Item → Desk W → Desk W
  record_one v item s =
      let noted : Check.State W =
        record_check item.listing_id v (record { net = s.pull.net; checks = s.checks }) in
      record s { checks = noted.checks }

  unfoldable pub record_all : (Item → Verdict) → List Item → Desk W → Desk W
  unfolding record_check
  record_all f [] s = s
  record_all f (item ∷ items) s = record_all f items (record_one (f item) item s)

  abbrev pub on_pull : (Pull.State W → Pull.State W) → Desk W → Desk W
  on_pull f s = record s { pull = f s.pull }

  -- A search that raised; `go` is the rest of the loop.
  unfoldable pub on_zip_error :
      Group
      → Spent
      → (Spent → Desk W → Option (ZipEnd × Desk W))
      → Exc
      → Desk W
      → Option (ZipEnd × Desk W)
  unfolding log_zip finish_pull record_all
  on_zip_error g t go (rentcast e) s =
      let logged : Desk W = on_pull (log_zip g.zip_code e.attempts 0 e.status) s in
      let calls = t.calls + e.attempts in
      if is_fatal e.kind
      then some (
        of_step (StepEnd.stopped (refused e.kind) calls),
        on_pull (finish_pull calls t.returned failed) logged,
      )
      else go (record t { calls = calls }) (record_all (λ item. failed_zip e) g.items logged)
  on_zip_error g t go exc s = some (
    of_step (StepEnd.passed_on exc),
    on_pull (finish_pull (t.calls + 1) t.returned failed) (on_pull (log_zip g.zip_code 1 0 none) s),
  )

  module _ (dates : Dates) (today freshness_days : ℕ) (upsert : List Listing → W → Bool × W) where
    abbrev pub read_group : List Listing → Group → Desk W → Desk W
    read_group found g s = record_all (verdict_in dates today freshness_days found) g.items s

    -- The listings of a zip are upserted, where there are any, and its items are read off.
    unfoldable pub keep :
        List Listing
        → Group
        → Spent
        → (Spent → Desk W → Option (ZipEnd × Desk W))
        → Desk W
        → Option (ZipEnd × Desk W)
    unfolding record_all finish_pull seen classify
    keep [] g t go s = go t (read_group [] g s)
    keep (l ∷ found) g t go s =
        let (fine, w) = upsert (l ∷ found) s.pull.net.world in
        let saved : Desk W = on_pull (λ p. record p { net = record p.net { world = w } }) s in
        if fine
        then go t (read_group (l ∷ found) g saved)
        else some (upsert_raised, on_pull (finish_pull t.calls t.returned failed) saved)

    -- One zip, after its search.
    unfoldable pub after_zip :
        Group
        → Spent
        → (Spent → Desk W → Option (ZipEnd × Desk W))
        → Desk W
        → Option (Result (List Listing × ℕ) × Net W)
        → Option (ZipEnd × Desk W)
    unfolding on_zip_error keep log_zip
    after_zip g t go s none = none
    after_zip g t go s (some (raised exc, net)) =
        on_zip_error g t go exc (on_pull (λ p. record p { net = net }) s)
    after_zip g t go s (some (ok (found, made), net)) =
        keep found g (record { calls = t.calls + made; returned = t.returned + length found }) go
          (on_pull (λ p. log_zip g.zip_code made (length found) (some 200) (record p { net = net }))
            s)

    module _ (api : Api W) (pages checked reused : ℕ) where
      unfoldable pub pull_groups : List Group → Spent → Desk W → Option (ZipEnd × Desk W)
      unfolding after_zip finish_pull
      pull_groups [] t s = some (
        of_step (StepEnd.returned (record { calls = t.calls; checked = checked; reused = reused })),
        on_pull (finish_pull t.calls t.returned complete) s,
      )
      pull_groups (g ∷ groups) t s =
          after_zip g t (pull_groups groups) s
            (search_sale_listings api pages g.zip_code "Active" none s.pull.net)

abbrev pub no_zip_verdict : Verdict
no_zip_verdict = error_verdict none "the listing has no zip code"

-- `check_by_zip_pull`
unfoldable pub check_by_zip_pull :
    {W : Type 0}
    → Api W
    → Dates
    → (List Listing → W → Bool × W)
    → ℕ
    → ℕ
    → ℕ
    → List Item
    → List ℕ
    → (ℕ → Option String)
    → ℕ
    → Net W
    → List CheckRow
    → Option (ZipEnd × Desk W)
unfolding pull_groups record_all group
check_by_zip_pull api dates upsert pages today freshness_days listings skip zips estimated net
      checks =
    let todo = to_do skip listings in
    let groups = group zips todo [] in
    pull_groups dates today freshness_days upsert api pages (length todo)
      (length listings - length todo) groups (record { calls = 0; returned = 0 })
      (record_all (λ item. no_zip_verdict) (filter (has_no_zip zips) todo)
        (record {
          pull = record { net = net; log = []; row = create_pull (length groups) estimated };
          checks = checks;
        }))
