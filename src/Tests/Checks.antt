-- ===== src/Tests/Checks.antt =====
-- A RentCast that knows one listing, and a step that checks three.
use hail_system.Prelude.{
  ℕ, ◌+◌, String, ◌≡◌, refl, ◌↔◌, Option, none, some, [], ◌∷◌, str_eq, if◌then◌else◌,
}
use hail_system.RentCast.Client.{
  Listing, text, null, answered, array, object, http_error, Api, max_attempts_by_id,
  get_sale_listing,
}
use hail_system.RentCast.Check.{garbled, aware, Dates, CheckOutcome, State, classify, check_listing}
use hail_system.Text.{strip, lower}
use hail_system.RentCast.Check.Verdicts.{IsLive, classify_active_iff}
use hail_system.RentCast.Step.{Item, StepEnd, returned, check_by_id, choose_method}
use hail_system.RentCast.Step.Accounts.{Accounted, check_by_id-Accounted}
use hail_system.RentCast.Step.Choice.{IsCheapest, choose_method-IsCheapest}

abbrev dates : Dates
dates = record {
  fromisoformat = λ s. if str_eq s "2026-10-02T06:00:00Z" then aware 2006 else garbled;
  denver_day = λ m. m;
  show_day = λ d. "a day";
}

abbrev house : Listing
house = record {
  id = text "h1";
  status = text "Active";
  last_seen_date = text "2026-10-02T06:00:00Z";
  removed_date = null;
  agent_email = some (text "Ann@X.com ");
}

classify_active_iff_example :
    ((classify dates 2010 7 house (some "ann@x.com")).outcome ≡ CheckOutcome.active)
    ↔ IsLive dates 2010 7 house (some "ann@x.com")
classify_active_iff_example = classify_active_iff dates 2010 7 house (some "ann@x.com")

live_today : (classify dates 2010 7 house (some "ann@x.com")).outcome ≡ CheckOutcome.active
unfolding classify strip lower
live_today = refl

stale_later : (classify dates 2014 7 house (some "ann@x.com")).outcome ≡ CheckOutcome.inactive
unfolding classify strip
stale_later = refl

abbrev rentcast_api : Api ℕ
rentcast_api = record {
  key = some "k";
  send_search = λ p n. (answered 200 (array []), n + 1);
  send_lookup =
      λ id n. ((if str_eq id "h1" then answered 200 (object house) else http_error 503), n + 1);
}

abbrev item : ℕ → String → Item
item id rentcast_id = record {
  listing_id = id;
  rentcast_id = some rentcast_id;
  email = some "ann@x.com";
}

abbrev before : State ℕ
before = record { net = record { world = 0; requests = 0; slept = [] }; checks = [] }

check_by_id-Accounted_example :
    Accounted (2 ∷ []) (item 1 "h1" ∷ item 2 "h2" ∷ item 3 "h3" ∷ []) before (
      check_by_id rentcast_api dates max_attempts_by_id 2010 7
        (item 1 "h1" ∷ item 2 "h2" ∷ item 3 "h3" ∷ [])
        (2 ∷ [])
        before)
check_by_id-Accounted_example =
    check_by_id-Accounted rentcast_api dates 2010 7 (item 1 "h1" ∷ item 2 "h2" ∷ item 3 "h3" ∷ [])
      (2 ∷ []) before

choose_method-IsCheapest_example : IsCheapest 12 7 (choose_method 12 7)
choose_method-IsCheapest_example = choose_method-IsCheapest 12 7

abbrev end_of : Option (StepEnd × State ℕ) → Option StepEnd
end_of none = none
end_of (some (e, s)) = some e

-- The house takes one request, the one that is down three, and the skipped one none.
four_calls :
    end_of (
      check_by_id rentcast_api dates max_attempts_by_id 2010 7
        (item 1 "h1" ∷ item 2 "h2" ∷ item 3 "h3" ∷ [])
        (2 ∷ [])
        before)
    ≡ some (returned (record { calls = 4; checked = 2; reused = 1 }))
unfolding check_by_id check_listing get_sale_listing lower
four_calls = refl
