-- ===== src/Tests/Drips.antt =====
-- A form with two follow-ups, and the campaign made of it.
use hail_system.Prelude.{
  ℕ, String, List, ◌≡◌, ◌≢◌, ◌↔◌, refl, true, false, none, some, [], ◌∷◌, str_eq, if◌then◌else◌,
}
use hail_system.Text.{strip, size, decimal, number}
use hail_system.Exec.{Result, ok, raised}
use hail_system.Drip.Plan.{Form, CampaignPlan, parse_plan}
use hail_system.Drip.Plan.Reading.{IsPlanned, parse_plan_iff}
use hail_system.Drip.Campaign.{
  Campaign, Error, guarded, is_open, create_campaign, set_status, finish_step, write_stops, Changes,
  same, then_one, moved, stepped, none_emailed,
}
use hail_system.Drip.Campaign.Life.{Keeps, closed_is_final, set_status_never_guarded}
use hail_system.Drip.Campaign.Order.{IsSound, campaign-IsSound}

abbrev form : Form
form key =
    if str_eq key "campaign"
    then some "on"
    else if str_eq key "campaign_name"
    then some " October hail "
    else if str_eq key "gap_1"
    then some "3"
    else if str_eq key "template_1"
    then some "first"
    else if str_eq key "gap_2"
    then some " 7"
    else if str_eq key "template_2"
    then some "second"
    else none

abbrev plan : CampaignPlan
plan = record {
  name = "October hail";
  steps =
      record { gap_days = 3; template_name = "first" }
      ∷ record { gap_days = 7; template_name = "second" }
      ∷ [];
}

parsed : parse_plan form 30 (λ t. true) 3 ≡ ok (some plan)
unfolding parse_plan size strip decimal number
parsed = refl

parse_plan_iff_example :
    (parse_plan form 30 (λ t. true) 3 ≡ ok (some plan)) ↔ IsPlanned form 30 (λ t. true) 3 plan
parse_plan_iff_example = parse_plan_iff form 30 (λ t. true) 3 plan

abbrev realtors : List (ℕ × String)
realtors = (1, "ann@example.com") ∷ (2, "bob@example.com") ∷ []

abbrev fresh : Campaign
fresh = create_campaign "b0" plan.steps realtors

abbrev or_fresh : Result Error Campaign → Campaign
or_fresh (raised e) = fresh
or_fresh (ok c) = c

abbrev once : Campaign
once = or_fresh (finish_step (λ b. true) 9 1 "b1" ((2, "bounced") ∷ []) fresh)

abbrev closed : Campaign
closed = or_fresh (set_status 9 "cancel" once)

sent_once : finish_step (λ b. true) 9 1 "b1" ((2, "bounced") ∷ []) fresh ≡ ok once
unfolding finish_step create_campaign
sent_once = refl

then_closed : set_status 9 "cancel" once ≡ ok closed
unfolding set_status finish_step create_campaign
then_closed = refl

life : Changes (λ b. true) fresh closed
life =
    then_one (then_one same (stepped 9 1 "b1" ((2, "bounced") ∷ []) sent_once))
      (moved 9 "cancel" then_closed)

campaign-IsSound_example : IsSound closed
campaign-IsSound_example = campaign-IsSound (λ b. true) "b0" plan.steps realtors closed life

set_status_never_guarded_example : set_status 9 "resume" fresh ≢ raised guarded
set_status_never_guarded_example = set_status_never_guarded 9 "resume" fresh

closed_shut : is_open closed.status ≡ false
unfolding set_status finish_step create_campaign
closed_shut = refl

-- A follow-up run that began before the campaign was cancelled finds nobody to email.
abbrev emptied : Campaign
emptied = write_stops ((1, "bounced") ∷ []) closed

closed_is_final_example : Keeps closed emptied
closed_is_final_example =
    closed_is_final (λ b. true) closed emptied
      (then_one same (none_emailed ((1, "bounced") ∷ []) refl)) closed_shut
