-- ===== src/Drip/Plan.antt =====
-- `parse_plan` of email/dripstart.py: the follow-ups of a campaign, read from the posted form.
pub mod Reading
use hail_system.Prelude.{
  ℕ, zero, suc, ◌+◌, String, Bool, true, false, not, ◌&&◌, ◌||◌, Option, none, some, List, [], ◌∷◌,
  leb, ltb, if◌then◌else◌,
}
use hail_system.Text.{◌⊕◌, is_empty, strip, size, decimal, is_number, number}
use hail_system.Exec.{Result, ok, raised}

-- The posted form, by `.get`
abbrev pub Form : Type 0
Form = String → Option String

pub record Step : Type 0 where
  pub gap_days : ℕ
  pub template_name : String

pub record CampaignPlan : Type 0 where
  pub name : String
  pub steps : List Step

pub data CampaignError : Type 0 where
  turned_off bad_name no_followup : CampaignError
  out_of_order bad_gap bad_template : ℕ → CampaignError

abbrev pub name_max : ℕ
name_max = 100

-- `data.get(…) or ""`
abbrev pub or_blank : Option String → String
or_blank none = ""
or_blank (some s) = s

unfoldable pub gap_text : Form → ℕ → String
gap_text form n = strip (or_blank (form ("gap_" ⊕ decimal n)))

unfoldable pub template_text : Form → ℕ → String
template_text form n = strip (or_blank (form ("template_" ⊕ decimal n)))

unfoldable pub name_text : Form → String
name_text form = strip (or_blank (form "campaign_name"))

-- The gap in a text, where it is a number in range.
unfoldable pub read_gap : ℕ → String → Option ℕ
read_gap max_gap_days s =
    if is_number s && leb 1 (number s) && leb (number s) max_gap_days then some (number s) else none

unfoldable pub is_usable : (String → Bool) → String → Bool
is_usable template_ok name = not (is_empty name) && template_ok name

-- The errors of a row, the gap's first.
unfoldable pub read_row : ℕ → Option ℕ → String → Bool → Result CampaignError Step
read_row n none name usable = raised (bad_gap n)
read_row n (some gap) name false = raised (bad_template n)
read_row n (some gap) name true = ok (record { gap_days = gap; template_name = name })

unfoldable pub append_row :
    Result CampaignError Step → Result CampaignError (List Step) → Result CampaignError (List Step)
append_row (raised e) rest = raised e
append_row (ok step) (raised e) = raised e
append_row (ok step) (ok steps) = ok (step ∷ steps)

unfoldable pub named_plan :
    String → Result CampaignError (List Step) → Result CampaignError (Option CampaignPlan)
named_plan name (raised e) = raised e
named_plan name (ok []) = raised no_followup
named_plan name (ok (step ∷ steps)) = ok (some (record { name = name; steps = step ∷ steps }))

module _ (form : Form) (max_gap_days : ℕ) (template_ok : String → Bool) where
  -- Row `n` of the form, where its gap is filled.
  unfoldable pub row : ℕ → Result CampaignError Step
  unfolding read_row read_gap is_usable gap_text template_text
  row n =
      read_row n (read_gap max_gap_days (gap_text form n)) (template_text form n)
        (is_usable template_ok (template_text form n))

  -- The loop over the rows from `n`, `left` of them; `ended` after an empty one.
  unfoldable pub read_rows : ℕ → ℕ → Bool → Result CampaignError (List Step)
  unfolding row append_row gap_text
  read_rows zero n ended = ok []
  read_rows (suc left) n ended =
      let after_blank = read_rows left (n + 1) true in
      let after_row = read_rows left (n + 1) false in
      if is_empty (gap_text form n)
      then after_blank
      else if ended
      then raised (out_of_order n)
      else append_row (row n) after_row

  -- `parse_plan`
  unfoldable pub parse_plan : ℕ → Result CampaignError (Option CampaignPlan)
  unfolding read_rows named_plan name_text
  parse_plan max_followups =
      if is_empty (or_blank (form "campaign"))
      then ok none
      else if ltb max_followups 1
      then raised turned_off
      else if leb 1 (size (name_text form)) && leb (size (name_text form)) name_max
      then named_plan (name_text form) (read_rows max_followups 1 false)
      else raised bad_name
