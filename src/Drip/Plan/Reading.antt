-- ===== src/Drip/Plan/Reading.antt =====
-- The plan that a form is read as.
use hail_system.Prelude.{
  ℕ, zero, suc, ◌+◌, ◌≤◌, String, ◌≡◌, ◌≢◌, refl, ap, sym, subst, ◌∙◌, ◌↔◌, Bool, true, false, ◌&&◌,
  Option, none, some, List, [], ◌∷◌, leb, ltb, arith, if_cases,
}
use hail_system.Text.{is_empty, size, is_number, number}
use hail_system.Exec.{Result, ok, raised}
use hail_system.Drip.Plan.{
  Form, Step, CampaignPlan, CampaignError, name_max, or_blank, gap_text, template_text, name_text,
  read_gap, is_usable, read_row, append_row, row, read_rows, named_plan, parse_plan,
}

gap_in : Result CampaignError Step → Option ℕ
gap_in (raised e) = none
gap_in (ok step) = some step.gap_days

template_in : Result CampaignError Step → String
template_in (raised e) = ""
template_in (ok step) = step.template_name

steps_in : Result CampaignError (List Step) → List Step
steps_in (raised e) = []
steps_in (ok steps) = steps

append_row-ok :
    (a : Result CampaignError Step) (r : Result CampaignError (List Step)) (steps : List Step)
    → append_row a r ≡ ok steps
    → (step : Step) × (rest : List Step) × (a ≡ ok step) × (r ≡ ok rest) × (steps ≡ step ∷ rest)
unfolding append_row steps_in
append_row-ok (raised e) r steps h = absurd (cc h)
append_row-ok (ok step) (raised e) steps h = absurd (cc h)
append_row-ok (ok step) (ok rest) steps h = (step, rest, refl, refl, sym (ap (λ r. steps_in r) h))

append_row-back :
    (a : Result CampaignError Step) (r : Result CampaignError (List Step)) (step : Step)
    (steps : List Step)
    → a ≡ ok step
    → r ≡ ok steps
    → append_row a r ≡ ok (step ∷ steps)
unfolding append_row
append_row-back a r step steps e f = rw (e, f)

plan_in : CampaignPlan → Result CampaignError (Option CampaignPlan) → CampaignPlan
plan_in p (raised e) = p
plan_in p (ok none) = p
plan_in p (ok (some plan)) = plan

named_plan-ok :
    (name : String) (r : Result CampaignError (List Step)) (plan : CampaignPlan)
    → named_plan name r ≡ ok (some plan)
    → (r ≡ ok plan.steps) × (plan.steps ≢ []) × (plan.name ≡ name)
unfolding named_plan plan_in
named_plan-ok name (raised e) plan h = absurd (cc h)
named_plan-ok name (ok []) plan h = absurd (cc h)
named_plan-ok name (ok (step ∷ steps)) plan h =
    let e : record { name = name; steps = step ∷ steps } ≡ plan = ap (λ r. plan_in plan r) h in
    (
      ap (λ (p : CampaignPlan). ok p.steps) e,
      λ q. absurd (cc (ap (λ (p : CampaignPlan). p.steps) e, q)),
      sym (ap (λ (p : CampaignPlan). p.name) e),
    )

named_plan-back :
    (name : String) (r : Result CampaignError (List Step)) (plan : CampaignPlan)
    → r ≡ ok plan.steps
    → plan.steps ≢ []
    → plan.name ≡ name
    → named_plan name r ≡ ok (some plan)
unfolding named_plan
named_plan-back name r plan e n m = rw (e) (back plan.steps refl)
  where
    back : (steps : List Step) → plan.steps ≡ steps → named_plan name (ok steps) ≡ ok (some plan)
    back [] q = absurd (n q)
    back (step ∷ steps) q =
        ap (λ (p : CampaignPlan). ok (some p))
          (ap (λ k. record { name = k; steps = step ∷ steps }) (sym m)
            ∙ ap (λ k. record { name = plan.name; steps = k }) (sym q))

read_gap-some :
    (most : ℕ) (s : String) (g : ℕ)
    → read_gap most s ≡ some g
    → (is_number s ≡ true) × (g ≡ number s) × (1 ≤ g) × (g ≤ most)
unfolding read_gap
read_gap-some most s g h = ground (arith, h)

read_row-ok :
    (n : ℕ) (gap : Option ℕ) (name : String) (usable : Bool) (step : Step)
    → read_row n gap name usable ≡ ok step
    → (gap ≡ some step.gap_days) × (step.template_name ≡ name) × (usable ≡ true)
unfolding read_row gap_in template_in
read_row-ok n none name usable step h = absurd (cc h)
read_row-ok n (some gap) name false step h = absurd (cc h)
read_row-ok n (some gap) name true step h =
    (ap (λ r. gap_in r) h, sym (ap (λ r. template_in r) h), refl)

read_gap-back :
    (most : ℕ) (s : String) (g : ℕ)
    → is_number s ≡ true
    → g ≡ number s
    → 1 ≤ g
    → g ≤ most
    → read_gap most s ≡ some g
unfolding read_gap
read_gap-back most s g d e p q = ground (arith, d, e)

read_row-back :
    (n : ℕ) (gap : Option ℕ) (name : String) (usable : Bool) (step : Step)
    → gap ≡ some step.gap_days
    → step.template_name ≡ name
    → usable ≡ true
    → read_row n gap name usable ≡ ok step
unfolding read_row
read_row-back n gap name usable step g t u = rw (g, u, ← t)

module _ (form : Form) (max_gap_days : ℕ) (template_ok : String → Bool) where
  -- Row `n` is filled, with the gap and template of the step.
  pub record IsRow (n : ℕ) (step : Step) : Type 0 where
    pub filled : is_empty (gap_text form n) ≡ false
    pub digits : is_number (gap_text form n) ≡ true
    pub gap : step.gap_days ≡ number (gap_text form n)
    pub positive : 1 ≤ step.gap_days
    pub short : step.gap_days ≤ max_gap_days
    pub template : step.template_name ≡ template_text form n
    pub usable : is_usable template_ok (template_text form n) ≡ true

  -- The rows from `n`, `left` of them, are the steps in order, and blank after.
  abbrev pub IsRead : ℕ → ℕ → List Step → Type 0
  IsRead zero n [] = Unit
  IsRead zero n (step ∷ steps) = ⊥
  IsRead (suc left) n [] = (is_empty (gap_text form n) ≡ true) × IsRead left (n + 1) []
  IsRead (suc left) n (step ∷ steps) = IsRow n step × IsRead left (n + 1) steps

  row-IsRow :
      (n : ℕ) (step : Step)
      → is_empty (gap_text form n) ≡ false
      → row form max_gap_days template_ok n ≡ ok step
      → IsRow n step
  unfolding row read_row read_gap is_usable gap_text template_text
  row-IsRow n step f h =
      let (g, t, u) =
        read_row-ok n (read_gap max_gap_days (gap_text form n)) (template_text form n)
          (is_usable template_ok (template_text form n)) step h in
      let (d, e, p, q) = read_gap-some max_gap_days (gap_text form n) step.gap_days g in
      record { filled = f; digits = d; gap = e; positive = p; short = q; template = t; usable = u }

  row-back : (n : ℕ) (step : Step) → IsRow n step → row form max_gap_days template_ok n ≡ ok step
  unfolding row read_row read_gap is_usable gap_text template_text
  row-back n step h =
      read_row-back n (read_gap max_gap_days (gap_text form n)) (template_text form n)
        (is_usable template_ok (template_text form n)) step
        (read_gap-back max_gap_days (gap_text form n) step.gap_days h.digits h.gap h.positive
          h.short)
        h.template h.usable

  after_blank-IsRead :
      (left n : ℕ) (steps : List Step)
      → read_rows form max_gap_days template_ok left n true ≡ ok steps
      → (steps ≡ []) × IsRead left n []
  unfolding read_rows gap_text steps_in
  after_blank-IsRead zero n steps h = (sym (ap (λ r. steps_in r) h), tt)
  after_blank-IsRead (suc left) n steps given =
      if_cases
        (λ (r : Result CampaignError (List Step)).
          r ≡ ok steps → (steps ≡ []) × IsRead (suc left) n [])
        (is_empty (gap_text form n))
        (λ b h. let (e, k) = after_blank-IsRead left (n + 1) steps h in (e, (b, k)))
        (λ _ h. absurd (cc h)) given

  read_rows-IsRead :
      (left n : ℕ) (steps : List Step)
      → read_rows form max_gap_days template_ok left n false ≡ ok steps
      → IsRead left n steps
  unfolding read_rows row read_row read_gap is_usable template_text append_row gap_text steps_in
  read_rows-IsRead zero n steps h = subst (λ xs. IsRead zero n xs) (ap (λ r. steps_in r) h) tt
  read_rows-IsRead (suc left) n steps given =
      if_cases (λ (r : Result CampaignError (List Step)). r ≡ ok steps → IsRead (suc left) n steps)
        (is_empty (gap_text form n))
        (λ b h.
          let (e, k) = after_blank-IsRead left (n + 1) steps h in
          subst (λ xs. IsRead (suc left) n xs) (sym e) (b, k))
        (λ f h.
          let (step, rest, a, r, e) =
            append_row-ok (row form max_gap_days template_ok n)
              (read_rows form max_gap_days template_ok left (n + 1) false) steps h in
          subst (λ xs. IsRead (suc left) n xs) (sym e)
            (row-IsRow n step f a, read_rows-IsRead left (n + 1) rest r))
        given

  blank-back :
      (left n : ℕ) (ended : Bool)
      → IsRead left n []
      → read_rows form max_gap_days template_ok left n ended ≡ ok []
  unfolding read_rows gap_text
  blank-back zero n ended h = refl
  blank-back (suc left) n ended (b, h) = rw (b) (blank-back left (n + 1) true h)

  rows-cons :
      (left n : ℕ) (step : Step) (steps : List Step)
      → IsRow n step
      → read_rows form max_gap_days template_ok left (n + 1) false ≡ ok steps
      → read_rows form max_gap_days template_ok (suc left) n false ≡ ok (step ∷ steps)
  unfolding read_rows row read_row read_gap is_usable template_text append_row gap_text
  rows-cons left n step steps r h =
      if_cases (λ (rows : Result CampaignError (List Step)). rows ≡ ok (step ∷ steps))
        (is_empty (gap_text form n)) (λ e. absurd (cc (e, r.filled)))
        (λ _.
          append_row-back (row form max_gap_days template_ok n)
            (read_rows form max_gap_days template_ok left (n + 1) false) step steps
            (row-back n step r) h)

  IsRead-back :
      (left n : ℕ) (steps : List Step)
      → IsRead left n steps
      → read_rows form max_gap_days template_ok left n false ≡ ok steps
  IsRead-back left n [] h = blank-back left n false h
  IsRead-back zero n (step ∷ steps) h = absurd h
  IsRead-back (suc left) n (step ∷ steps) (r, h) =
      rows-cons left n step steps r (IsRead-back left (n + 1) steps h)

  -- The box is ticked, campaigns are on, and the name and the rows are in order.
  pub record IsPlanned (max_followups : ℕ) (plan : CampaignPlan) : Type 0 where
    pub ticked : is_empty (or_blank (form "campaign")) ≡ false
    pub turned_on : 1 ≤ max_followups
    pub name : plan.name ≡ name_text form
    pub not_blank : 1 ≤ size (name_text form)
    pub not_long : size (name_text form) ≤ name_max
    pub not_empty : plan.steps ≢ []
    pub read : IsRead max_followups 1 plan.steps

  parse_plan-IsPlanned :
      (max_followups : ℕ) (plan : CampaignPlan)
      → parse_plan form max_gap_days template_ok max_followups ≡ ok (some plan)
      → IsPlanned max_followups plan
  unfolding parse_plan read_rows row read_row read_gap is_usable template_text append_row gap_text
      named_plan name_text
  parse_plan-IsPlanned most plan given =
      if_cases Made (is_empty (or_blank (form "campaign"))) (λ _ h. absurd (cc h))
        (λ t.
          if_cases Made (ltb most 1) (λ _ h. absurd (cc h))
            (λ m.
              if_cases Made (leb 1 (size (name_text form)) && leb (size (name_text form)) name_max)
                (λ k h.
                  let (r, n, e) =
                    named_plan-ok (name_text form)
                      (read_rows form max_gap_days template_ok most 1 false) plan h in
                  record {
                    ticked = t;
                    turned_on = ground (arith, m);
                    name = e;
                    not_blank = ground (arith, k);
                    not_long = ground (arith, k);
                    not_empty = n;
                    read = read_rows-IsRead most 1 plan.steps r;
                  })
                (λ _ h. absurd (cc h))))
        given
    where
      Made : Result CampaignError (Option CampaignPlan) → Type 0
      Made r = r ≡ ok (some plan) → IsPlanned most plan

  IsPlanned-back :
      (max_followups : ℕ) (plan : CampaignPlan)
      → IsPlanned max_followups plan
      → parse_plan form max_gap_days template_ok max_followups ≡ ok (some plan)
  unfolding parse_plan read_rows row read_row read_gap is_usable template_text append_row gap_text
      named_plan name_text
  IsPlanned-back most plan h =
      if_cases Made (is_empty (or_blank (form "campaign"))) (λ e. absurd (cc (e, h.ticked)))
        (λ _.
          if_cases Made (ltb most 1) (λ e. absurd (ground (arith, e, h.turned_on)))
            (λ _.
              if_cases Made (leb 1 (size (name_text form)) && leb (size (name_text form)) name_max)
                (λ _.
                  named_plan-back (name_text form)
                    (read_rows form max_gap_days template_ok most 1 false) plan
                    (IsRead-back most 1 plan.steps h.read) h.not_empty h.name)
                (λ e. absurd (ground (arith, e, h.not_blank, h.not_long)))))
    where
      Made : Result CampaignError (Option CampaignPlan) → Type 0
      Made r = r ≡ ok (some plan)

  -- A form is read as a plan exactly where the box is ticked, campaigns are on, the name has 1 to 100
  -- characters, and the filled rows are the plan's steps: one or more, from the first on with none left out
  -- and none after a blank one, each with a whole number of days from 1 to the limit and a usable template.
  pub parse_plan_iff :
      (max_followups : ℕ) (plan : CampaignPlan)
      → (parse_plan form max_gap_days template_ok max_followups ≡ ok (some plan))
        ↔ IsPlanned max_followups plan
  parse_plan_iff most plan = (parse_plan-IsPlanned most plan, IsPlanned-back most plan)
