-- ===== src/Drip/Campaign/Life.antt =====
-- The life of a drip campaign.
pub mod Recipients
use hail_system.Prelude.{
  ℕ, String, ◌≡◌, ◌≢◌, refl, ap, sym, subst, ◌∙◌, ◌⊎◌, inl, inr, map, is_some, [], ◌∷◌, Bool, true,
  false, not, ◌&&◌, Option, none, some, List, if◌then◌else◌, arith, if_cases,
}
use hail_system.Exec.{Result, ok, raised}
use hail_system.Drip.Campaign.{
  Status, active, paused, cancelled, complete, Move, pause, resume, cancel, StopReason, StoppedBy,
  by_step, Recipient, StepRow, is_hit, stop_addresses, stop_by_addresses, stop_by_step, stop_each,
  write_stops, finish_step, Campaign, Error, guarded, is_active, is_open, is_allowed, goes_to,
  read_move, read_reason, may_change, completes_early, change_status, move_status, set_status,
  stop_for, stop_recipient, may_send, send_step, Change, moved, stopped, addressed, stepped,
  none_emailed, Changes, same, then_one,
}
use hail_system.Drip.Campaign.Life.Recipients.{
  AllStay, AllStay-refl, Stays, chain-AllStay, stop_each-AllStay,
}

campaign_in : Campaign → Result Error Campaign → Campaign
campaign_in d (raised e) = d
campaign_in d (ok c) = c

-- What a test that passed leaves.
pub tested :
    (b : Bool) (c c' : Campaign) (e : Error)
    → (if b then ok c else raised e) ≡ ok c'
    → (b ≡ true) × (c' ≡ c)
unfolding campaign_in
tested true c c' e h = (refl, sym (ap (λ r. campaign_in c' r) h))
tested false c c' e h = absurd (cc h)

pub change_status-ok :
    (user : ℕ) (new : Status) (c c' : Campaign)
    → change_status user new c ≡ ok c'
    → (may_change c.status new ≡ true)
      × (completes_early new c.steps ≡ false)
      × (c' ≡ record c { status = new; status_changed_by = some user })
unfolding change_status
change_status-ok user new c c' h =
    let (t, e) = tested _ _ c' guarded h in (ground (arith, t), ground (arith, t), e)

no_move_closed : (m : Move) (s : Status) → is_open s ≡ false → is_allowed m s ≡ false
no_move_closed pause active h = cc h
no_move_closed pause paused h = refl
no_move_closed pause cancelled h = refl
no_move_closed pause complete h = refl
no_move_closed resume active h = refl
no_move_closed resume paused h = cc h
no_move_closed resume cancelled h = refl
no_move_closed resume complete h = refl
no_move_closed cancel s h = h

allowed_may_change :
    (m : Move) (s : Status) → is_allowed m s ≡ true → may_change s (goes_to m) ≡ true
allowed_may_change pause active h = refl
allowed_may_change pause paused h = absurd (cc h)
allowed_may_change pause cancelled h = absurd (cc h)
allowed_may_change pause complete h = absurd (cc h)
allowed_may_change resume active h = absurd (cc h)
allowed_may_change resume paused h = refl
allowed_may_change resume cancelled h = absurd (cc h)
allowed_may_change resume complete h = absurd (cc h)
allowed_may_change cancel active h = refl
allowed_may_change cancel paused h = refl
allowed_may_change cancel cancelled h = absurd (cc h)
allowed_may_change cancel complete h = absurd (cc h)

move_closed :
    (user : ℕ) (m : Option Move) (c c' : Campaign)
    → is_open c.status ≡ false
    → move_status user m c ≡ ok c'
    → ⊥
unfolding move_status
move_closed user none c c' h e = cc e
move_closed user (some m) c c' h given =
    if_cases (λ (r : Result Error Campaign). r ≡ ok c' → ⊥) (is_allowed m c.status)
      (λ a _. cc (a, no_move_closed m c.status h)) (λ _ e. cc e) given

stop_closed :
    (user realtor_id : ℕ) (reason : Option StopReason) (c c' : Campaign)
    → is_open c.status ≡ false
    → stop_for user realtor_id reason c ≡ ok c'
    → ⊥
unfolding stop_for
stop_closed user realtor_id none c c' h e = cc e
stop_closed user realtor_id (some reason) c c' h given =
    if_cases (λ (r : Result Error Campaign). r ≡ ok c' → ⊥) (not (is_open c.status)) (λ _ e. cc e)
      (λ o _. ground (arith, o, h)) given

active_open : (s : Status) → is_active s ≡ true → is_open s ≡ true
active_open active h = refl
active_open paused h = refl
active_open cancelled h = h
active_open complete h = h

send_closed :
    (emailed : String → Bool) (user n : ℕ) (batch_id : String) (c c' : Campaign)
    → is_open c.status ≡ false
    → send_step emailed user n batch_id c ≡ ok c'
    → ⊥
unfolding send_step change_status
send_closed emailed user n batch_id c c' h =
    if_cases (λ (r : Result Error Campaign). r ≡ ok c' → ⊥) (may_send emailed n batch_id c)
      (λ m _. cc (active_open c.status (ground (arith, m)), h)) (λ _ e. cc e)

addresses_closed :
    (user : ℕ) (emails : List String) (reason : Option StopReason) (c c' : Campaign)
    → is_open c.status ≡ false
    → stop_addresses user emails reason c ≡ ok c'
    → ⊥
unfolding stop_addresses
addresses_closed user emails none c c' h e = cc e
addresses_closed user emails (some reason) c c' h given =
    if_cases (λ (r : Result Error Campaign). r ≡ ok c' → ⊥) (not (is_open c.status)) (λ _ e. cc e)
      (λ o _. ground (arith, o, h)) given

-- What stays of a closed campaign.
pub record Keeps (c c' : Campaign) : Type 0 where
  pub status : c'.status ≡ c.status
  pub changed_by : c'.status_changed_by ≡ c.status_changed_by
  pub steps : c'.steps ≡ c.steps
  pub first_batch : c'.first_batch_id ≡ c.first_batch_id
  pub recipients : AllStay c.recipients c'.recipients

write_stops-Keeps : (stops : List (ℕ × String)) (c : Campaign) → Keeps c (write_stops stops c)
unfolding write_stops
write_stops-Keeps stops c = record {
  status = refl;
  changed_by = refl;
  steps = refl;
  first_batch = refl;
  recipients = stop_each-AllStay stops c.recipients;
}

Change-Keeps :
    {emailed : String → Bool} {c c' : Campaign}
    → Change emailed c c'
    → is_open c.status ≡ false
    → Keeps c c'
unfolding set_status stop_recipient stop_by_addresses finish_step move_status stop_for
    stop_addresses write_stops
Change-Keeps (moved user move e) h = absurd (move_closed user (read_move move) _ _ h e)
Change-Keeps (stopped user realtor_id reason e) h =
    absurd (stop_closed user realtor_id (read_reason reason) _ _ h e)
Change-Keeps (addressed user emails reason e) h =
    absurd (addresses_closed user emails (read_reason reason) _ _ h e)
Change-Keeps {emailed = emailed} {c = c} (stepped user n batch_id stops e) h =
    absurd (send_closed emailed user n batch_id (write_stops stops c) _ h e)
Change-Keeps {c = c} (none_emailed stops e) h = subst (Keeps c) e (write_stops-Keeps stops c)

chain-Keeps : (a b c : Campaign) → Keeps a b → Keeps b c → Keeps a c
chain-Keeps a b c h k = record {
  status = k.status ∙ h.status;
  changed_by = k.changed_by ∙ h.changed_by;
  steps = k.steps ∙ h.steps;
  first_batch = k.first_batch ∙ h.first_batch;
  recipients = chain-AllStay a.recipients b.recipients c.recipients h.recipients k.recipients;
}

-- A campaign that is cancelled or complete keeps its status, who set it, its follow-ups and its first batch, whatever
-- moves, stops and follow-ups are tried. Of its recipients, one that was stopped stays as it is, and one that was not may
-- only be stopped by the run of a follow-up, which does not look at the status.
pub closed_is_final :
    (emailed : String → Bool) (c c' : Campaign)
    → Changes emailed c c'
    → is_open c.status ≡ false
    → Keeps c c'
closed_is_final emailed c c' same h = record {
  status = refl;
  changed_by = refl;
  steps = refl;
  first_batch = refl;
  recipients = AllStay-refl c.recipients;
}
closed_is_final emailed c c' (then_one {c' = b} changes change) h =
    let k : Keeps c b = closed_is_final emailed c b changes h in
    chain-Keeps c b c' k (Change-Keeps change (ap (λ (s : Status). is_open s) k.status ∙ h))

never_early : (m : Move) (rows : List StepRow) → completes_early (goes_to m) rows ≡ false
never_early pause rows = refl
never_early resume rows = refl
never_early cancel rows = refl

move_unguarded :
    (user : ℕ) (m : Option Move) (c : Campaign) → move_status user m c ≡ raised guarded → ⊥
unfolding move_status change_status
move_unguarded user none c e = cc e
move_unguarded user (some m) c given =
    if_cases Unguarded (is_allowed m c.status)
      (λ a.
        if_cases Unguarded
          (may_change c.status (goes_to m) && not (completes_early (goes_to m) c.steps))
          (λ _ e. cc e)
          (λ t _. ground (arith, t, allowed_may_change m c.status a, never_early m c.steps)))
      (λ _ e. cc e) given
  where
    Unguarded : Result Error Campaign → Type 0
    Unguarded r = r ≡ raised guarded → ⊥

-- A move that a user may make is one that the database lets through: `set_status` is refused by its own rules
-- only, never by the trigger.
pub set_status_never_guarded :
    (user : ℕ) (move : String) (c : Campaign) → set_status user move c ≢ raised guarded
unfolding set_status move_status
set_status_never_guarded user move c e = move_unguarded user (read_move move) c e
