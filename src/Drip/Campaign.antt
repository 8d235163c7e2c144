-- ===== src/Drip/Campaign.antt =====
-- One drip campaign in the database: what email/dripactions.py and the transaction of email/dripstep.py
-- `run_step` do to it, under the triggers of sql/046_drip_campaigns.sql. An exception rolls back, so an
-- operation is a new campaign or an error.
pub mod Life
pub mod Order
use hail_system.Prelude.{
  ℕ, suc, ◌+◌, ◌-◌, ◌≡◌, String, Bool, true, false, not, ◌&&◌, ◌||◌, Option, none, some, List, [],
  ◌∷◌, map, any, length, ltb, ◌==◌, str_eq, is_some, if◌then◌else◌, filter,
}
use hail_system.Text.{lower, strip}
use hail_system.Exec.{Result, ok, raised}
use hail_system.Drip.Plan.{Step}

pub data Status : Type 0 where
  active paused cancelled complete : Status

pub data Move : Type 0 where
  pause resume cancel : Move

pub data StopReason : Type 0 where
  manual replied : StopReason

-- A stop by a user, or by the run of a follow-up, which writes no user.
pub data StoppedBy : Type 0 where
  by_user : StopReason → ℕ → StoppedBy
  by_step : String → StoppedBy

pub record Recipient : Type 0 where
  pub realtor_id : ℕ
  pub recipient_email : String
  pub stopped : Option StoppedBy

pub record StepRow : Type 0 where
  pub step_no : ℕ
  -- the batch and the user
  pub sent : Option (String × ℕ)

pub record Campaign : Type 0 where
  pub first_batch_id : String
  pub status : Status
  pub status_changed_by : Option ℕ
  pub steps : List StepRow
  pub recipients : List Recipient

-- `ActionError`, and what the triggers raise
pub data Error : Type 0 where
  unknown_action unknown_reason not_open not_allowed not_a_recipient no_addresses guarded : Error

abbrev pub is_active : Status → Bool
is_active active = true
is_active _ = false

abbrev pub is_open : Status → Bool
is_open active = true
is_open paused = true
is_open _ = false

-- `MOVES`: where a move is allowed, and where it goes.
abbrev pub is_allowed : Move → Status → Bool
is_allowed pause s = is_active s
is_allowed resume paused = true
is_allowed resume _ = false
is_allowed cancel s = is_open s

abbrev pub goes_to : Move → Status
goes_to pause = paused
goes_to resume = active
goes_to cancel = cancelled

abbrev pub read_move : String → Option Move
read_move s =
    if str_eq s "pause"
    then some pause
    else if str_eq s "resume"
    then some resume
    else if str_eq s "cancel"
    then some cancel
    else none

abbrev pub read_reason : String → Option StopReason
read_reason s =
    if str_eq s "manual" then some manual else if str_eq s "replied" then some replied else none

abbrev pub is_sent : StepRow → Bool
is_sent r = is_some r.sent

-- The changes of status that `drip_campaigns_guard` lets through.
abbrev pub may_change : Status → Status → Bool
may_change active paused = true
may_change active cancelled = true
may_change active complete = true
may_change paused active = true
may_change paused cancelled = true
may_change _ _ = false

abbrev pub all_sent : List StepRow → Bool
all_sent rows = not (any (λ (r : StepRow). not (is_sent r)) rows)

abbrev pub completes_early : Status → List StepRow → Bool
completes_early complete rows = not (all_sent rows)
completes_early _ rows = false

-- UPDATE drip_campaigns SET status = new, status_changed_by = user, to another status
unfoldable pub change_status : ℕ → Status → Campaign → Result Error Campaign
change_status user new c =
    if may_change c.status new && not (completes_early new c.steps)
    then ok (record c { status = new; status_changed_by = some user })
    else raised guarded

-- `_MOVE_SQL` finds the campaign only where its status allows the move.
unfoldable pub move_status : ℕ → Option Move → Campaign → Result Error Campaign
unfolding change_status
move_status user none c = raised unknown_action
move_status user (some move) c =
    if is_allowed move c.status then change_status user (goes_to move) c else raised not_allowed

-- `set_status`
unfoldable pub set_status : ℕ → String → Campaign → Result Error Campaign
unfolding move_status
set_status user move c = move_status user (read_move move) c

abbrev pub is_hit : ℕ → Recipient → Bool
is_hit realtor_id r = not (is_some r.stopped) && r.realtor_id == realtor_id

abbrev pub stop_row : ℕ → StopReason → ℕ → Recipient → Recipient
stop_row user reason realtor_id r =
    if is_hit realtor_id r then record r { stopped = some (by_user reason user) } else r

unfoldable pub stop_for : ℕ → ℕ → Option StopReason → Campaign → Result Error Campaign
stop_for user realtor_id none c = raised unknown_reason
stop_for user realtor_id (some reason) c =
    if not (is_open c.status)
    then raised not_open
    else if any (is_hit realtor_id) c.recipients
    then ok (record c { recipients = map (stop_row user reason realtor_id) c.recipients })
    else raised not_a_recipient

-- `stop_recipient`
unfoldable pub stop_recipient : ℕ → ℕ → String → Campaign → Result Error Campaign
unfolding stop_for
stop_recipient user realtor_id reason c = stop_for user realtor_id (read_reason reason) c

abbrev pub address_norm : Recipient → String
address_norm r = lower (strip r.recipient_email)

abbrev pub last_known : Option Bool → Option Bool → Option Bool
last_known first (some later) = some later
last_known first none = first

-- `known.get(email)`, of the rows of `_KNOWN_SQL` in their order: the last one wins.
unfoldable pub known : String → List Recipient → Option Bool
known email [] = none
known email (r ∷ recipients) =
    last_known (if str_eq (address_norm r) email then some (is_some r.stopped) else none)
      (known email recipients)

abbrev pub is_unstopped : Option Bool → Bool
is_unstopped (some false) = true
is_unstopped _ = false

-- A recipient that is not stopped, at one of the addresses.
abbrev pub is_addressed : List String → Recipient → Bool
is_addressed emails r =
    not (is_some r.stopped) && any (λ email. str_eq email (address_norm r)) emails

abbrev pub stop_addressed : ℕ → StopReason → List String → Recipient → Recipient
stop_addressed user reason emails r =
    if is_addressed emails r then record r { stopped = some (by_user reason user) } else r

abbrev pub has_none : List String → Bool
has_none [] = true
has_none _ = false

unfoldable pub stop_addresses :
    ℕ → List String → Option StopReason → Campaign → Result Error Campaign
unfolding known filter lower strip
stop_addresses user emails none c = raised unknown_reason
stop_addresses user emails (some reason) c =
    if not (is_open c.status)
    then raised not_open
    else if has_none emails
    then raised no_addresses
    else ok (record c {
      recipients =
          map
            (stop_addressed user reason
              (filter (λ email. is_unstopped (known email c.recipients)) emails))
            c.recipients;
    })

-- `stop_by_addresses`, where `emails` are the addresses that the pasted text holds; the lists that it returns for the
-- page are left out.
unfoldable pub stop_by_addresses : ℕ → List String → String → Campaign → Result Error Campaign
unfolding stop_addresses
stop_by_addresses user emails reason c = stop_addresses user emails (read_reason reason) c

-- `_STOP_SQL` of the step
abbrev pub stop_by_step : ℕ × String → Recipient → Recipient
stop_by_step (realtor_id, reason) r =
    if is_hit realtor_id r then record r { stopped = some (by_step reason) } else r

unfoldable pub stop_each : List (ℕ × String) → List Recipient → List Recipient
stop_each [] recipients = recipients
stop_each (stop ∷ stops) recipients = stop_each stops (map (stop_by_step stop) recipients)

-- `_write_stops`: each one's realtor and reason. It does not look at the campaign's status.
unfoldable pub write_stops : List (ℕ × String) → Campaign → Campaign
unfolding stop_each
write_stops stops c = record c { recipients = stop_each stops c.recipients }

-- A step of the campaign that has been sent.
abbrev pub has_sent : ℕ → List StepRow → Bool
has_sent n rows = any (λ (r : StepRow). r.step_no == n && is_sent r) rows

-- What `drip_steps_guard` asks of a step that is sent now; `emailed` are the batches of sent_emails.
abbrev pub may_send : (String → Bool) → ℕ → String → Campaign → Bool
may_send emailed n batch_id c =
    not (has_sent n c.steps)
    && is_active c.status
    && (not (ltb 1 n) || has_sent (n - 1) c.steps)
    && not (str_eq batch_id c.first_batch_id)
    && emailed batch_id

abbrev pub send_row : ℕ → ℕ → String → StepRow → StepRow
send_row user n batch_id r = if r.step_no == n then record r { sent = some (batch_id, user) } else r

-- The marking of the queue transaction of `run_step`: the step is marked sent, and the last one completes the
-- campaign. The batch is a new one, so a step that was sent is refused.
unfoldable pub send_step : (String → Bool) → ℕ → ℕ → String → Campaign → Result Error Campaign
unfolding change_status
send_step emailed user n batch_id c =
    if may_send emailed n batch_id c
    then (let marked : Campaign = record c { steps = map (send_row user n batch_id) c.steps } in
        if n == length c.steps then change_status user complete marked else ok marked)
    else raised guarded

-- The end of the queue transaction of `run_step`: the stops, and then the marking, whose refusal rolls them back.
unfoldable pub finish_step :
    (String → Bool) → ℕ → ℕ → String → List (ℕ × String) → Campaign → Result Error Campaign
unfolding send_step write_stops
finish_step emailed user n batch_id stops c =
    send_step emailed user n batch_id (write_stops stops c)

abbrev pub number_steps : ℕ → List Step → List StepRow
number_steps n [] = []
number_steps n (step ∷ steps) = record { step_no = n; sent = none } ∷ number_steps (n + 1) steps

-- `create_campaign`, for the realtors of the first batch and their addresses
unfoldable pub create_campaign : String → List Step → List (ℕ × String) → Campaign
create_campaign batch_id steps realtors = record {
  first_batch_id = batch_id;
  status = active;
  status_changed_by = none;
  steps = number_steps 1 steps;
  recipients =
      map (λ (r : ℕ × String). record { realtor_id = r.0; recipient_email = r.1; stopped = none })
        realtors;
}

-- One committed change of the campaign.
pub data Change (emailed : String → Bool) : Campaign → Campaign → Type 0 where
  moved :
      {c c' : Campaign} (user : ℕ) (move : String)
      → set_status user move c ≡ ok c'
      → Change emailed c c'
  stopped :
      {c c' : Campaign} (user realtor_id : ℕ) (reason : String)
      → stop_recipient user realtor_id reason c ≡ ok c'
      → Change emailed c c'
  addressed :
      {c c' : Campaign} (user : ℕ) (emails : List String) (reason : String)
      → stop_by_addresses user emails reason c ≡ ok c'
      → Change emailed c c'
  stepped :
      {c c' : Campaign} (user n : ℕ) (batch_id : String) (stops : List (ℕ × String))
      → finish_step emailed user n batch_id stops c ≡ ok c'
      → Change emailed c c'
  -- a follow-up with nobody to email, which commits its stops alone
  none_emailed :
      {c c' : Campaign} (stops : List (ℕ × String)) → write_stops stops c ≡ c' → Change emailed c c'

pub data Changes (emailed : String → Bool) : Campaign → Campaign → Type 0 where
  same : {c : Campaign} → Changes emailed c c
  then_one :
      {c c' c″ : Campaign} → Changes emailed c c' → Change emailed c' c″ → Changes emailed c c″
