-- ===== src/Send/Queue.antt =====
-- `queue_batch` of hailsys/email/send.py, for a report send. Templates, rendering and the zones' levels are
-- parameters; the caller's transaction commits what is returned, or rolls it back where an error is.
pub mod Plan
pub mod Written
use hail_system.Prelude.{
  ℕ, zero, suc, ◌+◌, ◌-◌, ◌*◌, ◌≡◌, String, Bool, true, false, not, ◌&&◌, ◌||◌, Option, none, some,
  List, [], ◌∷◌, ◌++◌, map, any, length, ltb, leb, ◌==◌, str_eq, is_some, if◌then◌else◌,
}
use hail_system.Text.{strip, lower}
use hail_system.Exec.{Result, ok, raised}
use hail_system.SendList.{Event, Recipient, Selection, Sizes, Reason}

abbrev pub sync_max_age : ℕ
sync_max_age = 15 * 60

-- A row of cc_sync_runs, whose status is 'ok' or not.
pub record SyncRun : Type 0 where
  pub run_id : ℕ
  pub is_ok : Bool
  pub finished_at : Option ℕ

-- `SendError`, with its message, and the ValueError of a call with no days and no list
pub data QueueError : Type 0 where
  send_error : String → QueueError
  value_error : QueueError

pub record Contact : Type 0 where
  pub contact_id : String
  pub permission : String

-- The rows that a send writes: sent_emails, and send_log with status 'queued'.
pub record QueuedEmail : Type 0 where
  pub email_id : ℕ
  pub batch_id : String
  pub realtor_id : ℕ
  pub recipient_email : String
  pub template_id : ℕ
  pub sync_run_id : ℕ
  pub permission_asserted : String
  pub created_by : ℕ
  pub subject : String
  pub html_body : String
  pub cc_contact_id : Option String

pub record QueuedMatch : Type 0 where
  pub realtor_id : ℕ
  pub recipient_email : String
  pub match_id : ℕ
  pub template_id : ℕ
  pub sent_by : ℕ
  pub email_id : ℕ
  pub level : Option ℕ
  pub zone_set_id : Option ℕ

pub record Rows : Type 0 where
  pub emails : List QueuedEmail
  pub log : List QueuedMatch
  pub next_email : ℕ

pub record Template : Type 0 where
  pub kind : String
  pub saved_id : Option ℕ

pub record Skipped : Type 0 where
  pub not_allowed : ℕ
  pub unsubscribed_in_cc : ℕ
  pub unrenderable : List ℕ

abbrev pub no_skipped : Skipped
no_skipped = record { not_allowed = 0; unsubscribed_in_cc = 0; unrenderable = [] }

-- An entry of `plan`
pub record Planned : Type 0 where
  pub realtor : Recipient
  pub email : String
  pub contact : Option Contact
  pub subject : String
  pub html : String

pub record Summary : Type 0 where
  pub batch_id : Option String
  pub email_ids : List ℕ
  pub emails : ℕ
  pub matches : ℕ
  pub considered : Sizes
  pub excluded : Reason → Sizes
  pub skipped : Skipped

-- The test of `_check_syn`
abbrev pub is_late : ℕ → Option ℕ → Bool
is_late now none = true
is_late now (some finished_at) = ltb sync_max_age (now - finished_at)

unfoldable pub find_run : ℕ → List SyncRun → Option SyncRun
find_run run_id [] = none
find_run run_id (r ∷ runs) = if r.run_id == run_id then some r else find_run run_id runs

abbrev pub is_synced : ℕ → Option SyncRun → Bool
is_synced now none = false
is_synced now (some r) = r.is_ok && not (is_late now r.finished_at)

-- `allowed_emails`, None or addresses
abbrev pub in_allowed : List String → Option String → Bool
in_allowed emails none = false
in_allowed emails (some email) = any (λ e. str_eq (lower (strip e)) email) emails

abbrev pub is_allowed : Option (List String) → Option String → Bool
is_allowed none email = true
is_allowed (some emails) email = in_allowed emails email

abbrev pub is_unsubscribed : Option Contact → Bool
is_unsubscribed none = false
is_unsubscribed (some c) = str_eq c.permission "unsubscribed"

abbrev pub with_email : String → Option (Option Contact) → Option (String × Option Contact)
with_email email none = none
with_email email (some contact) = some (email, contact)

-- `contacts[r["email"]]`; `none` is an address that was not looked up.
abbrev pub look_up :
    (String → Option (Option Contact)) → Option String → Option (String × Option Contact)
look_up contacts none = none
look_up contacts (some email) = with_email email (contacts email)

abbrev pub Planning : Type 0
Planning = Result QueueError (List Planned × Skipped)

abbrev pub not_allowed_one : Planning → Planning
not_allowed_one (raised e) = raised e
not_allowed_one (ok (plan, k)) = ok (plan, record k { not_allowed = k.not_allowed + 1 })

abbrev pub unsubscribed_one : Planning → Planning
unsubscribed_one (raised e) = raised e
unsubscribed_one (ok (plan, k)) =
    ok (plan, record k { unsubscribed_in_cc = k.unsubscribed_in_cc + 1 })

-- A recipient that is rendered, or is not.
unfoldable pub planned_one :
    Recipient → String → Option Contact → Option (String × String) → Planning → Planning
planned_one r email contact text (raised e) = raised e
planned_one r email contact none (ok (plan, k)) =
    ok (plan, record k { unrenderable = r.realtor_id ∷ k.unrenderable })
planned_one r email contact (some (subject, html)) (ok (plan, k)) = ok (
  record { realtor = r; email = email; contact = contact; subject = subject; html = html } ∷ plan,
  k,
)

module _ (allowed : Option (List String)) (contacts : String → Option (Option Contact))
    (render : Recipient → Option (String × String)) where
  unfoldable pub looked_up : Recipient → Option (String × Option Contact) → Planning → Planning
  unfolding planned_one
  looked_up r none rest =
      raised (send_error "A recipient was not looked up in Constant Contact first.")
  looked_up r (some (email, contact)) rest =
      if is_unsubscribed contact
      then unsubscribed_one rest
      else planned_one r email contact (render r) rest

  -- The loop over the realtors
  unfoldable pub plan_all : List Recipient → Planning
  unfolding looked_up lower strip
  plan_all [] = ok ([], no_skipped)
  plan_all (r ∷ realtors) =
      let rest = plan_all realtors in
      if not (is_allowed allowed r.email)
      then not_allowed_one rest
      else looked_up r (look_up contacts r.email) rest

-- What a call is made with besides the lists. `saved_or_new` is `saved_id or templatestore.ensure_current(…)`, and
-- `report_level` the level and the zone set of a match.
pub record Setting : Type 0 where
  pub user_id : ℕ
  pub now : ℕ
  pub sync_run_id : ℕ
  pub template : Option Template
  pub new_template : ℕ
  pub batch_id : String
  pub report_level : ℕ → Option ℕ × Option ℕ

abbrev pub saved_or : ℕ → Option ℕ → ℕ
saved_or new none = new
saved_or new (some saved_id) = saved_id

abbrev pub asserted : Option Contact → String
asserted none = "implicit"
asserted (some c) = "none"

abbrev pub id_of : Option Contact → Option String
id_of none = none
id_of (some c) = some c.contact_id

-- The matches of a recipient's events.
unfoldable pub matches_of : List Event → List ℕ
matches_of [] = []
matches_of (e ∷ events) = e.match_ids ++ matches_of events

module _ (setting : Setting) (template_id : ℕ) where
  abbrev pub email_row : Planned → ℕ → QueuedEmail
  email_row p email_id = record {
    email_id = email_id;
    batch_id = setting.batch_id;
    realtor_id = p.realtor.realtor_id;
    recipient_email = p.email;
    template_id = template_id;
    sync_run_id = setting.sync_run_id;
    permission_asserted = asserted p.contact;
    created_by = setting.user_id;
    subject = p.subject;
    html_body = p.html;
    cc_contact_id = id_of p.contact;
  }

  abbrev pub match_row : Planned → ℕ → ℕ → QueuedMatch
  match_row p email_id match_id = record {
    realtor_id = p.realtor.realtor_id;
    recipient_email = p.email;
    match_id = match_id;
    template_id = template_id;
    sent_by = setting.user_id;
    email_id = email_id;
    level = (setting.report_level match_id).0;
    zone_set_id = (setting.report_level match_id).1;
  }

  unfoldable pub log_rows : Planned → ℕ → List QueuedMatch
  unfolding matches_of
  log_rows p email_id = map (match_row p email_id) (matches_of p.realtor.events)

  abbrev pub insert_one : Planned → Rows → Rows
  insert_one p rows = record {
    emails = rows.emails ++ (email_row p rows.next_email ∷ []);
    log = rows.log ++ log_rows p rows.next_email;
    next_email = rows.next_email + 1;
  }

  -- The loop over the plan, with the summary's ids and matches
  unfoldable pub insert_all : List Planned → Rows → List ℕ → ℕ → (List ℕ × ℕ) × Rows
  unfolding log_rows
  insert_all [] rows ids matches = ((ids, matches), rows)
  insert_all (p ∷ plan) rows ids matches =
      insert_all plan (insert_one p rows) (ids ++ (rows.next_email ∷ []))
        (matches + length (log_rows p rows.next_email))

module _ (setting : Setting) (found : Selection) where
  abbrev pub summary_of : Skipped → Option String → List ℕ → ℕ → ℕ → Summary
  summary_of skipped batch_id ids emails matches = record {
    batch_id = batch_id;
    email_ids = ids;
    emails = emails;
    matches = matches;
    considered = found.considered;
    excluded = found.excluded;
    skipped = skipped;
  }

  -- After the loop over the realtors.
  unfoldable pub write_plan :
      ℕ → Result QueueError (List Planned × Skipped) → Rows → Result QueueError Summary × Rows
  unfolding insert_all
  write_plan template_id (raised e) rows = (raised e, rows)
  write_plan template_id (ok ([], skipped)) rows = (ok (summary_of skipped none [] 0 0), rows)
  write_plan template_id (ok (p ∷ plan, skipped)) rows =
      let ((ids, matches), rows') = insert_all setting template_id (p ∷ plan) rows [] 0 in
      (ok (summary_of skipped (some setting.batch_id) ids (length (p ∷ plan)) matches), rows')

abbrev pub chosen : Option Selection → Option Selection → Option Selection
chosen (some found) built = some found
chosen none built = built

module _ (allowed : Option (List String)) (contacts : String → Option (Option Contact))
    (render : Recipient → Option (String × String)) (setting : Setting) where
  abbrev pub with_template : Selection → Option Template → Rows → Result QueueError Summary × Rows
  with_template found none rows = (raised (send_error "That template is not available."), rows)
  with_template found (some t) rows =
      if not (str_eq t.kind "report")
      then (raised (send_error "That is a zone template: this send needs a report one."), rows)
      else write_plan setting found (saved_or setting.new_template t.saved_id)
          (plan_all allowed contacts render found.realtors) rows

  abbrev pub with_list : Option Selection → Rows → Result QueueError Summary × Rows
  with_list none rows = (raised value_error, rows)
  with_list (some found) rows = with_template found setting.template rows

  -- `queue_batch`; `send_list` is a list already built, `built` the one of the storm days, where they are given.
  unfoldable pub queue_batch :
      List SyncRun → Option Selection → Option Selection → Rows → Result QueueError Summary × Rows
  unfolding write_plan plan_all find_run
  queue_batch runs send_list built rows =
      if not (is_synced setting.now (find_run setting.sync_run_id runs))
      then (raised (send_error "The unsubscribe sync did not succeed just before this send."), rows)
      else with_list (chosen send_list built) rows
