-- ===== src/Tests/Deliveries.antt =====
-- A Constant Contact that accepts everything, a batch of two emails, and what the engine does with them.
use hail_system.Prelude.{ℕ, ◌+◌, ◌≤◌, ◌≡◌, refl, true, false, none, some, [], ◌∷◌, All, any, ◌==◌}
use hail_system.Exec.{Result, ok, ◌>>=◌}
use hail_system.Prelude.{◌&&◌}
use hail_system.Email.Store.{EmailRow, LogRow, Db, queued, find_email}
use hail_system.Email.Env.{Env, Sender, Answer, Run}
use hail_system.Email.Store.{is_listed, store_ids, mark, finish, update_email, update_queued}
use hail_system.Email.Env.{cc_call, write, set_past}
use hail_system.Email.Engine.{
  Outcome, deliver_email, deliver_row, attempt, deliver_clear, prepare, list_for,
  put_contact_on_list, contact_on_list, create_or_read, create_new, make_campaign, deliver_prepared,
  schedule_once, already_scheduled, schedule_if_clear, schedule, mark_scheduled, conclude,
  drop_list, on_dnc, no_permission,
}
use hail_system.Email.Properties.Scheduling.{IsClear, deliver_email-IsClear}
use hail_system.Email.Properties.OneCall.{
  schedule_calls, deliver_email_schedules_once, IsStored, deliver_email-IsStored,
}
use hail_system.Email.Properties.Settled.{Means, deliver_email-Means}
use hail_system.Email.Resume.{
  ResumeError, batch_too_old, check_resumable, run_resume, IsFair, run_resume-IsFair,
}
use hail_system.Email.Batch.{Counts}
use hail_system.Email.Batch.Discard.{
  count_untouched, discard_queued, is_untouched, rows_of, discard_queued_lem,
}

-- The world is the number of calls so far, which is also its clock.
abbrev answer : {A : Type 0} → A → ℕ → Answer ℕ A
answer a n = (ok a, n + 1)

abbrev accepting : Env ℕ
accepting = record {
  now = λ n. n;
  norm = λ s. s;
  dnc_list = λ n. record { email_norm = "no@x.com"; removed_at = none } ∷ [];
  send_permission = λ n. record { email_norm = "ann@x.com"; removed_at = none } ∷ [];
  cc_api_calls = λ n. [];
  find_contact = λ email. answer none;
  create_list = λ name. answer "list";
  create_contact = λ email first list. answer "contact";
  add_to_list = λ contact list. answer tt;
  create_campaign = λ name fields. answer (record { campaign_id = "c"; activity_id = "a" });
  update_campaign = λ a fields list. answer tt;
  campaign_status = λ a. answer (some "DONE");
  schedule = λ a. answer tt;
  wait_until_done = λ a. answer tt;
  delete_list = λ list. answer tt;
}

abbrev sender : Sender
sender = record { from_name = "Roofer"; from_email = "r@x.com"; reply_to = "r@x.com" }

abbrev new_email : EmailRow
new_email = record {
  email_id = 7;
  batch_id = "0123456789ab";
  recipient_email = "ann@x.com";
  agent_name = "Ann Lee";
  subject = "Hail";
  html_body = "Hello";
  created_at = 1;
  cc_contact_id = none;
  cc_list_id = none;
  cc_campaign_id = none;
  cc_activity_id = none;
  scheduled_at = none;
  list_deleted_at = none;
  error_detail = none;
}

-- An email whose delivery crashed after the schedule call.
abbrev begun : EmailRow
begun = record new_email {
  email_id = 8;
  cc_list_id = some "list8";
  cc_campaign_id = some "c8";
  cc_activity_id = some "a8";
}

abbrev log_row : ℕ → LogRow
log_row id = record {
  email_id = id;
  send_status = queued;
  provider_message_id = none;
  error_detail = none;
  sent_at = none;
  status_updated_at = none;
}

abbrev start_db : Db
start_db = record { emails = new_email ∷ begun ∷ []; log = log_row 7 ∷ log_row 8 ∷ log_row 7 ∷ [] }

abbrev start : Run ℕ
start = record { db = start_db; world = 100; past_the_point = false; events = [] }

new_found : find_email 7 start_db.emails ≡ some new_email
unfolding find_email
new_found = refl

begun_found : find_email 8 start_db.emails ≡ some begun
unfolding find_email
begun_found = refl

deliver_email-IsClear_example :
    All (IsClear accepting "ann@x.com") (deliver_email accepting sender 7 start).1.events
deliver_email-IsClear_example =
    deliver_email-IsClear accepting sender 7 start new_email new_found refl

deliver_email_schedules_once_example :
    schedule_calls (deliver_email accepting sender 7 start).1.events ≤ 1
deliver_email_schedules_once_example =
    deliver_email_schedules_once accepting sender 7 start new_email new_found refl

deliver_email-IsStored_example : All (IsStored 7) (deliver_email accepting sender 7 start).1.events
deliver_email-IsStored_example =
    deliver_email-IsStored accepting sender 7 start new_email new_found refl

deliver_email-Means_example :
    Means accepting new_email 7 start
      (deliver_email accepting sender 7 start).0
      (deliver_email accepting sender 7 start).1
deliver_email-Means_example = deliver_email-Means accepting sender 7 start new_email new_found refl

abbrev resumed : Result ResumeError Counts × Run ℕ
resumed =
    run_resume accepting sender none (λ w. true) (λ w. (true, w + 1)) 600000 "0123456789ab" start

run_resume-IsFair_example : IsFair 600000 "0123456789ab" start resumed.0 resumed.1
run_resume-IsFair_example =
    run_resume-IsFair accepting sender none (λ w. true) 600000 "0123456789ab" start
      (λ w. (true, w + 1))

-- Eight days later the batch is too old.
too_old : check_resumable 700000 "0123456789ab" start_db ≡ some batch_too_old
unfolding check_resumable
too_old = refl

discard_queued_example :
    ((discard_queued "0123456789ab" "Discarded" 5 start_db).0
      ≡ count_untouched "0123456789ab" start_db)
    × (count_untouched "0123456789ab" (discard_queued "0123456789ab" "Discarded" 5 start_db).1 ≡ 0)
    × ((id : ℕ)
        → any
            (λ (r : EmailRow). (r.email_id == id) && is_untouched "0123456789ab" start_db.log r)
            start_db.emails
          ≡ false
        → rows_of id (discard_queued "0123456789ab" "Discarded" 5 start_db).1.log
          ≡ rows_of id start_db.log)
discard_queued_example = discard_queued_lem "0123456789ab" "Discarded" 5 start_db

-- The run itself: the new email is sent, after one schedule call.
sends_new :
    ((deliver_email accepting sender 7 start).0 ≡ ok Outcome.sent)
    × (schedule_calls (deliver_email accepting sender 7 start).1.events ≡ 1)
unfolding deliver_email deliver_row attempt deliver_clear prepare list_for put_contact_on_list
    contact_on_list create_or_read create_new make_campaign deliver_prepared schedule_once
    already_scheduled schedule_if_clear schedule mark_scheduled conclude drop_list cc_call write
    set_past on_dnc no_permission is_listed find_email store_ids mark finish update_email
    update_queued ◌>>=◌
sends_new = (refl, refl)
