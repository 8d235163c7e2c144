-- ===== src/Tests/Queues.antt =====
-- A list of two agents, of whom one has unsubscribed in Constant Contact.
use hail_system.Prelude.{
  ℕ, ◌≡◌, refl, true, none, some, [], ◌∷◌, map, List, Option, String, str_eq, if◌then◌else◌,
}
use hail_system.Exec.{Result, ok, raised}
use hail_system.SendList.{Recipient, Selection, Event}
use hail_system.Send.Queue.{
  SyncRun, Contact, Rows, Setting, chosen, queue_batch, QueueError, Summary, QueuedMatch,
}
use hail_system.Send.Queue.Written.{Written, Guarded, realtors_in, queue_batch-Queued}

abbrev storm : Event
storm = record {
  listing_id = 10;
  address = "1 Elm St";
  utc_datetime = 9;
  magnitude = some 125;
  distance = 40;
  match_ids = 1 ∷ 3 ∷ [];
  rank = record { seen = 1; listing_id = 10 };
}

abbrev ann : Recipient
ann = record {
  realtor_id = 5;
  agent_name = none;
  email = some "ann@example.com";
  events = storm ∷ [];
}

abbrev bob : Recipient
bob = record ann { realtor_id = 6; email = some "bob@example.com" }

abbrev found : Selection
found = record {
  realtors = ann ∷ bob ∷ [];
  considered = record { matches = 4; realtors = 2 };
  excluded = λ r. record { matches = 0; realtors = 0 };
}

abbrev contacts : String → Option (Option Contact)
contacts email =
    if str_eq email "bob@example.com"
    then some (some (record { contact_id = "c6"; permission = "unsubscribed" }))
    else some none

abbrev setting : Setting
setting = record {
  user_id = 2;
  now = 1000;
  sync_run_id = 8;
  template = some (record { kind = "report"; saved_id = some 3 });
  new_template = 4;
  batch_id = "b1";
  report_level = λ id. (none, none);
}

abbrev synced : List SyncRun
synced = record { run_id = 8; is_ok = true; finished_at = some 400 } ∷ []

abbrev empty : Rows
empty = record { emails = []; log = []; next_email = 1 }

queue_batch-Queued_example :
    Written none contacts
      (λ r. some ("s", "h"))
      setting
      (realtors_in (chosen none (some found)))
      empty
      (queue_batch none contacts (λ r. some ("s", "h")) setting synced none (some found) empty)
    × Guarded setting synced
        (queue_batch none contacts (λ r. some ("s", "h")) setting synced none (some found) empty)
queue_batch-Queued_example =
    queue_batch-Queued none contacts (λ r. some ("s", "h")) setting synced none (some found) empty

matches_in : Result QueueError Summary × Rows → List ℕ × ℕ
matches_in (ok s, rows) =
    (map (λ (m : QueuedMatch). m.match_id) rows.log, s.skipped.unsubscribed_in_cc)
matches_in (raised e, rows) = ([], 0)

one_queued :
    matches_in
      (queue_batch none contacts (λ r. some ("s", "h")) setting synced none (some found) empty)
    ≡ (1 ∷ 3 ∷ [], 1)
unfolding matches_in queue_batch
one_queued = refl
