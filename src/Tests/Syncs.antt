-- ===== src/Tests/Syncs.antt =====
-- A Constant Contact that is busy once, then has one page of two contacts: one that an admin took off the list, one new.
use hail_system.Prelude.{
  ℕ, ◌+◌, ◌≡◌, refl, true, none, some, [], ◌∷◌, length, ◌==◌, if◌then◌else◌, Option, List,
}
use hail_system.Text.{strip}
use hail_system.Exec.{Result, ok}
use hail_system.ConstantContact.Transport.{
  json, answered, http_error, Request, Outside, Wire, max_retries, request, is_key,
}
use hail_system.ConstantContact.Transport.Retries.{Ended, request-Ended}
use hail_system.ConstantContact.Contacts.{Query, Page}
use hail_system.ConstantContact.Unsubs.{
  Contact, DncRow, Tables, Counts, Reading, no_counts, record_contact, Db, RunRow, running,
  SyncError, run_sync,
}
use hail_system.ConstantContact.Unsubs.Narrows.{Says, record_contact-Says}
use hail_system.ConstantContact.Unsubs.Runs.{Narrowed, run_sync-Narrowed}

abbrev back : Contact
back = record {
  address = "ann@example.com";
  opt_out_date = none;
  opt_out_source = none;
  opt_out_reason = none;
}

abbrev gone : Contact
gone = record {
  address = "bob@example.com";
  opt_out_date = some "2026-05-01";
  opt_out_source = some "Form";
  opt_out_reason = none;
}

abbrev page : Page Contact
page = record { contacts = back ∷ gone ∷ []; href = none }

abbrev busy_once : Outside ℕ (Option Query) (Page Contact)
busy_once = record {
  now = λ n. n;
  token = λ n. (none, n);
  send = λ req n.
      (if n == 0 then http_error 429 (some "throttled") else answered 200 (json page), n + 1);
}

abbrev get_contacts : Request (Option Query)
get_contacts = record { method = "GET"; path = "/contacts"; payload = none; expect = 200 ∷ [] }

abbrev quiet : Wire ℕ (Page Contact)
quiet = record { world = 0; calls = []; replies = [] }

request-Ended_example :
    Ended get_contacts quiet (request busy_once get_contacts (max_retries + 1) quiet)
request-Ended_example = request-Ended busy_once get_contacts quiet

abbrev ann_row : DncRow
ann_row = record {
  dnc_id = 7;
  email_norm = "ann@example.com";
  added_at = 1;
  added_by = 1;
  reason = "asked";
  removed_at = some 5;
}

abbrev listed : Tables
listed = record { dnc = ann_row ∷ []; next_id = 8; conflicts = [] }

abbrev plain_reading : Reading
plain_reading = record { norm = λ s. s; parse_when = λ s. some 9; now = 100 }

record_contact-Says_example :
    Says plain_reading 3 gone listed
      (record_contact plain_reading 1 3 gone listed).0
      (record_contact plain_reading 1 3 gone listed).1
record_contact-Says_example = record_contact-Says plain_reading 1 3 gone listed

abbrev dead_run : RunRow
dead_run = record {
  run_id = 2;
  status = running;
  started_at = 50;
  counts = no_counts;
  error_detail = none;
}

abbrev books : Db
books = record { tables = listed; runs = dead_run ∷ []; next_run = 3 }

run_sync-Narrowed_example :
    Narrowed books (run_sync busy_once (λ n. "then") plain_reading true (some 1) books quiet)
run_sync-Narrowed_example =
    run_sync-Narrowed busy_once (λ n. "then") plain_reading true (some 1) books quiet

-- The run counts one row put on the list, and one that an admin had removed.
counts_of : Option (Result SyncError Counts × Db × Wire ℕ (Page Contact)) → List ℕ
counts_of (some (ok c, db, s)) =
    c.fetched ∷ c.inserted ∷ c.conflicts ∷ length db.tables.dnc ∷ length s.calls ∷ []
counts_of _ = []

one_inserted :
    counts_of (run_sync busy_once (λ n. "then") plain_reading true (some 1) books quiet)
    ≡ 2 ∷ 1 ∷ 1 ∷ 2 ∷ 2 ∷ []
unfolding counts_of run_sync request is_key strip
one_inserted = refl
