-- ===== src/Tests/Bounces.antt =====
-- One email that was sent yesterday, whose address does not exist.
use hail_system.Prelude.{ℕ, ◌+◌, ◌≡◌, refl, true, false, none, some, [], ◌∷◌, map, List, Option}
use hail_system.Exec.{Result, ok}
use hail_system.Email.Store.{SendStatus, sent, bounced, EmailRow, LogRow}
use hail_system.ConstantContact.Transport.{json, answered, Outside, Wire, request}
use hail_system.ConstantContact.Bounces.{
  Bounce, BouncePage, worst_code, Book, check_one, Desk, run_check, Tally, CheckError,
}
use hail_system.ConstantContact.Bounces.Codes.{IsWorst, worst_code-IsWorst, check_one_twice}

abbrev records : List Bounce
records =
    record { address = "eve@example.com"; bounce_code = some "B" }
    ∷ record { address = "ANN@example.com"; bounce_code = some "F" }
    ∷ record { address = "ann@example.com "; bounce_code = some "S" }
    ∷ []

worst_code-IsWorst_example :
    IsWorst "ann@example.com" records (worst_code records "ann@example.com")
worst_code-IsWorst_example = worst_code-IsWorst "ann@example.com" records

abbrev mail : EmailRow
mail = record {
  email_id = 4;
  batch_id = "b";
  recipient_email = "ann@example.com";
  agent_name = "Ann";
  subject = "s";
  html_body = "h";
  created_at = 0;
  cc_contact_id = none;
  cc_list_id = none;
  cc_campaign_id = none;
  cc_activity_id = some "act";
  scheduled_at = none;
  list_deleted_at = none;
  error_detail = none;
}

abbrev log_row : LogRow
log_row = record {
  email_id = 4;
  send_status = sent;
  provider_message_id = none;
  error_detail = none;
  sent_at = some 100000;
  status_updated_at = none;
}

abbrev book : Book
book = record { emails = mail ∷ []; log = log_row ∷ []; dnc = []; next_id = 1 }

check_one_twice_example :
    check_one (λ s. s) 1 7 mail records (check_one (λ s. s) 1 6 mail records book).1
    ≡ ((0, 0), (check_one (λ s. s) 1 6 mail records book).1)
check_one_twice_example = check_one_twice (λ s. s) 1 6 7 mail records book

abbrev answering : Outside ℕ (Unit {0}) BouncePage
answering = record {
  now = λ n. 186400 + n;
  token = λ n. (none, n);
  send = λ req n. (answered 200 (json (record { records = records; has_next = false })), n + 1);
}

abbrev desk : Desk
desk = record { book = book; runs = []; next_run = 1 }

abbrev quiet : Wire ℕ BouncePage
quiet = record { world = 0; calls = []; replies = [] }

statuses_of : Option (Result CheckError Tally × Desk × Wire ℕ BouncePage) → List ℕ × List SendStatus
statuses_of (some (ok t, d, s)) =
    (t.checked ∷ t.bounced ∷ t.suppressed ∷ [], map (λ (l : LogRow). l.send_status) d.book.log)
statuses_of _ = ([], [])

one_bounced :
    statuses_of (run_check answering (λ s. s) true (some 1) desk quiet)
    ≡ (1 ∷ 1 ∷ 1 ∷ [], bounced ∷ [])
unfolding statuses_of run_check request
one_bounced = refl
