-- ===== src/ConstantContact/Bounces.antt =====
-- constantcontact/statuses.py: the bounce check, which asks Constant Contact about every recent email and records its
-- bounces. Every email is committed by itself, so what an error leaves is what the emails before it recorded.
pub mod Codes
pub mod Runs
mod Worst
use hail_system.Prelude.{
  ℕ, ◌+◌, ◌-◌, ◌*◌, String, Bool, true, false, not, ◌&&◌, ◌||◌, Option, none, some, List, [], ◌∷◌,
  map, any, is_some, ltb, ◌==◌, str_eq, if◌then◌else◌, filter,
}
use hail_system.Text.{◌⊕◌, strip, lower, is_empty}
use hail_system.Exec.{Result, ok, raised}
use hail_system.Email.Store.{SendStatus, sent, EmailRow, LogRow, is_sent}
use hail_system.ConstantContact.Transport.{
  Fail, api, no_token, Request, Outside, Wire, max_retries, request,
}
use hail_system.ConstantContact.Contacts.{plain_error}
use hail_system.ConstantContact.Unsubs.{
  DncRow, find_row, RunStatus, running, finished, failed, is_running, abandoned, failure_text,
}
pub use Worst.*
unfoldable pub use Worst.{meaning, recorded, first_hard, worst_code}

-- What a check reads and writes.
pub record Book : Type 0 where
  pub emails : List EmailRow
  pub log : List LogRow
  pub dnc : List DncRow
  pub next_id : ℕ

abbrev pub is_hit : ℕ → LogRow → Bool
is_hit email_id l = l.email_id == email_id && is_sent l.send_status

-- `_BOUNCE_SQL`
abbrev pub bounce_row : ℕ → String → ℕ → LogRow → LogRow
bounce_row now detail email_id l =
    if is_hit email_id l
    then record l {
      send_status = SendStatus.bounced;
      status_updated_at = some now;
      error_detail = some detail;
    }
    else l

abbrev pub count_if : Bool → ℕ
count_if b = if b then 1 else 0

abbrev pub or_none : Option String → String
or_none none = ""
or_none (some text) = text

unfoldable pub detail_of : String → String
unfolding meaning
detail_of code = "Constant Contact bounce code " ⊕ code ⊕ ": " ⊕ or_none (meaning code)

module _ (norm : String → String) (system_id : ℕ) where
  abbrev pub suppressed_row : ℕ → String → String → Book → DncRow
  suppressed_row now recipient detail book = record {
    dnc_id = book.next_id;
    email_norm = norm recipient;
    added_at = now;
    added_by = system_id;
    reason = detail;
    removed_at = none;
  }

  -- `_SUPPRESS_SQL`: an address that is there already is left alone.
  unfoldable pub suppress : ℕ → String → String → Option DncRow → Book → ℕ × Book
  suppress now recipient detail (some row) book = (0, book)
  suppress now recipient detail none book = (
    1,
    record book {
      dnc = suppressed_row now recipient detail book ∷ book.dnc;
      next_id = book.next_id + 1;
    },
  )

  -- The bounce, and its suppression where it is hard.
  unfoldable pub record_bounce : ℕ → EmailRow → Option String → Book → (ℕ × ℕ) × Book
  unfolding suppress detail_of find_row
  record_bounce now email none book = ((0, 0), book)
  record_bounce now email (some code) book =
      let changed = any (is_hit email.email_id) book.log in
      let marked : Book = record book {
        log = map (bounce_row now (detail_of code) email.email_id) book.log;
      } in
      let (suppressed, book') =
        if is_hard code
        then suppress now email.recipient_email (detail_of code)
            (find_row (norm email.recipient_email) marked.dnc) marked
        else (0, marked) in
      ((count_if changed, suppressed), book')

  -- `_check_one` after its fetch
  unfoldable pub check_one : ℕ → EmailRow → List Bounce → Book → (ℕ × ℕ) × Book
  unfolding record_bounce worst_code
  check_one now email records book =
      record_bounce now email (worst_code records email.recipient_email) book

abbrev pub abandoned_text : String
abandoned_text = "abandoned: the process ended before this run finished"

pub record Tally : Type 0 where
  pub checked : ℕ
  pub bounced : ℕ
  pub suppressed : ℕ

abbrev pub no_tally : Tally
no_tally = record { checked = 0; bounced = 0; suppressed = 0 }

abbrev pub is_after : ℕ → Option ℕ → Bool
is_after now none = false
is_after now (some sent_at) = ltb now (sent_at + window)

-- `_TO_CHECK_SQL`
abbrev pub is_recent : ℕ → ℕ → LogRow → Bool
is_recent now email_id l = is_hit email_id l && is_after now l.sent_at

unfoldable pub to_check : ℕ → Book → List EmailRow
unfolding filter
to_check now book =
    filter (λ (e : EmailRow). is_some e.cc_activity_id && any (is_recent now e.email_id) book.log)
      book.emails

-- A row of cc_status_runs.
pub record StatusRun : Type 0 where
  pub run_id : ℕ
  pub status : RunStatus
  pub tally : Tally
  pub error_detail : Option String

-- `StatusBusy`, the missing system user, and what stopped the check
pub data CheckError : Type 0 where
  status_busy no_system_user : CheckError
  stopped : Fail → CheckError

pub record Desk : Type 0 where
  pub book : Book
  pub runs : List StatusRun
  pub next_run : ℕ

abbrev pub add_tally : ℕ × ℕ → Tally → Tally
add_tally (b, s) t = record {
  checked = t.checked + 1;
  bounced = t.bounced + b;
  suppressed = t.suppressed + s;
}

-- `ABANDON_SQL` and `FINISH_SQL`
abbrev pub abandon : StatusRun → StatusRun
abandon r =
    if is_running r.status
    then record r { status = failed; error_detail = some abandoned_text }
    else r

abbrev pub finish : ℕ → RunStatus → Tally → Option String → StatusRun → StatusRun
finish run_id status tally detail r =
    if r.run_id == run_id
    then record r { status = status; tally = tally; error_detail = detail }
    else r

abbrev pub close_check : ℕ → Result Fail (Unit {0}) → Tally → Desk → Result CheckError Tally × Desk
close_check run_id (ok _) t desk =
    (ok t, record desk { runs = map (finish run_id finished t none) desk.runs })
close_check run_id (raised e) t desk = (
  raised (stopped e),
  record desk { runs = map (finish run_id failed t (some (failure_text e))) desk.runs },
)

-- The activity of an email that is checked has one.
abbrev pub activity_of : EmailRow → String
activity_of e = or_none e.cc_activity_id

abbrev pub bounces_request : String → Request (Unit {0})
bounces_request activity_id = record {
  method = "GET";
  path = "/reports/email_reports/" ⊕ activity_id ⊕ "/tracking/bounces";
  payload = tt;
  expect = 200 ∷ 201 ∷ 202 ∷ 204 ∷ [];
}

abbrev pub read_page : Option BouncePage → Result Fail (List Bounce)
read_page none = ok []
read_page (some page) =
    if page.has_next
    then raised (api (plain_error "Constant Contact returned more bounce pages than expected."))
    else ok page.records

-- `_run` up to the commit of its row.
abbrev pub start_check : Desk → Desk
start_check desk = record desk {
  runs =
      record { run_id = desk.next_run; status = running; tally = no_tally; error_detail = none }
      ∷ map abandon desk.runs;
  next_run = desk.next_run + 1;
}

module _ {W : Type 0} (out : Outside W (Unit {0}) BouncePage) where
  unfoldable pub read_answer :
      Option (Result Fail (ℕ × Option BouncePage) × Wire W BouncePage)
      → Option (Result Fail (List Bounce) × Wire W BouncePage)
  read_answer none = none
  read_answer (some (raised e, s)) = some (raised e, s)
  read_answer (some (ok (status, doc), s)) = some (read_page doc, s)

  -- `fetch_bounces`
  unfoldable pub fetch_bounces :
      String → Wire W BouncePage → Option (Result Fail (List Bounce) × Wire W BouncePage)
  unfolding read_answer
  fetch_bounces activity_id s =
      read_answer (request out (bounces_request activity_id) (max_retries + 1) s)

  module _ (norm : String → String) (system_id : ℕ) where
    abbrev pub Checking : Type 0
    Checking = Option (Result Fail (Unit {0}) × Tally × Book × Wire W BouncePage)

    -- An email that was asked about; `go` is the rest of the loop.
    unfoldable pub after_fetch :
        (Tally → Book → Wire W BouncePage → Checking)
        → EmailRow
        → Tally
        → Book
        → Option (Result Fail (List Bounce) × Wire W BouncePage)
        → Checking
    unfolding check_one
    after_fetch go email t book none = none
    after_fetch go email t book (some (raised e, s)) = some (raised e, t, book, s)
    after_fetch go email t book (some (ok records, s)) =
        let (counts, book') = check_one norm system_id (out.now s.world) email records book in
        go (add_tally counts t) book' s

    unfoldable pub check_emails : List EmailRow → Tally → Book → Wire W BouncePage → Checking
    unfolding after_fetch fetch_bounces
    check_emails [] t book s = some (ok tt, t, book, s)
    check_emails (e ∷ emails) t book s =
        after_fetch (check_emails emails) e t book (fetch_bounces (activity_of e) s)

  unfoldable pub close_checking :
      ℕ
      → Desk
      → Option (Result Fail (Unit {0}) × Tally × Book × Wire W BouncePage)
      → Option (Result CheckError Tally × Desk × Wire W BouncePage)
  close_checking run_id desk none = none
  close_checking run_id desk (some (r, t, book, s)) =
      let (r', desk') = close_check run_id r t (record desk { book = book }) in some (r', desk', s)

  -- `run_check` with its `_run`; `got` is whether the advisory lock was free.
  unfoldable pub run_check :
      (String → String)
      → Bool
      → Option ℕ
      → Desk
      → Wire W BouncePage
      → Option (Result CheckError Tally × Desk × Wire W BouncePage)
  unfolding close_checking check_emails to_check
  run_check norm false system desk s = some (raised status_busy, desk, s)
  run_check norm true none desk s = some (raised no_system_user, desk, s)
  run_check norm true (some system) desk s =
      close_checking desk.next_run (start_check desk)
        (check_emails norm system (to_check (out.now s.world) desk.book) no_tally desk.book s)
