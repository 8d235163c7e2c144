-- ===== src/ConstantContact/Bounces/Runs.antt =====
-- A whole bounce check: what it changes, what it counts, and its rows in cc_status_runs.
pub mod Progress
pub mod Loop
use hail_system.Prelude.{
  ◌+◌, ◌≤◌, ◌<◌, ◌≡◌, sym, ap, subst, ◌∙◌, ◌⊎◌, inl, inr, String, false, Option, none, some, List,
  ◌++◌, any, length, length-append, All, append_assoc,
}
use hail_system.Exec.{Result, ok, raised}
use hail_system.Email.Store.{bounced, EmailRow, LogRow, is_sent}
use hail_system.ConstantContact.Transport.{Request, Outside, Wire}
use hail_system.ConstantContact.Transport.Retries.{Ended, request-Ended}
use hail_system.ConstantContact.Unsubs.{DncRow, is_running}
use hail_system.ConstantContact.Bounces.{
  Bounce, BouncePage, is_hard, worst_code, is_hit, bounce_row, count_if, detail_of, suppressed_row,
  suppress, record_bounce, check_one, Tally, no_tally, StatusRun, CheckError, status_busy,
  no_system_user, stopped, Desk, add_tally, activity_of, bounces_request, read_answer,
  fetch_bounces, after_fetch, check_emails,
}
use hail_system.ConstantContact.Bounces.Runs.Progress.{
  Entry, IsDone, Little, no_entry-Fates, record_bounce-Little, Little-IsDone,
}
use hail_system.ConstantContact.Bounces.Runs.Loop.{AllDone, Asked, SomeDone, email_in}

abbrev pub IsClosed : List StatusRun → Type 0
IsClosed runs = All (λ (r : StatusRun). is_running r.status ≡ false) runs

module _ {W : Type 0} (out : Outside W (Unit {0}) BouncePage) (norm : String → String)
    (emails : List EmailRow) (desk : Desk) (s : Wire W BouncePage) where
  -- What a check of the emails leaves.
  abbrev pub Recorded : Option (Result CheckError Tally × Desk × Wire W BouncePage) → Type 0
  Recorded none = ⊥
  Recorded (some (raised status_busy, desk', s')) = desk' ≡ desk
  Recorded (some (raised no_system_user, desk', s')) = desk' ≡ desk
  Recorded (some (raised (stopped e), desk', s')) =
      ((u : Tally) × SomeDone out norm emails desk.book s no_tally e desk'.book u s')
      × IsClosed desk'.runs
  Recorded (some (ok u, desk', s')) =
      AllDone out norm emails desk.book s no_tally desk'.book u s' × IsClosed desk'.runs
