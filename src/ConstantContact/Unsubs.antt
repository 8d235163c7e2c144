-- ===== src/ConstantContact/Unsubs.antt =====
-- constantcontact/unsubs.py: the unsubscribe sync, which copies Constant Contact's unsubscribed contacts into
-- dnc_list. A step that is not committed is in `working` only, and a rollback goes back to `committed`.
pub mod Narrows
pub mod Runs
use Prim.Native.Char.{code}
use hail_system.Prelude.{
  ℕ, ◌+◌, ◌-◌, ◌%◌, String, Bool, true, false, not, ◌&&◌, Option, none, some, List, [], ◌∷◌, map,
  any, is_some, ◌==◌, str_eq, if◌then◌else◌,
}
use hail_system.Text.{
  ◌⊕◌, any_char, strip, all_chars, size, is_upper_letter, is_lower_letter, is_digit, prefix,
}
use hail_system.Prelude.{leb, ◌||◌}
use hail_system.Exec.{Result, ok, raised}
use hail_system.ConstantContact.Transport.{Fail, api, no_token, uncaught, Outside, Wire}
use hail_system.ConstantContact.Contacts.{Query, Page, iter_unsubscribed}

-- What a contact says of itself: its address ("" where there is none), and its opt-out.
pub record Contact : Type 0 where
  pub address : String
  pub opt_out_date : Option String
  pub opt_out_source : Option String
  pub opt_out_reason : Option String

-- A row of dnc_list.
pub record DncRow : Type 0 where
  pub dnc_id : ℕ
  pub email_norm : String
  pub added_at : ℕ
  pub added_by : ℕ
  pub reason : String
  pub removed_at : Option ℕ

-- dnc_list, the newest row first, the next dnc_id, and cc_sync_conflicts.
pub record Tables : Type 0 where
  pub dnc : List DncRow
  pub next_id : ℕ
  pub conflicts : List (ℕ × ℕ)

pub data RunStatus : Type 0 where
  running finished failed : RunStatus

pub record Counts : Type 0 where
  pub fetched : ℕ
  pub inserted : ℕ
  pub already_present : ℕ
  pub conflicts : ℕ
  pub skipped : ℕ

-- A row of cc_sync_runs; the table has no column for the skipped ones.
pub record RunRow : Type 0 where
  pub run_id : ℕ
  pub status : RunStatus
  pub started_at : ℕ
  pub counts : Counts
  pub error_detail : Option String

pub data Outcome : Type 0 where
  inserted already_present conflict skipped : Outcome

-- What the sync works on.
pub record Work : Type 0 where
  pub committed : Tables
  pub working : Tables
  pub counts : Counts

-- `lower(trim(…))` in SQL, `_parse_when`, and `datetime.now`
pub record Reading : Type 0 where
  pub norm : String → String
  pub parse_when : String → Option ℕ
  pub now : ℕ

abbrev pub no_counts : Counts
no_counts = record { fetched = 0; inserted = 0; already_present = 0; conflicts = 0; skipped = 0 }

-- `counts["fetched"] += 1`, and the outcome's
abbrev pub count : Outcome → Counts → Counts
count inserted c = record c { fetched = c.fetched + 1; inserted = c.inserted + 1 }
count already_present c = record c {
  fetched = c.fetched + 1;
  already_present = c.already_present + 1;
}
count conflict c = record c { fetched = c.fetched + 1; conflicts = c.conflicts + 1 }
count skipped c = record c { fetched = c.fetched + 1; skipped = c.skipped + 1 }

-- [A-Za-z0-9 _.-]{1,40}
unfoldable pub is_clean : String → Bool
unfolding size
is_clean s =
    all_chars
      (λ c.
        is_upper_letter c
        || is_lower_letter c
        || is_digit c
        || code c == 32
        || code c == 95
        || code c == 46
        || code c == 45)
      s
    && leb 1 (size s)
    && leb (size s) 40

-- `_clean`
unfoldable pub clean : Option String → String
unfolding is_clean
clean none = "unknown"
clean (some s) = if is_clean s then s else "unknown"

abbrev pub read_date : Reading → Option String → Option ℕ
read_date reading none = none
read_date reading (some s) = reading.parse_when s

unfoldable pub reason_text : Contact → Option ℕ → String
unfolding clean
reason_text c when =
    "Constant Contact: unsubscribed (opt_out_source="
    ⊕ clean c.opt_out_source
    ⊕ ", reason="
    ⊕ clean c.opt_out_reason
    ⊕ ")"
    ⊕ (if is_some when then "" else " (date unreadable)")

abbrev pub or_now : ℕ → Option ℕ → ℕ
or_now now none = now
or_now now (some when) = when

-- The row of an address.
unfoldable pub find_row : String → List DncRow → Option DncRow
find_row norm [] = none
find_row norm (r ∷ rows) = if str_eq r.email_norm norm then some r else find_row norm rows

abbrev pub has_conflict : ℕ → ℕ → List (ℕ × ℕ) → Bool
has_conflict run_id dnc_id rows = any (λ (c : ℕ × ℕ). c.0 == run_id && c.1 == dnc_id) rows

-- INSERT INTO cc_sync_conflicts … ON CONFLICT DO NOTHING
abbrev pub add_conflict : ℕ → ℕ → Tables → Tables
add_conflict run_id dnc_id t =
    if has_conflict run_id dnc_id t.conflicts
    then t
    else record t { conflicts = (run_id, dnc_id) ∷ t.conflicts }

module _ (reading : Reading) (added_by run_id : ℕ) where
  -- The read after an insert that found the address there.
  unfoldable pub read_existing : DncRow → Tables → Outcome × Tables
  read_existing row t =
      if is_some row.removed_at
      then (conflict, add_conflict run_id row.dnc_id t)
      else (already_present, t)

  -- `_INSERT_SQL`: an address that is there already is left alone.
  unfoldable pub insert : Contact → Tables → Option DncRow → Outcome × Tables
  unfolding read_existing reason_text
  insert c t (some row) = read_existing row t
  insert c t none = (
    inserted,
    record t {
      dnc =
          record {
            dnc_id = t.next_id;
            email_norm = reading.norm (strip c.address);
            added_at = or_now reading.now (read_date reading c.opt_out_date);
            added_by = added_by;
            reason = reason_text c (read_date reading c.opt_out_date);
            removed_at = none;
          }
          ∷ t.dnc;
      next_id = t.next_id + 1;
    },
  )

  -- `_record`
  unfoldable pub record_contact : Contact → Tables → Outcome × Tables
  unfolding insert find_row
  record_contact c t =
      if not (any_char (λ d. code d == 64) (strip c.address))
      then (skipped, t)
      else insert c t (find_row (reading.norm (strip c.address)) t.dnc)

  -- The body of the loop: a commit after every hundred contacts.
  unfoldable pub take_contact : Contact → Work → Work
  unfolding record_contact
  take_contact c w =
      let (outcome, t) = record_contact c w.working in
      let counts : Counts = count outcome w.counts in
      record {
        committed = if counts.fetched % 100 == 0 then t else w.committed;
        working = t;
        counts = counts;
      }

-- The database: dnc_list and the runs, the newest first.
pub record Db : Type 0 where
  pub tables : Tables
  pub runs : List RunRow
  pub next_run : ℕ

-- `SyncBusy`, the missing system user, and what stopped the run
pub data SyncError : Type 0 where
  sync_busy no_system_user : SyncError
  stopped : Fail → SyncError

abbrev pub abandoned : String
abandoned = "abandoned:  the process ended before this run finished"

abbrev pub is_running : RunStatus → Bool
is_running running = true
is_running _ = false

-- `ABANDON_SQL`
abbrev pub abandon : RunRow → RunRow
abandon r =
    if is_running r.status then record r { status = failed; error_detail = some abandoned } else r

-- `FINISH_SQL`
abbrev pub finish : ℕ → RunStatus → Counts → Option String → RunRow → RunRow
finish run_id status counts detail r =
    if r.run_id == run_id
    then record r { status = status; counts = counts; error_detail = detail }
    else r

-- `_failure_text`
abbrev pub failure_text : Fail → String
failure_text (api e) = prefix 300 ("ApiError: " ⊕ e.message)
failure_text (no_token message) = prefix 300 ("OAuthError: " ⊕ message)
failure_text (uncaught name) = name

abbrev pub is_finished : RunStatus → Bool
is_finished finished = true
is_finished _ = false

-- `_watermark`: the newest good run's start, less a day
abbrev pub watermark : List RunRow → Option ℕ
watermark [] = none
watermark (r ∷ runs) =
    let rest = watermark runs in if is_finished r.status then some (r.started_at - 86400) else rest

abbrev pub show_when : (ℕ → String) → Option ℕ → Option String
show_when iso none = none
show_when iso (some when) = some (iso when)

-- `_run` up to the commit of its row.
unfoldable pub start_run : ℕ → Db → Db
start_run now db = record db {
  runs =
      record {
        run_id = db.next_run;
        status = running;
        started_at = now;
        counts = no_counts;
        error_detail = none;
      }
      ∷ map abandon db.runs;
  next_run = db.next_run + 1;
}

-- The end of `_run`: everything is committed, or what was not is rolled back.
unfoldable pub close_run : ℕ → Result Fail (Unit {0}) → Work → Db → Result SyncError Counts × Db
unfolding prefix
close_run run_id (ok done) w db = (
  ok w.counts,
  record db { tables = w.working; runs = map (finish run_id finished w.counts none) db.runs },
)
close_run run_id (raised e) w db = (
  raised (stopped e),
  record db {
    tables = w.committed;
    runs = map (finish run_id failed w.counts (some (failure_text e))) db.runs;
  },
)

module _ {W : Type 0} (out : Outside W (Option Query) (Page Contact)) (iso : ℕ → String)
    (reading : Reading) where
  unfoldable pub close_after :
      ℕ
      → Db
      → Option (Result Fail (Unit {0}) × Work × Wire W (Page Contact))
      → Option (Result SyncError Counts × Db × Wire W (Page Contact))
  unfolding close_run
  close_after run_id db none = none
  close_after run_id db (some (r, w, s)) =
      let (r', db') = close_run run_id r w db in some (r', db', s)

  -- `_run`
  unfoldable pub run :
      Option ℕ
      → Db
      → Wire W (Page Contact)
      → Option (Result SyncError Counts × Db × Wire W (Page Contact))
  unfolding close_after start_run take_contact iter_unsubscribed
  run none db s = some (raised no_system_user, db, s)
  run (some system) db s = close_after db.next_run (start_run reading.now db) (
      iter_unsubscribed out (take_contact reading system db.next_run)
        (show_when iso (watermark (map abandon db.runs)))
        (record { committed = db.tables; working = db.tables; counts = no_counts }) s)

  -- `run_sync`; `got` is whether the advisory lock was free.
  unfoldable pub run_sync :
      Bool
      → Option ℕ
      → Db
      → Wire W (Page Contact)
      → Option (Result SyncError Counts × Db × Wire W (Page Contact))
  unfolding run
  run_sync false system db s = some (raised sync_busy, db, s)
  run_sync true system db s = run system db s
