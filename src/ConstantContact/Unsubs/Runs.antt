-- ===== src/ConstantContact/Unsubs/Runs.antt =====
-- A whole run of the sync: what it leaves of dnc_list and of its own row, however it ends.
use hail_system.Prelude.{
  ℕ, suc, ◌+◌, ◌%◌, ◌≡◌, refl, ap, sym, ◌∙◌, String, Bool, true, false, Option, none, some, List,
  [], ◌∷◌, ◌++◌, map, All, append_assoc, length, length-append, ◌==◌, arith, if_cases,
}
use hail_system.Exec.{Result, ok, raised}
use hail_system.ConstantContact.Transport.{Fail, Outside, Wire}
use hail_system.ConstantContact.Contacts.{
  Query, Page, iter_unsubscribed, Leaves, iter_unsubscribed-Leaves,
}
use hail_system.ConstantContact.Unsubs.{
  Contact, DncRow, Tables, RunStatus, finished, failed, Counts, RunRow, Outcome, inserted,
  already_present, conflict, skipped, Work, Reading, count, record_contact, take_contact, Db,
  SyncError, sync_busy, no_system_user, stopped, is_running, abandon, finish, start_run, watermark,
  show_when, failure_text, close_run, close_after, run, run_sync, no_counts,
}
use hail_system.ConstantContact.Unsubs.Narrows.{Extends, Adds, Says, record_contact-Says}

abbrev pub one_if_inserted : Outcome → ℕ
one_if_inserted inserted = 1
one_if_inserted _ = 0

-- A step that adds a row where its outcome says so, and none else.
abbrev Grows : Outcome → List DncRow → List DncRow → Type 0
Grows o old new = (added : List DncRow) × (new ≡ added ++ old) × (length added ≡ one_if_inserted o)

Says-Grows :
    (reading : Reading) (run_id : ℕ) (c : Contact) (t : Tables) (o : Outcome) (t' : Tables)
    → Says reading run_id c t o t'
    → Grows o t.dnc t'.dnc
Says-Grows reading run_id c t inserted t' (row, e, a, b, d, k) = (row ∷ [], e, refl)
Says-Grows reading run_id c t already_present t' (e, h) = ([], ap (λ (u : Tables). u.dnc) e, refl)
Says-Grows reading run_id c t conflict t' (e, h) = ([], e, refl)
Says-Grows reading run_id c t skipped t' (e, h) = ([], ap (λ (u : Tables). u.dnc) e, refl)

-- The work of a run that began with `old`.
record IsWorking (old : List DncRow) (w : Work) : Type 0 where
  committed : Extends old w.committed.dnc
  working : Extends old w.working.dnc
  adds : Adds w.counts
  grown : length w.working.dnc ≡ length old + w.counts.inserted

module _ (reading : Reading) (added_by run_id : ℕ) (old : List DncRow) where
  counted :
      (o : Outcome) (c : Counts)
      → Adds c
      → Adds (count o c) × ((count o c).inserted ≡ c.inserted + one_if_inserted o)
  counted inserted c h = omega arith
  counted already_present c h = omega arith
  counted conflict c h = omega arith
  counted skipped c h = omega arith

  extended :
      (o : Outcome) (mid new : List DncRow) → Extends old mid → Grows o mid new → Extends old new
  extended o mid new (xs, e) (ys, f, l) =
      (ys ++ xs, f ∙ ap (λ (m : List DncRow). ys ++ m) e ∙ sym (append_assoc ys xs old))

  grown_by :
      (o : Outcome) (mid new : List DncRow)
      → Grows o mid new
      → length new ≡ length mid + one_if_inserted o
  grown_by o mid new (ys, f, l) =
      ap (λ (m : List DncRow). length m) f ∙ omega (arith, length-append ys mid, l)

  take_contact-IsWorking :
      (c : Contact) (w : Work)
      → IsWorking old w
      → IsWorking old (take_contact reading added_by run_id c w)
  unfolding take_contact
  take_contact-IsWorking c w h =
      let p : Outcome × Tables = record_contact reading added_by run_id c w.working in
      let g : Grows p.0 w.working.dnc p.1.dnc =
        Says-Grows reading run_id c w.working p.0 p.1
          (record_contact-Says reading added_by run_id c w.working) in
      let e : Extends old p.1.dnc = extended p.0 w.working.dnc p.1.dnc h.working g in
      record {
        committed =
            if_cases (λ (t : Tables). Extends old t.dnc) ((count p.0 w.counts).fetched % 100 == 0)
              (λ _. e) (λ _. h.committed);
        working = e;
        adds = (counted p.0 w.counts h.adds).0;
        grown =
            omega (
              arith,
              grown_by p.0 w.working.dnc p.1.dnc g,
              h.grown,
              (counted p.0 w.counts h.adds).1,
            );
      }

abbrev pub IsClosed : List RunRow → Type 0
IsClosed runs = All (λ (r : RunRow). is_running r.status ≡ false) runs

abandon-closed : (r : RunRow) → is_running (abandon r).status ≡ false
abandon-closed r =
    if_cases (λ (q : RunRow). is_running q.status ≡ false) (is_running r.status) (λ _. refl)
      (λ h. h)

module _ (run_id : ℕ) (status : RunStatus) (counts : Counts) (detail : Option String)
    (over : is_running status ≡ false) where
  finish-IsClosed :
      (runs : List RunRow) → IsClosed (map (finish run_id status counts detail) (map abandon runs))
  finish-IsClosed [] = tt
  finish-IsClosed (r ∷ runs) = (
    if_cases (λ (q : RunRow). is_running q.status ≡ false) ((abandon r).run_id == run_id)
        (λ _. over) (λ _. abandon-closed r),
    finish-IsClosed runs,
  )

  finish-length :
      (runs : List RunRow)
      → length (map (finish run_id status counts detail) (map abandon runs)) ≡ length runs
  finish-length [] = refl
  finish-length (r ∷ runs) = ap (λ (n : ℕ). suc n) (finish-length runs)

  finish_own :
      (r : RunRow)
      → r.run_id ≡ run_id
      → is_running (finish run_id status counts detail r).status ≡ false
  finish_own r e =
      if_cases (λ (q : RunRow). is_running q.status ≡ false) (r.run_id == run_id) (λ _. over)
        (λ h. absurd (ground (arith, h, e)))

-- What a sync leaves, however it ends. No row of dnc_list is changed or removed.
abbrev pub Narrowed : {S : Type 0} → Db → Option (Result SyncError Counts × Db × S) → Type 0
Narrowed db none = ⊥
Narrowed db (some (raised sync_busy, db', s)) = db' ≡ db
Narrowed db (some (raised no_system_user, db', s)) = db' ≡ db
Narrowed db (some (raised (stopped e), db', s)) =
    Extends db.tables.dnc db'.tables.dnc
    × IsClosed db'.runs
    × (length db'.runs ≡ length db.runs + 1)
Narrowed db (some (ok counts, db', s)) =
    Extends db.tables.dnc db'.tables.dnc
    × (length db'.tables.dnc ≡ length db.tables.dnc + counts.inserted)
    × Adds counts
    × IsClosed db'.runs
    × (length db'.runs ≡ length db.runs + 1)

module _ {W : Type 0} (iso : ℕ → String) (reading : Reading) where
  close_after-Narrowed :
      (out : Outside W (Option Query) (Page Contact)) (db : Db)
      (r : Option (Result Fail (Unit {0}) × Work × Wire W (Page Contact)))
      → Leaves (IsWorking db.tables.dnc) r
      → Narrowed db (close_after out iso reading db.next_run (start_run reading.now db) r)
  unfolding close_after close_run start_run
  close_after-Narrowed out db none h = h
  close_after-Narrowed out db (some (ok tt, w, s)) h = (
    h.working,
    h.grown,
    h.adds,
    (
      finish_own db.next_run finished w.counts none refl _ refl,
      finish-IsClosed db.next_run finished w.counts none refl db.runs,
    ),
    omega (arith, finish-length db.next_run finished w.counts none refl db.runs),
  )
  close_after-Narrowed out db (some (raised e, w, s)) h = (
    h.committed,
    (
      finish_own db.next_run failed w.counts _ refl _ refl,
      finish-IsClosed db.next_run failed w.counts _ refl db.runs,
    ),
    omega (arith, finish-length db.next_run failed w.counts (some (failure_text e)) refl db.runs),
  )

  run-Narrowed :
      (out : Outside W (Option Query) (Page Contact)) (system : Option ℕ) (db : Db)
      (s : Wire W (Page Contact))
      → Narrowed db (run out iso reading system db s)
  unfolding run close_after start_run take_contact iter_unsubscribed
  run-Narrowed out none db s = refl
  run-Narrowed out (some system) db s = close_after-Narrowed out db _ (
      iter_unsubscribed-Leaves out (take_contact reading system db.next_run)
        (IsWorking db.tables.dnc) (take_contact-IsWorking reading system db.next_run db.tables.dnc)
        (show_when iso (watermark (map abandon db.runs)))
        (record { committed = db.tables; working = db.tables; counts = no_counts }) s
        (record { committed = ([], refl); working = ([], refl); adds = refl; grown = omega arith }))

-- A sync ends, and it never changes or removes a row of dnc_list: it only puts rows in front. One that finds the
-- lock taken, or no system user, changes nothing. Any other closes every row of cc_sync_runs, its own new one and
-- those that dead processes left running; when it succeeds, dnc_list has grown by the rows it counts as inserted, and
-- its counts add up to the contacts fetched.
pub run_sync-Narrowed :
    {W : Type 0} (out : Outside W (Option Query) (Page Contact)) (iso : ℕ → String)
    (reading : Reading) (got : Bool) (system : Option ℕ) (db : Db) (s : Wire W (Page Contact))
    → Narrowed db (run_sync out iso reading got system db s)
unfolding run_sync
run_sync-Narrowed out iso reading false system db s = refl
run_sync-Narrowed out iso reading true system db s = run-Narrowed iso reading out system db s
