-- ===== src/Send/Queue/Written.antt =====
-- What `queue_batch` writes: the whole plan behind what was there, or nothing.
use hail_system.Prelude.{
  ℕ, ◌+◌, ◌≡◌, refl, sym, ap, ◌∙◌, String, true, not, Option, none, some, List, [], ◌∷◌, ◌++◌, map,
  length, length-append, append_assoc, append-nil, str_eq, if_cases, All, arith,
}
use hail_system.Exec.{Result, ok, raised}
use hail_system.SendList.{Event, Recipient, Selection}
use hail_system.Send.Queue.{
  SyncRun, QueueError, Contact, QueuedEmail, QueuedMatch, Rows, Template, Skipped, Planned, Summary,
  find_run, is_synced, Setting, saved_or, matches_of, asserted, id_of, email_row, log_rows,
  insert_one, insert_all, write_plan, with_template, with_list, chosen, queue_batch,
}
use hail_system.Send.Queue.Plan.{IsPlanned, skips, Split, Plans, plan_all-Plans}

-- The matches that a realtor's events hold.
abbrev pub all_matches : List Event → List ℕ
all_matches [] = []
all_matches (e ∷ events) = e.match_ids ++ all_matches events

matches_of-all : (events : List Event) → matches_of events ≡ all_matches events
unfolding matches_of
matches_of-all [] = refl
matches_of-all (e ∷ events) = ap (λ (ms : List ℕ). e.match_ids ++ ms) (matches_of-all events)

module _ (setting : Setting) (template_id : ℕ) where
  -- The rows of a plan, its first email's id given.
  abbrev pub emails_from : List Planned → ℕ → List QueuedEmail
  emails_from [] id = []
  emails_from (p ∷ plan) id =
      record {
        email_id = id;
        batch_id = setting.batch_id;
        realtor_id = p.realtor.realtor_id;
        recipient_email = p.email;
        template_id = template_id;
        sync_run_id = setting.sync_run_id;
        permission_asserted = asserted p.contact;
        created_by = setting.user_id;
        subject = p.subject;
        html_body = p.html;
        cc_contact_id = id_of p.contact;
      }
      ∷ emails_from plan (id + 1)

  abbrev pub match_rows : Planned → ℕ → List ℕ → List QueuedMatch
  match_rows p id match_ids =
      map
        (λ match_id. record {
          realtor_id = p.realtor.realtor_id;
          recipient_email = p.email;
          match_id = match_id;
          template_id = template_id;
          sent_by = setting.user_id;
          email_id = id;
          level = (setting.report_level match_id).0;
          zone_set_id = (setting.report_level match_id).1;
        })
        match_ids

  abbrev pub log_from : List Planned → ℕ → List QueuedMatch
  log_from [] id = []
  log_from (p ∷ plan) id = match_rows p id (all_matches p.realtor.events) ++ log_from plan (id + 1)

  abbrev pub ids_from : List Planned → ℕ → List ℕ
  ids_from [] id = []
  ids_from (p ∷ plan) id = id ∷ ids_from plan (id + 1)

  -- The ids and the number of matches that the loop returns, and the rows that it leaves.
  abbrev Inserts : List Planned → Rows → List ℕ → ℕ → (List ℕ × ℕ) × Rows → Type 0
  Inserts plan old ids matches ((ids', matches'), rows) =
      (ids' ≡ ids ++ ids_from plan old.next_email)
      × (matches' ≡ matches + length (log_from plan old.next_email))
      × (rows.emails ≡ old.emails ++ emails_from plan old.next_email)
      × (rows.log ≡ old.log ++ log_from plan old.next_email)

  insert_all-Inserts :
      (plan : List Planned) (rows : Rows) (ids : List ℕ) (matches : ℕ)
      → Inserts plan rows ids matches (insert_all setting template_id plan rows ids matches)
  unfolding insert_all log_rows
  insert_all-Inserts [] rows ids matches =
      (sym (append-nil ids), omega arith, sym (append-nil rows.emails), sym (append-nil rows.log))
  insert_all-Inserts (p ∷ plan) rows ids matches =
      let id : ℕ = rows.next_email in
      let own : List QueuedMatch = match_rows p id (all_matches p.realtor.events) in
      let same : match_rows p id (matches_of p.realtor.events) ≡ own =
        ap (λ (ms : List ℕ). match_rows p id ms) (matches_of-all p.realtor.events) in
      let (i, m, e, l) =
        insert_all-Inserts plan (insert_one setting template_id p rows) (ids ++ (id ∷ []))
          (matches + length (match_rows p id (matches_of p.realtor.events))) in
      (
        i ∙ append_assoc ids (id ∷ []) (ids_from plan (id + 1)),
        omega (
          arith,
          m,
          length-append own (log_from plan (id + 1)),
          ap (λ (ms : List QueuedMatch). length ms) same,
        ),
        e
            ∙ append_assoc rows.emails (email_row setting template_id p id ∷ [])
                (emails_from plan (id + 1)),
        l
            ∙ ap (λ (ms : List QueuedMatch). (rows.log ++ ms) ++ log_from plan (id + 1)) same
            ∙ append_assoc rows.log own (log_from plan (id + 1)),
      )

-- What a call leaves of `old`, for a list of realtors: nothing new where it is refused, else the whole plan.
abbrev pub Written :
    Option (List String)
    → (String → Option (Option Contact))
    → (Recipient → Option (String × String))
    → Setting
    → List Recipient
    → Rows
    → Result QueueError Summary × Rows
    → Type 0
Written allowed contacts render setting realtors old (raised e, rows) = rows ≡ old
Written allowed contacts render setting realtors old (ok s, rows) =
    (template_id : ℕ) × (plan : List Planned) × All (IsPlanned allowed contacts) plan
    × Split allowed contacts render realtors plan s.skipped
    × (length plan ≡ s.emails)
    × (s.emails + skips s.skipped ≡ length realtors)
    × (s.email_ids ≡ ids_from setting template_id plan old.next_email)
    × (s.matches ≡ length (log_from setting template_id plan old.next_email))
    × (rows.emails ≡ old.emails ++ emails_from setting template_id plan old.next_email)
    × (rows.log ≡ old.log ++ log_from setting template_id plan old.next_email)

module _ (allowed : Option (List String)) (contacts : String → Option (Option Contact))
    (render : Recipient → Option (String × String)) (setting : Setting) where
  write_plan-Written :
      (found : Selection) (template_id : ℕ) (realtors : List Recipient)
      (r : Result QueueError (List Planned × Skipped)) (rows : Rows)
      → Plans allowed contacts render realtors r
      → Written allowed contacts render setting realtors rows
          (write_plan setting found template_id r rows)
  unfolding write_plan
  write_plan-Written found template_id realtors (raised e) rows h = refl
  write_plan-Written found template_id realtors (ok ([], k)) rows (h, a, s) = (
    template_id,
    [],
    tt,
    s,
    refl,
    h,
    refl,
    refl,
    sym (append-nil rows.emails),
    sym (append-nil rows.log),
  )
  write_plan-Written found template_id realtors (ok (p ∷ plan, k)) rows (h, a, s) =
      let (i, m, e, l) = insert_all-Inserts setting template_id (p ∷ plan) rows [] 0 in
      (template_id, p ∷ plan, a, s, refl, h, i, omega (arith, m), e, l)

-- The realtors of the list that is used.
abbrev pub realtors_in : Option Selection → List Recipient
realtors_in none = []
realtors_in (some found) = found.realtors

-- A call that is not refused had its sync in time, and a template for reports.
abbrev pub Guarded : Setting → List SyncRun → Result QueueError Summary × Rows → Type 0
Guarded setting runs (raised e, rows) = Unit
Guarded setting runs (ok s, rows) =
    (is_synced setting.now (find_run setting.sync_run_id runs) ≡ true)
    × ((t : Template) × (setting.template ≡ some t) × (str_eq t.kind "report" ≡ true))

module _ (allowed : Option (List String)) (contacts : String → Option (Option Contact))
    (render : Recipient → Option (String × String)) (setting : Setting) (runs : List SyncRun) where
  abbrev Queued : List Recipient → Rows → Result QueueError Summary × Rows → Type 0
  Queued realtors rows r =
      Written allowed contacts render setting realtors rows r × Guarded setting runs r

  guarded :
      (t : Template)
      → is_synced setting.now (find_run setting.sync_run_id runs) ≡ true
      → setting.template ≡ some t
      → str_eq t.kind "report" ≡ true
      → (r : Result QueueError Summary × Rows) → Guarded setting runs r
  guarded t s e k (raised x, rows) = tt
  guarded t s e k (ok x, rows) = (s, (t, e, k))

  with_template-Queued :
      (found : Selection) (o : Option Template) (rows : Rows)
      → is_synced setting.now (find_run setting.sync_run_id runs) ≡ true
      → setting.template ≡ o
      → Queued found.realtors rows (with_template allowed contacts render setting found o rows)
  with_template-Queued found none rows s e = (refl, tt)
  with_template-Queued found (some t) rows s e =
      if_cases (Queued found.realtors rows) (not (str_eq t.kind "report")) (λ _. (refl, tt))
        (λ k. (
          write_plan-Written allowed contacts render setting found
              (saved_or setting.new_template t.saved_id) found.realtors _ rows
              (plan_all-Plans allowed contacts render found.realtors),
          guarded t s e (ground (arith, k)) _,
        ))

  with_list-Queued :
      (o : Option Selection) (rows : Rows)
      → is_synced setting.now (find_run setting.sync_run_id runs) ≡ true
      → Queued (realtors_in o) rows (with_list allowed contacts render setting o rows)
  with_list-Queued none rows s = (refl, tt)
  with_list-Queued (some found) rows s = with_template-Queued found setting.template rows s refl

  -- A call that is refused writes nothing. One that is not had its unsubscribe sync succeed within 15 minutes and has
  -- a report template; the realtors of its list, in their order, are each counted as not allowed or as unsubscribed
  -- in Constant Contact where they are, listed as not rendered, or queued with their own address, contact and text,
  -- where the address is allowed, was looked up and is not unsubscribed; and what is written is an email for each that is
  -- queued, with consecutive ids, and a row of send_log for every match of its events, behind what was there.
  pub queue_batch-Queued :
      (send_list built : Option Selection) (rows : Rows)
      → Written allowed contacts render setting
          (realtors_in (chosen send_list built))
          rows
          (queue_batch allowed contacts render setting runs send_list built rows)
        × Guarded setting runs
            (queue_batch allowed contacts render setting runs send_list built rows)
  unfolding queue_batch
  queue_batch-Queued send_list built rows =
      if_cases (Queued (realtors_in (chosen send_list built)) rows)
        (not (is_synced setting.now (find_run setting.sync_run_id runs))) (λ _. (refl, tt))
        (λ s. with_list-Queued (chosen send_list built) rows (ground (arith, s)))
