-- ===== src/Email/Properties/Settled/Rows.antt =====
-- The rows that a delivery leaves, by its outcome.
use hail_system.Prelude.{
  ℕ, String, ◌≡◌, refl, ap, ◌∙◌, Bool, true, false, Option, none, some, List, map, ◌==◌, ◌&&◌,
  if◌then◌else◌, is_some,
}
use hail_system.Email.Store
use hail_system.Email.Store.{
  EmailRow, LogRow, Db, find_email, has_queued, update_email, update_queued, store_ids, mark, fail,
  park, finish, set_id, set_ids, set_mark, note_error, fail_row, sent_row, IdColumn, cc_campaign_id,
  cc_activity_id,
}
use hail_system.Email.Rows.{
  after_update, emails-update_queued, log-update_queued, emails_but, emails_but-update_email,
  find_email-update_email, email_id-note_error, log-update_email, of_others,
  of_others-update_queued, has_queued-update_queued, is_noted,
}

-- The email's queued rows of send_log as failed, and as sent; all others as they are.
abbrev pub rows_failed : ℕ → String → ℕ → List LogRow → List LogRow
rows_failed id detail now rows =
    map
      (λ (l : LogRow).
        if (l.email_id == id) && Store.is_queued l.send_status
        then record l {
          send_status = Store.failed;
          error_detail = some detail;
          status_updated_at = some now;
        }
        else l)
      rows

abbrev pub rows_sent : ℕ → Option String → ℕ → List LogRow → List LogRow
rows_sent id activity_id now rows =
    map
      (λ (l : LogRow).
        if (l.email_id == id) && Store.is_queued l.send_status
        then record l {
          send_status = Store.sent;
          sent_at = some now;
          provider_message_id = activity_id;
          status_updated_at = some now;
        }
        else l)
      rows

-- None of the email's rows is queued any more, and what is another email's is as it was.
abbrev pub Settled : ℕ → Db → Db → Type 0
Settled id old db =
    (has_queued id db.log ≡ false)
    × (of_others id db.log ≡ of_others id old.log)
    × (emails_but id db.emails ≡ emails_but id old.emails)

abbrev pub IsFailed : ℕ → Db → Db → Type 0
IsFailed id old db =
    Settled id old db
    × (is_noted (find_email id db.emails) ≡ true)
    × ((detail : String) × (now : ℕ) × (db.log ≡ rows_failed id detail now old.log))

abbrev pub IsSent : ℕ → Db → Db → Type 0
IsSent id old db =
    Settled id old db × ((a : Option String) × (now : ℕ) × (db.log ≡ rows_sent id a now old.log))

-- The send_log is as it was, with an error at the email.
abbrev pub IsHeld : ℕ → Db → Db → Type 0
IsHeld id old db =
    (db.log ≡ old.log)
    × (is_noted (find_email id db.emails) ≡ true)
    × (emails_but id db.emails ≡ emails_but id old.emails)

-- The send_log is as it was, and the email's row is there.
abbrev pub IsUntouched : ℕ → Db → Db → Type 0
IsUntouched id old db =
    (db.log ≡ old.log)
    × (is_some (find_email id db.emails) ≡ true)
    × (emails_but id db.emails ≡ emails_but id old.emails)

still_there :
    (f : EmailRow → EmailRow) (o : Option EmailRow)
    → is_some o ≡ true
    → is_some (after_update f o) ≡ true
still_there f (some r) h = refl
still_there f none h = h

noted :
    (d : String) (o : Option EmailRow)
    → is_some o ≡ true
    → is_noted (after_update (note_error d) o) ≡ true
noted d none h = h
noted d (some r) h = noted_row (is_some r.error_detail) refl
  where
    noted_row :
        (b : Bool) → is_some r.error_detail ≡ b → is_some (note_error d r).error_detail ≡ true
    noted_row true e = rw e e
    noted_row false e = rw e refl

module _ (id : ℕ) (old : Db) where
  pub update-IsUntouched :
      (f : EmailRow → EmailRow) (db : Db)
      → ((r : EmailRow) → (f r).email_id ≡ r.email_id)
      → IsUntouched id old db
      → IsUntouched id old (update_email id f db)
  update-IsUntouched f db keeps (k, l, m) = (
    log-update_email id f db ∙ k,
    rw (find_email-update_email id f db keeps) (still_there f (find_email id db.emails) l),
    emails_but-update_email id f db keeps ∙ m,
  )

  pub park-IsHeld :
      (d : String) (db : Db)
      → IsUntouched id old db
      → IsHeld id old (update_email id (note_error d) db)
  park-IsHeld d db (k, l, m) = (
    log-update_email id (note_error d) db ∙ k,
    rw (find_email-update_email id (note_error d) db (email_id-note_error d))
        (noted d (find_email id db.emails) l),
    emails_but-update_email id (note_error d) db (email_id-note_error d) ∙ m,
  )

  -- Every queued row of the email gets a status that is not queued.
  queued-Settled :
      (f : LogRow → LogRow) (db : Db)
      → ((l : LogRow) → (f l).email_id ≡ l.email_id)
      → ((l : LogRow) → Store.is_queued (f l).send_status ≡ false)
      → db.log ≡ old.log
      → emails_but id db.emails ≡ emails_but id old.emails
      → Settled id old (update_queued id f db)
  queued-Settled f db keeps settles e m = (
    has_queued-update_queued id f keeps settles db,
    of_others-update_queued id f keeps db ∙ ap (λ (ls : List LogRow). of_others id ls) e,
    ap (λ (rows : List EmailRow). emails_but id rows) (emails-update_queued id f db) ∙ m,
  )

  pub fail-IsFailed :
      (d : String) (now : ℕ) (db : Db)
      → IsUntouched id old db
      → IsFailed id old (update_queued id (fail_row d now) (update_email id (note_error d) db))
  fail-IsFailed d now db h =
      let (k, n, m) = park-IsHeld d db h in
      let noted_db : Db = update_email id (note_error d) db in
      (
        queued-Settled (fail_row d now) noted_db (λ r. refl) (λ r. refl) k m,
        ap (λ (rows : List EmailRow). is_noted (find_email id rows))
              (emails-update_queued id (fail_row d now) noted_db)
            ∙ n,
        (
          d,
          now,
          log-update_queued id (fail_row d now) noted_db
              ∙ ap (λ (rows : List LogRow). rows_failed id d now rows) k,
        ),
      )

  pub finish-IsSent :
      (a : Option String) (now : ℕ) (db : Db)
      → IsUntouched id old db
      → IsSent id old (update_queued id (sent_row a now) db)
  finish-IsSent a now db (k, l, m) = (
    queued-Settled (sent_row a now) db (λ r. refl) (λ r. refl) k m,
    (
      a,
      now,
      log-update_queued id (sent_row a now) db
          ∙ ap (λ (rows : List LogRow). rows_sent id a now rows) k,
    ),
  )

  pub mark-IsSent :
      (f : EmailRow → EmailRow) (db : Db)
      → ((r : EmailRow) → (f r).email_id ≡ r.email_id)
      → IsSent id old db
      → IsSent id old (update_email id f db)
  mark-IsSent f db keeps ((q, o, m), s) =
      rw (log-update_email id f db) (((q, o, emails_but-update_email id f db keeps ∙ m), s))
