-- ===== src/Email/Rows.antt =====
-- What the database steps of email/deliver.py do to the rows of one email and to all others.
use hail_system.Prelude.{
  ℕ, String, ◌≡◌, refl, sym, ap, ◌∙◌, Bool, false, ◌&&◌, Option, none, some, List, [], ◌∷◌, map,
  is_some, if◌then◌else◌, arith, Bool-cases, inl, inr, ◌==◌, ==_iff,
}
use hail_system.Email.Store.{
  EmailRow, LogRow, Db, is_queued, IdColumn, cc_contact_id, cc_list_id, cc_campaign_id,
  cc_activity_id, set_id, set_mark, MarkColumn, scheduled_at, list_deleted_at, find_email,
  has_queued, update_email, update_queued, note_error,
}

abbrev pub after_update : (EmailRow → EmailRow) → Option EmailRow → Option EmailRow
after_update f none = none
after_update f (some r) = some (f r)

find_email-map :
    (id : ℕ) (f : EmailRow → EmailRow)
    → ((r : EmailRow) → (f r).email_id ≡ r.email_id)
    → (rows : List EmailRow)
    → find_email id (map (λ (r : EmailRow). if r.email_id == id then f r else r) rows)
      ≡ after_update f (find_email id rows)
unfolding find_email
find_email-map id f keeps [] = refl
find_email-map id f keeps (r ∷ rows) = elim (Bool-cases (r.email_id == id)) [
  | inl same ↦ simp (same, keeps r)
  | inr other ↦ simp (other, find_email-map id f keeps rows)
]

pub email_id-find_email :
    (id : ℕ) (rows : List EmailRow) (row : EmailRow)
    → find_email id rows ≡ some row
    → row.email_id ≡ id
unfolding find_email
email_id-find_email id [] row h = absurd (cc h)
email_id-find_email id (r ∷ rows) row h = elim (Bool-cases (r.email_id == id)) [
  | inl same ↦
      let e : some r ≡ some row = simp same at h in
      ap (λ (o : Option EmailRow). id_in o) (sym e) ∙ (==_iff r.email_id id).0 same
  | inr other ↦ email_id-find_email id rows row (simp other at h)
]
  where
    id_in : Option EmailRow → ℕ
    id_in none = id
    id_in (some r) = r.email_id

-- The row of an email after an update of it.
pub find_email-update_email :
    (id : ℕ) (f : EmailRow → EmailRow) (db : Db)
    → ((r : EmailRow) → (f r).email_id ≡ r.email_id)
    → find_email id (update_email id f db).emails ≡ after_update f (find_email id db.emails)
unfolding update_email
find_email-update_email id f db keeps = find_email-map id f keeps db.emails

pub log-update_email :
    (id : ℕ) (f : EmailRow → EmailRow) (db : Db) → (update_email id f db).log ≡ db.log
unfolding update_email
log-update_email id f db = refl

pub emails-update_queued :
    (id : ℕ) (f : LogRow → LogRow) (db : Db) → (update_queued id f db).emails ≡ db.emails
unfolding update_queued
emails-update_queued id f db = refl

pub email_id-set_id :
    (c : IdColumn) (v : Option String) (r : EmailRow) → (set_id c v r).email_id ≡ r.email_id
email_id-set_id cc_contact_id v r = refl
email_id-set_id cc_list_id v r = refl
email_id-set_id cc_campaign_id v r = refl
email_id-set_id cc_activity_id v r = refl

pub email_id-set_mark :
    (c : MarkColumn) (t : ℕ) (r : EmailRow) → (set_mark c t r).email_id ≡ r.email_id
email_id-set_mark scheduled_at t r = refl
email_id-set_mark list_deleted_at t r = refl

pub email_id-note_error : (d : String) (r : EmailRow) → (note_error d r).email_id ≡ r.email_id
email_id-note_error d r = ground arith

-- The send_log rows of other emails, in order.
abbrev pub of_others : ℕ → List LogRow → List LogRow
of_others id [] = []
of_others id (l ∷ rows) = if l.email_id == id then of_others id rows else l ∷ of_others id rows

module _ (id : ℕ) (f : LogRow → LogRow) (keeps : (l : LogRow) → (f l).email_id ≡ l.email_id) where
  of_others-map :
      (rows : List LogRow)
      → of_others id (
          map
            (λ (l : LogRow). if (l.email_id == id) && is_queued l.send_status then f l else l)
            rows)
        ≡ of_others id rows
  of_others-map [] = refl
  of_others-map (l ∷ rows) = elim (Bool-cases (l.email_id == id)) [
    | inl mine ↦ elim (Bool-cases (is_queued l.send_status)) [
      | inl waiting ↦ simp (mine, waiting, keeps l, of_others-map rows)
      | inr done ↦ simp (mine, done, of_others-map rows)
    ]
    | inr other ↦ simp (other, of_others-map rows)
  ]

  pub of_others-update_queued :
      (db : Db) → of_others id (update_queued id f db).log ≡ of_others id db.log
  unfolding update_queued
  of_others-update_queued db = of_others-map db.log

  has_queued-map :
      ((l : LogRow) → is_queued (f l).send_status ≡ false)
      → (rows : List LogRow)
      → has_queued id (
          map
            (λ (l : LogRow). if (l.email_id == id) && is_queued l.send_status then f l else l)
            rows)
        ≡ false
  has_queued-map settles [] = refl
  has_queued-map settles (l ∷ rows) = elim (Bool-cases (l.email_id == id)) [
    | inl mine ↦ elim (Bool-cases (is_queued l.send_status)) [
      | inl waiting ↦ simp (mine, waiting, keeps l, settles l, has_queued-map settles rows)
      | inr done ↦ simp (mine, done, has_queued-map settles rows)
    ]
    | inr other ↦ simp (other, has_queued-map settles rows)
  ]

  pub has_queued-update_queued :
      ((l : LogRow) → is_queued (f l).send_status ≡ false)
      → (db : Db) → has_queued id (update_queued id f db).log ≡ false
  unfolding update_queued
  has_queued-update_queued settles db = has_queued-map settles db.log

-- The sent_emails rows of other emails, in order.
abbrev pub emails_but : ℕ → List EmailRow → List EmailRow
emails_but id [] = []
emails_but id (r ∷ rows) = if r.email_id == id then emails_but id rows else r ∷ emails_but id rows

emails_but-map :
    (id : ℕ) (f : EmailRow → EmailRow)
    → ((r : EmailRow) → (f r).email_id ≡ r.email_id)
    → (rows : List EmailRow)
    → emails_but id (map (λ (r : EmailRow). if r.email_id == id then f r else r) rows)
      ≡ emails_but id rows
emails_but-map id f keeps [] = refl
emails_but-map id f keeps (r ∷ rows) = elim (Bool-cases (r.email_id == id)) [
  | inl mine ↦ simp (mine, keeps r, emails_but-map id f keeps rows)
  | inr other ↦ simp (other, emails_but-map id f keeps rows)
]

pub emails_but-update_email :
    (id : ℕ) (f : EmailRow → EmailRow) (db : Db)
    → ((r : EmailRow) → (f r).email_id ≡ r.email_id)
    → emails_but id (update_email id f db).emails ≡ emails_but id db.emails
unfolding update_email
emails_but-update_email id f db keeps = emails_but-map id f keeps db.emails

pub log-update_queued :
    (id : ℕ) (f : LogRow → LogRow) (db : Db)
    → (update_queued id f db).log
      ≡ map
          (λ (l : LogRow). if (l.email_id == id) && is_queued l.send_status then f l else l)
          db.log
unfolding update_queued
log-update_queued id f db = refl

abbrev pub activity_in : Option EmailRow → Option String
activity_in none = none
activity_in (some r) = r.cc_activity_id

-- The activity that is on disk for an email.
abbrev pub activity_of : ℕ → Db → Option String
activity_of id db = activity_in (find_email id db.emails)

-- Whether an error is recorded for an email.
abbrev pub is_noted : Option EmailRow → Bool
is_noted none = false
is_noted (some r) = is_some r.error_detail
