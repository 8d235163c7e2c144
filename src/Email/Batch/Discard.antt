-- ===== src/Email/Batch/Discard.antt =====
-- `_UNTOUCHED_SQL`, `count_untouched` and the two updates of `discard_queued` of email/deliver.py.
use hail_system.Prelude.{
  ℕ, ◌+◌, String, ◌≡◌, refl, ap, Bool, false, not, ◌&&◌, some, List, [], ◌∷◌, map, any, ◌==◌,
  str_eq, is_some, if◌then◌else◌, arith, Bool-cases, inl, inr,
}
use hail_system.Email.Store.{EmailRow, LogRow, Db, is_queued, has_queued, fail_row}

-- Nothing has been recorded for the email in Constant Contact, and it is still queued.
pub is_untouched : String → List LogRow → EmailRow → Bool
is_untouched batch_id log r =
    str_eq r.batch_id batch_id
    && not (is_some r.error_detail)
    && not (is_some r.cc_list_id)
    && not (is_some r.cc_campaign_id)
    && not (is_some r.cc_activity_id)
    && not (is_some r.scheduled_at)
    && not (is_some r.list_deleted_at)
    && has_queued r.email_id log

-- The rows that pass a test, as `count(*)` counts them.
count_rows : (EmailRow → Bool) → List EmailRow → ℕ
count_rows p [] = 0
count_rows p (r ∷ rows) = (if p r then 1 else 0) + count_rows p rows

pub count_untouched : String → Db → ℕ
unfolding is_untouched count_rows
count_untouched batch_id db = count_rows (is_untouched batch_id db.log) db.emails

hit_ids : (EmailRow → Bool) → List EmailRow → List ℕ
hit_ids p [] = []
hit_ids p (r ∷ rows) = let rest = hit_ids p rows in if p r then r.email_id ∷ rest else rest

discard_email : (EmailRow → Bool) → String → EmailRow → EmailRow
discard_email p detail r = if p r then record r { error_detail = some detail } else r

discard_log : List ℕ → String → ℕ → LogRow → LogRow
discard_log ids detail now l =
    if is_queued l.send_status && any (λ i. i == l.email_id) ids then fail_row detail now l else l

-- The statement of `discard_queued`, once the lock of the batch is held: its count and the tables after it.
pub discard_queued : String → String → ℕ → Db → ℕ × Db
unfolding is_untouched hit_ids discard_email discard_log count_rows
discard_queued batch_id detail now db = (
  count_rows (is_untouched batch_id db.log) db.emails,
  record {
    emails = map (discard_email (is_untouched batch_id db.log) detail) db.emails;
    log = map (discard_log (hit_ids (is_untouched batch_id db.log) db.emails) detail now) db.log;
  },
)

has_queued-discard_log :
    (ids : List ℕ) (detail : String) (now id : ℕ) (log : List LogRow)
    → has_queued id log ≡ false
    → has_queued id (map (discard_log ids detail now) log) ≡ false
unfolding discard_log
has_queued-discard_log ids detail now id [] h = refl
has_queued-discard_log ids detail now id (l ∷ log) h =
    ground (arith, has_queued-discard_log ids detail now id log)

-- An email that is not untouched stays so, and one that was has an error after.
is_untouched-discard :
    (batch_id detail : String) (now : ℕ) (ids : List ℕ) (log : List LogRow) (r : EmailRow)
    → is_untouched batch_id
        (map (discard_log ids detail now) log)
        (discard_email (is_untouched batch_id log) detail r)
      ≡ false
unfolding discard_email
is_untouched-discard batch_id detail now ids log r =
    elim (Bool-cases (is_untouched batch_id log r)) [
      | inl hit ↦ rw hit (unfold is_untouched in ground arith)
      | inr miss ↦ rw miss (kept miss)
    ]
  where
    kept :
        is_untouched batch_id log r ≡ false
        → is_untouched batch_id (map (discard_log ids detail now) log) r ≡ false
    kept miss =
        unfold is_untouched in
        ground (arith, has_queued-discard_log ids detail now r.email_id log, miss)

count_none :
    (batch_id detail : String) (now : ℕ) (ids : List ℕ) (log : List LogRow) (rows : List EmailRow)
    → count_rows
        (is_untouched batch_id (map (discard_log ids detail now) log))
        (map (discard_email (is_untouched batch_id log) detail) rows)
      ≡ 0
unfolding count_rows
count_none batch_id detail now ids log [] = refl
count_none batch_id detail now ids log (r ∷ rows) =
    rw (is_untouched-discard batch_id detail now ids log r)
      (omega (arith, count_none batch_id detail now ids log rows))

-- The log rows of one email.
abbrev pub rows_of : ℕ → List LogRow → List LogRow
rows_of id [] = []
rows_of id (l ∷ log) = if l.email_id == id then l ∷ rows_of id log else rows_of id log

any-cong : (a b : ℕ) (ids : List ℕ) → a ≡ b → any (λ i. i == a) ids ≡ any (λ i. i == b) ids
any-cong a b ids e = ap (λ (x : ℕ). any (λ i. i == x) ids) e

rows_of-discard_log :
    (ids : List ℕ) (detail : String) (now id : ℕ) (log : List LogRow)
    → any (λ i. i == id) ids ≡ false
    → rows_of id (map (discard_log ids detail now) log) ≡ rows_of id log
unfolding discard_log
rows_of-discard_log ids detail now id [] h = refl
rows_of-discard_log ids detail now id (l ∷ log) h =
    let ih = rows_of-discard_log ids detail now id log h in
    ground (arith, ih, h, any-cong l.email_id id ids)

is_hit-hit_ids :
    (p : EmailRow → Bool) (id : ℕ) (rows : List EmailRow)
    → any (λ r. (r.email_id == id) && p r) rows ≡ false
    → any (λ i. i == id) (hit_ids p rows) ≡ false
unfolding hit_ids
is_hit-hit_ids p id [] h = refl
is_hit-hit_ids p id (r ∷ rows) h = ground (arith, is_hit-hit_ids p id rows)

-- Discarding returns the count that was shown, and afterwards no email of the batch is untouched; the
-- send_log rows of an email that was not untouched (one already begun in Constant Contact) stay as
-- they are.
pub discard_queued_lem :
    (batch_id detail : String) (now : ℕ) (db : Db)
    → ((discard_queued batch_id detail now db).0 ≡ count_untouched batch_id db)
      × (count_untouched batch_id (discard_queued batch_id detail now db).1 ≡ 0)
      × ((id : ℕ)
          → any (λ r. (r.email_id == id) && is_untouched batch_id db.log r) db.emails ≡ false
          → rows_of id (discard_queued batch_id detail now db).1.log ≡ rows_of id db.log)
unfolding discard_queued count_untouched
discard_queued_lem batch_id detail now db = (
  refl,
  count_none batch_id detail now (hit_ids (is_untouched batch_id db.log) db.emails) db.log
      db.emails,
  λ id h.
      rows_of-discard_log _ detail now id db.log
        (is_hit-hit_ids (is_untouched batch_id db.log) id db.emails h),
)
