-- ===== src/Email/Resume.antt =====
-- `deliver_batch` of email/deliver.py with its lock, `check_resumable` and `run_resume`. `sync` is the
-- unsubscribe sync that the source takes as an argument, `got` whether the advisory lock of the batch was free.
use hail_system.Prelude.{
  ℕ, ◌+◌, ◌*◌, ◌≤◌, String, ◌≡◌, refl, Bool, true, not, ◌&&◌, Option, none, some, List, [], ◌∷◌,
  All, any, min, ltb, is_some, str_eq, if◌then◌else◌, arith, if_cases,
}
use hail_system.Exec.{Result, ok, raised}
use hail_system.Email.Store.{EmailRow, Db, has_queued}
use hail_system.Email.Env.{Env, Sender, Run, Exc}
use hail_system.Email.Batch.{Counts, deliver_all}

abbrev pub resume_max_days : ℕ
resume_max_days = 7

pub data ResumeError : Type 0 where
  nothing_to_resume batch_too_old sync_failed batch_busy : ResumeError
  delivery : Exc → ResumeError

-- The rows of `_OLDEST_QUEUED_SQL`
abbrev pub is_pending : String → Db → EmailRow → Bool
is_pending batch_id db r =
    str_eq r.batch_id batch_id && not (is_some r.error_detail) && has_queued r.email_id db.log

abbrev pub older : ℕ → Option ℕ → Option ℕ
older a none = some a
older a (some b) = some (min a b)

unfoldable pub oldest : (EmailRow → Bool) → List EmailRow → Option ℕ
oldest p [] = none
oldest p (r ∷ rows) = let rest = oldest p rows in if p r then older r.created_at rest else rest

abbrev pub judge : ℕ → Option ℕ → Option ResumeError
judge now none = some nothing_to_resume
judge now (some created_at) =
    if ltb (created_at + resume_max_days * 86400) now then some batch_too_old else none

-- `check_resumable`: `none` is its return.
unfoldable pub check_resumable : ℕ → String → Db → Option ResumeError
unfolding oldest
check_resumable now batch_id db = judge now (oldest (is_pending batch_id db) db.emails)

abbrev pub as_delivery : Result Exc Counts → Result ResumeError Counts
as_delivery (ok counts) = ok counts
as_delivery (raised e) = raised (delivery e)

module _ {W : Type 0} (env : Env W) (sender : Sender) (max_emails : Option ℕ) (got : W → Bool) where
  -- `deliver_batch`
  unfoldable pub deliver_batch : String → Run W → Result ResumeError Counts × Run W
  deliver_batch batch_id s =
      if got s.world
      then (let (r, s') = deliver_all env sender max_emails batch_id s in (as_delivery r, s'))
      else (raised batch_busy, s)

  module _ (sync : W → Bool × W) where
    unfoldable pub after_check :
        String → Run W → Option ResumeError → Result ResumeError Counts × Run W
    after_check batch_id s (some e) = (raised e, s)
    after_check batch_id s none =
        let (synced, w) = sync s.world in
        if synced
        then deliver_batch batch_id (record s { world = w })
        else (raised sync_failed, record s { world = w })

    -- `run_resume`
    unfoldable pub run_resume : ℕ → String → Run W → Result ResumeError Counts × Run W
    unfolding after_check check_resumable
    run_resume now batch_id s = after_check batch_id s (check_resumable now batch_id s.db)

-- What a resume that did not get to delivering leaves.
abbrev Untouched : {W : Type 0} → Run W → Run W → Type 0
Untouched s s' = (s'.db ≡ s.db) × (s'.events ≡ s.events)

-- A refused resume changes no row and calls Constant Contact for nothing; one that delivers, or fails in
-- delivering, had emails to deliver, all of them young enough.
abbrev pub IsFair : {W : Type 0} → ℕ → String → Run W → Result ResumeError Counts → Run W → Type 0
IsFair now batch_id s (raised nothing_to_resume) s' = Untouched s s'
IsFair now batch_id s (raised batch_too_old) s' = Untouched s s'
IsFair now batch_id s (raised sync_failed) s' = Untouched s s'
IsFair now batch_id s (raised batch_busy) s' = Untouched s s'
IsFair now batch_id s (raised (delivery e)) s' =
    (any (is_pending batch_id s.db) s.db.emails ≡ true)
    × All
        (λ (r : EmailRow).
          is_pending batch_id s.db r ≡ true → now ≤ r.created_at + resume_max_days * 86400)
        s.db.emails
IsFair now batch_id s (ok counts) s' =
    (any (is_pending batch_id s.db) s.db.emails ≡ true)
    × All
        (λ (r : EmailRow).
          is_pending batch_id s.db r ≡ true → now ≤ r.created_at + resume_max_days * 86400)
        s.db.emails

abbrev Bound : ℕ → Option ℕ → Type 0
Bound now none = Unit
Bound now (some b) = now ≤ b + resume_max_days * 86400

Bound-older :
    (now a : ℕ) (o : Option ℕ)
    → Bound now (older a o)
    → (now ≤ a + resume_max_days * 86400) × Bound now o
Bound-older now a none h = (h, tt)
Bound-older now a (some b) h = (omega arith, omega arith)

oldest-Bound :
    (now : ℕ) (p : EmailRow → Bool) (rows : List EmailRow)
    → Bound now (oldest p rows)
    → All (λ (r : EmailRow). p r ≡ true → now ≤ r.created_at + resume_max_days * 86400) rows
unfolding oldest
oldest-Bound now p [] h = tt
oldest-Bound now p (r ∷ rows) given =
    if_cases
      (λ (o : Option ℕ).
        Bound now o
        → All (λ (r : EmailRow). p r ≡ true → now ≤ r.created_at + resume_max_days * 86400)
            (r ∷ rows))
      (p r)
      (λ _ h.
        let (a, k) = Bound-older now r.created_at (oldest p rows) h in
        (λ _. a, oldest-Bound now p rows k))
      (λ f h. (λ t. absurd (cc (t, f)), oldest-Bound now p rows h)) given

older-some : (a : ℕ) (o : Option ℕ) → is_some (older a o) ≡ true
older-some a none = refl
older-some a (some b) = refl

oldest-any :
    (p : EmailRow → Bool) (rows : List EmailRow)
    → is_some (oldest p rows) ≡ true
    → any p rows ≡ true
unfolding oldest
oldest-any p [] h = h
oldest-any p (r ∷ rows) given =
    if_cases (λ (o : Option ℕ). is_some o ≡ true → any p (r ∷ rows) ≡ true) (p r)
      (λ t h. ground (arith, t)) (λ f h. ground (arith, f, oldest-any p rows h)) given

judge-none : (now : ℕ) (o : Option ℕ) → judge now o ≡ none → (is_some o ≡ true) × Bound now o
judge-none now none h = absurd (cc h)
judge-none now (some b) h = (refl, ground (arith, h))

judge-refuses :
    {W : Type 0} (now : ℕ) (batch_id : String) (s : Run W) (o : Option ℕ) (e : ResumeError)
    → judge now o ≡ some e
    → IsFair now batch_id s (raised e) s
judge-refuses now batch_id s o nothing_to_resume h = (refl, refl)
judge-refuses now batch_id s o batch_too_old h = (refl, refl)
judge-refuses now batch_id s o sync_failed h = (refl, refl)
judge-refuses now batch_id s o batch_busy h = (refl, refl)
judge-refuses now batch_id s none (delivery e) h = absurd (cc h)
judge-refuses now batch_id s (some b) (delivery e) h = absurd (ground (arith, h))

module _ {W : Type 0} (env : Env W) (sender : Sender) (max_emails : Option ℕ) (got : W → Bool)
    (now : ℕ) (batch_id : String) (s : Run W) where
  abbrev Young : Type 0
  Young =
      (any (is_pending batch_id s.db) s.db.emails ≡ true)
      × All
          (λ (r : EmailRow).
            is_pending batch_id s.db r ≡ true → now ≤ r.created_at + resume_max_days * 86400)
          s.db.emails

  as_delivery-IsFair :
      (r : Result Exc Counts) (s' : Run W) → Young → IsFair now batch_id s (as_delivery r) s'
  as_delivery-IsFair (ok counts) s' h = h
  as_delivery-IsFair (raised e) s' h = h

  deliver_batch-IsFair :
      (w : W)
      → Young
      → IsFair now batch_id s
          (deliver_batch env sender max_emails got batch_id (record s { world = w })).0
          (deliver_batch env sender max_emails got batch_id (record s { world = w })).1
  unfolding deliver_batch
  deliver_batch-IsFair w h =
      if_cases (λ (p : Result ResumeError Counts × Run W). IsFair now batch_id s p.0 p.1) (got w)
        (λ _. as_delivery-IsFair _ _ h) (λ _. (refl, refl))

  module _ (sync : W → Bool × W) where
    after_check-IsFair :
        (o : Option ResumeError)
        → (o ≡ none → Young)
        → ((e : ResumeError) → o ≡ some e → IsFair now batch_id s (raised e) s)
        → IsFair now batch_id s
            (after_check env sender max_emails got sync batch_id s o).0
            (after_check env sender max_emails got sync batch_id s o).1
    unfolding after_check deliver_batch
    after_check-IsFair none young refuses =
        if_cases (λ (p : Result ResumeError Counts × Run W). IsFair now batch_id s p.0 p.1)
          (sync s.world).0 (λ _. deliver_batch-IsFair (sync s.world).1 (young refl))
          (λ _. (refl, refl))
    after_check-IsFair (some e) young refuses = refuses e refl

    -- A resume delivers only where the batch has emails to deliver and none of them is older than seven days.
    -- One that is refused (nothing to deliver, too old, a sync that failed, or a batch that is being
    -- delivered) changes no row and makes no delivery call.
    pub run_resume-IsFair :
        IsFair now batch_id s
          (run_resume env sender max_emails got sync now batch_id s).0
          (run_resume env sender max_emails got sync now batch_id s).1
    unfolding run_resume after_check check_resumable oldest deliver_batch
    run_resume-IsFair =
        after_check-IsFair (judge now (oldest (is_pending batch_id s.db) s.db.emails))
          (λ e.
            let (some_one, bound) =
              judge-none now (oldest (is_pending batch_id s.db) s.db.emails) e in
            (
              oldest-any (is_pending batch_id s.db) s.db.emails some_one,
              oldest-Bound now (is_pending batch_id s.db) s.db.emails bound,
            ))
          (λ e h. judge-refuses now batch_id s (oldest (is_pending batch_id s.db) s.db.emails) e h)
