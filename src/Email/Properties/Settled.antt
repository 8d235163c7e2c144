-- ===== src/Email/Properties/Settled.antt =====
-- What each outcome of a delivery means for the calls made and the rows left.
pub mod Rows
use hail_system.Prelude.{
  ℕ, String, ◌≡◌, refl, sym, ap, subst, ◌∙◌, Bool, true, false, not, Option, none, some, List, [],
  ◌∷◌, map, any, ◌==◌, ◌&&◌, if◌then◌else◌, arith, All, is_some, ◌⊎◌, inl, inr,
}
use hail_system.Exec.{Result, ok, raised}
use hail_system.Exec.Hoare.{Post}
use hail_system.ConstantContact.Errors.{ApiError, is_unknown_outcome}
use hail_system.Email.Store
use hail_system.Email.Store.{
  EmailRow, LogRow, Db, find_email, has_queued, update_email, update_queued, store_ids, mark, fail,
  park, finish, set_id, set_ids, set_mark, note_error, fail_row, sent_row, IdColumn, cc_campaign_id,
  cc_activity_id,
}
use hail_system.Email.Rows.{
  after_update, emails-update_queued, log-update_queued, emails_but, emails_but-update_email,
  find_email-update_email, email_id-set_id, email_id-note_error, email_id-find_email,
  log-update_email, of_others, of_others-update_queued, has_queued-update_queued, is_noted,
}
use hail_system.Email.Env.{
  Env, Sender, is_schedule, Event, Run, Exc, api, batch_stopped, value_error,
}
use hail_system.Email.Engine.{Outcome, deliver_email}
use hail_system.Email.Rule.Phases.{SaysDone, WasScheduled, Fact, Phases}
use hail_system.Email.Rule.Steps.{Stopped}
use hail_system.Email.Rule.Whole.{Ended, deliver_email-Ended}
use hail_system.Email.Properties.Settled.Rows.{
  IsFailed, IsHeld, IsSent, IsUntouched, Settled, fail-IsFailed, finish-IsSent, mark-IsSent,
  park-IsHeld, rows_failed, rows_sent, update-IsUntouched,
}

-- The call was refused for certain: it cannot have taken effect.
abbrev is_refusal : Option ApiError → Bool
is_refusal none = false
is_refusal (some exc) = not (is_unknown_outcome exc)

abbrev pub IsRefused : {W : Type 0} → Event W → Type 0
IsRefused e = is_schedule e.call ≡ true → is_refusal e.refusal ≡ true

-- A schedule call that may have taken effect.
abbrev pub may_count : {W : Type 0} → Event W → Bool
may_count e = is_schedule e.call && not (is_refusal e.refusal)

-- One of the calls asked for a campaign's status, and the answer was that it is no draft.
abbrev pub AnyDone : {W : Type 0} → Env W → List (Event W) → Type 0
AnyDone env [] = ⊥
AnyDone env (e ∷ es) = ((a : Option String) × SaysDone env a e) ⊎ AnyDone env es

-- The email may have been scheduled: by a call of this delivery, or earlier, as the row says or Constant Contact said.
abbrev pub MayHave : {W : Type 0} → Env W → EmailRow → List (Event W) → Type 0
MayHave env row es =
    (any may_count es ≡ true) ⊎ ((is_some row.scheduled_at ≡ true) ⊎ AnyDone env es)

module _ {W : Type 0} (env : Env W) (row : EmailRow) (id : ℕ) (same : row.email_id ≡ id)
    (old : Db) where
  abbrev Untouched : Fact W
  Untouched db es = IsUntouched id old db

  abbrev NotSent : Fact W
  NotSent db es = All IsRefused es × IsUntouched id old db

  abbrev MaySent : Fact W
  MaySent db es = MayHave env row es × IsUntouched id old db

  abbrev NeverSent : Fact W
  NeverSent db es = All IsRefused es × IsFailed id old db

  abbrev Held : Fact W
  Held db es = MayHave env row es × IsHeld id old db

  abbrev Sent : Fact W
  Sent db es = MayHave env row es × IsSent id old db

  IsRefused-other : (e : Event W) → is_schedule e.call ≡ false → IsRefused e
  IsRefused-other e q h = absurd (cc (q, h))

  MayHave-more : (e : Event W) (es : List (Event W)) → MayHave env row es → MayHave env row (e ∷ es)
  MayHave-more e es (inl h) = inl (ground (arith, h))
  MayHave-more e es (inr (inl h)) = inr (inl h)
  MayHave-more e es (inr (inr h)) = inr (inr (inr h))

  was-MayHave :
      (a : Option String) (es : List (Event W)) → WasScheduled env row a es → MayHave env row es
  was-MayHave a es (inl h) = inr (inl h)
  was-MayHave a es (inr (e, older, m, h)) =
      subst (λ (xs : List (Event W)). MayHave env row xs) (sym m) (inr (inr (inl (a, h))))

  updated :
      (f : EmailRow → EmailRow) (db : Db)
      → ((r : EmailRow) → (f r).email_id ≡ r.email_id)
      → IsUntouched id old db
      → IsUntouched id old (update_email row.email_id f db)
  updated f db keeps h = rw same (update-IsUntouched id old f db keeps h)

  settling : Phases env row
  unfolding store_ids mark fail park finish
  settling = record {
    Start = NotSent;
    Ready = λ _. NotSent;
    After = MaySent;
    Safe = NotSent;
    Failed = NeverSent;
    Parked = Held;
    Sent = Sent;
    start_stable = λ db e es q (h, k). ((IsRefused-other e q, h), k);
    ready_stable = λ _ db e es q (h, k). ((IsRefused-other e q, h), k);
    after_stable = λ db e es q (h, k). (MayHave-more e es h, k);
    sent_stable = λ db e es q (h, k). (MayHave-more e es h, k);
    start_store = λ db es c v q (h, k).
        (h, updated (set_ids ((c, v) ∷ [])) db (email_id-set_id c (some v)) k);
    made = λ db es c a (h, k).
        (h, updated (set_ids ((cc_campaign_id, c) ∷ (cc_activity_id, a) ∷ [])) db (λ r. refl) k);
    resumed = λ db es h. h;
    accepted = λ db es a w f d c p (h, k). (inl refl, k);
    unknown = λ db es a w exc f d c p u (h, k). (inl (ground (arith, u)), k);
    refused = λ db es a w exc f d c p u (h, k). ((λ _. ap not u, h), k);
    already = λ db es a was (h, k). (was-MayHave a es was, k);
    start_safe = λ db es h. h;
    ready_safe = λ db es a h. h;
    after_mark =
        λ db es now (h, k). (h, updated (set_mark Store.scheduled_at now) db (λ r. refl) k);
    fails = λ db es detail now (h, k). (h, rw same (fail-IsFailed id old detail now db k));
    parks = λ db es detail (h, k). (h, rw same (park-IsHeld id old detail db k));
    finishes = λ db es a now (h, k). (h, rw same (finish-IsSent id old a now db k));
    sent_mark = λ db es now (h, k).
        (h, rw same (mark-IsSent id old (set_mark Store.list_deleted_at now) db (λ r. refl) k));
  }

-- What the outcome says of the calls made and the rows left. `skipped` changes nothing; an exception stops the
-- batch after `failed` or `needs_review`.
abbrev pub Means : {W : Type 0} → Env W → EmailRow → ℕ → Run W → Result Exc Outcome → Run W → Type 0
Means env row id s₀ (ok Outcome.skipped) s = s ≡ s₀
Means env row id s₀ (ok Outcome.failed) s = All IsRefused s.events × IsFailed id s₀.db s.db
Means env row id s₀ (ok Outcome.needs_review) s = MayHave env row s.events × IsHeld id s₀.db s.db
Means env row id s₀ (ok Outcome.sent) s = MayHave env row s.events × IsSent id s₀.db s.db
Means env row id s₀ (raised (batch_stopped why)) s =
    (All IsRefused s.events × IsFailed id s₀.db s.db)
    ⊎ (MayHave env row s.events × IsHeld id s₀.db s.db)
Means env row id s₀ (raised e) s = ⊥

module _ {W : Type 0} (env : Env W) (row : EmailRow) (id : ℕ) (same : row.email_id ≡ id)
    (sender : Sender) where
  Ended-Means :
      (s₀ : Run W) (r : Result Exc Outcome) (s : Run W)
      → Post
          (Ended (settling env row id same s₀.db) sender s₀)
          (Stopped (settling env row id same s₀.db))
          r
          s
      → Means env row id s₀ r s
  unfolding settling
  Ended-Means s₀ (ok Outcome.skipped) s h = h
  Ended-Means s₀ (ok Outcome.sent) s h = h
  Ended-Means s₀ (ok Outcome.failed) s h = h
  Ended-Means s₀ (ok Outcome.needs_review) s h = h
  Ended-Means s₀ (raised (batch_stopped why)) s h = h
  Ended-Means s₀ (raised (api e)) s h = h
  Ended-Means s₀ (raised (value_error e)) s h = h

-- For a stored email with no calls before, the delivery ends in an outcome, or in BatchStopped after `failed` or
-- `needs_review`, and the calls and rows are the ones that the outcome stands for. After `failed` every schedule call was
-- refused for certain, the email's queued rows of send_log are failed ones and an error is recorded at the email. After
-- `sent` they are sent ones, and after `needs_review` send_log is as it was and an error is recorded; in both the email may
-- have been scheduled: by a call of this delivery that was not refused for certain, or earlier, as its row says or
-- Constant Contact answered this delivery's question for the status of the campaign. All other rows of send_log, and the rows of other emails, are as they were;
-- `skipped` changes nothing.
pub deliver_email-Means :
    {W : Type 0} (env : Env W) (sender : Sender) (id : ℕ) (s : Run W) (row : EmailRow)
    → find_email id s.db.emails ≡ some row
    → s.events ≡ []
    → Means env row id s (deliver_email env sender id s).0 (deliver_email env sender id s).1
unfolding settling
deliver_email-Means {W} env sender id s row found fresh =
    let same : row.email_id ≡ id = email_id-find_email id s.db.emails row found in
    let start : NotSent env row id same s.db s.db s.events = (
      subst (λ (es : List (Event W)). All IsRefused es) (sym fresh) tt,
      (refl, ap (λ (o : Option EmailRow). is_some o) found, refl),
    ) in
    Ended-Means env row id same sender s (deliver_email env sender id s).0
      (deliver_email env sender id s).1
      (deliver_email-Ended (settling env row id same s.db) sender id s found start)
