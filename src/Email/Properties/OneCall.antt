-- ===== src/Email/Properties/OneCall.antt =====
-- How often a delivery schedules, and what is on disk when it does.
use hail_system.Prelude.{
  ℕ, suc, ◌≤◌, String, ◌≡◌, refl, sym, ap, subst, ◌∙◌, true, false, Option, none, some, List, [],
  ◌∷◌, All, is_some, if◌then◌else◌, arith,
}
use hail_system.Email.Store.{
  EmailRow, Db, find_email, store_ids, set_id, set_ids, IdColumn, cc_contact_id, cc_list_id,
  cc_campaign_id, cc_activity_id,
}
use hail_system.Email.Rows.{
  after_update, find_email-update_email, email_id-set_id, activity_of, activity_in,
  email_id-find_email,
}
use hail_system.Email.Env.{Env, Sender, Call, is_schedule, Event, Run}
use hail_system.Email.Engine.{deliver_email}
use hail_system.Email.Rule.Phases.{Fact, Phases, scheduling, is_activity}
use hail_system.Email.Rule.Whole.{deliver_email-Ended}
use hail_system.Email.Properties.Uniform.{at_end}

abbrev pub schedule_calls : {W : Type 0} → List (Event W) → ℕ
schedule_calls [] = 0
schedule_calls (e ∷ es) = if is_schedule e.call then suc (schedule_calls es) else schedule_calls es

module _ {W : Type 0} (env : Env W) (row : EmailRow) where
  abbrev None : Fact W
  None db es = schedule_calls es ≡ 0

  abbrev AtMostOne : Fact W
  AtMostOne db es = schedule_calls es ≤ 1

  counting : Phases env row
  counting = record {
    Start = None;
    Ready = λ _. None;
    After = AtMostOne;
    Safe = AtMostOne;
    Failed = AtMostOne;
    Parked = AtMostOne;
    Sent = AtMostOne;
    start_stable = λ db e es q h. rw q h;
    ready_stable = λ _ db e es q h. rw q h;
    after_stable = λ db e es q h. rw q h;
    sent_stable = λ db e es q h. rw q h;
    start_store = λ db es c v q h. h;
    made = λ db es c a h. h;
    resumed = λ db es h. h;
    accepted = λ db es a w f d c p h. omega arith;
    unknown = λ db es a w exc f d c p u h. omega arith;
    refused = λ db es a w exc f d c p u h. omega arith;
    already = λ db es a was h. omega arith;
    start_safe = λ db es h. omega arith;
    ready_safe = λ db es a h. omega arith;
    after_mark = λ db es now h. h;
    fails = λ db es detail now h. h;
    parks = λ db es detail h. h;
    finishes = λ db es a now h. h;
    sent_mark = λ db es now h. h;
  }

-- The delivery of a stored email, with no calls before, makes at most one schedule call, however it
-- ends.
pub deliver_email_schedules_once :
    {W : Type 0} (env : Env W) (sender : Sender) (id : ℕ) (s : Run W) (row : EmailRow)
    → find_email id s.db.emails ≡ some row
    → s.events ≡ []
    → schedule_calls (deliver_email env sender id s).1.events ≤ 1
unfolding counting
deliver_email_schedules_once {W} env sender id s row found fresh =
    let start : schedule_calls s.events ≡ 0 =
      ap (λ (es : List (Event W)). schedule_calls es) fresh in
    at_end (counting env row) sender (λ db es. schedule_calls es ≤ 1) (λ _ _ h. omega arith)
      (λ _ _ h. h) (λ _ _ h. h) (λ _ _ h. h) s start (deliver_email env sender id s).0
      (deliver_email env sender id s).1
      (deliver_email-Ended (counting env row) sender id s found start)

-- The activity that a schedule call names is the one that is on disk for the email.
abbrev pub IsStored : {W : Type 0} → ℕ → Event W → Type 0
IsStored {W} id e = (a : Option String) → e.call ≡ Call.schedule a → activity_of id e.db ≡ a

abbrev scheduled_in : Call → Option String
scheduled_in (Call.schedule a) = a
scheduled_in _ = none

module _ {W : Type 0} (env : Env W) (row : EmailRow) (id : ℕ) (same : row.email_id ≡ id) where
  IsStored-other : (e : Event W) → is_schedule e.call ≡ false → IsStored id e
  IsStored-other e q a h = absurd (cc (ap (λ (c : Call). is_schedule c) h, q))

  IsStored-scheduling :
      (db : Db) (w : W) (a : Option String) (refusal : Option _)
      → activity_of id db ≡ a
      → IsStored id (scheduling a db w refusal)
  IsStored-scheduling db w a refusal h b e = h ∙ ap (λ (c : Call). scheduled_in c) e

  -- Before the campaign is made, the row is there with the activity that was read.
  abbrev AsRead : Fact W
  AsRead db es =
      All (IsStored id) es
      × (is_some (find_email id db.emails) ≡ true)
      × (activity_of id db ≡ row.cc_activity_id)

  abbrev OnDisk : Option String → Fact W
  OnDisk a db es = All (IsStored id) es × (activity_of id db ≡ a)

  activity-set_id :
      (c : IdColumn) (v : Option String) (r : EmailRow)
      → is_activity c ≡ false
      → (set_id c v r).cc_activity_id ≡ r.cc_activity_id
  activity-set_id cc_activity_id v r h = absurd (cc h)
  activity-set_id cc_contact_id v r h = refl
  activity-set_id cc_list_id v r h = refl
  activity-set_id cc_campaign_id v r h = refl

  still_there :
      (f : EmailRow → EmailRow) (o : Option EmailRow)
      → is_some o ≡ true
      → is_some (after_update f o) ≡ true
  still_there f (some r) h = refl
  still_there f none h = h

  same_activity :
      (f : EmailRow → EmailRow) (o : Option EmailRow)
      → ((r : EmailRow) → (f r).cc_activity_id ≡ r.cc_activity_id)
      → activity_in (after_update f o) ≡ activity_in o
  same_activity f none h = refl
  same_activity f (some r) h = h r

  new_activity :
      (c a : String) (o : Option EmailRow)
      → is_some o ≡ true
      → activity_in (after_update (set_ids ((cc_campaign_id, c) ∷ (cc_activity_id, a) ∷ [])) o)
        ≡ some a
  new_activity c a none h = absurd (cc h)
  new_activity c a (some r) h = refl

  storing : Phases env row
  unfolding store_ids
  storing = record {
    Start = AsRead;
    Ready = OnDisk;
    After = λ db es. All (IsStored id) es;
    Safe = λ db es. All (IsStored id) es;
    Failed = λ db es. All (IsStored id) es;
    Parked = λ db es. All (IsStored id) es;
    Sent = λ db es. All (IsStored id) es;
    start_stable = λ db e es q (h, k, l). ((IsStored-other e q, h), k, l);
    ready_stable = λ _ db e es q (h, k). ((IsStored-other e q, h), k);
    after_stable = λ db e es q h. (IsStored-other e q, h);
    sent_stable = λ db e es q h. (IsStored-other e q, h);
    start_store = λ db es c v q (h, k, l).
        let found =
          find_email-update_email id (set_id c (some v)) db (email_id-set_id c (some v)) in
        rw (same, found)
          (
            h,
            still_there (set_id c (some v)) (find_email id db.emails) k,
            same_activity (set_id c (some v)) (find_email id db.emails)
                  (λ r. activity-set_id c (some v) r q)
                ∙ l,
          );
    made = λ db es c a (h, k, l).
        rw
          (
            same,
            find_email-update_email id (set_ids ((cc_campaign_id, c) ∷ (cc_activity_id, a) ∷ [])) db
                (λ r. refl),
          )
          (h, new_activity c a (find_email id db.emails) k);
    resumed = λ db es (h, k, l). (h, l);
    accepted = λ db es a w f d c p (h, l). (IsStored-scheduling db w a none l, h);
    unknown = λ db es a w exc f d c p u (h, l). (IsStored-scheduling db w a (some exc) l, h);
    refused = λ db es a w exc f d c p u (h, l). (IsStored-scheduling db w a (some exc) l, h);
    already = λ db es a was (h, l). h;
    start_safe = λ db es (h, k, l). h;
    ready_safe = λ db es a (h, l). h;
    after_mark = λ db es now h. h;
    fails = λ db es detail now h. h;
    parks = λ db es detail h. h;
    finishes = λ db es a now h. h;
    sent_mark = λ db es now h. h;
  }

-- With no calls made before, every schedule call of the delivery of a stored email names the activity
-- that is on disk for the email at that moment.
pub deliver_email-IsStored :
    {W : Type 0} (env : Env W) (sender : Sender) (id : ℕ) (s : Run W) (row : EmailRow)
    → find_email id s.db.emails ≡ some row
    → s.events ≡ []
    → All (IsStored id) (deliver_email env sender id s).1.events
unfolding storing
deliver_email-IsStored {W} env sender id s row found fresh =
    let same : row.email_id ≡ id = email_id-find_email id s.db.emails row found in
    let start : AsRead env row id same s.db s.events = (
      subst (λ (es : List (Event W)). All (IsStored id) es) (sym fresh) tt,
      ap (λ (o : Option EmailRow). is_some o) found,
      ap (λ (o : Option EmailRow). activity_in o) found,
    ) in
    at_end (storing env row id same) sender (λ db es. All (IsStored id) es) (λ _ _ h. h.0)
      (λ _ _ h. h) (λ _ _ h. h) (λ _ _ h. h) s start (deliver_email env sender id s).0
      (deliver_email env sender id s).1
      (deliver_email-Ended (storing env row id same) sender id s found start)
