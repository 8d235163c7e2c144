-- ===== src/Email/Rule/Phases.antt =====
-- One rule for every property of `deliver_email` that is about the calls made and the rows written.
-- A delivery goes through phases: nothing scheduled yet, an activity ready to schedule, and after
-- the call that may have scheduled it. A property gives a predicate for each phase and shows what
-- each kind of step does to it; the rule follows the code once for all of them.
use hail_system.Prelude.{
  ℕ, String, ◌≡◌, Bool, true, false, Option, none, some, List, [], ◌∷◌, ◌⊎◌, is_some,
}
use hail_system.Exec.{ok}
use hail_system.ConstantContact.Errors.{ApiError, is_unknown_outcome}
use hail_system.Email.Store
use hail_system.Email.Store.{
  EmailRow, Db, IdColumn, store_ids, mark, fail, park, finish, cc_campaign_id, cc_activity_id,
  find_email, has_queued,
}
use hail_system.Email.Env.{Env, Call, is_schedule, Event}
use hail_system.Email.Engine.{on_dnc, no_permission, is_draft}

-- Constant Contact answered the call that it is no draft that the activity is of.
abbrev pub SaysDone : {W : Type 0} → Env W → Option String → Event W → Type 0
SaysDone env a e =
    (e.call ≡ Call.campaign_status a)
    × ((status : Option String) × ((env.campaign_status a e.world).0 ≡ ok status)
        × (is_draft status ≡ false))

-- Why a campaign is not scheduled again: the row says so, or the newest call asked for its status and it is no draft.
abbrev pub WasScheduled : {W : Type 0} → Env W → EmailRow → Option String → List (Event W) → Type 0
WasScheduled {W} env row a es =
    (is_some row.scheduled_at ≡ true)
    ⊎ ((e : Event W) × (older : List (Event W)) × (es ≡ e ∷ older) × SaysDone env a e)

-- A predicate on what is on disk and on the calls made.
abbrev pub Fact : Type 0 → Type 1
Fact W = Db → List (Event W) → Type 0

-- Calls other than `schedule` do not disturb it.
abbrev pub Stable : {W : Type 0} → Fact W → Type 0
Stable {W} P =
    (db : Db) (e : Event W) (es : List (Event W))
    → is_schedule e.call ≡ false
    → P db es
    → P db (e ∷ es)

abbrev pub scheduling : {W : Type 0} → Option String → Db → W → Option ApiError → Event W
scheduling a db w refusal = record { call = Call.schedule a; db = db; world = w; refusal = refusal }

-- Why a campaign may be scheduled: this delivery made it, or Constant Contact said it is a draft.
abbrev pub MayBeDraft : {W : Type 0} → Env W → EmailRow → Option String → Type 0
MayBeDraft {W} env row a =
    (is_some row.cc_activity_id ≡ false)
    ⊎ ((w : W) × (status : Option String) × ((env.campaign_status a w).0 ≡ ok status)
        × (is_draft status ≡ true))

abbrev pub is_activity : IdColumn → Bool
is_activity cc_activity_id = true
is_activity _ = false

pub record Phases {W : Type 0} (env : Env W) (row : EmailRow) : Type 1 where
  pub Start : Fact W
  pub Ready : Option String → Fact W
  pub After : Fact W
  pub Safe : Fact W
  pub Failed : Fact W
  pub Parked : Fact W
  pub Sent : Fact W
  pub start_stable : Stable Start
  pub ready_stable : (a : Option String) → Stable (Ready a)
  pub after_stable : Stable After
  pub sent_stable : Stable Sent
  pub start_store :
      (db : Db) (es : List (Event W)) (c : IdColumn) (v : String)
      → is_activity c ≡ false
      → Start db es
      → Start (store_ids row.email_id ((c, v) ∷ []) db) es
  pub made :
      (db : Db) (es : List (Event W)) (c a : String)
      → Start db es
      → Ready
          (some a)
          (store_ids row.email_id ((cc_campaign_id, c) ∷ (cc_activity_id, a) ∷ []) db)
          es
  pub resumed : (db : Db) (es : List (Event W)) → Start db es → Ready row.cc_activity_id db es
  pub accepted :
      (db : Db) (es : List (Event W)) (a : Option String) (w : W)
      → row.scheduled_at ≡ none
      → MayBeDraft env row a
      → on_dnc env row.recipient_email w ≡ false
      → no_permission env row.recipient_email w ≡ false
      → Ready a db es
      → After db (scheduling a db w none ∷ es)
  pub unknown :
      (db : Db) (es : List (Event W)) (a : Option String) (w : W) (exc : ApiError)
      → row.scheduled_at ≡ none
      → MayBeDraft env row a
      → on_dnc env row.recipient_email w ≡ false
      → no_permission env row.recipient_email w ≡ false
      → is_unknown_outcome exc ≡ true
      → Ready a db es
      → After db (scheduling a db w (some exc) ∷ es)
  pub refused :
      (db : Db) (es : List (Event W)) (a : Option String) (w : W) (exc : ApiError)
      → row.scheduled_at ≡ none
      → MayBeDraft env row a
      → on_dnc env row.recipient_email w ≡ false
      → no_permission env row.recipient_email w ≡ false
      → is_unknown_outcome exc ≡ false
      → Ready a db es
      → Safe db (scheduling a db w (some exc) ∷ es)
  pub already :
      (db : Db) (es : List (Event W)) (a : Option String)
      → WasScheduled env row a es
      → Ready a db es
      → After db es
  pub start_safe : (db : Db) (es : List (Event W)) → Start db es → Safe db es
  pub ready_safe : (db : Db) (es : List (Event W)) (a : Option String) → Ready a db es → Safe db es
  pub after_mark :
      (db : Db) (es : List (Event W)) (now : ℕ)
      → After db es
      → After (mark row.email_id Store.scheduled_at now db) es
  pub fails :
      (db : Db) (es : List (Event W)) (detail : String) (now : ℕ)
      → Safe db es
      → Failed (fail row.email_id detail now db) es
  pub parks :
      (db : Db) (es : List (Event W)) (detail : String)
      → After db es
      → Parked (park row.email_id detail db) es
  pub finishes :
      (db : Db) (es : List (Event W)) (a : Option String) (now : ℕ)
      → After db es
      → Sent (finish row.email_id a now db) es
  pub sent_mark :
      (db : Db) (es : List (Event W)) (now : ℕ)
      → Sent db es
      → Sent (mark row.email_id Store.list_deleted_at now db) es
