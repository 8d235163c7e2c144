-- ===== src/Email/Env.antt =====
-- What email/deliver.py calls and does not implement: Constant Contact (the `cc` argument of the
-- source), the tables that only other code writes, and the database's clock. `W` is the state of
-- that outside world; any call may change it, so an address can be unsubscribed during a delivery.
use hail_system.Prelude.{ℕ, String, Bool, true, false, Option, none, some, List, ◌∷◌}
use hail_system.Exec.{Result, ok, raised, Exec}
use hail_system.ConstantContact.Errors.{ApiError}
use hail_system.ConstantContact.Budget.{ApiCall}
use hail_system.Email.Store.{Listed, Db}

pub record Contact : Type 0 where
  pub contact_id : String
  pub permission : Option String

pub record Campaign : Type 0 where
  pub campaign_id : String
  pub activity_id : String

pub record Sender : Type 0 where
  pub from_name : String
  pub from_email : String
  pub reply_to : String

-- `campaign_fields` of constantcontact/campaigns.py
pub record Fields : Type 0 where
  pub format_type : ℕ
  pub sender : Sender
  pub subject : String
  pub html_content : String

abbrev pub Answer : Type 0 → Type 0 → Type 0
Answer W A = Result ApiError A × W

pub record Env (W : Type 0) : Type 0 where
  pub now : W → ℕ
  -- lower(trim(…)) in SQL
  pub norm : String → String
  pub dnc_list : W → List Listed
  pub send_permission : W → List Listed
  pub cc_api_calls : W → List ApiCall
  pub find_contact : String → W → Answer W (Option Contact)
  pub create_list : String → W → Answer W String
  pub create_contact : String → Option String → String → W → Answer W String
  pub add_to_list : String → String → W → Answer W Unit
  pub create_campaign : String → Fields → W → Answer W Campaign
  pub update_campaign : Option String → Fields → Option String → W → Answer W Unit
  pub campaign_status : Option String → W → Answer W (Option String)
  pub schedule : Option String → W → Answer W Unit
  pub wait_until_done : Option String → W → Answer W Unit
  pub delete_list : Option String → W → Answer W Unit

pub data Call : Type 0 where
  find_contact : String → Call
  create_list : String → Call
  create_contact : String → Option String → String → Call
  add_to_list : String → String → Call
  create_campaign : String → Fields → Call
  update_campaign : Option String → Fields → Option String → Call
  campaign_status : Option String → Call
  schedule : Option String → Call
  wait_until_done : Option String → Call
  delete_list : Option String → Call

abbrev pub is_schedule : Call → Bool
is_schedule (schedule _) = true
is_schedule _ = false

-- A call as it was made: the tables and the world at that moment, and how it was answered
-- (`none` is a success).
pub record Event (W : Type 0) : Type 0 where
  pub call : Call
  pub db : Db
  pub world : W
  pub refusal : Option ApiError

-- The state of a delivery: the tables, the world, `past_the_point`, and the calls so far, the
-- newest first.
pub record Run (W : Type 0) : Type 0 where
  pub db : Db
  pub world : W
  pub past_the_point : Bool
  pub events : List (Event W)

-- The exceptions that leave `deliver_email`.
pub data Exc : Type 0 where
  api : ApiError → Exc
  batch_stopped : String → Exc
  value_error : String → Exc

abbrev pub Action : Type 0 → Type 0 → Type 0
Action W A = Exec Exc (Run W) A

abbrev pub lift : {A : Type 0} → Result ApiError A → Result Exc A
lift (ok a) = ok a
lift (raised e) = raised (api e)

abbrev pub refusal_of : {A : Type 0} → Result ApiError A → Option ApiError
refusal_of (ok a) = none
refusal_of (raised e) = some e

module _ {W A : Type 0} where
  unfoldable pub cc_call : Call → (W → Answer W A) → Action W A
  cc_call c f s =
      let (r, w) = f s.world in
      (
        lift r,
        record s {
          world = w;
          events =
              record { call = c; db = s.db; world = s.world; refusal = refusal_of r } ∷ s.events;
        },
      )

module _ {W : Type 0} where
  -- One committed database step; `now()` is read from the world.
  unfoldable pub write : (W → Db → Db) → Action W Unit
  write f s = (ok tt, record s { db = f s.world s.db })

  unfoldable pub set_past : Bool → Action W Unit
  set_past b s = (ok tt, record s { past_the_point = b })
