-- ===== src/Email/Engine.antt =====
-- `deliver_email` of email/deliver.py and what it calls, statement by statement. Each function
-- below is one part of its body, so that a proof follows the same steps.
use hail_system.Prelude.{
  ℕ, String, Bool, true, false, not, ◌||◌, Option, none, some, [], ◌∷◌, is_some, str_eq, ◌==◌,
  if◌then◌else◌,
}
use hail_system.Text.{◌⊕◌, prefix, decimal}
use hail_system.Exec.{pure, raise, gets, catch, test◌then◌else◌, ◌>>=◌, ◌>>◌}
use hail_system.ConstantContact.Errors.{ApiError, is_unknown_outcome, stops_batch}
use hail_system.Email.Store
use hail_system.Email.Store.{
  EmailRow, Db, is_listed, find_email, has_queued, store_ids, mark, fail, park, finish,
  cc_contact_id, cc_list_id, cc_campaign_id, cc_activity_id,
}
use hail_system.Email.FirstName.{first_name}
use hail_system.Email.Env.{
  Env, Contact, Sender, Fields, Call, Exc, api, batch_stopped, value_error, Action, cc_call, write,
  set_past,
}

pub data Outcome : Type 0 where
  sent failed needs_review skipped : Outcome

-- What making the campaign leaves: a problem, or the list and the activity to schedule.
pub data Prepared : Type 0 where
  problem : String → Prepared
  ready : Option String → Option String → Prepared

abbrev pub campaign_name : EmailRow → String
unfolding prefix decimal
campaign_name row = "hail-" ⊕ prefix 8 row.batch_id ⊕ "-" ⊕ decimal row.email_id

abbrev pub campaign_fields : Sender → EmailRow → Fields
campaign_fields sender row = record {
  format_type = 5;
  sender = sender;
  subject = row.subject;
  html_content = row.html_body;
}

abbrev pub is_draft : Option String → Bool
is_draft none = false
is_draft (some status) = str_eq status "DRAFT"

abbrev pub dnc_detail : String
dnc_detail = "on the DNC list at send time"

abbrev pub permission_detail : String
permission_detail = "no recorded permission at send time"

abbrev pub is_conflict : Option ℕ → Bool
is_conflict none = false
is_conflict (some status) = status == 409

abbrev pub is_unsubscribed : Option String → Bool
is_unsubscribed none = false
is_unsubscribed (some permission) = str_eq permission "unsubscribed"

-- The `except ApiError` of `_drop_list`, which only logs.
unfoldable pub keep_list : {W : Type 0} → Exc → Action W Unit
keep_list (api exc) = pure tt
keep_list exc = raise exc

module _ {W : Type 0} (env : Env W) where
  -- `_on_dnc`
  unfoldable pub on_dnc : String → W → Bool
  unfolding is_listed
  on_dnc email w = is_listed (env.norm email) (env.dnc_list w)

  -- `_no_permission`
  unfoldable pub no_permission : String → W → Bool
  unfolding is_listed
  no_permission email w = not (is_listed (env.norm email) (env.send_permission w))

  unfoldable pub fail_email : EmailRow → String → Action W Unit
  fail_email row detail = write (λ w. fail row.email_id detail (env.now w))

  -- The contact that a 409 says exists.
  unfoldable pub use_existing : EmailRow → String → Option Contact → Action W (Option String)
  use_existing row list_id none =
      pure (some "Constant Contact says the contact exists but it could not be read")
  use_existing row list_id (some found) =
      test is_unsubscribed found.permission
      then pure (some "unsubscribed in Constant Contact")
      else do
        write (λ w. store_ids row.email_id ((cc_contact_id, found.contact_id) ∷ []))
        cc_call (Call.add_to_list found.contact_id list_id)
            (env.add_to_list found.contact_id list_id)
        pure none

  -- The `except ApiError` of `_put_contact_on_list`: 409 says that the contact exists already.
  unfoldable pub read_existing : EmailRow → String → Exc → Action W (Option String)
  read_existing row list_id (api exc) =
      test is_conflict exc.status
      then (do
        found ←
            cc_call (Call.find_contact row.recipient_email) (env.find_contact row.recipient_email)
        use_existing row list_id found)
      else raise (api exc)
  read_existing row list_id exc = raise exc

  unfoldable pub create_new : EmailRow → String → Action W String
  unfolding first_name
  create_new row list_id =
      cc_call (Call.create_contact row.recipient_email (first_name row.agent_name) list_id)
        (env.create_contact row.recipient_email (first_name row.agent_name) list_id)

  -- The new contact's id is stored only where `create_contact` did not raise.
  unfoldable pub create_or_read : EmailRow → String → Action W (Option String)
  create_or_read row list_id =
      catch
        (do
          contact_id ← create_new row list_id
          write (λ w. store_ids row.email_id ((cc_contact_id, contact_id) ∷ []))
          pure none)
        (read_existing row list_id)

  -- `_put_contact_on_list`: none, or the reason this email should not go.
  unfoldable pub contact_on_list : EmailRow → String → Option String → Action W (Option String)
  contact_on_list row list_id (some contact_id) = do
    cc_call (Call.add_to_list contact_id list_id) (env.add_to_list contact_id list_id)
    pure none
  contact_on_list row list_id none = create_or_read row list_id

  unfoldable pub put_contact_on_list : EmailRow → String → Action W (Option String)
  put_contact_on_list row list_id = contact_on_list row list_id row.cc_contact_id

  -- `_drop_list`: a list left behind is no failure.
  unfoldable pub drop_list : EmailRow → Option String → Action W Unit
  drop_list row list_id =
      catch
        (do
          cc_call (Call.delete_list list_id) (env.delete_list list_id)
          write (λ w. mark row.email_id Store.list_deleted_at (env.now w)))
        keep_list

  -- The list of the row, made where there is none.
  unfoldable pub list_for : EmailRow → Option String → Action W String
  list_for row (some list_id) = pure list_id
  list_for row none = do
    list_id ← cc_call (Call.create_list (campaign_name row)) (env.create_list (campaign_name row))
    write (λ w. store_ids row.email_id ((cc_list_id, list_id) ∷ []))
    pure list_id

  module _ (sender : Sender) where
    unfoldable pub make_campaign : EmailRow → String → Option String → Action W Prepared
    make_campaign row list_id (some why) = pure (problem why)
    make_campaign row list_id none = do
      made ←
          cc_call (Call.create_campaign (campaign_name row) (campaign_fields sender row))
            (env.create_campaign (campaign_name row) (campaign_fields sender row))
      write (λ w.
          store_ids row.email_id
            ((cc_campaign_id, made.campaign_id) ∷ (cc_activity_id, made.activity_id) ∷ []))
      pure (ready (some list_id) (some made.activity_id))

    -- The list, the contact and the campaign, where the row has no campaign yet.
    unfoldable pub prepare : EmailRow → Option String → Action W Prepared
    prepare row none = do
      list_id ← list_for row row.cc_list_id
      why ← put_contact_on_list row list_id
      make_campaign row list_id why
    prepare row (some campaign_id) = pure (ready row.cc_list_id row.cc_activity_id)

    -- A resume cannot know whether the schedule call went through before a crash.
    unfoldable pub already_scheduled : EmailRow → Option String → Action W Bool
    already_scheduled row activity_id =
        test is_some row.cc_activity_id
        then (do
          status ← cc_call (Call.campaign_status activity_id) (env.campaign_status activity_id)
          pure (not (is_draft status)))
        else pure false

    -- The handler round `cc.schedule`: note whether the call may have taken effect, and re-raise.
    unfoldable pub note_unknown : Exc → Action W Unit
    note_unknown (api exc) = do set_past (is_unknown_outcome exc); raise (api exc)
    note_unknown exc = raise exc

    unfoldable pub schedule : Option String → Action W Unit
    schedule activity_id =
        catch (cc_call (Call.schedule activity_id) (env.schedule activity_id)) note_unknown

    unfoldable pub mark_scheduled : EmailRow → Action W Unit
    mark_scheduled row = do
      set_past true
      write (λ w. mark row.email_id Store.scheduled_at (env.now w))

    -- The last look before the call that cannot be taken back; `some` is an early return.
    unfoldable pub schedule_if_clear : EmailRow → Option String → Action W (Option Outcome)
    schedule_if_clear row activity_id = do
      blocked ← gets (λ s. on_dnc row.recipient_email s.world)
      test blocked then (do fail_email row dnc_detail; pure (some failed)) else do
        missing ← gets (λ s. no_permission row.recipient_email s.world)
        test missing
            then (do fail_email row permission_detail; pure (some failed))
            else do schedule activity_id; mark_scheduled row; pure none

    -- `if row["scheduled_at"] is None: … else: …`
    unfoldable pub schedule_once :
        EmailRow → Option String → Option String → Option ℕ → Action W (Option Outcome)
    schedule_once row list_id activity_id none = do
      cc_call (Call.update_campaign activity_id (campaign_fields sender row) list_id)
          (env.update_campaign activity_id (campaign_fields sender row) list_id)
      already ← already_scheduled row activity_id
      test already then (do mark_scheduled row; pure none) else schedule_if_clear row activity_id
    schedule_once row list_id activity_id (some scheduled) = do set_past true; pure none

    unfoldable pub conclude :
        EmailRow → Option String → Option String → Option Outcome → Action W Outcome
    conclude row list_id activity_id (some outcome) = pure outcome
    conclude row list_id activity_id none = do
      cc_call (Call.wait_until_done activity_id) (env.wait_until_done activity_id)
      write (λ w. finish row.email_id activity_id (env.now w))
      drop_list row list_id
      pure sent

    unfoldable pub deliver_prepared : EmailRow → Prepared → Action W Outcome
    deliver_prepared row (problem why) = do fail_email row why; pure failed
    deliver_prepared row (ready list_id activity_id) = do
      early ← schedule_once row list_id activity_id row.scheduled_at
      conclude row list_id activity_id early

    -- The body of the `try`.
    unfoldable pub deliver_clear : EmailRow → Action W Outcome
    deliver_clear row = do
      blocked ← gets (λ s. on_dnc row.recipient_email s.world)
      test blocked then (do fail_email row dnc_detail; pure failed) else do
        missing ← gets (λ s. no_permission row.recipient_email s.world)
        test missing
            then (do fail_email row permission_detail; pure failed)
            else do prepared ← prepare row row.cc_campaign_id; deliver_prepared row prepared

    unfoldable pub stop_or : ApiError → Outcome → Action W Outcome
    stop_or exc outcome =
        test stops_batch exc then raise (batch_stopped exc.message) else pure outcome

    unfoldable pub settle : EmailRow → ApiError → Bool → Action W Outcome
    settle row exc true = do
      write (λ w. park row.email_id (
          "needs review: scheduled or possibly scheduled, not confirmed done (" ⊕ exc.message
          ⊕ ")"))
      stop_or exc needs_review
    settle row exc false = do
      fail_email row (
          exc.message
          ⊕ (if is_unknown_outcome exc
              then " (outcome unknown; a stray draft may exist in Constant Contact)"
              else ""))
      stop_or exc failed

    -- The `except ApiError` of the whole.
    unfoldable pub recover : EmailRow → Exc → Action W Outcome
    recover row (api exc) = do past ← gets (λ s. s.past_the_point); settle row exc past
    recover row exc = raise exc

    unfoldable pub attempt : EmailRow → Action W Outcome
    attempt row = do set_past false; catch (deliver_clear row) (recover row)

    unfoldable pub deliver_row : ℕ → Option EmailRow → Action W Outcome
    deliver_row email_id none = raise (value_error ("no sent_emails row " ⊕ decimal email_id))
    deliver_row email_id (some row) = do
      queued ← gets (λ s. has_queued email_id s.db.log)
      test is_some row.error_detail || not queued then pure skipped else attempt row

    -- One queued email through Constant Contact.
    unfoldable pub deliver_email : ℕ → Action W Outcome
    deliver_email email_id = do
      row ← gets (λ s. find_email email_id s.db.emails)
      deliver_row email_id row
