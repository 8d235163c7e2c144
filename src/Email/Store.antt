-- ===== src/Email/Store.antt =====
-- The rows that email/deliver.py reads and writes (sent_emails, send_log, dnc_list,
-- send_permission), and its small database steps. Each step commits, so it is one update.
use hail_system.Prelude.{
  ℕ, String, Bool, true, false, not, ◌&&◌, Option, none, some, List, [], ◌∷◌, map, any, ◌==◌,
  str_eq, is_some, if◌then◌else◌,
}

pub data SendStatus : Type 0 where
  queued sent failed bounced complained : SendStatus

abbrev pub is_queued : SendStatus → Bool
is_queued queued = true
is_queued _ = false

abbrev pub is_sent : SendStatus → Bool
is_sent sent = true
is_sent _ = false

-- A row of sent_emails, with the agent's name that the query joins to it.
pub record EmailRow : Type 0 where
  pub email_id : ℕ
  pub batch_id : String
  pub recipient_email : String
  pub agent_name : String
  pub subject : String
  pub html_body : String
  pub created_at : ℕ
  pub cc_contact_id : Option String
  pub cc_list_id : Option String
  pub cc_campaign_id : Option String
  pub cc_activity_id : Option String
  pub scheduled_at : Option ℕ
  pub list_deleted_at : Option ℕ
  pub error_detail : Option String

-- A row of send_log, one for each match that an email covers.
pub record LogRow : Type 0 where
  pub email_id : ℕ
  pub send_status : SendStatus
  pub provider_message_id : Option String
  pub error_detail : Option String
  pub sent_at : Option ℕ
  pub status_updated_at : Option ℕ

pub record Db : Type 0 where
  pub emails : List EmailRow
  pub log : List LogRow

-- A row of dnc_list or of send_permission.
pub record Listed : Type 0 where
  pub email_norm : String
  pub removed_at : Option ℕ

-- EXISTS (… WHERE email_norm = … AND removed_at IS NULL)
unfoldable pub is_listed : String → List Listed → Bool
is_listed norm rows = any (λ r. str_eq r.email_norm norm && not (is_some r.removed_at)) rows

unfoldable pub find_email : ℕ → List EmailRow → Option EmailRow
find_email id [] = none
find_email id (r ∷ rows) = if r.email_id == id then some r else find_email id rows

abbrev pub has_queued : ℕ → List LogRow → Bool
has_queued id rows = any (λ (l : LogRow). (l.email_id == id) && is_queued l.send_status) rows

-- UPDATE sent_emails … WHERE email_id = id
unfoldable pub update_email : ℕ → (EmailRow → EmailRow) → Db → Db
update_email id f db = record db {
  emails = map (λ (r : EmailRow). if r.email_id == id then f r else r) db.emails;
}

-- UPDATE send_log … WHERE email_id = id AND send_status = 'queued'
unfoldable pub update_queued : ℕ → (LogRow → LogRow) → Db → Db
update_queued id f db = record db {
  log =
      map (λ (l : LogRow). if (l.email_id == id) && is_queued l.send_status then f l else l) db.log;
}

pub data IdColumn : Type 0 where
  cc_contact_id cc_list_id cc_campaign_id cc_activity_id : IdColumn

abbrev pub set_id : IdColumn → Option String → EmailRow → EmailRow
set_id cc_contact_id v r = record r { cc_contact_id = v }
set_id cc_list_id v r = record r { cc_list_id = v }
set_id cc_campaign_id v r = record r { cc_campaign_id = v }
set_id cc_activity_id v r = record r { cc_activity_id = v }

abbrev pub set_ids : List (IdColumn × String) → EmailRow → EmailRow
set_ids [] r = r
set_ids ((c, v) ∷ ids) r = set_ids ids (set_id c (some v) r)

-- `_store_ids`; that only id columns are passed is the type of its argument.
unfoldable pub store_ids : ℕ → List (IdColumn × String) → Db → Db
store_ids id ids db = update_email id (set_ids ids) db

pub data MarkColumn : Type 0 where
  scheduled_at list_deleted_at : MarkColumn

abbrev pub set_mark : MarkColumn → ℕ → EmailRow → EmailRow
set_mark scheduled_at now r = record r { scheduled_at = some now }
set_mark list_deleted_at now r = record r { list_deleted_at = some now }

unfoldable pub mark : ℕ → MarkColumn → ℕ → Db → Db
mark id column now db = update_email id (set_mark column now) db

-- … SET error_detail = detail WHERE error_detail IS NULL
abbrev pub note_error : String → EmailRow → EmailRow
note_error detail r = if is_some r.error_detail then r else record r { error_detail = some detail }

abbrev pub fail_row : String → ℕ → LogRow → LogRow
fail_row detail now l = record l {
  send_status = failed;
  error_detail = some detail;
  status_updated_at = some now;
}

-- Nothing was sent: the matches become eligible again for a later send.
unfoldable pub fail : ℕ → String → ℕ → Db → Db
fail id detail now db =
    update_queued id (fail_row detail now) (update_email id (note_error detail) db)

-- It may have been sent: the send_log rows stay 'queued'.
unfoldable pub park : ℕ → String → Db → Db
park id detail db = update_email id (note_error detail) db

abbrev pub sent_row : Option String → ℕ → LogRow → LogRow
sent_row activity_id now l = record l {
  send_status = sent;
  sent_at = some now;
  provider_message_id = activity_id;
  status_updated_at = some now;
}

unfoldable pub finish : ℕ → Option String → ℕ → Db → Db
finish id activity_id now db = update_queued id (sent_row activity_id now) db
