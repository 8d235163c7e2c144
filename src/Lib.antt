-- ===== src/Lib.antt =====
-- Hail System: a model of the parts that spend money or send email, and what holds of them.
--
-- The program finds homes that hail has hit, buys their sale listings from RentCast, and emails the listing
-- agents through Constant Contact. Everything is kept in a PostgreSQL database.
--
-- The parts and their files:
-- - hailsys/email/deliver.py takes a batch of queued emails through Constant Contact, one at a time, so that
--   a crash at any point can be resumed. Email/Store.antt has the rows it reads and writes and its database
--   steps (`_store_ids`, `_mark`, `_fail`, `_park`, `_finish`), each one committed update; Email/Env.antt the
--   calls of Constant Contact and the tables that other code writes, as a parameter; Email/Engine.antt
--   `deliver_email` statement by statement; Email/Batch.antt `_deliver_all`;
--   Email/Resume.antt `deliver_batch`, `check_resumable` and `run_resume`; Email/Batch/Discard.antt
--   `count_untouched` and `discard_queued`; Email/FirstName.antt `first_name` of hailsys/email/render.py.
-- - hailsys/constantcontact: ConstantContact/Errors.antt has ApiError of api.py and its two readings in
--   campaigns.py, ConstantContact/Budget.antt the daily call budget of budget.py, which a batch asks before
--   each email. ConstantContact/Transport.antt has `request` of api.py with its retries, ConstantContact/Contacts.antt
--   its pages of unsubscribed contacts, and ConstantContact/Unsubs.antt the sync of unsubs.py, which every send
--   and every resume runs first.
-- - hailsys/queries/sendlist.py, which chooses who is emailed about which storm days: SendList.antt, with the rules in
--   SendList/Rules.antt, the houses that several agents list in SendList/Houses.antt, and the events of an email
--   in SendList/Events.antt.
-- - hailsys/email/send.py: Send/Queue.antt has `queue_batch`, which writes the rows that a delivery reads.
-- - hailsys/constantcontact/statuses.py: ConstantContact/Bounces.antt has the bounce check, with `worst_code` in
--   ConstantContact/Bounces/Codes.antt, the loop in ConstantContact/Bounces/Runs/Loop.antt and a whole run in
--   ConstantContact/Bounces/Runs.antt.
-- - hailsys/rentcast: RentCast/Client.antt has the requests of client.py with their retries, RentCast/Pull.antt
--   the bookkeeping of a pull of many zips. RentCast/Check.antt has dripcheck.py, what an answer says of a listing
--   that a follow-up would mention, and RentCast/Step.antt `check_by_id` of dripstep.py, which looks every
--   listing of a step up, with `choose_method` of dripplan.py; RentCast/ZipPull.antt `check_by_zip_pull`, which reads
--   them off a pull of their zips.
-- - hailsys/email/dripstart.py and dripactions.py: Drip/Plan.antt has `parse_plan`, Drip/Campaign.antt the rows of
--   one campaign and what changes them (`set_status`, `stop_recipient`, `stop_by_addresses`, and the stops and the
--   sent step that `run_step` of dripstep.py writes) under the triggers of sql/046_drip_campaigns.sql. Drip/Followup.antt has `select_followup` of
--   hailsys/queries/dripfollowup.py, which chooses from the matches of the first send and the checks of a step,
--   and `listings_to_check`, the listings that the step checks (Drip/Followup/Listings.antt).
-- Exec.antt is the state and exception monad of the engine, with rules in Exec/Hoare.antt; Email/Rule is a
-- rule that carries a predicate of the calls and the tables through a whole delivery, which
-- Email/Properties instantiates. Text.antt has Python's string operations on ASCII text.
--
-- State is passed on explicitly: `W` is the state of everything outside (Constant Contact, RentCast, the
-- clock, the tables that only other code writes), and each call returns a new one, so what other sessions do
-- in between is in the model. An exception is a value that the state stands beside. SQL statements are
-- functions on lists of rows. Times are whole seconds.
--
-- Fuel: a request of Constant Contact gets MAX_RETRIES + 1 rounds and its paging MAX_PAGES, which is where the source
-- stops; `_get` gets MAX_RETRIES + 1 requests and the lookup by id MAX_ATTEMPTS_BY_ID, which is where the source
-- raises; a search gets one page more than the listings fill, and that the pages run out is a hypothesis about
-- RentCast.
--
-- Not modelled: logging, the sleeps that only space requests out, who holds the advisory lock of a batch, HTML and
-- templates, geometry and radar grids, web routes, and the text of SQL beyond the rows it selects and updates.
pub mod Prelude
pub mod Exec
pub mod Text
pub mod Tests
pub mod ConstantContact
pub mod Email
pub mod RentCast
pub mod Drip
pub mod SendList
pub mod Send
