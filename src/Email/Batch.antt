-- ===== src/Email/Batch.antt =====
-- A whole batch: `_deliver_all` of email/deliver.py. `count_untouched` and `discard_queued` are in its child
-- module Discard.
pub mod Accounting
pub mod Discard
use hail_system.Prelude.{
  ℕ, suc, ◌+◌, ◌-◌, ◌*◌, String, Bool, true, false, not, ◌&&◌, ◌||◌, Option, none, some, List, [],
  ◌∷◌, map, length, leb, ltb, ◌==◌, str_eq, is_some, if◌then◌else◌,
}
use hail_system.Exec.{Result, ok, raised, Exec, test◌then◌else◌, pure, raise, gets, ◌>>=◌, ◌>>◌}
use hail_system.ConstantContact.Budget.{exhausted}
use hail_system.Email.Store.{EmailRow, LogRow, Db, has_queued}
use hail_system.Email.Env.{Env, Sender, Run, Exc, batch_stopped, Action}
use hail_system.Email.Engine.{Outcome, sent, failed, needs_review, skipped, deliver_email}

pub record Counts : Type 0 where
  pub sent : ℕ
  pub failed : ℕ
  pub needs_review : ℕ
  pub skipped : ℕ
  pub remaining : ℕ
  pub stopped : Bool
  pub budget_stop : Bool

abbrev pub no_counts : Counts
no_counts = record {
  sent = 0;
  failed = 0;
  needs_review = 0;
  skipped = 0;
  remaining = 0;
  stopped = false;
  budget_stop = false;
}

-- `counts[outcome] += 1`
abbrev pub count_outcome : Outcome → Counts → Counts
count_outcome sent c = record c { sent = c.sent + 1 }
count_outcome failed c = record c { failed = c.failed + 1 }
count_outcome needs_review c = record c { needs_review = c.needs_review + 1 }
count_outcome skipped c = record c { skipped = c.skipped + 1 }

insert_id : ℕ → List ℕ → List ℕ
insert_id id [] = id ∷ []
insert_id id (j ∷ ids) = if leb id j then id ∷ j ∷ ids else j ∷ insert_id id ids

-- The queued emails of a batch with no error recorded, ORDER BY email_id.
pub queued_ids : String → Db → List EmailRow → List ℕ
unfolding insert_id
queued_ids batch_id db [] = []
queued_ids batch_id db (r ∷ rows) =
    let rest = queued_ids batch_id db rows in
    if str_eq r.batch_id batch_id && not (is_some r.error_detail) && has_queued r.email_id db.log
    then insert_id r.email_id rest
    else rest

abbrev pub is_full : Option ℕ → ℕ → Bool
is_full none n = false
is_full (some max_emails) n = leb max_emails n

module _ {W : Type 0} (env : Env W) (sender : Sender) (max_emails : Option ℕ) where
  -- One outcome of `deliver_email`: the loop goes on, is stopped by the credentials or the quota, or
  -- passes any other exception on.
  unfoldable pub after_one :
      ℕ → Counts → (Counts → Action W Counts) → Result Exc Outcome → Action W Counts
  unfolding pure raise
  after_one left counts go (ok outcome) = go (count_outcome outcome counts)
  after_one left counts go (raised (batch_stopped why)) =
      pure (record counts { stopped = true; remaining = left })
  after_one left counts go (raised exc) = raise exc

  -- The loop over the ids, `n` of them done.
  unfoldable pub deliver_ids : List ℕ → ℕ → Counts → Action W Counts
  unfolding after_one pure
  deliver_ids [] n counts s = pure counts s
  deliver_ids (id ∷ ids) n counts s =
      if is_full max_emails n
      then pure (record counts { remaining = suc (length ids) }) s
      else if exhausted (env.now s.world) (env.cc_api_calls s.world)
      then pure (record counts { budget_stop = true; remaining = suc (length ids) }) s
      else (let (r, s') = deliver_email env sender id s in
          after_one (length ids) counts (deliver_ids ids (n + 1)) r s')

  -- `_deliver_all`
  unfoldable pub deliver_all : String → Action W Counts
  unfolding queued_ids
  deliver_all batch_id = do
    ids ← gets (λ s. queued_ids batch_id s.db s.db.emails)
    deliver_ids ids 0 no_counts
