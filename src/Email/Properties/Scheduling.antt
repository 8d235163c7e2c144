-- ===== src/Email/Properties/Scheduling.antt =====
-- When the engine makes the one call that cannot be taken back.
use hail_system.Prelude.{ℕ, String, ◌≡◌, true, false, some, [], All}
use hail_system.Email.Store.{EmailRow, find_email}
use hail_system.Email.Env.{Env, Sender, is_schedule, Event, Run}
use hail_system.Email.Engine.{on_dnc, no_permission, deliver_email}
use hail_system.Email.Properties.Uniform.{deliver_email-All}

-- The recipient could be emailed at the moment of a schedule call.
abbrev pub IsClear : {W : Type 0} → Env W → String → Event W → Type 0
IsClear env to e =
    is_schedule e.call ≡ true
    → (on_dnc env to e.world ≡ false) × (no_permission env to e.world ≡ false)

-- For a stored email, with no calls made before, every schedule call of the delivery is made in a
-- world in which the recipient is not on the DNC list and has a recorded permission.
pub deliver_email-IsClear :
    {W : Type 0} (env : Env W) (sender : Sender) (id : ℕ) (s : Run W) (row : EmailRow)
    → find_email id s.db.emails ≡ some row
    → s.events ≡ []
    → All (IsClear env row.recipient_email) (deliver_email env sender id s).1.events
deliver_email-IsClear env sender id s row =
    deliver_email-All env row (IsClear env row.recipient_email) (λ e q h. absurd (cc (q, h)))
      (λ db w a refusal f d c p _. (c, p)) sender id s
