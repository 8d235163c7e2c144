-- ===== src/Email/Batch/Accounting.antt =====
-- The counts of a batch add up, and the two limits on it hold.
use hail_system.Prelude.{ℕ, ◌+◌, ◌≤◌, ◌≡◌, Bool, true, false, Option, none, some, List, length}
use hail_system.Exec.{Result, ok, raised}
use hail_system.Email.Store.{EmailRow}
use hail_system.Email.Env.{Env, Sender, Run, Exc, api}
use hail_system.Email.Engine.{Outcome, sent, failed, needs_review, skipped}
use hail_system.Email.Rule.Phases.{Phases}
use hail_system.Email.Properties.Uniform.{uniform}
use hail_system.Email.Batch.{Counts, deliver_ids}

abbrev pub one_if : Bool → ℕ
one_if true = 1
one_if false = 0

-- The emails that were started: with an outcome, and the one that stopped the batch.
abbrev pub started : Counts → ℕ
started c = c.sent + c.failed + c.needs_review + c.skipped + one_if c.stopped

-- A running count: nothing is left over yet.
abbrev IsRunning : Counts → Type 0
IsRunning c = (c.remaining ≡ 0) × (c.stopped ≡ false)

-- At most `max_emails` emails, where that is given.
abbrev pub Within : Option ℕ → ℕ → Type 0
Within none n = Unit
Within (some max_emails) n = n ≤ max_emails

-- All `total` emails are accounted for, and at most `max_emails` were started; no ApiError gets here.
abbrev pub Accounted : ℕ → Option ℕ → Result Exc Counts → Type 0
Accounted total max_emails (ok c) =
    (started c + c.remaining ≡ total) × Within max_emails (started c)
Accounted total max_emails (raised (api exc)) = ⊥
Accounted total max_emails (raised e) = Unit

abbrev EscapeOnly : Result Exc Outcome → Type 0
EscapeOnly (raised (api exc)) = ⊥
EscapeOnly _ = Unit

module _ {W : Type 0} (env : Env W) (sender : Sender) where
  anything : (row : EmailRow) → Phases env row
  unfolding uniform
  anything row = uniform env row (λ _. Unit) (λ _ _. tt) (λ _ _ _ _ _ _ _ _. tt)

  module _ (max_emails : Option ℕ) where
    abbrev Loop : List ℕ → ℕ → Type 0
    Loop ids n =
        (c : Counts) (s : Run W)
        → IsRunning c
        → started c ≡ n
        → Within max_emails n
        → Accounted (n + length ids) max_emails (deliver_ids env sender max_emails ids n c s).0
