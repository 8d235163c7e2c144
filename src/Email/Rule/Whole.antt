-- ===== src/Email/Rule/Whole.antt =====
-- The rule for `deliver_email`, with the rows that it skips.
use hail_system.Prelude.{ℕ, ◌≡◌, refl, sym, subst, Bool, true, false, not, ◌||◌, some, is_some}
use hail_system.Exec.{Result, ok, raised, test◌then◌else◌, pure, ◌>>=◌}
use hail_system.Exec.Hoare.{Post}
use hail_system.Email.Store.{EmailRow, find_email, has_queued}
use hail_system.Email.Env.{Env, Sender, Run, Exc, Action}
use hail_system.Email.Engine.{Outcome, deliver_email, deliver_row, attempt}
use hail_system.Email.Rule.Phases.{Phases}
use hail_system.Email.Rule.Steps.{Concluded, Stopped}
use hail_system.Email.Rule.Attempt.{attempt-Ensures}

module _ {W : Type 0} {env : Env W} {row : EmailRow} (ph : Phases env row) (sender : Sender) where
  -- A skipped email leaves everything as it was.
  abbrev pub Ended : Run W → Outcome → Run W → Type 0
  Ended s₀ Outcome.skipped s = s ≡ s₀
  Ended s₀ Outcome.sent s = ph.Sent s.db s.events
  Ended s₀ Outcome.failed s = ph.Failed s.db s.events
  Ended s₀ Outcome.needs_review s = ph.Parked s.db s.events

  Concluded-Ended :
      (s₀ : Run W) (r : Result Exc Outcome) (s : Run W)
      → Post (Concluded ph) (Stopped ph) r s
      → Post (Ended s₀) (Stopped ph) r s
  Concluded-Ended s₀ (ok Outcome.skipped) s h = absurd h
  Concluded-Ended s₀ (ok Outcome.sent) s h = h
  Concluded-Ended s₀ (ok Outcome.failed) s h = h
  Concluded-Ended s₀ (ok Outcome.needs_review) s h = h
  Concluded-Ended s₀ (raised e) s h = h

  skip-Ended :
      (b : Bool) (s : Run W)
      → ph.Start s.db s.events
      → let m : Action W Outcome = test b then pure Outcome.skipped else attempt env sender row in
        Post (Ended s) (Stopped ph) (m s).0 (m s).1
  unfolding test◌then◌else◌ pure
  skip-Ended true s h = refl
  skip-Ended false s h =
      Concluded-Ended s (attempt env sender row s).0 (attempt env sender row s).1
        ((attempt-Ensures ph sender).at s h)

  row-Ended :
      (id : ℕ) (s : Run W)
      → ph.Start s.db s.events
      → let m : Action W Outcome = deliver_row env sender id (some row) in
        Post (Ended s) (Stopped ph) (m s).0 (m s).1
  unfolding deliver_row ◌>>=◌
  row-Ended id s h = skip-Ended (is_some row.error_detail || not (has_queued id s.db.log)) s h

  pub deliver_email-Ended :
      (id : ℕ) (s : Run W)
      → find_email id s.db.emails ≡ some row
      → ph.Start s.db s.events
      → Post
          (Ended s)
          (Stopped ph)
          (deliver_email env sender id s).0
          (deliver_email env sender id s).1
  unfolding deliver_email ◌>>=◌
  deliver_email-Ended id s found h =
      subst
        (λ o.
          Post (Ended s) (Stopped ph) (deliver_row env sender id o s).0
            (deliver_row env sender id o s).1)
        (sym found) (row-Ended id s h)
