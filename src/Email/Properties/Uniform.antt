-- ===== src/Email/Properties/Uniform.antt =====
-- The phases of a property that every call has by itself, whatever the phase.
use hail_system.Prelude.{
  ℕ, String, ◌≡◌, sym, subst, false, Option, none, some, List, [], All, inl, inr,
}
use hail_system.Exec.{Result, ok, raised}
use hail_system.Exec.Hoare.{Post}
use hail_system.ConstantContact.Errors.{ApiError}
use hail_system.Email.Store.{EmailRow, Db, find_email}
use hail_system.Email.Env.{
  Env, Sender, is_schedule, Event, Run, Exc, api, batch_stopped, value_error,
}
use hail_system.Email.Engine.{Outcome, on_dnc, no_permission, deliver_email}
use hail_system.Email.Rule.Phases.{Fact, scheduling, MayBeDraft, Phases}
use hail_system.Email.Rule.Steps.{Stopped}
use hail_system.Email.Rule.Whole.{Ended, deliver_email-Ended}

module _ {W : Type 0} {env : Env W} {row : EmailRow} where
  -- A fact that every end of a delivery has.
  pub at_end :
      (ph : Phases env row) (sender : Sender) (P : Fact W)
      → ((db : Db) (es : List (Event W)) → ph.Start db es → P db es)
      → ((db : Db) (es : List (Event W)) → ph.Sent db es → P db es)
      → ((db : Db) (es : List (Event W)) → ph.Failed db es → P db es)
      → ((db : Db) (es : List (Event W)) → ph.Parked db es → P db es)
      → (s₀ : Run W) → ph.Start s₀.db s₀.events
      → (r : Result Exc Outcome) (s : Run W) → Post (Ended ph sender s₀) (Stopped ph) r s
      → P s.db s.events
  at_end ph sender P start sent failed parked s₀ h (ok Outcome.skipped) s e =
      subst (λ (t : Run W). P t.db t.events) (sym e) (start s₀.db s₀.events h)
  at_end ph sender P start sent failed parked s₀ h (ok Outcome.sent) s e = sent s.db s.events e
  at_end ph sender P start sent failed parked s₀ h (ok Outcome.failed) s e = failed s.db s.events e
  at_end ph sender P start sent failed parked s₀ h (ok Outcome.needs_review) s e =
      parked s.db s.events e
  at_end ph sender P start sent failed parked s₀ h (raised (batch_stopped why)) s (inl e) =
      failed s.db s.events e
  at_end ph sender P start sent failed parked s₀ h (raised (batch_stopped why)) s (inr e) =
      parked s.db s.events e
  at_end ph sender P start sent failed parked s₀ h (raised (api exc)) s e = absurd e
  at_end ph sender P start sent failed parked s₀ h (raised (value_error why)) s e = absurd e

module _ {W : Type 0} (env : Env W) (row : EmailRow) (Good : Event W → Type 0)
    (other : (e : Event W) → is_schedule e.call ≡ false → Good e)
    (call : (db : Db) (w : W) (a : Option String) (refusal : Option ApiError)
      → row.scheduled_at ≡ none
      → MayBeDraft env row a
      → on_dnc env row.recipient_email w ≡ false
      → no_permission env row.recipient_email w ≡ false
      → Good (scheduling a db w refusal)) where
  abbrev pub AllGood : Fact W
  AllGood db es = All Good es

  unfoldable pub uniform : Phases env row
  uniform = record {
    Start = AllGood;
    Ready = λ _. AllGood;
    After = AllGood;
    Safe = AllGood;
    Failed = AllGood;
    Parked = AllGood;
    Sent = AllGood;
    start_stable = λ db e es q h. (other e q, h);
    ready_stable = λ _ db e es q h. (other e q, h);
    after_stable = λ db e es q h. (other e q, h);
    sent_stable = λ db e es q h. (other e q, h);
    start_store = λ db es c v q h. h;
    made = λ db es c a h. h;
    resumed = λ db es h. h;
    accepted = λ db es a w f d c p h. (call db w a none f d c p, h);
    unknown = λ db es a w exc f d c p u h. (call db w a (some exc) f d c p, h);
    refused = λ db es a w exc f d c p u h. (call db w a (some exc) f d c p, h);
    already = λ db es a was h. h;
    start_safe = λ db es h. h;
    ready_safe = λ db es a h. h;
    after_mark = λ db es now h. h;
    fails = λ db es detail now h. h;
    parks = λ db es detail h. h;
    finishes = λ db es a now h. h;
    sent_mark = λ db es now h. h;
  }

  -- If each schedule call that the code can make is good, so are all the calls of a delivery.
  pub deliver_email-All :
      (sender : Sender) (id : ℕ) (s : Run W)
      → find_email id s.db.emails ≡ some row
      → s.events ≡ []
      → All Good (deliver_email env sender id s).1.events
  unfolding uniform
  deliver_email-All sender id s found fresh =
      let start : All Good s.events = subst (All Good) (sym fresh) tt in
      at_end uniform sender AllGood (λ _ _ h. h) (λ _ _ h. h) (λ _ _ h. h) (λ _ _ h. h) s start
        (deliver_email env sender id s).0 (deliver_email env sender id s).1
        (deliver_email-Ended uniform sender id s found start)
