-- ===== src/Email/Rule/Attempt.antt =====
-- The rule for one delivery: scheduling, concluding, and the `except ApiError` of the whole.
use hail_system.Prelude.{
  ℕ, String, ◌≡◌, refl, ap, is_some, sym, subst, ◌∙◌, Bool, true, false, Option, none, some, ◌∷◌,
  ◌⊎◌, inl, inr, if◌then◌else◌,
}
use hail_system.Exec.{Result, ok, raised, handle, pure, catch, test◌then◌else◌, ◌>>=◌, ◌>>◌}
use hail_system.Exec.Hoare.{
  Post, weaken, relax, Ensures, Ensures-pure, Ensures-raise, Ensures-if, Ensures-bind,
  Ensures-catch, Ensures-gets,
}
use hail_system.ConstantContact.Errors.{ApiError, is_unknown_outcome}
use hail_system.Email.Store.{EmailRow}
use hail_system.Email.Env.{
  Env, Sender, Call, Run, Exc, api, batch_stopped, value_error, lift, refusal_of, cc_call, write,
  set_past,
}
use hail_system.Email.Engine.{
  Outcome, Prepared, problem, ready, on_dnc, no_permission, fail_email, drop_list, note_unknown,
  schedule, mark_scheduled, schedule_if_clear, schedule_once, conclude, keep_list, deliver_prepared,
  deliver_clear, stop_or, settle, recover, attempt,
}
use hail_system.Email.Rule.Phases.{scheduling, MayBeDraft, Phases}
use hail_system.Email.Rule.Steps.{
  At, Broken, Concluded, Stopped, call-Ensures, write-Ensures, set_past-Ensures, Began, Asked,
  Readied, prepare-Readied, ready_breaks, after_breaks, already_scheduled-Ensures,
}

module _ {W : Type 0} {env : Env W} {row : EmailRow} (ph : Phases env row) (sender : Sender) where
  -- Where the last look found nothing.
  abbrev Clear : Run W → Type 0
  Clear s =
      (on_dnc env row.recipient_email s.world ≡ false)
      × (no_permission env row.recipient_email s.world ≡ false)

  abbrev Scheduled : Run W → Type 0
  Scheduled s = ph.After s.db s.events

  module _ (a : Option String) (fresh : row.scheduled_at ≡ none)
      (draft : MayBeDraft env row a) where
    noted-Broken :
        (exc : ApiError) (b : Bool) (s : Run W)
        → is_unknown_outcome exc ≡ b
        → Clear s
        → ph.Ready a s.db s.events
        → (w : W)
        → Broken ph (api exc) (record s {
          world = w;
          past_the_point = b;
          events = scheduling a s.db s.world (some exc) ∷ s.events;
        })
    noted-Broken exc true s u (c, p) h w =
        inr (refl, ph.unknown s.db s.events a s.world exc fresh draft c p u h)
    noted-Broken exc false s u (c, p) h w =
        inl (refl, ph.refused s.db s.events a s.world exc fresh draft c p u h)

    schedule-Post :
        (r : Result ApiError Unit) (s : Run W) (w : W)
        → At (ph.Ready a) false s
        → Clear s
        → let s' : Run W = record s {
          world = w;
          events =
              record { call = Call.schedule a; db = s.db; world = s.world; refusal = refusal_of r }
              ∷ s.events;
        } in
          Post
            (λ _. Scheduled)
            (Broken ph)
            (handle (lift r) (note_unknown env sender) s').0
            (handle (lift r) (note_unknown env sender) s').1
    unfolding note_unknown set_past ◌>>=◌
    schedule-Post (ok _) s w h (c, p) = ph.accepted s.db s.events a s.world fresh draft c p h.1
    schedule-Post (raised exc) s w h cl = noted-Broken exc (is_unknown_outcome exc) s refl cl h.1 w

    schedule-Ensures :
        Ensures
          (λ s. At (ph.Ready a) false s × Clear s)
          (schedule env sender a)
          (λ _. Scheduled)
          (Broken ph)
    unfolding schedule cc_call catch
    schedule-Ensures = record {
      at = λ s (h, c). schedule-Post (env.schedule a s.world).0 s (env.schedule a s.world).1 h c;
    }

  mark_scheduled-Ensures :
      Ensures Scheduled (mark_scheduled env sender row) (λ _. At ph.After true) (Broken ph)
  unfolding mark_scheduled set_past write ◌>>=◌
  mark_scheduled-Ensures = record {
    at = λ s h. (refl, ph.after_mark s.db s.events (env.now s.world) h);
  }

  -- Where a function returns early, the email has failed.
  abbrev Early : Option Outcome → Run W → Type 0
  Early none s = At ph.After true s
  Early (some outcome) s = (outcome ≡ Outcome.failed) × ph.Failed s.db s.events

  fail-Ensures :
      {P : Run W → Type 0} (detail : String) {R : Exc → Run W → Type 0}
      → ((s : Run W) → P s → ph.Safe s.db s.events)
      → Ensures P (fail_email env row detail) (λ _ s. ph.Failed s.db s.events) R
  unfolding fail_email write
  fail-Ensures detail safe = record {
    at = λ s h. ph.fails s.db s.events detail (env.now s.world) (safe s h);
  }

  schedule_if_clear-Ensures :
      (a : Option String)
      → row.scheduled_at ≡ none
      → MayBeDraft env row a
      → Ensures (At (ph.Ready a) false) (schedule_if_clear env sender row a) Early (Broken ph)
  unfolding schedule_if_clear
  schedule_if_clear-Ensures a fresh draft = Ensures-gets _ _ (λ blocked.
      Ensures-if _ _ _
        (λ _.
          Ensures-bind _ _ (fail-Ensures _ (λ s h. ph.ready_safe s.db s.events a h.0.1))
            (λ _. Ensures-pure _ (λ s h. (refl, h))))
        (λ clear. Ensures-gets _ _ (λ missing.
          Ensures-if _ _ _
            (λ _.
              Ensures-bind _ _ (fail-Ensures _ (λ s h. ph.ready_safe s.db s.events a h.0.0.1))
                (λ _. Ensures-pure _ (λ s h. (refl, h))))
            (λ permitted.
              Ensures-bind _ _
                (weaken (λ s h. (h.0.0, (h.0.1 ∙ clear, h.1 ∙ permitted)))
                  (schedule-Ensures a fresh draft))
                (λ _. Ensures-bind _ _ mark_scheduled-Ensures (λ _. Ensures-pure _ (λ s h. h)))))))

  once-Ensures :
      (l a : Option String) (b : Bool)
      → row.scheduled_at ≡ none
      → Ensures
          (λ s. At (ph.Ready a) false s × Asked ph a b s)
          (test b
            then (mark_scheduled env sender row >> pure none)
            else schedule_if_clear env sender row a)
          Early
          (Broken ph)
  once-Ensures l a true fresh =
      Ensures-if _ _ _
        (λ _.
          Ensures-bind _ _
            (weaken (λ s h. ph.already s.db s.events a h.1 h.0.1) mark_scheduled-Ensures)
            (λ _. Ensures-pure _ (λ s h. h)))
        (λ e. absurd (cc e))
  once-Ensures l a false fresh =
      Ensures-if _ _ _ (λ e. absurd (cc e))
        (λ _. record { at = λ s h. (schedule_if_clear-Ensures a fresh h.1).at s h.0 })

  schedule_once-Ensures :
      (l a : Option String) (scheduled : Option ℕ)
      → row.scheduled_at ≡ scheduled
      → Ensures
          (At (ph.Ready a) false)
          (schedule_once env sender row l a scheduled)
          Early
          (Broken ph)
  unfolding schedule_once
  schedule_once-Ensures l a none fresh =
      Ensures-bind _ _ (call-Ensures (ready_breaks ph a) _ _ (ph.ready_stable a) refl) (λ _.
        Ensures-bind _ _ (already_scheduled-Ensures ph sender a) (λ b. once-Ensures l a b fresh))
  schedule_once-Ensures l a (some t) e =
      Ensures-bind _ _
        (set_past-Ensures true
          (λ db es h. ph.already db es a (inl (ap (λ (o : Option ℕ). is_some o) e)) h))
        (λ _. Ensures-pure _ (λ s h. h))

  -- `_drop_list` comes after the email is recorded as sent.
  abbrev Kept : Exc → Run W → Type 0
  Kept (api exc) s = At ph.Sent true s
  Kept exc s = ⊥

  keep_list-Ensures : (e : Exc) → Ensures (Kept e) (keep_list e) (λ _. At ph.Sent true) (Broken ph)
  unfolding keep_list
  keep_list-Ensures (api exc) = Ensures-pure _ (λ s h. h)
  keep_list-Ensures (batch_stopped why) = Ensures-raise _ (λ s h. h)
  keep_list-Ensures (value_error why) = Ensures-raise _ (λ s h. h)

  drop_list-Ensures :
      (l : Option String)
      → Ensures (At ph.Sent true) (drop_list env row l) (λ _. At ph.Sent true) (Broken ph)
  unfolding drop_list
  drop_list-Ensures l =
      Ensures-catch {M = Kept} _ _
        (Ensures-bind _ _ (call-Ensures (λ _ s h. h) _ _ ph.sent_stable refl)
          (λ _. write-Ensures ph.Sent ph.Sent _ (λ db es w h. ph.sent_mark db es (env.now w) h)))
        keep_list-Ensures

  conclude-Ensures :
      (l a : Option String) (early : Option Outcome)
      → Ensures (Early early) (conclude env sender row l a early) (Concluded ph) (Broken ph)
  unfolding conclude
  conclude-Ensures l a (some Outcome.failed) = Ensures-pure _ (λ s h. h.1)
  conclude-Ensures l a (some _) = Ensures-pure _ (λ s h. absurd (cc h.0))
  conclude-Ensures l a none =
      Ensures-bind _ _ (call-Ensures (after_breaks ph) _ _ ph.after_stable refl) (λ _.
        Ensures-bind _ _
          (write-Ensures ph.After ph.Sent _ (λ db es w h. ph.finishes db es a (env.now w) h))
          (λ _. Ensures-bind _ _ (drop_list-Ensures l) (λ _. Ensures-pure _ (λ s h. h.1))))

  deliver_prepared-Ensures :
      (p : Prepared)
      → Ensures (Readied ph p) (deliver_prepared env sender row p) (Concluded ph) (Broken ph)
  unfolding deliver_prepared
  deliver_prepared-Ensures (problem why) =
      Ensures-bind _ _ (fail-Ensures _ (λ s h. ph.start_safe s.db s.events h.1))
        (λ _. Ensures-pure _ (λ s h. h))
  deliver_prepared-Ensures (ready l a) =
      Ensures-bind _ _ (schedule_once-Ensures l a row.scheduled_at refl) (conclude-Ensures l a)

  Began-Broken : (e : Exc) (s : Run W) → Began ph e s → Broken ph e s
  Began-Broken (api exc) s h = inl (h.0, ph.start_safe s.db s.events h.1)
  Began-Broken (batch_stopped why) s h = h
  Began-Broken (value_error why) s h = h

  deliver_clear-Ensures :
      Ensures (At ph.Start false) (deliver_clear env sender row) (Concluded ph) (Broken ph)
  unfolding deliver_clear
  deliver_clear-Ensures = Ensures-gets _ _ (λ blocked.
      Ensures-if _ _ _
        (λ _.
          Ensures-bind _ _ (fail-Ensures _ (λ s h. ph.start_safe s.db s.events h.0.1))
            (λ _. Ensures-pure _ (λ s h. h)))
        (λ _. Ensures-gets _ _ (λ missing.
          Ensures-if _ _ _
            (λ _.
              Ensures-bind _ _ (fail-Ensures _ (λ s h. ph.start_safe s.db s.events h.0.0.1))
                (λ _. Ensures-pure _ (λ s h. h)))
            (λ _.
              Ensures-bind _ _
                (weaken (λ s h. h.0.0)
                  (relax Began-Broken (prepare-Readied ph sender row.cc_campaign_id)))
                deliver_prepared-Ensures))))

  stop_or-Ensures :
      (exc : ApiError) (o : Outcome)
      → ((s : Run W) → Concluded ph o s → ph.Failed s.db s.events ⊎ ph.Parked s.db s.events)
      → Ensures (Concluded ph o) (stop_or env sender exc o) (Concluded ph) (Stopped ph)
  unfolding stop_or
  stop_or-Ensures exc o over =
      Ensures-if _ _ _ (λ _. Ensures-raise _ over) (λ _. Ensures-pure _ (λ s h. h))

  -- What `recover` reads `past_the_point` in.
  abbrev Settling : Bool → Run W → Type 0
  Settling true s = At ph.After true s
  Settling false s = At ph.Safe false s

  settle-Ensures :
      (exc : ApiError) (past : Bool)
      → Ensures (Settling past) (settle env sender row exc past) (Concluded ph) (Stopped ph)
  unfolding settle fail_email
  settle-Ensures exc true =
      Ensures-bind _ _
        (weaken (λ s h. h) (write-Ensures ph.After ph.Parked _ (λ db es w h. ph.parks db es _ h)))
        (λ _. weaken (λ s h. h.1) (stop_or-Ensures exc Outcome.needs_review (λ s h. inr h)))
  settle-Ensures exc false =
      Ensures-bind _ _
        (weaken (λ s h. h)
          (write-Ensures ph.Safe ph.Failed _ (λ db es w h. ph.fails db es _ (env.now w) h)))
        (λ _. weaken (λ s h. h.1) (stop_or-Ensures exc Outcome.failed (λ s h. inl h)))

  settling : (exc : ApiError) (s : Run W) → Broken ph (api exc) s → Settling s.past_the_point s
  settling exc s (inl h) = subst (λ b. Settling b s) (sym h.0) h
  settling exc s (inr h) = subst (λ b. Settling b s) (sym h.0) h

  recover-Ensures :
      (e : Exc) → Ensures (Broken ph e) (recover env sender row e) (Concluded ph) (Stopped ph)
  unfolding recover
  recover-Ensures (api exc) = Ensures-gets _ _ (λ past.
      weaken (λ s h. subst (λ b. Settling b s) h.1 (settling exc s h.0)) (settle-Ensures exc past))
  recover-Ensures (batch_stopped why) = Ensures-raise _ (λ s h. absurd h)
  recover-Ensures (value_error why) = Ensures-raise _ (λ s h. absurd h)

  -- The rule: from the first phase, a delivery ends in the phase that its outcome names.
  pub attempt-Ensures :
      Ensures (λ s. ph.Start s.db s.events) (attempt env sender row) (Concluded ph) (Stopped ph)
  unfolding attempt
  attempt-Ensures =
      Ensures-bind _ _ (reset) (λ _. Ensures-catch _ _ deliver_clear-Ensures recover-Ensures)
    where
      reset :
          Ensures
            (λ s. ph.Start s.db s.events)
            (set_past false)
            (λ _. At ph.Start false)
            (Stopped ph)
      reset = record { at = λ s h. unfold set_past in (refl, h) }
