-- ===== src/Email/Rule/Steps.antt =====
-- The rule for one delivery, step by step in the order of the code.
use hail_system.Prelude.{
  String, ◌≡◌, refl, Bool, true, false, not, Option, none, some, List, [], ◌∷◌, ◌⊎◌, inl, inr,
}
use hail_system.Exec.{Result, ok, raised, pure}
use hail_system.Exec.Hoare.{
  Post, Ensures, Ensures-pure, Ensures-raise, Ensures-if, Ensures-bind, Ensures-catch,
}
use hail_system.ConstantContact.Errors.{ApiError}
use hail_system.Email.Store.{EmailRow, Db, IdColumn, store_ids}
use hail_system.Email.Env.{
  Env, Contact, Sender, Call, is_schedule, Event, Run, Exc, api, batch_stopped, Action, Answer,
  lift, cc_call, write, set_past,
}
use hail_system.Email.Engine.{
  Outcome, Prepared, problem, ready, is_draft, use_existing, read_existing, create_new,
  create_or_read, contact_on_list, put_contact_on_list, list_for, make_campaign, prepare,
  already_scheduled,
}
use hail_system.Email.Rule.Phases.{Fact, Stable, is_activity, MayBeDraft, WasScheduled, Phases}

-- The phase that a state is in, with the value of `past_the_point`.
abbrev pub At : {W : Type 0} → Fact W → Bool → Run W → Type 0
At P past s = (s.past_the_point ≡ past) × P s.db s.events

module _ {W : Type 0} {env : Env W} {row : EmailRow} (ph : Phases env row) where
  -- What an ApiError inside the `try` leaves: past the point exactly where `After` holds.
  abbrev pub Broken : Exc → Run W → Type 0
  Broken (api exc) s = At ph.Safe false s ⊎ At ph.After true s
  Broken exc s = ⊥

  abbrev pub Concluded : Outcome → Run W → Type 0
  Concluded Outcome.sent s = ph.Sent s.db s.events
  Concluded Outcome.failed s = ph.Failed s.db s.events
  Concluded Outcome.needs_review s = ph.Parked s.db s.events
  Concluded Outcome.skipped s = ⊥

  abbrev pub Stopped : Exc → Run W → Type 0
  Stopped (batch_stopped why) s = ph.Failed s.db s.events ⊎ ph.Parked s.db s.events
  Stopped exc s = ⊥

module _ {W A : Type 0} where
  call-Post :
      (P : Fact W) (b : Bool) (R : Exc → Run W → Type 0)
      (breaks : (e : ApiError) (s : Run W) → At P b s → R (api e) s) (r : Result ApiError A)
      (s : Run W)
      → At P b s
      → Post (λ _. At P b) R (lift r) s
  call-Post P b R breaks (ok a) s h = h
  call-Post P b R breaks (raised e) s h = breaks e s h

  -- A call other than `schedule`.
  pub call-Ensures :
      {P : Fact W} {b : Bool} {R : Exc → Run W → Type 0}
      (breaks : (e : ApiError) (s : Run W) → At P b s → R (api e) s) (c : Call) (f : W → Answer W A)
      → Stable P
      → is_schedule c ≡ false
      → Ensures (At P b) (cc_call c f) (λ _. At P b) R
  unfolding cc_call
  call-Ensures {P} {b} {R} breaks c f stable other = record {
    at = λ s h. call-Post P b R breaks (f s.world).0 _ (h.0, stable s.db _ s.events other h.1);
  }

module _ {W : Type 0} where
  pub write-Ensures :
      (P Q : Fact W) {b : Bool} {R : Exc → Run W → Type 0} (f : W → Db → Db)
      → ((db : Db) (es : List (Event W)) (w : W) → P db es → Q (f w db) es)
      → Ensures (At P b) (write f) (λ _. At Q b) R
  unfolding write
  write-Ensures P Q f h = record { at = λ s p. (p.0, h s.db s.events s.world p.1) }

  pub set_past-Ensures :
      {P Q : Fact W} {b : Bool} {R : Exc → Run W → Type 0} (c : Bool)
      → ((db : Db) (es : List (Event W)) → P db es → Q db es)
      → Ensures (At P b) (set_past c) (λ _. At Q c) R
  unfolding set_past
  set_past-Ensures c h = record { at = λ s p. (refl, h s.db s.events p.1) }

module _ {W : Type 0} {env : Env W} {row : EmailRow} (ph : Phases env row) where
  -- In the first phase calls and stored ids stay there. An ApiError leaves the phase as it was.
  abbrev pub Began : Exc → Run W → Type 0
  Began (api exc) s = At ph.Start false s
  Began exc s = ⊥

  abbrev Starting : {A : Type 0} → Action W A → Type 0
  Starting m = Ensures (At ph.Start false) m (λ _. At ph.Start false) Began

  start_call :
      {A : Type 0} (c : Call) (f : W → Answer W A) → is_schedule c ≡ false → Starting (cc_call c f)
  start_call c f other = call-Ensures (λ _ s h. h) c f ph.start_stable other

  start_ids :
      (c : IdColumn) (v : String)
      → is_activity c ≡ false
      → Starting (write (λ _. store_ids row.email_id ((c, v) ∷ [])))
  start_ids c v other =
      write-Ensures ph.Start ph.Start _ (λ db es _. ph.start_store db es c v other)

  start_pure : {A : Type 0} (a : A) → Starting (pure a)
  start_pure a = Ensures-pure a (λ s h. h)

  use_existing-Starting : (l : String) (c : Option Contact) → Starting (use_existing env row l c)
  unfolding use_existing
  use_existing-Starting l none = start_pure _
  use_existing-Starting l (some found) =
      Ensures-if _ _ _ (λ _. start_pure _)
        (λ _.
          Ensures-bind _ _ (start_ids _ _ refl)
            (λ _. Ensures-bind _ _ (start_call _ _ refl) (λ _. start_pure _)))

  read_existing-Starting :
      (l : String) (e : Exc)
      → Ensures (Began e) (read_existing env row l e) (λ _. At ph.Start false) Began
  unfolding read_existing
  read_existing-Starting l (api exc) =
      Ensures-if _ _ _ (λ _. Ensures-bind _ _ (start_call _ _ refl) (use_existing-Starting l))
        (λ _. Ensures-raise _ (λ s h. h))
  read_existing-Starting l _ = Ensures-raise _ (λ s h. h)

  create_or_read-Starting : (l : String) → Starting (create_or_read env row l)
  unfolding create_or_read create_new
  create_or_read-Starting l =
      Ensures-catch _ _
        (Ensures-bind _ _ (start_call _ _ refl)
          (λ _. Ensures-bind _ _ (start_ids _ _ refl) (λ _. start_pure _)))
        (read_existing-Starting l)

  contact_on_list-Starting :
      (l : String) (c : Option String) → Starting (contact_on_list env row l c)
  unfolding contact_on_list
  contact_on_list-Starting l none = create_or_read-Starting l
  contact_on_list-Starting l (some c) = Ensures-bind _ _ (start_call _ _ refl) (λ _. start_pure _)

  list_for-Starting : (l : Option String) → Starting (list_for env row l)
  unfolding list_for
  list_for-Starting none =
      Ensures-bind _ _ (start_call _ _ refl)
        (λ _. Ensures-bind _ _ (start_ids _ _ refl) (λ _. start_pure _))
  list_for-Starting (some l) = start_pure _

  -- What `prepare` leaves.
  abbrev pub Readied : Prepared → Run W → Type 0
  Readied (problem why) = At ph.Start false
  Readied (ready l a) = At (ph.Ready a) false

  make_campaign-Readied :
      (sender : Sender) (l : String) (why : Option String)
      → Ensures (At ph.Start false) (make_campaign env sender row l why) Readied Began
  unfolding make_campaign
  make_campaign-Readied sender l (some why) = Ensures-pure _ (λ s h. h)
  make_campaign-Readied sender l none = Ensures-bind _ _ (start_call _ _ refl) (λ made.
      Ensures-bind _ _ (write-Ensures ph.Start (ph.Ready _) _ (λ db es _ h. ph.made db es _ _ h))
        (λ _. Ensures-pure _ (λ s h. h)))

  pub prepare-Readied :
      (sender : Sender) (c : Option String)
      → Ensures (At ph.Start false) (prepare env sender row c) Readied Began
  unfolding prepare put_contact_on_list
  prepare-Readied sender none =
      Ensures-bind _ _ (list_for-Starting _)
        (λ l. Ensures-bind _ _ (contact_on_list-Starting l _) (make_campaign-Readied sender l))
  prepare-Readied sender (some c) = Ensures-pure _ (λ s h. (h.0, ph.resumed s.db s.events h.1))

  pub ready_breaks :
      (a : Option String) (e : ApiError) (s : Run W) → At (ph.Ready a) false s → Broken ph (api e) s
  ready_breaks a e s h = inl (h.0, ph.ready_safe s.db s.events a h.1)

  pub after_breaks : (e : ApiError) (s : Run W) → At ph.After true s → Broken ph (api e) s
  after_breaks e s h = inr h

  -- What the resume test says of the campaign, right after it.
  abbrev pub Asked : Option String → Bool → Run W → Type 0
  Asked a false s = MayBeDraft env row a
  Asked a true s = WasScheduled env row a s.events

  status-Asked :
      (a : Option String) (ev : Event W) (older : List (Event W)) (s : Run W)
      (status : Option String)
      → s.events ≡ ev ∷ older
      → ev.call ≡ Call.campaign_status a
      → (env.campaign_status a ev.world).0 ≡ ok status
      → Asked a (not (is_draft status)) s
  status-Asked a ev older s status m c e = go (is_draft status) refl
    where
      go : (b : Bool) → is_draft status ≡ b → Asked a (not b) s
      go true d = inr (ev.world, status, e, d)
      go false d = inr (ev, older, m, (c, (status, e, d)))

  asking-Post :
      (a : Option String) (ev : Event W) (older : List (Event W))
      (r : Result ApiError (Option String)) (s : Run W)
      → s.events ≡ ev ∷ older
      → ev.call ≡ Call.campaign_status a
      → (env.campaign_status a ev.world).0 ≡ r
      → At (ph.Ready a) false s
      → Post
          (λ status s. At (ph.Ready a) false s × Asked a (not (is_draft status)) s)
          (Broken ph)
          (lift r)
          s
  asking-Post a ev older (ok status) s m c e h = (h, status-Asked a ev older s status m c e)
  asking-Post a ev older (raised exc) s m c e h = ready_breaks a exc s h

  asking-Ensures :
      (a : Option String)
      → Ensures
          (At (ph.Ready a) false)
          (cc_call (Call.campaign_status a) (env.campaign_status a))
          (λ status s. At (ph.Ready a) false s × Asked a (not (is_draft status)) s)
          (Broken ph)
  unfolding cc_call
  asking-Ensures a = record {
    at = λ s h.
        asking-Post a _ s.events (env.campaign_status a s.world).0 _ refl refl refl
          (h.0, ph.ready_stable a s.db _ s.events refl h.1);
  }

  pub already_scheduled-Ensures :
      (sender : Sender) (a : Option String)
      → Ensures
          (At (ph.Ready a) false)
          (already_scheduled env sender row a)
          (λ b s. At (ph.Ready a) false s × Asked a b s)
          (Broken ph)
  unfolding already_scheduled
  already_scheduled-Ensures sender a =
      Ensures-if _ _ _
        (λ _. Ensures-bind _ _ (asking-Ensures a) (λ status. Ensures-pure _ (λ s h. h)))
        (λ fresh. Ensures-pure _ (λ s h. (h, inl fresh)))
