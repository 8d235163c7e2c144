-- ===== src/Send/Queue/Plan.antt =====
-- Who is planned: every realtor of the list has an entry of the plan of its own, or is skipped for a reason that holds.
use hail_system.Prelude.{
  ℕ, ◌+◌, ◌≡◌, refl, ◌⊎◌, inl, inr, String, true, false, not, Option, none, some, List, [], ◌∷◌,
  length, if_cases, All, arith,
}
use hail_system.Exec.{Result, ok, raised}
use hail_system.SendList.{Recipient}
use hail_system.Send.Queue.{
  QueueError, Contact, Skipped, no_skipped, Planned, is_allowed, is_unsubscribed, look_up,
  with_email, not_allowed_one, unsubscribed_one, planned_one, looked_up, plan_all,
}

-- An email that may be queued: to an allowed address that was looked up, and is not unsubscribed.
abbrev pub IsPlanned : Option (List String) → (String → Option (Option Contact)) → Planned → Type 0
IsPlanned allowed contacts p =
    (p.realtor.email ≡ some p.email)
    × (is_allowed allowed p.realtor.email ≡ true)
    × (contacts p.email ≡ some p.contact)
    × (is_unsubscribed p.contact ≡ false)

abbrev pub skips : Skipped → ℕ
skips k = k.not_allowed + k.unsubscribed_in_cc + length k.unrenderable

module _ (allowed : Option (List String)) (contacts : String → Option (Option Contact))
    (render : Recipient → Option (String × String)) where
  -- What becomes of a realtor whose address is allowed and was looked up: it is counted as unsubscribed, listed as not
  -- rendered, or planned with its own address, contact and text. `rest` and `k` are of the realtors after it.
  abbrev pub Taken :
      Recipient → String → Option Contact → List Planned → Skipped → List Planned → Skipped → Type 0
  Taken r email contact rest k plan k' =
      ((is_unsubscribed contact ≡ true)
        × (plan ≡ rest)
        × (k' ≡ record k { unsubscribed_in_cc = k.unsubscribed_in_cc + 1 }))
      ⊎ ((is_unsubscribed contact ≡ false)
          × (((render r ≡ none)
                × (plan ≡ rest)
                × (k' ≡ record k { unrenderable = r.realtor_id ∷ k.unrenderable }))
              ⊎ ((subject : String) × (html : String) × (render r ≡ some (subject, html))
                  × (plan
                      ≡ record {
                        realtor = r;
                        email = email;
                        contact = contact;
                        subject = subject;
                        html = html;
                      }
                        ∷ rest)
                  × (k' ≡ k))))

  abbrev pub Placed : Recipient → List Planned → Skipped → List Planned → Skipped → Type 0
  Placed r rest k plan k' =
      ((is_allowed allowed r.email ≡ false)
        × (plan ≡ rest)
        × (k' ≡ record k { not_allowed = k.not_allowed + 1 }))
      ⊎ ((is_allowed allowed r.email ≡ true)
          × ((email : String) × (contact : Option Contact) × (r.email ≡ some email)
              × (contacts email ≡ some contact)
              × Taken r email contact rest k plan k'))

  -- The plan and the skipped are those of the realtors, one by one and in their order.
  abbrev pub Split : List Recipient → List Planned → Skipped → Type 0
  Split [] plan k = (plan ≡ []) × (k ≡ no_skipped)
  Split (r ∷ realtors) plan k =
      (rest : List Planned) × (k₀ : Skipped) × Split realtors rest k₀ × Placed r rest k₀ plan k

  abbrev pub Plans : List Recipient → Result QueueError (List Planned × Skipped) → Type 0
  Plans realtors (raised e) = Unit
  Plans realtors (ok (plan, k)) =
      (length plan + skips k ≡ length realtors)
      × All (IsPlanned allowed contacts) plan
      × Split realtors plan k

  module _ (r : Recipient) (realtors : List Recipient) where
    not_allowed_one-Plans :
        (rest : Result QueueError (List Planned × Skipped))
        → is_allowed allowed r.email ≡ false
        → Plans realtors rest
        → Plans (r ∷ realtors) (not_allowed_one rest)
    not_allowed_one-Plans (raised e) a h = tt
    not_allowed_one-Plans (ok (plan, k)) a (h, p, s) =
        (omega (arith, h), p, (plan, k, s, inl (a, refl, refl)))

    abbrev Fine : String → Option Contact → Type 0
    Fine email contact =
        (r.email ≡ some email)
        × (is_allowed allowed r.email ≡ true)
        × (contacts email ≡ some contact)

    unsubscribed_one-Plans :
        (email : String) (contact : Option Contact)
        (rest : Result QueueError (List Planned × Skipped))
        → Fine email contact
        → is_unsubscribed contact ≡ true
        → Plans realtors rest
        → Plans (r ∷ realtors) (unsubscribed_one rest)
    unsubscribed_one-Plans email contact (raised e) fine u h = tt
    unsubscribed_one-Plans email contact (ok (plan, k)) (e, a, f) u (h, p, s) =
        (omega (arith, h), p, (plan, k, s, inr (a, (email, contact, e, f, inl (u, refl, refl)))))

    planned_one-Plans :
        (email : String) (contact : Option Contact) (o : Option (String × String))
        (rest : Result QueueError (List Planned × Skipped))
        → render r ≡ o
        → Fine email contact
        → is_unsubscribed contact ≡ false
        → Plans realtors rest
        → Plans (r ∷ realtors) (planned_one r email contact o rest)
    unfolding planned_one
    planned_one-Plans email contact o (raised x) t fine u h = tt
    planned_one-Plans email contact none (ok (plan, k)) t (e, a, f) u (h, p, s) = (
      omega (arith, h),
      p,
      (plan, k, s, inr (a, (email, contact, e, f, inr (u, inl (t, refl, refl))))),
    )
    planned_one-Plans email contact (some (subject, html)) (ok (plan, k)) t (e, a, f) u (h, p, s) =
        (
          omega (arith, h),
          ((e, a, f, u), p),
          (
            plan,
            k,
            s,
            inr (a, (email, contact, e, f, inr (u, inr (subject, html, t, refl, refl)))),
          ),
        )

    -- Where the address and its contact come from.
    abbrev LookedUp : Option (String × Option Contact) → Type 0
    LookedUp none = Unit
    LookedUp (some (email, contact)) = (r.email ≡ some email) × (contacts email ≡ some contact)

    with_email-LookedUp :
        (email : String) (o : Option (Option Contact))
        → r.email ≡ some email
        → contacts email ≡ o
        → LookedUp (with_email email o)
    with_email-LookedUp email none e f = tt
    with_email-LookedUp email (some contact) e f = (e, f)

    look_up-LookedUp : (o : Option String) → r.email ≡ o → LookedUp (look_up contacts o)
    look_up-LookedUp none e = tt
    look_up-LookedUp (some email) e = with_email-LookedUp email (contacts email) e refl

    looked_up-Plans :
        (o : Option (String × Option Contact)) (rest : Result QueueError (List Planned × Skipped))
        → LookedUp o
        → is_allowed allowed r.email ≡ true
        → Plans realtors rest
        → Plans (r ∷ realtors) (looked_up allowed contacts render r o rest)
    unfolding looked_up
    looked_up-Plans none rest l a h = tt
    looked_up-Plans (some (email, contact)) rest (e, f) a h =
        if_cases (Plans (r ∷ realtors)) (is_unsubscribed contact)
          (λ u. unsubscribed_one-Plans email contact rest (e, a, f) u h)
          (λ u. planned_one-Plans email contact (render r) rest refl (e, a, f) u h)

  pub plan_all-Plans :
      (realtors : List Recipient) → Plans realtors (plan_all allowed contacts render realtors)
  unfolding plan_all
  plan_all-Plans [] = (refl, tt, (refl, refl))
  plan_all-Plans (r ∷ realtors) =
      let rest : Result QueueError (List Planned × Skipped) =
        plan_all allowed contacts render realtors in
      if_cases (Plans (r ∷ realtors)) (not (is_allowed allowed r.email))
        (λ a. not_allowed_one-Plans r realtors rest (ground (arith, a)) (plan_all-Plans realtors))
        (λ a.
          looked_up-Plans r realtors (look_up contacts r.email) rest
            (look_up-LookedUp r realtors r.email refl) (ground (arith, a))
            (plan_all-Plans realtors))
