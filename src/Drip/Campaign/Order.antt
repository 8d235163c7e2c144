-- ===== src/Drip/Campaign/Order.antt =====
-- The order of a campaign's follow-ups.
use hail_system.Prelude.{
  ℕ, suc, ◌+◌, ◌-◌, String, ◌≡◌, refl, ap, sym, subst, ◌∙◌, ◌⊎◌, inl, inr, Bool, true, false, not,
  ◌||◌, Option, none, some, List, [], ◌∷◌, map, any, length, ltb, ◌==◌, arith, if_cases, Bool-cases,
  ==_iff,
}
use hail_system.Exec.{Result, ok}
use hail_system.Drip.Plan.{Step}
use hail_system.Drip.Campaign.{
  Status, complete, Move, StopReason, StepRow, Campaign, Error, guarded, not_a_recipient, is_active,
  is_open, is_allowed, goes_to, read_move, read_reason, all_sent, completes_early, change_status,
  move_status, set_status, is_hit, stop_for, stop_recipient, has_none, stop_addresses,
  stop_by_addresses, write_stops, finish_step, has_sent, may_send, send_row, send_step,
  create_campaign, number_steps, Change, moved, stopped, addressed, stepped, none_emailed, Changes,
  same, then_one,
}
use hail_system.Drip.Campaign.Life.{tested, change_status-ok}

-- A follow-up has been sent only after the one before it, and a complete campaign has sent them all.
pub record IsSound (c : Campaign) : Type 0 where
  pub in_order : (n : ℕ) → has_sent (suc (suc n)) c.steps ≡ true → has_sent (suc n) c.steps ≡ true
  pub finished : c.status ≡ complete → all_sent c.steps ≡ true

completed :
    (new : Status) (rows : List StepRow)
    → completes_early new rows ≡ false
    → new ≡ complete
    → all_sent rows ≡ true
completed new rows early q =
    let k : not (all_sent rows) ≡ false = subst (λ s. completes_early s rows ≡ false) q early in
    ground (arith, k)

-- A change of status, where it goes through, keeps the steps.
change_status-IsSound :
    (user : ℕ) (new : Status) (c c' : Campaign)
    → ((n : ℕ) → has_sent (suc (suc n)) c.steps ≡ true → has_sent (suc n) c.steps ≡ true)
    → change_status user new c ≡ ok c'
    → IsSound c'
change_status-IsSound user new c c' order h =
    let (_, early, e) = change_status-ok user new c c' h in
    subst IsSound (sym e) (record { in_order = order; finished = completed new c.steps early })

previous :
    (j k : ℕ) (rows : List StepRow)
    → suc (suc k) ≡ j
    → (not (ltb 1 j) || has_sent (j - 1) rows) ≡ true
    → has_sent (suc k) rows ≡ true
previous j k rows e m =
    let late : ltb 1 j ≡ true = ground (arith, e) in
    let d : j - 1 ≡ suc k = omega arith in
    subst (λ i. has_sent i rows ≡ true) d (ground (arith, m, late))

module _ (user n : ℕ) (batch_id : String) where
  has_sent_mono :
      (k : ℕ) (rows : List StepRow)
      → has_sent k rows ≡ true
      → has_sent k (map (send_row user n batch_id) rows) ≡ true
  has_sent_mono k [] h = h
  has_sent_mono k (r ∷ rows) h = ground (arith, h, has_sent_mono k rows)

  has_sent-other :
      (k : ℕ) (rows : List StepRow)
      → (k == n) ≡ false
      → has_sent k (map (send_row user n batch_id) rows) ≡ has_sent k rows
  has_sent-other k [] h = refl
  has_sent-other k (r ∷ rows) h = ground (arith, h, has_sent-other k rows h)

  has_sent-back :
      (k : ℕ) (rows : List StepRow)
      → has_sent k (map (send_row user n batch_id) rows) ≡ true
      → (has_sent k rows ≡ true) ⊎ (k ≡ n)
  has_sent-back k rows h = elim (Bool-cases (k == n)) [
    | inl e ↦ inr ((==_iff k n).0 e)
    | inr d ↦ inl (sym (has_sent-other k rows d) ∙ h)
  ]

  -- A step that may be sent keeps the order.
  sent_in_order :
      (emailed : String → Bool) (c : Campaign)
      → may_send emailed n batch_id c ≡ true
      → ((k : ℕ) → has_sent (suc (suc k)) c.steps ≡ true → has_sent (suc k) c.steps ≡ true)
      → (k : ℕ) → has_sent (suc (suc k)) (map (send_row user n batch_id) c.steps) ≡ true
      → has_sent (suc k) (map (send_row user n batch_id) c.steps) ≡ true
  sent_in_order emailed c m order k h = elim (has_sent-back (suc (suc k)) c.steps h) [
    | inl b ↦ has_sent_mono (suc k) c.steps (order k b)
    | inr e ↦ has_sent_mono (suc k) c.steps (before e)
  ]
    where
      before : suc (suc k) ≡ n → has_sent (suc k) c.steps ≡ true
      before e = previous n k c.steps e (ground (arith, m))

move_status-IsSound :
    (user : ℕ) (m : Option Move) (c c' : Campaign)
    → IsSound c
    → move_status user m c ≡ ok c'
    → IsSound c'
unfolding move_status
move_status-IsSound user none c c' h e = absurd (cc e)
move_status-IsSound user (some m) c c' h given =
    if_cases (λ (r : Result Error Campaign). r ≡ ok c' → IsSound c') (is_allowed m c.status)
      (λ _ e. change_status-IsSound user (goes_to m) c c' h.in_order e) (λ _ e. absurd (cc e)) given

stop_for-IsSound :
    (user realtor_id : ℕ) (reason : Option StopReason) (c c' : Campaign)
    → IsSound c
    → stop_for user realtor_id reason c ≡ ok c'
    → IsSound c'
unfolding stop_for
stop_for-IsSound user realtor_id none c c' h e = absurd (cc e)
stop_for-IsSound user realtor_id (some reason) c c' h given =
    if_cases (λ (r : Result Error Campaign). r ≡ ok c' → IsSound c') (not (is_open c.status))
      (λ _ e. absurd (cc e))
      (λ _ e.
        let (_, q) = tested (any (is_hit realtor_id) c.recipients) _ c' not_a_recipient e in
        subst IsSound (sym q) (record { in_order = h.in_order; finished = h.finished }))
      given

stop_addresses-IsSound :
    (user : ℕ) (emails : List String) (reason : Option StopReason) (c c' : Campaign)
    → IsSound c
    → stop_addresses user emails reason c ≡ ok c'
    → IsSound c'
unfolding stop_addresses
stop_addresses-IsSound user emails none c c' h e = absurd (cc e)
stop_addresses-IsSound user emails (some reason) c c' h given =
    if_cases (λ (r : Result Error Campaign). r ≡ ok c' → IsSound c') (not (is_open c.status))
      (λ _ e. absurd (cc e))
      (λ _ given'.
        if_cases (λ (r : Result Error Campaign). r ≡ ok c' → IsSound c') (has_none emails)
          (λ _ e. absurd (cc e))
          (λ _ e.
            let (_, q) = tested true _ c' not_a_recipient e in
            subst IsSound (sym q) (record { in_order = h.in_order; finished = h.finished }))
          given')
      given

write_stops-IsSound :
    (stops : List (ℕ × String)) (c : Campaign) → IsSound c → IsSound (write_stops stops c)
unfolding write_stops
write_stops-IsSound stops c h = record { in_order = h.in_order; finished = h.finished }

not_done : {s : Status} → s ≡ complete → is_active s ≡ true → ⊥
not_done q a = cc (ap (λ s. is_active s) q, a)

send_step-IsSound :
    (emailed : String → Bool) (user n : ℕ) (batch_id : String) (c c' : Campaign)
    → IsSound c
    → send_step emailed user n batch_id c ≡ ok c'
    → IsSound c'
unfolding send_step change_status
send_step-IsSound emailed user n batch_id c c' h given =
    if_cases (λ (r : Result Error Campaign). r ≡ ok c' → IsSound c') (may_send emailed n batch_id c)
      (λ m.
        if_cases (λ (r : Result Error Campaign). r ≡ ok c' → IsSound c') (n == length c.steps)
          (λ _ e.
            change_status-IsSound user complete
              (record c { steps = map (send_row user n batch_id) c.steps }) c'
              (sent_in_order user n batch_id emailed c m h.in_order) e)
          (λ _ e.
            let (_, q) =
              tested true (record c { steps = map (send_row user n batch_id) c.steps }) c' guarded
                e in
            subst IsSound (sym q) (record {
              in_order = sent_in_order user n batch_id emailed c m h.in_order;
              finished = λ done. absurd (not_done done (ground (arith, m)));
            })))
      (λ _ e. absurd (cc e)) given

Change-IsSound :
    {emailed : String → Bool} {c c' : Campaign} → Change emailed c c' → IsSound c → IsSound c'
unfolding set_status stop_recipient stop_by_addresses finish_step move_status stop_for
Change-IsSound (moved user move e) h = move_status-IsSound user (read_move move) _ _ h e
Change-IsSound (stopped user realtor_id reason e) h =
    stop_for-IsSound user realtor_id (read_reason reason) _ _ h e
Change-IsSound (addressed user emails reason e) h =
    stop_addresses-IsSound user emails (read_reason reason) _ _ h e
Change-IsSound {emailed = emailed} (stepped user n batch_id stops e) h =
    send_step-IsSound emailed user n batch_id _ _ (write_stops-IsSound stops _ h) e
Change-IsSound (none_emailed stops e) h = subst IsSound e (write_stops-IsSound stops _ h)

none_sent : (k n : ℕ) (steps : List Step) → has_sent k (number_steps n steps) ≡ false
none_sent k n [] = refl
none_sent k n (step ∷ steps) = ground (arith, none_sent k (n + 1) steps)

created-IsSound :
    (batch_id : String) (steps : List Step) (realtors : List (ℕ × String))
    → IsSound (create_campaign batch_id steps realtors)
unfolding create_campaign
created-IsSound batch_id steps realtors = record {
  in_order = λ n h. absurd (cc (h, none_sent (suc (suc n)) 1 steps));
  finished = λ h. absurd (cc h);
}

-- Whatever happens to a campaign after it is created, in any order (moves, stops, follow-ups), a follow-up
-- has been sent only where the one before it has, and the campaign is complete only where all have.
pub campaign-IsSound :
    (emailed : String → Bool) (batch_id : String) (steps : List Step) (realtors : List (ℕ × String))
    (c : Campaign)
    → Changes emailed (create_campaign batch_id steps realtors) c
    → IsSound c
campaign-IsSound emailed batch_id steps realtors c changes =
    go changes (created-IsSound batch_id steps realtors)
  where
    go : {a b : Campaign} → Changes emailed a b → IsSound a → IsSound b
    go same h = h
    go (then_one changes change) h = Change-IsSound change (go changes h)
