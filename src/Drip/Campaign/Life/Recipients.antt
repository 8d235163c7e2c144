-- ===== src/Drip/Campaign/Life/Recipients.antt =====
-- The recipients of a campaign under the stops of a follow-up's run.
use hail_system.Prelude.{
  ℕ, String, ◌≡◌, refl, ap, sym, ◌∙◌, ◌⊎◌, inl, inr, map, is_some, [], ◌∷◌, false, Option, none,
  some, List, arith, if_cases,
}
use hail_system.Drip.Campaign.{StoppedBy, by_step, Recipient, is_hit, stop_by_step, stop_each}

-- A recipient stays as it is, or was not stopped and is now, by the run of a follow-up.
abbrev pub Stays : Recipient → Recipient → Type 0
Stays r r' =
    (r' ≡ r)
    ⊎ ((r.stopped ≡ none)
        × ((reason : String) × (r' ≡ record r { stopped = some (by_step reason) })))

abbrev pub AllStay : List Recipient → List Recipient → Type 0
AllStay [] [] = Unit
AllStay (r ∷ rs) (r' ∷ rs') = Stays r r' × AllStay rs rs'
AllStay [] (r' ∷ rs') = ⊥
AllStay (r ∷ rs) [] = ⊥

pub AllStay-refl : (rs : List Recipient) → AllStay rs rs
AllStay-refl [] = tt
AllStay-refl (r ∷ rs) = (inl refl, AllStay-refl rs)

chain-Stays : (a b c : Recipient) → Stays a b → Stays b c → Stays a c
chain-Stays a b c (inl e) (inl f) = inl (f ∙ e)
chain-Stays a b c (inr (n, (reason, e))) (inl f) = inr (n, (reason, f ∙ e))
chain-Stays a b c (inl e) (inr (n, (reason, f))) = inr (
  ap (λ (r : Recipient). r.stopped) (sym e) ∙ n,
  (reason, f ∙ ap (λ (r : Recipient). record r { stopped = some (by_step reason) }) e),
)
chain-Stays a b c (inr (n, (reason, e))) (inr (m, (again, f))) =
    absurd (cc (sym (ap (λ (r : Recipient). r.stopped) e) ∙ m))

pub chain-AllStay :
    (ones bs cs : List Recipient) → AllStay ones bs → AllStay bs cs → AllStay ones cs
chain-AllStay [] [] [] h k = tt
chain-AllStay (a ∷ ones) (b ∷ bs) (c ∷ cs) (h, hs) (k, ks) =
    (chain-Stays a b c h k, chain-AllStay ones bs cs hs ks)
chain-AllStay [] [] (c ∷ cs) h k = absurd k
chain-AllStay [] (b ∷ bs) cs h k = absurd h
chain-AllStay (a ∷ ones) [] cs h k = absurd h
chain-AllStay (a ∷ ones) (b ∷ bs) [] h k = absurd k

not_stopped : (o : Option StoppedBy) → is_some o ≡ false → o ≡ none
not_stopped none h = refl
not_stopped (some by) h = absurd (cc h)

stop_one-AllStay :
    (realtor_id : ℕ) (reason : String) (rs : List Recipient)
    → AllStay rs (map (stop_by_step (realtor_id, reason)) rs)
stop_one-AllStay realtor_id reason [] = tt
stop_one-AllStay realtor_id reason (r ∷ rs) = (
  if_cases (λ (r' : Recipient). Stays r r') (is_hit realtor_id r)
      (λ e. inr (not_stopped r.stopped (ground (arith, e)), (reason, refl))) (λ _. inl refl),
  stop_one-AllStay realtor_id reason rs,
)

pub stop_each-AllStay :
    (stops : List (ℕ × String)) (rs : List Recipient) → AllStay rs (stop_each stops rs)
unfolding stop_each
stop_each-AllStay [] rs = AllStay-refl rs
stop_each-AllStay ((realtor_id, reason) ∷ stops) rs =
    chain-AllStay rs (map (stop_by_step (realtor_id, reason)) rs) _
      (stop_one-AllStay realtor_id reason rs) (stop_each-AllStay stops _)
