-- ===== src/ConstantContact/Unsubs/Narrows.antt =====
-- The sync only ever narrows who can be emailed, and its books are closed.
use Prim.Native.Char.{code}
use hail_system.Prelude.{
  ℕ, ◌+◌, ◌≡◌, refl, Bool, true, false, not, Option, none, some, List, ◌∷◌, ◌++◌, is_some, ◌==◌,
  ◌⊎◌, inl, inr, arith, if_cases,
}
use hail_system.Text.{strip, any_char}
use hail_system.ConstantContact.Unsubs.{
  Contact, DncRow, Tables, Counts, Outcome, inserted, already_present, conflict, skipped, Reading,
  add_conflict, has_conflict, find_row, read_existing, insert, record_contact,
}

-- Every row that was there is there unchanged.
abbrev pub Extends : List DncRow → List DncRow → Type 0
Extends old new = (added : List DncRow) × (new ≡ added ++ old)

abbrev pub Adds : Counts → Type 0
Adds c = c.fetched ≡ c.inserted + c.already_present + c.conflicts + c.skipped

abbrev has_at : Contact → Bool
has_at c = any_char (λ d. code d == 64) (strip c.address)

-- The rows of cc_sync_conflicts after a conflict of the run: the pair is among them, and only it may be new.
abbrev pub Noted : ℕ → ℕ → List (ℕ × ℕ) → List (ℕ × ℕ) → Type 0
Noted run_id dnc_id old new =
    (has_conflict run_id dnc_id new ≡ true) × ((new ≡ old) ⊎ (new ≡ (run_id, dnc_id) ∷ old))

-- What an outcome says of the address: the row that it has after, and whether it had one before.
abbrev pub Says : Reading → ℕ → Contact → Tables → Outcome → Tables → Type 0
Says reading run_id c t inserted t' =
    (row : DncRow) × (t'.dnc ≡ row ∷ t.dnc)
    × (row.email_norm ≡ reading.norm (strip c.address))
    × (row.removed_at ≡ none)
    × (find_row (reading.norm (strip c.address)) t.dnc ≡ none)
    × (t'.conflicts ≡ t.conflicts)
Says reading run_id c t already_present t' =
    (t' ≡ t)
    × ((row : DncRow) × (find_row (reading.norm (strip c.address)) t.dnc ≡ some row)
        × (is_some row.removed_at ≡ false))
Says reading run_id c t conflict t' =
    (t'.dnc ≡ t.dnc)
    × ((row : DncRow) × (find_row (reading.norm (strip c.address)) t.dnc ≡ some row)
        × (is_some row.removed_at ≡ true)
        × Noted run_id row.dnc_id t.conflicts t'.conflicts)
Says reading run_id c t skipped t' =
    (t' ≡ t) × (any_char (λ d. code d == 64) (strip c.address) ≡ false)

add_conflict-dnc : (run_id dnc_id : ℕ) (t : Tables) → (add_conflict run_id dnc_id t).dnc ≡ t.dnc
add_conflict-dnc run_id dnc_id t =
    if_cases (λ (u : Tables). u.dnc ≡ t.dnc) (has_conflict run_id dnc_id t.conflicts) (λ _. refl)
      (λ _. refl)

add_conflict-Noted :
    (run_id dnc_id : ℕ) (t : Tables)
    → Noted run_id dnc_id t.conflicts (add_conflict run_id dnc_id t).conflicts
add_conflict-Noted run_id dnc_id t =
    if_cases (λ (u : Tables). Noted run_id dnc_id t.conflicts u.conflicts)
      (has_conflict run_id dnc_id t.conflicts) (λ h. (h, inl refl)) (λ _. (ground arith, inr refl))

module _ (reading : Reading) (added_by run_id : ℕ) where
  insert-Says :
      (c : Contact) (t : Tables) (o : Option DncRow)
      → find_row (reading.norm (strip c.address)) t.dnc ≡ o
      → Says reading run_id c t
          (insert reading added_by run_id c t o).0
          (insert reading added_by run_id c t o).1
  unfolding insert read_existing
  insert-Says c t none e = (_, refl, refl, refl, e, refl)
  insert-Says c t (some row) e =
      if_cases (λ (p : Outcome × Tables). Says reading run_id c t p.0 p.1) (is_some row.removed_at)
        (λ h. (
          add_conflict-dnc run_id row.dnc_id t,
          (row, e, h, add_conflict-Noted run_id row.dnc_id t),
        ))
        (λ h. (refl, (row, e, h)))

  -- A contact with an address has a row of dnc_list after it is recorded: a new one that is in force, or one that was
  -- there and is not touched. It counts as a conflict exactly where an admin removed that row, and the run then has
  -- a conflict row for it, the only one that may be new; otherwise no conflict row is added. A contact without an
  -- address changes nothing.
  pub record_contact-Says :
      (c : Contact) (t : Tables)
      → Says reading run_id c t
          (record_contact reading added_by run_id c t).0
          (record_contact reading added_by run_id c t).1
  unfolding record_contact insert read_existing find_row
  record_contact-Says c t =
      if_cases (λ (p : Outcome × Tables). Says reading run_id c t p.0 p.1) (not (has_at c))
        (λ h. (refl, ground (arith, h)))
        (λ _. insert-Says c t (find_row (reading.norm (strip c.address)) t.dnc) refl)
