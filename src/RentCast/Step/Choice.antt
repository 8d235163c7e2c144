-- ===== src/RentCast/Step/Choice.antt =====
-- The cheaper way to check a step's listings.
use hail_system.Prelude.{ℕ, ◌+◌, ◌≤◌, ◌<◌, ◌≡◌, max, arith}
use hail_system.RentCast.Step.{by_id, zip_pull, Plan, choose_method}

-- A plan costs the lesser of the two, takes the pull only where that is strictly less, and says how much it saves.
abbrev pub IsCheapest : ℕ → ℕ → Plan → Type 0
IsCheapest listings zip_calls plan =
    (plan.calls ≤ listings)
    × (plan.calls ≤ zip_calls)
    × (plan.calls + plan.saves ≡ max listings zip_calls)
    × (plan.method ≡ zip_pull → (zip_calls < listings) × (plan.calls ≡ zip_calls))
    × (plan.method ≡ by_id → (listings ≤ zip_calls) × (plan.calls ≡ listings))

-- The plan costs no more than either way, its saving is the difference to the dearer one, and on a tie it is
-- the lookups by id.
pub choose_method-IsCheapest :
    (listings zip_calls : ℕ) → IsCheapest listings zip_calls (choose_method listings zip_calls)
unfolding choose_method
choose_method-IsCheapest listings zip_calls = ground arith
