-- ===== src/ConstantContact/Budget.antt =====
-- constantcontact/budget.py: the daily call budget over the rows of cc_api_calls. Times are in
-- seconds.
use Prim.Native.Char.{code}
use hail_system.Prelude.{
  ℕ, ◌+◌, ◌-◌, ◌*◌, String, ◌≡◌, refl, Bool, List, [], ◌∷◌, ltb, leb, ◌==◌, if◌then◌else◌,
}
use hail_system.Text.{strip_chars, is_empty}

pub record ApiCall : Type 0 where
  pub method : String
  pub endpoint : String
  pub called_at : ℕ

abbrev pub daily_limit : ℕ
daily_limit = 10000

abbrev pub headroom : ℕ
headroom = 200

abbrev pub window : ℕ
window = 24 * 3600

-- `s.split(c)[0]`
before : ℕ → String → String
before c String.[] = String.[]
before c (String.◌∷◌ d s) =
    let rest = before c s in if code d == c then String.[] else String.◌∷◌ d rest

abbrev or_root : String → String
or_root part = if is_empty part then "root" else part

endpoint_of : String → String
unfolding before strip_chars
endpoint_of path = or_root (before b'/' (strip_chars (λ c. code c == b'/') (before b'?' path)))

-- Counts one attempt before it is made.
unfoldable pub record_call : String → String → ℕ → List ApiCall → List ApiCall
unfolding endpoint_of
record_call method path now rows =
    record { method = method; endpoint = endpoint_of path; called_at = now } ∷ rows

-- The calls made after a time.
unfoldable pub calls_after : ℕ → List ApiCall → ℕ
calls_after t [] = 0
calls_after t (r ∷ rows) = (if ltb t r.called_at then 1 else 0) + calls_after t rows

-- `called_at > now() - WINDOW`
unfoldable pub used : ℕ → List ApiCall → ℕ
used now rows = calls_after (now - window) rows

unfoldable pub remaining : ℕ → List ApiCall → ℕ
remaining now rows = daily_limit - used now rows

unfoldable pub exhausted : ℕ → List ApiCall → Bool
exhausted now rows = leb (daily_limit - headroom) (used now rows)

endpoint_contacts : endpoint_of "/contacts/12?status=all" ≡ "contacts"
unfolding endpoint_of
endpoint_contacts = refl

endpoint_root : endpoint_of "/" ≡ "root"
unfolding endpoint_of
endpoint_root = refl
