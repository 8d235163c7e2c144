-- ===== src/ConstantContact/Bounces/Worst.antt =====
-- `worst_code` of constantcontact/statuses.py, and the page of records that it reads.
use hail_system.Prelude.{
  ℕ, ◌*◌, String, Bool, false, not, ◌&&◌, ◌||◌, Option, none, some, List, [], ◌∷◌, map, is_some,
  str_eq, if◌then◌else◌, filter,
}
use hail_system.Text.{strip, lower}

-- What a bounce record says ("" is no address).
pub record Bounce : Type 0 where
  pub address : String
  pub bounce_code : Option String

-- `doc["tracking_activities"]`, and whether there is a next link
pub record BouncePage : Type 0 where
  pub records : List Bounce
  pub has_next : Bool

abbrev pub window : ℕ
window = 14 * 86400

-- `MEANING`
unfoldable pub meaning : String → Option String
meaning code =
    if str_eq code "B"
    then some "address does not exist"
    else if str_eq code "D"
    then some "undeliverable, no response from provider"
    else if str_eq code "F"
    then some "mailbox full"
    else if str_eq code "S"
    then some "suspended, reported as non-existent"
    else if str_eq code "X"
    then some "other"
    else if str_eq code "Z"
    then some "blocked by the recipient's provider"
    else none

-- `HARD` and `DELIVERED`
abbrev pub is_hard : String → Bool
is_hard code = str_eq code "B" || str_eq code "S"

abbrev pub is_delivered : Option String → Bool
is_delivered none = false
is_delivered (some code) = str_eq code "V"

-- A code as it is recorded.
unfoldable pub recorded : Option String → String
unfolding meaning
recorded none = "X"
recorded (some code) = if is_some (meaning code) then code else "X"

abbrev pub is_own : String → Bounce → Bool
is_own recipient b =
    str_eq (lower (strip b.address)) (lower (strip recipient)) && not (is_delivered b.bounce_code)

abbrev pub codes : String → List Bounce → List String
codes recipient records =
    map (λ (b : Bounce). recorded b.bounce_code) (filter (is_own recipient) records)

unfoldable pub first_hard : List String → Option String
first_hard [] = none
first_hard (c ∷ cs) = if is_hard c then some c else first_hard cs

abbrev pub first_code : List String → Option String
first_code [] = none
first_code (c ∷ cs) = some c

abbrev pub or_first : Option String → List String → Option String
or_first (some code) cs = some code
or_first none cs = first_code cs

-- `worst_code`
unfoldable pub worst_code : List Bounce → String → Option String
unfolding first_hard recorded filter lower strip
worst_code records recipient =
    or_first (first_hard (codes recipient records)) (codes recipient records)
