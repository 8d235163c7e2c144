-- ===== src/Email/FirstName.antt =====
-- `first_name` of email/render.py.
use Prim.Native.Char.{Char, code}
use hail_system.Prelude.{
  ◌≡◌, refl, String, Bool, false, not, ◌&&◌, ◌||◌, Option, none, some, List, [], ◌∷◌, any, leb,
  ◌==◌, str_eq, if◌then◌else◌,
}
use hail_system.Text.{
  lower, upper, is_upper_letter, is_lower_letter, upper_letter, is_digit, is_empty, all_chars,
  any_char, strip, strip_chars, size, words,
}

abbrev company_words : List String
company_words =
    "llc" ∷ "inc" ∷ "co" ∷ "corp" ∷ "company" ∷ "team" ∷ "group" ∷ "realty" ∷ "realtors"
    ∷ "properties" ∷ "homes" ∷ "real" ∷ "estate" ∷ "associates" ∷ "partners" ∷ "brokers"
    ∷ "brokerage" ∷ "office" ∷ "mls" ∷ "and" ∷ "&" ∷ []

is_company_word : String → Bool
unfolding lower strip_chars
is_company_word w =
    let bare = strip_chars (λ c. code c == 46 || code c == 44) (lower w) in
    any (str_eq bare) company_words

is_letter : Char → Bool
is_letter c = is_upper_letter c || is_lower_letter c

-- [A-Za-z][A-Za-z'-]{1,24}
is_name : String → Bool
unfolding is_letter size
is_name String.[] = false
is_name (String.◌∷◌ c s) =
    is_letter c
    && all_chars (λ d. is_letter d || code d == 39 || code d == 45) s
    && leb 1 (size s)
    && leb (size s) 24

capitalize : String → String
unfolding lower
capitalize String.[] = String.[]
capitalize (String.◌∷◌ c s) = String.◌∷◌ (upper_letter c) (lower s)

-- `first.isupper() or first.islower()`, of a name by `is_name`, which has a letter
one_case : String → Bool
unfolding lower upper
one_case s = str_eq (upper s) s || str_eq (lower s) s

first_word : List String → Option String
unfolding is_company_word is_name capitalize one_case
first_word [] = none
first_word (first ∷ []) = none
first_word (first ∷ second ∷ rest) =
    if any (λ w. is_company_word w || any_char is_digit w) (first ∷ second ∷ rest)
    then none
    else if not (is_name first)
    then none
    else some (if one_case first then capitalize first else first)

unfoldable pub first_name : String → Option String
unfolding first_word strip words
first_name agent_name =
    let name = strip agent_name in
    if is_empty agent_name || any_char (λ c. code c == 44) name
    then none
    else first_word (words name)

first_name_person : first_name "ANN lee" ≡ some "Ann"
unfolding first_name
first_name_person = refl

first_name_company : first_name "Ann Lee Realty, " ≡ none
unfolding first_name
first_name_company = refl
