-- ===== src/Text.antt =====
-- What the code uses of Python's `str`, over texts whose letters, digits and blanks are ASCII.
use Prim.Native.Char.{Char, code}
use Prim.Native.String
use Prim.Native.String.{char_at}
use hail_system.Prelude.{
  ℕ, zero, suc, ◌+◌, ◌-◌, ◌*◌, ◌/◌, ◌%◌, String, Bool, true, false, ◌&&◌, ◌||◌, not, List, [], ◌∷◌,
  ltb, leb, ◌==◌, if◌then◌else◌,
}

infixr 65 ◌⊕◌
-- Concatenation, as in an f-string.
abbrev pub ◌⊕◌ : String → String → String
a ⊕ b = String.◌++◌ a b

abbrev pub is_upper_letter : Char → Bool
is_upper_letter c = leb 65 (code c) && leb (code c) 90

abbrev pub is_lower_letter : Char → Bool
is_lower_letter c = leb 97 (code c) && leb (code c) 122

abbrev pub is_digit : Char → Bool
is_digit c = leb 48 (code c) && leb (code c) 57

abbrev pub is_blank : Char → Bool
is_blank c =
    code c == 32 || (leb 9 (code c) && leb (code c) 13) || (leb 28 (code c) && leb (code c) 31)

abbrev pub lower_letter : Char → Char
lower_letter c = if is_upper_letter c then char_at "abcdefghijklmnopqrstuvwxyz" (code c - 65) else c

abbrev pub upper_letter : Char → Char
upper_letter c = if is_lower_letter c then char_at "ABCDEFGHIJKLMNOPQRSTUVWXYZ" (code c - 97) else c

-- `s.lower()`, `s.upper()`
unfoldable pub lower : String → String
lower String.[] = String.[]
lower (String.◌∷◌ c s) = String.◌∷◌ (lower_letter c) (lower s)

unfoldable pub upper : String → String
upper String.[] = String.[]
upper (String.◌∷◌ c s) = String.◌∷◌ (upper_letter c) (upper s)

abbrev pub is_empty : String → Bool
is_empty String.[] = true
is_empty (String.◌∷◌ c s) = false

abbrev pub all_chars : (Char → Bool) → String → Bool
all_chars p String.[] = true
all_chars p (String.◌∷◌ c s) = p c && all_chars p s

abbrev pub any_char : (Char → Bool) → String → Bool
any_char p String.[] = false
any_char p (String.◌∷◌ c s) = p c || any_char p s

-- `s.strip()`, with the characters to strip given by a test
unfoldable pub lstrip : (Char → Bool) → String → String
lstrip p String.[] = String.[]
lstrip p (String.◌∷◌ c s) = let rest = lstrip p s in if p c then rest else String.◌∷◌ c s

unfoldable pub rstrip : (Char → Bool) → String → String
rstrip p String.[] = String.[]
rstrip p (String.◌∷◌ c s) =
    let rest = rstrip p s in if p c && is_empty rest then String.[] else String.◌∷◌ c rest

unfoldable pub strip_chars : (Char → Bool) → String → String
unfolding lstrip rstrip
strip_chars p s = rstrip p (lstrip p s)

unfoldable pub strip : String → String
unfolding strip_chars
strip s = strip_chars is_blank s

-- `s[:n]`
unfoldable pub prefix : ℕ → String → String
prefix zero s = String.[]
prefix (suc n) String.[] = String.[]
prefix (suc n) (String.◌∷◌ c s) = String.◌∷◌ c (prefix n s)

-- `len(s)`, in characters
unfoldable pub size : String → ℕ
size String.[] = 0
size (String.◌∷◌ c s) = suc (size s)

push_word : String → List String → List String
push_word String.[] ws = ws
push_word (String.◌∷◌ c w) ws = String.◌∷◌ c w ∷ ws

words_from : String → String → List String
words_from word String.[] = push_word word []
words_from word (String.◌∷◌ c s) =
    let closed = push_word word (words_from String.[] s) in
    let longer = words_from (word ⊕ String.◌∷◌ c String.[]) s in
    if is_blank c then closed else longer

-- `s.split()`
unfoldable pub words : String → List String
unfolding words_from push_word
words s = words_from String.[] s

digits_of : ℕ → ℕ → String → String
digits_of zero n done = done
digits_of (suc fuel) n done =
    let longer = String.◌∷◌ (char_at "0123456789" (n % 10)) done in
    let rest = digits_of fuel (n / 10) longer in if ltb n 10 then longer else rest

-- `str(n)`
unfoldable pub decimal : ℕ → String
unfolding digits_of
decimal n = digits_of (suc n) n String.[]

-- `text.isascii() and text.isdigit()`, then `int(text)`
abbrev pub is_number : String → Bool
is_number s = not (is_empty s) && all_chars is_digit s

number_from : ℕ → String → ℕ
number_from acc String.[] = acc
number_from acc (String.◌∷◌ c s) = let n = acc * 10 + (code c - 48) in number_from n s

unfoldable pub number : String → ℕ
unfolding number_from
number s = number_from 0 s

-- `s.startswith(p)`
unfoldable pub starts_with : String → String → Bool
starts_with s String.[] = true
starts_with String.[] (String.◌∷◌ d p) = false
starts_with (String.◌∷◌ c s) (String.◌∷◌ d p) = code c == code d && starts_with s p

-- `s[n:]`
unfoldable pub drop : ℕ → String → String
drop zero s = s
drop (suc n) String.[] = String.[]
drop (suc n) (String.◌∷◌ c s) = drop n s
