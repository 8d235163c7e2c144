-- ===== src/Tests/Texts.antt =====
-- Tests of Text.antt against Python's answers.
use hail_system.Prelude.{◌≡◌, refl, [], ◌∷◌}
use hail_system.Text.{lower, upper, strip, prefix, words, decimal, number}

strip_blanks : strip "  a b\t\n" ≡ "a b"
unfolding strip
strip_blanks = refl

lower_mixed : lower "Ab-Z9" ≡ "ab-z9"
unfolding lower
lower_mixed = refl

upper_mixed : upper "Ab-Z9" ≡ "AB-Z9"
unfolding upper
upper_mixed = refl

words_two : words " Ann  Lee " ≡ "Ann" ∷ "Lee" ∷ []
unfolding words
words_two = refl

decimal_1070 : decimal 1070 ≡ "1070"
unfolding decimal
decimal_1070 = refl

number_042 : number "042" ≡ 42
unfolding number
number_042 = refl

prefix_eight : prefix 8 "0123456789" ≡ "01234567"
unfolding prefix
prefix_eight = refl
