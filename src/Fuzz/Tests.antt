-- ===== src/Fuzz/Tests.antt =====
-- The fuzz target at a few bytes.
use sigmax.Base.{ℕ, List, [], ◌∷◌, ◌≡◌, refl, some, arith}
use sigmax.Fuzz.{sum_values, sum_values_lem, test_one_input, short_input_safe, to_int}

abbrev bytes : List ℕ
bytes = 255 ∷ 0 ∷ 7 ∷ []

sum : sum_values bytes ≡ some 262000
unfolding sum_values
sum = refl

sum_values_lem_example : sum_values bytes ≡ to_int 262000
sum_values_lem_example = sum_values_lem bytes

short_input_safe_example : test_one_input bytes ≡ some 0
short_input_safe_example =
    short_input_safe bytes (omega arith, (omega arith, (omega arith, tt))) (omega arith)
