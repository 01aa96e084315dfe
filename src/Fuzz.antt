-- ===== src/Fuzz.antt =====
-- The fuzz target of fuzz_test/fuzz_tester.cpp: a sum of bytes on `int`. `none` is the overflow of a
-- signed sum or product, which C++ leaves undefined.
mod Tests
use sigmax.Base.{
  ◌>>=◌, ℕ, ◌+◌, ◌*◌, ◌^◌, ◌≤◌, ◌<◌, List, [], ◌∷◌, Option, none, some, ◌≡◌, ap, ◌∙◌, ltb,
  if◌then◌else◌, length, All, arith,
}

abbrev pub scale : ℕ
scale = 1000

-- An `int` that is not negative, if the exact result is one.
abbrev pub to_int : ℕ → Option ℕ
to_int n = if ltb n (2 ^ 31) then some n else none

-- The loop of `sum_values`, from the bytes that are left and `value`.
unfoldable pub sum_loop : List ℕ → ℕ → Option ℕ
sum_loop [] value = some value
sum_loop (byte ∷ bytes) value = do
  term ← to_int (byte * scale)
  next ← to_int (value + term)
  sum_loop bytes next

-- `sum_values`
unfoldable pub sum_values : List ℕ → Option ℕ
unfolding sum_loop
sum_values bytes = sum_loop bytes 0

-- `LLVMFuzzerTestOneInput`: it prints the sum and returns 0.
unfoldable pub test_one_input : List ℕ → Option ℕ
unfolding sum_values
test_one_input bytes = do value ← sum_values bytes; some 0

abbrev pub total : List ℕ → ℕ
total [] = 0
total (x ∷ xs) = x + total xs

sum_loop_lem :
    (bytes : List ℕ) (value : ℕ)
    → value < 2 ^ 31
    → sum_loop bytes value ≡ to_int (value + total bytes * scale)
unfolding sum_loop
sum_loop_lem [] value h = ground arith
sum_loop_lem (byte ∷ bytes) value h =
    ground (arith, λ (k : value + byte * 1000 < 2 ^ 31). sum_loop_lem bytes (value + byte * 1000) k)

-- The sum is 1000 times the exact sum of the bytes if that is below 2^31, and otherwise overflows.
pub sum_values_lem : (bytes : List ℕ) → sum_values bytes ≡ to_int (total bytes * scale)
unfolding sum_values
sum_values_lem bytes = sum_loop_lem bytes 0 (omega arith) ∙ ap to_int (omega arith)

total-le : (bytes : List ℕ) → All (λ b. b < 256) bytes → total bytes ≤ 255 * length bytes
total-le [] h = omega arith
total-le (b ∷ bs) h = omega (arith, total-le bs h.1, h.0)

-- On 8421 bytes or fewer the target returns 0 and nothing overflows.
pub short_input_safe :
    (bytes : List ℕ)
    → All (λ b. b < 256) bytes
    → length bytes ≤ 8421
    → test_one_input bytes ≡ some 0
unfolding test_one_input
short_input_safe bytes h k = rw (sum_values_lem bytes) (ground (arith, total-le bytes h))
