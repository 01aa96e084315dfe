-- ===== src/MpscQueue/Words.antt =====
-- The 64-bit arithmetic of src/sigmax/mpsc_queue.hpp: `std::size_t` positions and the signed
-- difference of a cell's sequence number and a position.
use sigmax.Base.{ℕ, ◌+◌, ◌-◌, ◌%◌, ◌^◌, ◌<◌, ◌≤◌, ◌≡◌, arith, ltb, ◌==◌, if◌then◌else◌}
use sigmax.Base.Int.{ℤ, pos, negsuc, pos_part, neg_part, ◌-ℤ◌, is_zero, is_negative}

-- `a + b` on `std::size_t`
abbrev pub add64 : ℕ → ℕ → ℕ
add64 a b = (a + b) % 2 ^ 64

-- `static_cast<std::int64_t>` of a `std::size_t`
abbrev pub to_i64 : ℕ → ℤ
to_i64 x = if ltb x (2 ^ 63) then pos x else negsuc (2 ^ 64 - x - 1)

-- `diff`, as an exact integer; `diff-fits` says when the 64-bit subtraction cannot overflow.
unfoldable pub diff : ℕ → ℕ → ℤ
diff seq p = to_i64 seq -ℤ to_i64 p

-- Below 2^63 the two tests on the difference compare the numbers.
pub is_zero-diff : (seq p : ℕ) → seq < 2 ^ 63 → p < 2 ^ 63 → is_zero (diff seq p) ≡ (seq == p)
unfolding diff
is_zero-diff seq p hs hp = ground arith

pub is_negative-diff :
    (seq p : ℕ) → seq < 2 ^ 63 → p < 2 ^ 63 → is_negative (diff seq p) ≡ ltb seq p
unfolding diff
is_negative-diff seq p hs hp = ground arith

-- Below 2^63 the difference lies in the range of `std::int64_t`.
pub diff-fits :
    (seq p : ℕ)
    → seq < 2 ^ 63
    → p < 2 ^ 63
    → (pos_part (diff seq p) < 2 ^ 63) × (neg_part (diff seq p) ≤ 2 ^ 63)
unfolding diff
diff-fits seq p hs hp = ground arith
