-- ===== src/MpscQueue/Index.antt =====
-- `pos % m_buffer_mask`: which cell a position stands for. `index` stays shut elsewhere.
use sigmax.Base.{ℕ, ◌+◌, ◌*◌, ◌/◌, ◌%◌, ◌≤◌, ◌<◌, ◌≡◌, ap, arith}
use native.Mathlib.Nat.{mod-lt, mod-eq_of_lt, add-mod_right, div-add-mod}
use native.Mathlib.Decide.{dec_lt}

unfoldable pub index : ℕ → ℕ → ℕ
index C p = p % C

pub index-lt : (C p : ℕ) → 0 < C → index C p < C
unfolding index
index-lt C p h = mod-lt p h

-- One lap on, the cell is the same.
pub index-add : (C p : ℕ) → index C (p + C) ≡ index C p
unfolding index
index-add C p = add-mod_right p C

mul-step : (C a b : ℕ) → a < b → C * a + C ≤ C * b
mul-step C a b h = grind arith

-- Within one lap, a cell stands for one position.
pub index-inj : (C p r : ℕ) → p ≤ r → r < p + C → index C p ≡ index C r → p ≡ r
unfolding index
index-inj C p r h k e = elim (dec_lt (p / C) (r / C)) [
  | yes lt ↦ absurd (omega (arith, mul-step C (p / C) (r / C) lt, div-add-mod p C, div-add-mod r C))
  | no ge ↦ elim (dec_lt (r / C) (p / C)) [
    | yes lt ↦
        absurd (omega (arith, mul-step C (r / C) (p / C) lt, div-add-mod p C, div-add-mod r C))
    | no le ↦ omega (
      arith,
      ap (λ (t : ℕ). C * t) (let same : p / C ≡ r / C = omega arith in same),
      div-add-mod p C,
      div-add-mod r C,
    )
  ]
]

-- The first lap.
pub index_of_lt : (C p : ℕ) → p < C → index C p ≡ p
unfolding index
index_of_lt C p h = mod-eq_of_lt h

pub index-one : (p : ℕ) → index 1 p ≡ 0
unfolding index
index-one p = omega arith
