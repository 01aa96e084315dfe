-- ===== src/Totals.antt =====
-- Sums of tables of numbers, of which finitely many may be other than 0.
use native.Mathlib.Nat.{zero-add, suc-add}
use native.Mathlib.Decide.{ℕ_discrete}
use sigmax.Base.{
  ℕ, zero, suc, ◌+◌, ◌≤◌, ◌<◌, ◌≡◌, ◌≢◌, refl, ap, ap₂, sym, ◌∙◌, subst, arith, update, update_at,
  update_other, if◌then◌else◌, ◌==◌, ◌*◌,
}

-- The sum of the first `n` entries of a table.
abbrev pub sum_to : (ℕ → ℕ) → ℕ → ℕ
sum_to f zero = 0
sum_to f (suc n) = sum_to f n + f n

pub sum_to-same : (f g : ℕ → ℕ) (n : ℕ) → ((j : ℕ) → j < n → f j ≡ g j) → sum_to f n ≡ sum_to g n
sum_to-same f g zero same = refl
sum_to-same f g (suc n) same =
    ap₂ ◌+◌ (sum_to-same f g n λ j lt. same j (omega arith)) (same n (omega arith))

-- A table with finitely many entries other than 0, and what they add up to.
pub record Total (f : ℕ → ℕ) (t : ℕ) : Type 0 where
  pub bound : ℕ
  pub beyond : (j : ℕ) → bound ≤ j → f j ≡ 0
  pub sums : sum_to f bound ≡ t

sum_to-further : (f : ℕ → ℕ) (n m : ℕ) → ((j : ℕ) → n ≤ j → f j ≡ 0) → sum_to f (m + n) ≡ sum_to f n
sum_to-further f n zero z = ap (sum_to f) (zero-add n)
sum_to-further f n (suc m) z =
    ap (sum_to f) (suc-add m n) ∙ omega (arith, sum_to-further f n m z, z (m + n) (omega arith))

Total-raise :
    (f : ℕ → ℕ) (t i : ℕ)
    → Total f t
    → (n : ℕ) × (i < n) × (sum_to f n ≡ t) × ((j : ℕ) → n ≤ j → f j ≡ 0)
Total-raise f t i total = (
  suc i + total.bound,
  omega arith,
  sum_to-further f total.bound (suc i) total.beyond ∙ total.sums,
  λ j le. total.beyond j (omega arith),
)

module _ {A : Type 0} (w : A → ℕ) (f : ℕ → A) (i : ℕ) (a : A) where
  sum_to-update :
      (n : ℕ) → i < n → sum_to (λ j. w (update f i a j)) n + w (f i) ≡ sum_to (λ j. w (f j)) n + w a
  sum_to-update zero h = absurd (omega arith)
  sum_to-update (suc n) h = elim (ℕ_discrete i n) [
    | yes at ↦ omega (
      arith,
      ap w (ap (update f i a) (sym at) ∙ update_at f i a),
      ap (λ k. w (f k)) at,
      sum_to-same (λ j. w (update f i a j)) (λ j. w (f j)) n
          λ j lt. ap w (update_other f i j a λ e. absurd (omega (arith, e))),
    )
    | no ne ↦ omega (arith, sum_to-update n (omega arith), ap w (update_other f i n a ne))
  ]

  pub Total-update :
      (t : ℕ)
      → Total (λ j. w (f j)) t
      → (t' : ℕ) × (t' + w (f i) ≡ t + w a) × Total (λ j. w (update f i a j)) t'
  Total-update t total =
      let (n, lt, sums, beyond) = Total-raise (λ j. w (f j)) t i total in
      (
        sum_to (λ j. w (update f i a j)) n,
        omega (arith, sum_to-update n lt),
        record {
          bound = n;
          beyond =
              λ j le. ap w (update_other f i j a λ at. absurd (omega (arith, at))) ∙ beyond j le;
          sums = refl;
        },
      )

pub Total-none : (f : ℕ → ℕ) (t : ℕ) → ((j : ℕ) → f j ≡ 0) → Total f t → t ≡ 0
Total-none f t z total = sym total.sums ∙ zeros total.bound
  where
    zeros : (n : ℕ) → sum_to f n ≡ 0
    zeros zero = refl
    zeros (suc n) = omega (arith, zeros n, z n)

-- A sum of sums; and of a table with no entry other than 0.
pub sum_to-add : (f g : ℕ → ℕ) (n : ℕ) → sum_to (λ j. f j + g j) n ≡ sum_to f n + sum_to g n
sum_to-add f g zero = refl
sum_to-add f g (suc n) = omega (arith, sum_to-add f g n)

pub sum_to-none : (f : ℕ → ℕ) (n : ℕ) → ((j : ℕ) → j < n → f j ≡ 0) → sum_to f n ≡ 0
sum_to-none f zero z = refl
sum_to-none f (suc n) z =
    omega (arith, sum_to-none f n (λ j lt. z j (omega arith)), z n (omega arith))

-- A table whose entries are 0 but one.
abbrev pub only : ℕ → ℕ → ℕ → ℕ
only i v j = if i == j then v else 0

pub sum_to-only : (i v n : ℕ) → i < n → sum_to (only i v) n ≡ v
sum_to-only i v zero lt = absurd (omega arith)
sum_to-only i v (suc n) lt = elim (ℕ_discrete i n) [
  | yes at ↦ ground (arith, sum_to-none (only i v) n (λ j less. ground arith))
  | no ne ↦ ground (arith, sum_to-only i v n (omega arith))
]

-- Entries that are bounded, and add up to their bounds, are as large as these.
pub sum_to-le : (f : ℕ → ℕ) (m n : ℕ) → ((j : ℕ) → j < n → f j ≤ m) → sum_to f n ≤ n * m
sum_to-le f m zero le = omega arith
sum_to-le f m (suc n) le =
    grind (arith, sum_to-le f m n (λ j lt. le j (omega arith)), le n (omega arith))

pub sum_to-tight :
    (f : ℕ → ℕ) (m n : ℕ)
    → ((j : ℕ) → j < n → f j ≤ m)
    → n * m ≤ sum_to f n
    → (j : ℕ) → j < n
    → f j ≡ m
sum_to-tight f m zero le all j lt = absurd (omega arith)
sum_to-tight f m (suc n) le all j lt =
    let below = sum_to-le f m n (λ k less. le k (omega arith)) in
    let last = le n (omega arith) in
    let total : n * m + m ≤ sum_to f n + f n = grind arith in
    elim (ℕ_discrete j n) [
      | yes at ↦ ap f at ∙ omega arith
      | no ne ↦ sum_to-tight f m n (λ k less. le k (omega arith)) (omega arith) j (omega arith)
    ]

pub sum_to-const : (m n : ℕ) → sum_to (λ _. m) n ≡ n * m
sum_to-const m zero = omega arith
sum_to-const m (suc n) = grind (arith, sum_to-const m n)

-- All entries rise by `d` at most.
pub sum_to-rise :
    (f g : ℕ → ℕ) (d n : ℕ) → ((j : ℕ) → j < n → g j ≤ f j + d) → sum_to g n ≤ sum_to f n + n * d
sum_to-rise f g d zero rise = omega arith
sum_to-rise f g d (suc n) rise =
    let rest = sum_to-rise f g d n (λ j lt. rise j (omega arith)) in
    let last = rise n (omega arith) in grind (arith, rest, last)

pub sum_to-zero : (f : ℕ → ℕ) (n : ℕ) → sum_to f n ≡ 0 → (j : ℕ) → j < n → f j ≡ 0
sum_to-zero f zero z j lt = absurd (omega arith)
sum_to-zero f (suc n) z j lt = elim (ℕ_discrete j n) [
  | yes at ↦ ap f at ∙ omega arith
  | no ne ↦ sum_to-zero f n (omega arith) j (omega arith)
]

-- One entry falls by `m`, but for `e`, and the others rise by `d` at most.
pub sum_to-step :
    (f g : ℕ → ℕ) (m d e i n : ℕ)
    → i < n
    → g i + m ≤ f i + e
    → ((j : ℕ) → i ≢ j → g j ≤ f j + d)
    → sum_to g n + m ≤ sum_to f n + n * d + e
sum_to-step f g m d e i zero lt one others = absurd (omega arith)
sum_to-step f g m d e i (suc n) lt one others = elim (ℕ_discrete i n) [
  | yes at ↦
      let rest = sum_to-rise f g d n (λ j less. others j (λ h. absurd (omega (arith, h)))) in
      let last : g n + m ≤ f n + e = subst (λ k. g k + m ≤ f k + e) at one in
      grind (arith, rest, last)
  | no ne ↦
      let rest = sum_to-step f g m d e i n (omega arith) one others in
      let last = others n ne in grind (arith, rest, last)
]
