-- ===== src/Benchmark/Sizes.antt =====
-- The queue sizes that the switch of `main` in benchmarks/mpsc_queue_benchmark.cpp accepts.
use sigmax.Base.{
  ℕ, zero, suc, ◌*◌, ◌≤◌, ◌<◌, ◌^◌, List, [], ◌∷◌, some, Bool-cases, All, ◌==◌, ==_iff, subst, ◌≡◌,
  refl, sym, inl, inr, ◌⊎◌, arith,
}
use sigmax.Base.Int.{ℤ, pos, negsuc}
use sigmax.MpscQueue
use sigmax.MpscQueue.Valid.{IsValid, init-IsValid}
use sigmax.Benchmark.Run.{queue_sizes, select}

-- The sizes that the help text lists: the powers of two from 32 to 8192, and 10240.
abbrev pub IsQueueSize : ℕ → Type 0
IsQueueSize n = ((k : ℕ) × (k ≤ 8) × (n ≡ 32 * 2 ^ k)) ⊎ (n ≡ 10240)

select-All :
    (P : ℕ → Type 0) (q : ℤ) (sizes : List ℕ) (n : ℕ)
    → All P sizes
    → select q sizes ≡ some n
    → (q ≡ pos n) × P n
unfolding select
select-All P q [] n h e = cc
select-All P (pos k) (size ∷ sizes) n h e = elim (Bool-cases (k == size)) [
  | inl same ↦ (ground (arith, ==_iff k size), subst P (ground arith) h.0)
  | inr other ↦ select-All P (pos k) sizes n h.1 (ground arith)
]
select-All P (negsuc k) (size ∷ sizes) n h e = cc

-- Each queue size that the program accepts is the number on the command line, and a queue of that
-- size starts valid.
pub select-IsValid :
    {A : Type 0} (blank : A) (q : ℤ) (n : ℕ)
    → select q queue_sizes ≡ some n
    → (q ≡ pos n) × IsValid n (MpscQueue.init blank)
select-IsValid blank q n e =
    let (same, (several, small)) =
      select-All (λ n. (2 ≤ n) × (n < 2 ^ 64)) q queue_sizes n sizes_fit e in
    (same, init-IsValid n blank several small)
  where
    sizes_fit : All (λ n. (2 ≤ n) × (n < 2 ^ 64)) queue_sizes
    sizes_fit = ground arith

select-power : (k : ℕ) → k ≤ 8 → select (pos (32 * 2 ^ k)) queue_sizes ≡ some (32 * 2 ^ k)
unfolding select
select-power zero h = refl
select-power (suc zero) h = refl
select-power (suc (suc zero)) h = refl
select-power (suc (suc (suc zero))) h = refl
select-power (suc (suc (suc (suc zero)))) h = refl
select-power (suc (suc (suc (suc (suc zero))))) h = refl
select-power (suc (suc (suc (suc (suc (suc zero)))))) h = refl
select-power (suc (suc (suc (suc (suc (suc (suc zero))))))) h = refl
select-power (suc (suc (suc (suc (suc (suc (suc (suc zero)))))))) h = refl
select-power (suc (suc (suc (suc (suc (suc (suc (suc (suc k))))))))) h = absurd (omega arith)

-- The switch accepts each listed size.
pub select_listed : (n : ℕ) → IsQueueSize n → select (pos n) queue_sizes ≡ some n
unfolding select
select_listed n (inl (k, le, e)) =
    subst (λ m. select (pos m) queue_sizes ≡ some m) (sym e) (select-power k le)
select_listed n (inr e) = subst (λ m. select (pos m) queue_sizes ≡ some m) (sym e) refl

-- The switch accepts nothing else.
pub select-IsQueueSize :
    (q : ℤ) (n : ℕ) → select q queue_sizes ≡ some n → (q ≡ pos n) × IsQueueSize n
select-IsQueueSize q n e = select-All IsQueueSize q queue_sizes n listed e
  where
    power : (k : ℕ) → k ≤ 8 → IsQueueSize (32 * 2 ^ k)
    power k le = inl (k, le, refl)

    listed : All IsQueueSize queue_sizes
    listed = (
      power 0 (omega arith),
      (
        power 1 (omega arith),
        (
          power 2 (omega arith),
          (
            power 3 (omega arith),
            (
              power 4 (omega arith),
              (
                power 5 (omega arith),
                (
                  power 6 (omega arith),
                  (power 7 (omega arith), (power 8 (omega arith), (inr refl, tt))),
                ),
              ),
            ),
          ),
        ),
      ),
    )
