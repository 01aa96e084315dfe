-- ===== src/Threads/Refine/Stretch.antt =====
-- The elements accepted for the positions of the queue of src/sigmax/mpsc_queue.hpp, as a list.
use sigmax.Base.{
  ℕ, zero, suc, ◌+◌, ◌-◌, ◌≤◌, ◌<◌, ◌≡◌, refl, ap, ap₂, ◌∙◌, arith, [], ◌∷◌, ◌++◌, length, update,
}
use sigmax.Threads.Quiet.{stretch}

module _ {A : Type 0} where
  pub length-stretch : (f : ℕ → A) (p n : ℕ) → length (stretch f p n) ≡ n
  length-stretch f p zero = refl
  length-stretch f p (suc n) = omega (arith, length-stretch f (suc p) n)

  -- One more entry, written behind those of the stretch.
  stretch-update :
      (f : ℕ → A) (p n e : ℕ) (a : A)
      → p + n ≡ e
      → stretch (update f e a) p (suc n) ≡ stretch f p n ++ a ∷ []
  stretch-update f p zero e a h = ap (λ x. x ∷ []) (ground arith)
  stretch-update f p (suc n) e a h =
      ap₂ ◌∷◌ (ground arith) (stretch-update f (suc p) n e a (omega arith))

  pub stretch-claim :
      (f : ℕ → A) (tail head : ℕ) (a : A)
      → tail ≤ head
      → stretch (update f head a) tail (head + 1 - tail) ≡ stretch f tail (head - tail) ++ a ∷ []
  stretch-claim f tail head a h =
      ap (stretch (update f head a) tail)
        (let n : head + 1 - tail ≡ suc (head - tail) = omega arith in n)
      ∙ stretch-update f tail (head - tail) head a (omega arith)

  pub stretch-first :
      (f : ℕ → A) (tail head : ℕ)
      → tail < head
      → stretch f tail (head - tail) ≡ f tail ∷ stretch f (tail + 1) (head - (tail + 1))
  stretch-first f tail head h =
      ap (stretch f tail) (let n : head - tail ≡ suc (head - (tail + 1)) = omega arith in n)
      ∙ ap (λ k. f tail ∷ stretch f k (head - (tail + 1))) (omega arith)
