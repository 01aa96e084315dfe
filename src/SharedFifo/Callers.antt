-- ===== src/SharedFifo/Callers.antt =====
-- How often each thread has called, and what its part of the elements adds up to.
use sigmax.Base.{
  ℕ, suc, ◌+◌, ◌*◌, ◌≤◌, ◌<◌, ◌≡◌, refl, ap, sym, arith, Bool, true, List, [], ◌∷◌, ◌++◌, ◌==◌,
  if◌then◌else◌, length, All, Bool-cases, ==_iff, inl, inr, subst, false,
}
use native.Mathlib.Decide.{dec_lt}
use sigmax.SharedFifo.{Event, called_push, called_pop, returned_push, returned_pop}
use sigmax.SharedFifo.Told.{from, elements}
use sigmax.Totals.{sum_to, sum_to-same, sum_to-none, sum_to-add, only, sum_to-only}

module _ {A : Type 0} where
  -- How often `PushBack` has been called, and how often by thread `j`.
  unfoldable pub pushes : List (Event A) → ℕ
  pushes [] = 0
  pushes (called_push i a ∷ es) = suc (pushes es)
  pushes (e ∷ es) = pushes es

  unfoldable pub pushes_by : ℕ → List (Event A) → ℕ
  pushes_by j [] = 0
  pushes_by j (called_push i a ∷ es) = if i == j then suc (pushes_by j es) else pushes_by j es
  pushes_by j (e ∷ es) = pushes_by j es

  -- A number for each entry of a list, added up.
  abbrev pub total : (A → ℕ) → List A → ℕ
  total f [] = 0
  total f (x ∷ xs) = f x + total f xs

  pub All-append {κ} : (P : A → Type κ) (xs ys : List A) → All P xs → All P ys → All P (xs ++ ys)
  All-append P [] ys h k = k
  All-append P (x ∷ xs) ys h k = (h.0, All-append P xs ys h.1 k)

  pub All-before {κ} : (P : A → Type κ) (xs ys : List A) → All P (xs ++ ys) → All P xs
  All-before P [] ys h = tt
  All-before P (x ∷ xs) ys h = (h.0, All-before P xs ys h.1)

  pub total-append : (f : A → ℕ) (xs ys : List A) → total f (xs ++ ys) ≡ total f xs + total f ys
  total-append f [] ys = omega arith
  total-append f (x ∷ xs) ys = omega (arith, total-append f xs ys)

  pub total-one : (xs : List A) → total (λ _. 1) xs ≡ length xs
  total-one [] = refl
  total-one (x ∷ xs) = omega (arith, total-one xs)

  pub total-same :
      (f : A → ℕ) (v : A) (xs : List A) → All (λ x. x ≡ v) xs → total f xs ≡ length xs * f v
  total-same f v [] h = omega arith
  total-same f v (x ∷ xs) h = grind (arith, ap f h.0, total-same f v xs h.1)

  -- The calls of all threads are those of the threads that call.
  pub pushes-sum_to :
      (n : ℕ) (es : List (Event A))
      → ((j : ℕ) → n ≤ j → pushes_by j es ≡ 0)
      → pushes es ≡ sum_to (λ j. pushes_by j es) n
  unfolding pushes pushes_by
  pushes-sum_to n [] z = sym (sum_to-none _ n (λ j lt. refl))
  pushes-sum_to n (called_push i a ∷ es) z =
      let mine : i < n = elim (dec_lt i n) [ yes lt ↦ lt | no ge ↦ absurd (ground (arith, z i)) ] in
      omega (
        arith,
        pushes-sum_to n es (λ j le. ground (arith, z j)),
        sum_to-same (λ j. if i == j then suc (pushes_by j es) else pushes_by j es)
            (λ j. only i 1 j + pushes_by j es) n (λ j lt. ground arith),
        sum_to-add (only i 1) (λ j. pushes_by j es) n,
        sum_to-only i 1 n mine,
      )
  pushes-sum_to n (called_pop i ∷ es) z = pushes-sum_to n es z
  pushes-sum_to n (returned_push i status ∷ es) z = pushes-sum_to n es z
  pushes-sum_to n (returned_pop i answer ∷ es) z = pushes-sum_to n es z

  -- The elements of all producers are those of the producers that there are.
  pub total-elements :
      (f : A → ℕ) (n : ℕ) (ins : List (ℕ × A))
      → ((j : ℕ) → n ≤ j → from j ins ≡ [])
      → total f (elements ins) ≡ sum_to (λ j. total f (from j ins)) n
  unfolding from
  total-elements f n [] z = sym (sum_to-none _ n (λ j lt. refl))
  total-elements f n ((i, a) ∷ ins) z =
      let mine : i < n = elim (dec_lt i n) [ yes lt ↦ lt | no ge ↦ absurd (ground (arith, z i)) ] in
      omega (
        arith,
        total-elements f n ins (λ j le. ground (arith, z j)),
        sum_to-same (λ j. total f (if i == j then a ∷ from j ins else from j ins))
            (λ j. only i (f a) j + total f (from j ins)) n (λ j lt. ground arith),
        sum_to-add (only i (f a)) (λ j. total f (from j ins)) n,
        sum_to-only i (f a) n mine,
      )

  pub All-elements {κ} :
      (P : A → Type κ) (ins : List (ℕ × A)) → ((j : ℕ) → All P (from j ins)) → All P (elements ins)
  unfolding from
  All-elements P [] h = tt
  All-elements P ((i, a) ∷ ins) h = (
    (at i true ((==_iff i i).1 refl)).0,
    All-elements P ins (λ j. elim (Bool-cases (i == j)) [
      | inl same ↦ (at j true same).1
      | inr other ↦ at j false other
    ]),
  )
    where
      at : (j : ℕ) (b : Bool) → i == j ≡ b → All P (if b then a ∷ from j ins else from j ins)
      at j b e = subst (λ c. All P (if c then a ∷ from j ins else from j ins)) e (h j)
