-- ===== src/Std/LowerBound.antt =====
-- `std::lower_bound`: the halving search that it is specified to make, for any test.
use sigmax.Base.{
  ℕ, zero, suc, ◌+◌, ◌-◌, ◌/◌, ◌≤◌, ◌<◌, ◌≡◌, refl, List, [], Option, none, some, Bool, true, false,
  arith, if◌then◌else◌, length, ◌==◌, get_elem?, get_elem?_of_lt, lt_of_get_elem?, Bool-cases, inl,
  inr,
}

module _ {ℓ} {A : Type ℓ} (before : A → Bool) where
  -- The loop over `first` and the number of elements that are left. `none` is a read out of range,
  -- or the end of the fuel.
  unfoldable pub search_loop : ℕ → List A → ℕ → ℕ → Option ℕ
  search_loop zero xs first len = none
  search_loop (suc fuel) xs first len =
      if len == 0 then some first else elim (get_elem? xs (first + len / 2)) [
        | none ↦ none
        | some x ↦
            let right = search_loop fuel xs (first + len / 2 + 1) (len - len / 2 - 1) in
            let left = search_loop fuel xs first (len / 2) in if before x then right else left
      ]

  -- The index that `lower_bound(begin, end, value, comp)` returns; `before x` is `comp(x, value)`.
  unfoldable pub lower_bound : List A → Option ℕ
  lower_bound xs = search_loop (suc (length xs)) xs 0 (length xs)

  -- Every element at an index from `first` on, `len` of them, answers `b` to the test.
  abbrev Uniform : Bool → List A → ℕ → ℕ → Type ℓ
  Uniform b xs first len =
      (i : ℕ) → first ≤ i → i < first + len → (x : A) → get_elem? xs i ≡ some x → before x ≡ b

  search_all :
      (fuel : ℕ) (xs : List A) (first len : ℕ)
      → len < fuel
      → first + len ≤ length xs
      → Uniform true xs first len
      → search_loop fuel xs first len ≡ some (first + len)
  unfolding search_loop
  search_all zero xs first len f le u = absurd (omega arith)
  search_all (suc fuel) xs first len f le u = elim (Bool-cases (len == 0)) [
    | inl done ↦ rw done (ground arith)
    | inr more ↦
        let (x, e) = get_elem?_of_lt xs (first + len / 2) (ground arith) in
        let right =
          search_all fuel xs (first + len / 2 + 1) (len - len / 2 - 1) (ground arith) (ground arith)
            (λ i lo hi. u i (omega arith) (ground arith)) in
        rw (more, e, u _ (omega arith) (ground arith) x e, right) (ground arith)
  ]

  search_none :
      (fuel : ℕ) (xs : List A) (first len : ℕ)
      → len < fuel
      → first + len ≤ length xs
      → Uniform false xs first len
      → search_loop fuel xs first len ≡ some first
  unfolding search_loop
  search_none zero xs first len f le u = absurd (omega arith)
  search_none (suc fuel) xs first len f le u = elim (Bool-cases (len == 0)) [
    | inl done ↦ rw done
    | inr more ↦
        let (x, e) = get_elem?_of_lt xs (first + len / 2) (ground arith) in
        let left =
          search_none fuel xs first (len / 2) (ground arith) (omega arith)
            (λ i lo hi. u i lo (omega arith)) in
        rw (more, e, u _ (omega arith) (ground arith) x e, left)
  ]

  -- Where the test goes from false to true along the list, the wrong way round for a lower bound,
  -- the search runs to the end if the element in the middle passes it, and to the front if not.
  pub lower_bound_reversed :
      (xs : List A) (middle : A)
      → ((i j : ℕ) (x y : A)
          → i ≤ j
          → get_elem? xs i ≡ some x
          → get_elem? xs j ≡ some y
          → before x ≡ true
          → before y ≡ true)
      → get_elem? xs (length xs / 2) ≡ some middle
      → lower_bound xs ≡ some (if before middle then length xs else 0)
  unfolding lower_bound search_loop
  lower_bound_reversed xs m up e = elim (Bool-cases (before m)) [
    | inl pass ↦
        let right =
          search_all (length xs) xs (0 + length xs / 2 + 1) (length xs - length xs / 2 - 1)
            (ground (arith, some_left)) (ground (arith, some_left))
            (λ i lo hi y h. up (length xs / 2) i m y (omega arith) e h pass) in
        rw (more, e', pass, right) (ground (arith, some_left))
    | inr fail ↦
        let left =
          search_none (length xs) xs 0 (length xs / 2) (ground (arith, some_left))
            (ground (arith, some_left)) (λ i lo hi y h. passes_not i y h (omega arith) fail) in
        rw (more, e', fail, left)
  ]
    where
      some_left : length xs / 2 < length xs
      some_left = lt_of_get_elem? xs (length xs / 2) e

      more : (length xs == 0) ≡ false
      more = ground (arith, some_left)

      e' : get_elem? xs (0 + length xs / 2) ≡ some m
      e' = rw (let z : 0 + length xs / 2 ≡ length xs / 2 = omega arith in z) e

      passes_not :
          (i : ℕ) (y : A)
          → get_elem? xs i ≡ some y
          → i ≤ length xs / 2
          → before m ≡ false
          → before y ≡ false
      passes_not i y h le fail = elim (Bool-cases (before y)) [
        | inl pass ↦ absurd (cc (up i (length xs / 2) y m le h e pass))
        | inr fails ↦ fails
      ]

  pub lower_bound_nil : lower_bound [] ≡ some 0
  unfolding lower_bound search_loop
  lower_bound_nil = refl
