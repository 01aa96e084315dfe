-- ===== src/MpscQueue/Refine.antt =====
-- The queue refines a bounded FIFO.
use sigmax.Base.{
  ℕ, suc, ◌+◌, ◌-◌, ◌^◌, ◌≤◌, ◌<◌, ◌≡◌, refl, List, [], ◌∷◌, ◌++◌, Bool, true, false, arith, some,
  ltb, ltb→lt, ◌∙◌, ap, ap₂, inl, inr, length, value, unexpected, Bool-cases, not, ◌||◌,
  if◌then◌else◌,
}
use sigmax.Base.Int.{is_zero, is_negative}
use sigmax.Fifo
use sigmax.QueueState.{success, queue_is_full, queue_is_empty}
use sigmax.MpscQueue.{MpscQueue, publish, push_loop, push_back, release, pop_loop, pop}
use sigmax.MpscQueue.Words.{add64, diff, is_zero-diff, is_negative-diff}
use sigmax.MpscQueue.Index.{index, index-add}
use sigmax.MpscQueue.Valid.{
  IsValid, contents, length-contents, window, window-update, window_of_pos, publish-IsValid,
  release-IsValid,
}

-- Some compare-exchange of the call does not fail for no reason.
abbrev pub settles : List Bool → Bool
settles [] = false
settles (weak ∷ rest) = not weak || settles rest

module _ {ℓ} {A : Type ℓ} {C : ℕ} {q : MpscQueue A} (v : IsValid C q)
    (room : q.head + C < 2 ^ 63) where
  open v use {several, ordered, fits, small, holding, waiting}

  abbrev head_sequence : ℕ
  head_sequence = q.sequence (index C q.head)

  abbrev tail_sequence : ℕ
  tail_sequence = q.sequence (index C q.tail)

  -- The cell at the head of a full queue is the one at its tail.
  lap : q.tail + C ≤ q.head → head_sequence ≡ q.tail + 1
  lap full =
      rw (let e : q.head ≡ q.tail + C = omega arith in e)
        (rw index-add (holding q.tail (omega arith) (omega arith)))

  -- The cell at the head is free, or holds the oldest element, and the two tests tell these apart.
  push_tests :
      (is_zero (diff head_sequence q.head) ≡ ltb (q.head - q.tail) C)
      × (is_negative (diff head_sequence q.head) ≡ not (ltb (q.head - q.tail) C))
  push_tests = ground (
    arith,
    lap,
    waiting q.head,
    is_zero-diff head_sequence q.head,
    is_negative-diff head_sequence q.head,
  )

  -- The cell at the tail holds an element, or waits for one.
  pop_tests :
      (is_zero (diff tail_sequence (add64 q.tail 1)) ≡ ltb q.tail q.head)
      × (is_negative (diff tail_sequence (add64 q.tail 1)) ≡ not (ltb q.tail q.head))
  pop_tests = ground (
    arith,
    holding q.tail,
    waiting q.tail,
    is_zero-diff tail_sequence (add64 q.tail 1),
    is_negative-diff tail_sequence (add64 q.tail 1),
  )

  push_loop_lem :
      (a : A) (weak : List Bool)
      → settles weak ≡ true
      → push_loop C weak a q.head q
        ≡ some (
            if ltb (q.head - q.tail) C then (success, publish C a q.head q) else (queue_is_full, q))
  unfolding push_loop
  push_loop_lem a [] h = cc
  push_loop_lem a (true ∷ rest) h = ground (arith, push_tests, push_loop_lem a rest)
  push_loop_lem a (false ∷ rest) h = ground (arith, push_tests)

  pop_loop_lem :
      (weak : List Bool)
      → settles weak ≡ true
      → pop_loop C weak q.tail q
        ≡ some (
            if ltb q.tail q.head
            then (value (q.slots (index C q.tail)), release C q.tail q)
            else (unexpected queue_is_empty, q))
  unfolding pop_loop
  pop_loop_lem [] h = cc
  pop_loop_lem (true ∷ rest) h = ground (arith, pop_tests, pop_loop_lem rest)
  pop_loop_lem (false ∷ rest) h = ground (arith, pop_tests)

  pub contents-publish :
      (a : A) → q.head < q.tail + C → contents C (publish C a q.head q) ≡ contents C q ++ a ∷ []
  unfolding contents publish
  contents-publish a h =
      rw (let e : add64 q.head 1 - q.tail ≡ suc (q.head - q.tail) = omega arith in e)
        (window-update C q.slots q.tail (q.head - q.tail) q.head a (omega arith) (omega arith))

  pub contents-release :
      q.tail < q.head → contents C q ≡ q.slots (index C q.tail) ∷ contents C (release C q.tail q)
  unfolding contents release
  contents-release h =
      window_of_pos C q.slots q.tail (q.head - q.tail) (omega arith)
      ∙ ap₂ (λ k m. q.slots (index C q.tail) ∷ window C q.slots k m) (omega arith) (omega arith)

  contents-empty : ltb q.tail q.head ≡ false → contents C q ≡ []
  unfolding contents
  contents-empty h =
      ap (window C q.slots q.tail) (let none_left : q.head - q.tail ≡ 0 = ground arith in none_left)

  -- `PushBack` returns, if some compare-exchange does not fail for no reason. Its status is that of
  -- the FIFO, the queue left behind is valid and holds the FIFO's list, and the count of pushes grows
  -- by one, modulo 2^64, on success only.
  pub push_back_refines :
      (weak : List Bool) (a : A)
      → settles weak ≡ true
      → let (status, xs) = Fifo.push C a (contents C q) in
        (after : MpscQueue A) × (push_back C weak a q ≡ some (status, after))
        × (contents C after ≡ xs)
        × IsValid C after
        × (after.head ≤ q.head + 1)
        × (after.push_count
            ≡ (if ltb (length (contents C q)) C then add64 q.push_count 1 else q.push_count))
        × (after.pop_count ≡ q.pop_count)
  unfolding Fifo.push push_back publish
  push_back_refines weak a h = elim (Bool-cases (ltb (q.head - q.tail) C)) [
    | inl free ↦
        rw (length-contents, free, push_loop_lem, free)
          (
            publish C a q.head q,
            refl,
            contents-publish a (ground arith),
            publish-IsValid v room a (ground arith),
            ground arith,
            refl,
            refl,
          )
    | inr full ↦
        rw (length-contents, full, push_loop_lem, full) (q, refl, refl, v, omega arith, refl, refl)
  ]

  -- `Pop` returns, if some compare-exchange does not fail for no reason. Its answer is that of the
  -- FIFO, the queue left behind is valid and holds the FIFO's list, and the count of pops grows by
  -- one, modulo 2^64, on success only.
  pub pop_refines :
      (weak : List Bool)
      → settles weak ≡ true
      → let (answer, xs) = Fifo.pop (contents C q) in
        (after : MpscQueue A) × (pop C weak q ≡ some (answer, after))
        × (contents C after ≡ xs)
        × IsValid C after
        × (after.head ≡ q.head)
        × (after.pop_count
            ≡ (if ltb 0 (length (contents C q)) then add64 q.pop_count 1 else q.pop_count))
        × (after.push_count ≡ q.push_count)
  unfolding Fifo.pop pop release
  pop_refines weak h = elim (Bool-cases (ltb q.tail q.head)) [
    | inl some_left ↦
        rw (length-contents, contents-release (ltb→lt _ _ some_left), pop_loop_lem, some_left)
          (
            release C q.tail q,
            refl,
            refl,
            release-IsValid v room (ltb→lt _ _ some_left),
            refl,
            ground arith,
            refl,
          )
    | inr empty ↦
        rw (pop_loop_lem, empty, contents-empty empty)
          (q, refl, contents-empty empty, v, refl, refl, refl)
  ]
