-- ===== src/Fifo.antt =====
-- What a queue of bounded capacity promises: a first-in first-out list, oldest element first.
use sigmax.Base.{ℕ, List, [], ◌∷◌, ◌++◌, Expected, value, unexpected, length, ltb, if◌then◌else◌}
use sigmax.QueueState.{QueueState, success, queue_is_empty, queue_is_full}

module _ {ℓ} {A : Type ℓ} where
  unfoldable pub push : ℕ → A → List A → QueueState × List A
  push cap x xs = if ltb (length xs) cap then (success, xs ++ x ∷ []) else (queue_is_full, xs)

  unfoldable pub pop : List A → Expected A QueueState × List A
  pop [] = (unexpected queue_is_empty, [])
  pop (x ∷ xs) = (value x, xs)
