-- ===== src/MpscQueue/Counts.antt =====
-- The two counts of src/sigmax/mpsc_queue.hpp against what the queue holds.
use sigmax.Base.{
  ℕ, ◌+◌, ◌^◌, ◌<◌, ◌≡◌, refl, ap, ◌∙◌, List, [], ◌∷◌, ltb, if◌then◌else◌, Bool-cases, inl, inr,
  arith, Option, none, some, length, length-append, All,
}
use sigmax.Fifo
use sigmax.MpscQueue.{MpscQueue, push_back, pop, get_push_count, get_pop_count}
use sigmax.MpscQueue.Valid.{IsValid, contents}
use sigmax.MpscQueue.Refine.{push_back_refines, pop_refines}
use sigmax.MpscQueue.Client.{Call, push, take, Settles}

module _ {A : Type 0} (C : ℕ) where
  -- The queue that a sequence of calls leaves behind.
  unfoldable pub queue_after : List (Call A) → MpscQueue A → Option (MpscQueue A)
  queue_after [] q = some q
  queue_after (push weak a ∷ calls) q = elim (push_back C weak a q) [
    | none ↦ none
    | some (status, q') ↦ queue_after calls q'
  ]
  queue_after (take weak ∷ calls) q = elim (pop C weak q) [
    | none ↦ none
    | some (answer, q') ↦ queue_after calls q'
  ]

  -- The count of pushes is that of pops and the length of the queue.
  abbrev pub IsCounted : MpscQueue A → Type 0
  IsCounted q = get_push_count q ≡ get_pop_count q + length (contents C q)

  length-push :
      (a : A) (xs : List A)
      → length ((Fifo.push C a xs).1) ≡ (if ltb (length xs) C then length xs + 1 else length xs)
  unfolding Fifo.push
  length-push a xs = elim (Bool-cases (ltb (length xs) C)) [
    | inl t ↦ rw t (length-append xs (a ∷ []))
    | inr f ↦ rw f refl
  ]

  length-pop :
      (xs : List A)
      → length xs
        ≡ (if ltb 0 (length xs) then length ((Fifo.pop xs).1) + 1 else length ((Fifo.pop xs).1))
  unfolding Fifo.pop
  length-pop [] = refl
  length-pop (x ∷ xs) = ground arith

  -- After any sequence of calls on a valid queue whose counts differ by its length, the counts
  -- differ by its length again: if in each call some compare-exchange does not fail for no reason,
  -- the head stays `C` below 2^63, and the count of pushes stays below 2^64.
  pub counts_lem :
      (calls : List (Call A)) (q : MpscQueue A)
      → IsValid C q
      → q.head + length calls + C < 2 ^ 63
      → q.push_count + length calls < 2 ^ 64
      → All Settles calls
      → IsCounted q
      → (after : MpscQueue A) × (queue_after calls q ≡ some after) × IsCounted after
  unfolding queue_after get_push_count get_pop_count
  counts_lem [] q v room fit h c = (q, refl, c)
  counts_lem (push weak a ∷ calls) q v room fit h c =
      let (mid, e, held, v', top, pushes, pops) = push_back_refines v (omega arith) weak a h.0 in
      let size = ap length held ∙ length-push a (contents C q) in
      let (after, f, c') =
        counts_lem calls mid v' (omega arith) (ground arith) h.1 (ground arith) in
      (after, rw (queue_after, e) f, c')
  counts_lem (take weak ∷ calls) q v room fit h c =
      let (mid, e, held, v', top, pops, pushes) = pop_refines v (omega arith) weak h.0 in
      let size = ap length held in
      let before = length-pop (contents C q) in
      let (after, f, c') = counts_lem calls mid v' (omega arith) (omega arith) h.1 (ground arith) in
      (after, rw (queue_after, e) f, c')
