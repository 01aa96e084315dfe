-- ===== src/MpscQueue/OneCell.antt =====
-- The queue of src/sigmax/mpsc_queue.hpp with a single cell. The number that `PushBack` stores to
-- say "holds the element of `pos`", `pos + 1`, is then also the one that says "free for `pos + 1`".
use sigmax.Base.{◌+◌, ◌^◌, ◌≤◌, ◌<◌, ◌≡◌, refl, List, [], ◌∷◌, Bool, true, false, arith, none, some}
use sigmax.QueueState.{success}
use sigmax.MpscQueue.{MpscQueue, publish, push_loop, push_back, pop_loop, pop}
use sigmax.MpscQueue.Words.{add64, is_zero-diff, is_negative-diff}
use sigmax.MpscQueue.Index.{index, index-one}
use sigmax.MpscQueue.Refine.{settles}

module _ {ℓ} {A : Type ℓ} where
  -- The cell counts as free.
  abbrev pub IsFree : MpscQueue A → Type 0
  IsFree q = q.sequence (index 1 q.head) ≡ q.head

  push_loop_one :
      (q : MpscQueue A)
      → IsFree q
      → q.head < 2 ^ 63
      → (weak : List Bool) (a : A) → settles weak ≡ true
      → push_loop 1 weak a q.head q ≡ some (success, publish 1 a q.head q)
  unfolding push_loop
  push_loop_one q f h [] a s = cc
  push_loop_one q f h (true ∷ rest) a s =
      ground (arith, is_zero-diff (q.sequence (index 1 q.head)) q.head, push_loop_one q f h rest a)
  push_loop_one q f h (false ∷ rest) a s =
      ground (arith, is_zero-diff (q.sequence (index 1 q.head)) q.head)

  publish-IsFree : (q : MpscQueue A) (a : A) → q.head < 2 ^ 63 → IsFree (publish 1 a q.head q)
  unfolding publish
  publish-IsFree q a h = ground (arith, index-one q.head, index-one (add64 q.head 1))

  -- A tail two or more behind the sequence number of the cell is never moved.
  pop_loop_stuck :
      (q : MpscQueue A) (weak : List Bool)
      → q.tail + 1 < q.sequence (index 1 q.tail)
      → q.sequence (index 1 q.tail) < 2 ^ 63
      → pop_loop 1 weak q.tail q ≡ none
  unfolding pop_loop
  pop_loop_stuck q [] lo hi = refl
  pop_loop_stuck q (w ∷ rest) lo hi = ground (
    arith,
    is_zero-diff (q.sequence (index 1 q.tail)) (add64 q.tail 1),
    is_negative-diff (q.sequence (index 1 q.tail)) (add64 q.tail 1),
    pop_loop_stuck q rest,
  )

  -- In a queue of one cell that counts as free, with two positions left below 2^63, two calls of
  -- `PushBack` in a row both succeed, although the queue has room for one element; the second one
  -- takes the place of the first; and no `Pop` after them returns, however its compare-exchanges
  -- turn out.
  pub one_cell_overwrites :
      (q : MpscQueue A) (a b : A) (first second later : List Bool)
      → IsFree q
      → q.tail ≤ q.head
      → q.head + 2 < 2 ^ 63
      → settles first ≡ true
      → settles second ≡ true
      → (once twice : MpscQueue A) × (push_back 1 first a q ≡ some (success, once))
        × (push_back 1 second b once ≡ some (success, twice))
        × (twice.slots (index 1 q.tail) ≡ b)
        × (pop 1 later twice ≡ none)
  unfolding push_back pop publish
  one_cell_overwrites q a b first second later f le small s t = (
    once,
    publish 1 b once.head once,
    push_loop_one q f (omega arith) first a s,
    push_loop_one once (publish-IsFree q a (omega arith)) (omega arith) second b t,
    ground (arith, index-one q.tail, index-one (add64 q.head 1)),
    pop_loop_stuck (publish 1 b once.head once) later (seq_after) (seq_small),
  )
    where
      once : MpscQueue A
      once = publish 1 a q.head q

      twice_sequence : (publish 1 b once.head once).sequence (index 1 q.tail) ≡ q.head + 2
      twice_sequence = ground (arith, index-one q.tail, index-one (add64 q.head 1))

      seq_after : q.tail + 1 < (publish 1 b once.head once).sequence (index 1 q.tail)
      seq_after = omega (arith, twice_sequence)

      seq_small : (publish 1 b once.head once).sequence (index 1 q.tail) < 2 ^ 63
      seq_small = omega (arith, twice_sequence)
