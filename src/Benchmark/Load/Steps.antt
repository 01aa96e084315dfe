-- ===== src/Benchmark/Load/Steps.antt =====
-- One step of a writer or of the reader of benchmarks/mpsc_queue_benchmark.cpp.
use sigmax.Base.{
  if◌then◌else◌, ℕ, ◌+◌, ◌<◌, ◌≡◌, ◌^◌, List, [], ◌∷◌, ◌++◌, Bool, true, false, arith, refl, value,
  unexpected, Expected,
}
use sigmax.OrderType.{Order}
use sigmax.QueueState.{QueueState}
use sigmax.MpscQueue.{MpscQueue}
use sigmax.Threads.{Pc, pop_return, advance}
use sigmax.Threads.Retries.{is_popping}
use sigmax.Threads.Sides.{in_hand, hands_over, read_turn}
use sigmax.Benchmark.Run.{reader, reader_loop}
use sigmax.Benchmark.Load.{Load, count, note_answer}

pub either_branch :
    (b : Bool) (P : Load → Type 0) {l l' : Load} → P l → P l' → P (if b then l else l')
either_branch true P h k = h
either_branch false P h k = k

count-hands_over : (p : Pc Order) (counts : ℕ × ℕ) → (count p counts).1 ≡ counts.1 + hands_over p
unfolding count
count-hands_over (pop_return (value a)) counts = refl
count-hands_over (pop_return (unexpected e)) counts = omega arith
count-hands_over p counts = omega arith

pub read_step :
    (C : ℕ) (weak : Bool) (q : MpscQueue Order) (p : Pc Order) (counts : ℕ × ℕ)
    → q.tail + 1 < 2 ^ 63
    → is_popping p ≡ true
    → let (q', p') = advance C weak q p in
      (is_popping p' ≡ true)
      × (q'.tail + counts.1 + in_hand p ≡ q.tail + (count p counts).1 + in_hand p')
read_step C weak q p counts h k =
    let (still, tail) = read_turn C weak q p h k in
    (still, omega (arith, tail, count-hands_over p counts))

reader_loop-append :
    (xs ys : List (Expected Order QueueState)) (counts : ℕ × ℕ)
    → reader_loop (xs ++ ys) counts ≡ reader_loop ys (reader_loop xs counts)
unfolding reader_loop
reader_loop-append [] ys counts = refl
reader_loop-append (value a ∷ xs) ys (m, n) = reader_loop-append xs ys (m + 1, n + 1)
reader_loop-append (unexpected e ∷ xs) ys (m, n) = reader_loop-append xs ys (m + 1, n)

pub reader-note_answer :
    (p : Pc Order) (rets : List (Expected Order QueueState))
    → reader (note_answer p rets) ≡ count p (reader rets)
unfolding reader note_answer count reader_loop
reader-note_answer (pop_return (value a)) rets = reader_loop-append rets (value a ∷ []) (0, 0)
reader-note_answer (pop_return (unexpected e)) rets =
    reader_loop-append rets (unexpected e ∷ []) (0, 0)
reader-note_answer p rets = refl
