-- ===== src/Threads/ConsumerTests.antt =====
-- Two producers and one consumer on the queue of src/sigmax/mpsc_queue.hpp, in one interleaving.
use sigmax.Base.{false, ℕ, ◌-◌, ◌≡◌, refl, List, [], ◌∷◌, ◌++◌, arith, value}
use sigmax.QueueState.{success}
use sigmax.MpscQueue.Valid.{contents}
use sigmax.SharedFifo.{returned_push, returned_pop, called_push, called_pop, Runs}
use sigmax.SharedFifo.Told.{elements, from, received, sent, taken_out, put_in, last_pushed}
use sigmax.Threads.Refine.{phase_of, shared, history, Reach-Runs}
use sigmax.Threads.Quiet.{stretch}
use sigmax.Threads.Consumer.{fifo_by_producer, nothing_lost}
use sigmax.Threads.Play.{run, popped, settled, settled-idle}

settled_history :
    history settled.reach
    ≡ returned_pop 4 (value 7)
      ∷ called_pop 4
      ∷ returned_push 2 success
      ∷ called_push 2 8
      ∷ returned_push 1 success
      ∷ called_push 1 7
      ∷ []
unfolding run history
settled_history = refl

Reach-Runs_example : Runs false 2 (history settled.reach) (shared settled.last)
Reach-Runs_example = Reach-Runs (omega arith) (omega arith) settled.reach

fifo_by_producer_example :
    (ins : List (ℕ × ℕ)) × (elements ins
      ≡ received 4 (history popped.reach)
        ++ (taken_out (phase_of popped.last.accepted (popped.last.pc 4))
            ++ stretch popped.last.accepted popped.last.queue.tail
                (popped.last.queue.head - popped.last.queue.tail)))
    × ((i : ℕ)
        → from i ins
          ≡ sent i (history popped.reach)
            ++ put_in
                (phase_of popped.last.accepted (popped.last.pc i))
                (last_pushed i (history popped.reach)))
unfolding run history
fifo_by_producer_example = fifo_by_producer (omega arith) (omega arith) popped.reach 4 (refl, tt)

nothing_lost_example :
    (ins : List (ℕ × ℕ)) × (elements ins
      ≡ received 4 (history settled.reach) ++ contents 2 settled.last.queue)
    × ((i : ℕ) → from i ins ≡ sent i (history settled.reach))
unfolding run history
nothing_lost_example =
    nothing_lost (omega arith) (omega arith) settled.reach 4 (refl, tt) settled-idle
