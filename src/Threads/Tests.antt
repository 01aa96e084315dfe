-- ===== src/Threads/Tests.antt =====
-- The theorems on the queue of src/sigmax/mpsc_queue.hpp under threads, at states that some
-- interleavings reach.
use sigmax.Base.{ℕ, ◌+◌, ◌-◌, ◌^◌, ◌<◌, ◌≤◌, ◌≡◌, ◌⊎◌, refl, false, arith, none, some, map}
use sigmax.Base.Int.{pos_part, neg_part}
use sigmax.QueueState.{success}
use sigmax.MpscQueue.Words.{diff}
use sigmax.MpscQueue.Index.{index}
use sigmax.MpscQueue.Valid.{IsValid, contents}
use sigmax.Threads.{push_write, push_return, step, act}
use sigmax.Threads.Invariant.{reads, writes}
use sigmax.Threads.Safety.{
  delivered_lem, pop_returns_accepted, race_free, read_once, differences_fit,
}
use sigmax.Threads.Quiet.{quiet_lem, stretch}
use sigmax.Threads.Answers.{full_answer, empty_answer}
use sigmax.Threads.Order.{InOrder, claims-InOrder}
use sigmax.Threads.Play.{run, overtaken, filled, popped, reading, early, settled, settled-idle}

overtaken_pcs : (overtaken.last.pc 1 ≡ push_write 7 0) × (overtaken.last.pc 2 ≡ push_return success)
unfolding run
overtaken_pcs = (refl, refl)

delivered_lem_test :
    (popped.last.accepted 0 ≡ 7)
    × (0 < popped.last.queue.tail)
    × (popped.last.queue.tail ≤ popped.last.queue.head)
unfolding run
delivered_lem_test = delivered_lem (omega arith) (omega arith) popped.reach 0 7 refl

pop_returns_accepted_test :
    (p : ℕ) × (p < popped.last.queue.tail)
    × (popped.last.delivered p ≡ some 7)
    × (popped.last.accepted p ≡ 7)
unfolding run
pop_returns_accepted_test = pop_returns_accepted (omega arith) (omega arith) popped.reach 4 7 refl

race_free_example : ◌≡◌ {A = ℕ} 1 1
unfolding run
race_free_example = race_free (omega arith) (omega arith) overtaken.reach 1 1 0 0 refl refl refl

read_once_test : reading.last.delivered 0 ≡ none
unfolding run
read_once_test = read_once (omega arith) (omega arith) reading.reach 4 0 refl

differences_fit_test :
    (pos_part (diff (filled.last.queue.sequence (index 2 2)) 2) < 2 ^ 63)
    × (neg_part (diff (filled.last.queue.sequence (index 2 2)) 2) ≤ 2 ^ 63)
unfolding run
differences_fit_test = differences_fit (omega arith) (omega arith) filled.reach 3 2 2 refl

full_answer_test :
    (filled.last.queue.tail + 2 ≤ filled.last.queue.head)
    ⊎ ((j : ℕ) × (p : ℕ) × (reads (filled.last.pc j) ≡ some p) × (p + 2 ≤ filled.last.queue.head))
unfolding run
full_answer_test = full_answer (omega arith) (omega arith) filled.reach 3 2 9 false refl refl

empty_answer_test :
    (early.last.queue.tail ≡ early.last.queue.head)
    ⊎ ((j : ℕ) × (writes (early.last.pc j) ≡ some early.last.queue.tail))
unfolding run
empty_answer_test = empty_answer (omega arith) (omega arith) early.reach 4 0 false refl refl

quiet_lem_example :
    IsValid 2 settled.last.queue
    × (stretch settled.last.delivered 0 settled.last.queue.tail
        ≡ map some (stretch settled.last.accepted 0 settled.last.queue.tail))
    × (contents 2 settled.last.queue
        ≡ stretch settled.last.accepted settled.last.queue.tail
            (settled.last.queue.head - settled.last.queue.tail))
quiet_lem_example = quiet_lem (omega arith) (omega arith) settled.reach settled-idle

claims-InOrder_test : InOrder reading.last (act 2 (step 4 false) reading.last)
unfolding run
claims-InOrder_test =
    claims-InOrder (omega arith) (omega arith) reading.reach (omega arith) (step 4 false)
