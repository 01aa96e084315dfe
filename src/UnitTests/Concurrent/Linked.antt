-- ===== src/UnitTests/Concurrent/Linked.antt =====
-- The loop variables of the tests with threads in test/mpsc_test.cpp against the calls and answers.
use sigmax.Base.{
  ℕ, ◌+◌, ◌≤◌, ◌≡◌, ◌≢◌, refl, arith, Bool, true, false, ltb, if◌then◌else◌, value, update_at,
  update_other,
}
use sigmax.SharedFifo.Callers.{pushes}
use sigmax.Threads.{Pc, push_return, pop_return, Reach}
use sigmax.Threads.Retries.{is_pushing, is_popping}
use sigmax.Threads.Room.{refused}
use sigmax.Threads.Sides.{hands_over}
use sigmax.Threads.Refine.{history}
use sigmax.UnitTests.Concurrent.{Plan, Running, take_answer}
use sigmax.UnitTests.Concurrent.Writer.{returns_push, Writes}
use sigmax.UnitTests.Concurrent.Reader.{worth, Reads}

-- How often a thread pushes at most.
abbrev pub share : Plan → ℕ → ℕ
share p j = if ltb j p.writers then p.values_to_write else 0

-- Some interleaving of the queue's steps that leads to the state of the queue, and what each thread
-- has made of the answers in it.
pub record Linked (late : Bool) (p : Plan) (t : Running) : Type 0 where
  pub reach : Reach late p.queue_size 0 t.sys
  pub pushing : (j : ℕ) → j ≢ p.writers → is_pushing (t.sys.pc j) ≡ true
  pub popping : is_popping (t.sys.pc p.writers) ≡ true
  pub writes :
      (j : ℕ) → Writes (p.pushed j) (share p j) j (history reach) (t.sys.pc j) (t.written j)
  pub reads :
      Reads p.values_to_read p.writers
        (history reach)
        (t.sys.pc p.writers)
        t.sys.queue.tail
        t.successful_pop_count
        t.sum
  pub passed : pushes (history reach) ≤ p.queue_size → t.failed ≡ false

module _ (p : Plan) (i : ℕ) where
  pub answer_written :
      (pc : Pc ℕ) (t : Running) → (take_answer p i pc t).written i ≡ t.written i + returns_push pc
  unfolding take_answer
  answer_written (push_return status) t = update_at t.written i (t.written i + 1)
  answer_written (pop_return (value x)) t = omega arith
  answer_written pc t = omega arith

  pub answer_other :
      (pc : Pc ℕ) (t : Running) (j : ℕ) → i ≢ j → (take_answer p i pc t).written j ≡ t.written j
  unfolding take_answer
  answer_other (push_return status) t j ne = update_other t.written i j (t.written i + 1) ne
  answer_other (pop_return (value x)) t j ne = refl
  answer_other pc t j ne = refl

  pub answer_count :
      (pc : Pc ℕ) (t : Running)
      → let t' = take_answer p i pc t in
        (t'.successful_pop_count ≡ t.successful_pop_count + hands_over pc)
        × (t'.sum ≡ t.sum + worth pc)
  unfolding take_answer
  answer_count (pop_return (value x)) t = (refl, refl)
  answer_count pc t = (omega arith, omega arith)

  pub answer_failed :
      (pc : Pc ℕ) (t : Running) → refused pc ≡ false → (take_answer p i pc t).failed ≡ t.failed
  unfolding take_answer
  answer_failed (push_return status) t ok = ground arith
  answer_failed (pop_return (value x)) t ok = refl
  answer_failed pc t ok = refl
