-- ===== src/Threads/LateTests.antt =====
-- Runs of the queue of src/sigmax/mpsc_queue.hpp in which some loads yield earlier values.
use sigmax.Base.{
  ℕ, ◌⊎◌, ◌+◌, ◌*◌, ◌<◌, ◌≢◌, ◌≡◌, refl, [], ◌∷◌, true, arith, none, some, unexpected, false,
}
use mathlib.Core.List.{foldl}
use sigmax.QueueState.{queue_is_empty}
use sigmax.MpscQueue.Index.{index}
use sigmax.SharedFifo.{Runs}
use sigmax.Threads.{
  push_claim, pop_claim, pop_return, System, call_push, call_pop, load_late, observe, Reach,
  delayed,
}
use sigmax.SharedFifo.Callers.{pushes}
use sigmax.Threads.Room.{refused, never_refused}
use sigmax.Threads.Retries.All.{Draining, begun, go_on_late, Returned, all_calls_steps}
use sigmax.Threads.Play.{Run, play, run, steps}
use sigmax.Threads.Refine.{shared, history, Reach-Runs}
use sigmax.Threads.Safety.{touched_cell, push_claim_current, pop_claim_current}

-- Thread 1 has pushed an element and returned, and thread 4 has loaded the tail.
abbrev looking : Run true
looking = run (call_push 1 7 ∷ steps 1 7 (call_pop 4 ∷ steps 4 1 []))

-- The cell's first number is what thread 4 sees.
abbrev too_early : System ℕ
too_early = load_late 2 4 0 looking.last

too_early_reach : Reach true 2 0 too_early
unfolding run
too_early_reach = delayed 4 0 refl (omega arith, omega arith) looking.reach (omega arith)

-- Its `Pop` finds no element, although one has been pushed and nobody else is in a call.
too_early_answer :
    (too_early.pc 4 ≡ pop_return (unexpected queue_is_empty)) × ((shared too_early).items ≡ 7 ∷ [])
unfolding run load_late observe shared
too_early_answer = (refl, refl)

too_early_drain : Draining true 2 5 looking.last 1 2 too_early
unfolding run
too_early_drain = go_on_late 4 0 begun (omega arith) refl (omega arith, omega arith) (omega arith)

too_early_steps_test :
    let bound = 5 * (8 + 2 * 5) + 2 * 2 in (1 < bound) ⊎ ((1 ≡ bound) × Returned 5 too_early)
too_early_steps_test = all_calls_steps (omega arith) (omega arith) looking.reach 5 too_early_drain

too_early_Runs : Runs true 2 (history too_early_reach) (shared too_early)
too_early_Runs = Reach-Runs (omega arith) (omega arith) too_early_reach

-- Thread `i` loads the first value of the counter, and `v` from its cell.
module _ (i v : ℕ) where
  abbrev deceived : Run true → System ℕ
  deceived r = load_late 2 i v (load_late 2 i 0 r.last)

-- Producer 2 has pushed; producer 1 sees the first head and the first number of its cell, fails to
-- claim its position, and goes on with the present values.
abbrev pushing : Run true
pushing = run (call_push 2 8 ∷ steps 2 7 (call_push 1 7 ∷ []))

unfoldable push_recovers : Run true
unfolding run load_late observe play
push_recovers =
    foldl play
      (record {
        last = deceived 1 0 pushing;
        reach =
            delayed 1 0 refl (omega arith, omega arith)
              (delayed 1 0 refl (omega arith) pushing.reach (omega arith)) (omega arith);
      })
      (steps 1 2 [])

push_deceived :
    ((deceived 1 0 pushing).pc 1 ≡ push_claim 7 0) × (push_recovers.last.pc 1 ≡ push_claim 7 1)
unfolding run load_late observe push_recovers
push_deceived = (refl, refl)

push_claim_current_example :
    (push_recovers.last.queue.sequence (index 2 1) ≡ 1)
    × (1 < push_recovers.last.queue.tail + 2)
    × ((j : ℕ) → touched_cell 2 (push_recovers.last.pc j) ≢ some (index 2 1))
unfolding push_recovers
push_claim_current_example =
    push_claim_current (omega arith) (omega arith) push_recovers.reach 1 1 7 refl refl

-- Two elements have been pushed and one popped; thread 5 sees the first tail and the number that
-- its cell had when the element was in it.
abbrev popping : Run true
popping = run (
    call_push 1 7
    ∷ steps 1 7 (call_push 2 8 ∷ steps 2 7 (call_pop 4 ∷ steps 4 7 (call_pop 5 ∷ []))))

unfoldable pop_recovers : Run true
unfolding run load_late observe play
pop_recovers =
    foldl play
      (record {
        last = deceived 5 1 popping;
        reach =
            delayed 5 1 refl (omega arith, omega arith)
              (delayed 5 0 refl (omega arith) popping.reach (omega arith)) (omega arith);
      })
      (steps 5 2 [])

pop_deceived : ((deceived 5 1 popping).pc 5 ≡ pop_claim 0) × (pop_recovers.last.pc 5 ≡ pop_claim 1)
unfolding run load_late observe pop_recovers
pop_deceived = (refl, refl)

pop_claim_current_example :
    (1 < pop_recovers.last.queue.head)
    × (pop_recovers.last.queue.slots (index 2 1) ≡ pop_recovers.last.accepted 1)
    × (pop_recovers.last.delivered 1 ≡ none)
    × ((j : ℕ) → touched_cell 2 (pop_recovers.last.pc j) ≢ some (index 2 1))
unfolding pop_recovers
pop_claim_current_example =
    pop_claim_current (omega arith) (omega arith) pop_recovers.reach 5 1 refl refl

-- Both producers of `push_recovers` have called, and the queue has two cells.
never_refused_example : refused (push_recovers.last.pc 1) ≡ false
unfolding push_recovers run play history pushes
never_refused_example =
    never_refused (omega arith) (omega arith) push_recovers.reach (omega arith) 1
