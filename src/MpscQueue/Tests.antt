-- ===== src/MpscQueue/Tests.antt =====
-- Runs of the queue: the scenarios of test/mpsc_test.cpp with one thread, and the theorems at
-- concrete queues.
use sigmax.Base.{
  ℕ, ◌+◌, ◌^◌, ◌≤◌, ◌<◌, ◌≡◌, refl, List, [], ◌∷◌, Bool, true, false, arith, none, some, value,
  unexpected, length, ltb, if◌then◌else◌,
}
use native.Mathlib.Decide.{ℕ_discrete}
use sigmax.Fifo
use sigmax.QueueState.{success, queue_is_empty, queue_is_full}
use sigmax.MpscQueue.{MpscQueue, init, publish, push_loop, push_back, release, pop_loop, pop}
use sigmax.MpscQueue.Words.{add64, diff}
use sigmax.MpscQueue.Index.{index}
use sigmax.MpscQueue.Valid.{IsValid, init-IsValid, contents, publish-IsValid}
use sigmax.MpscQueue.Refine.{push_back_refines, pop_refines}
use sigmax.MpscQueue.Counts.{queue_after, IsCounted, counts_lem}
use sigmax.MpscQueue.{get_push_count, get_pop_count}
use sigmax.MpscQueue.Client.{Call, push, take, pushed, taken, run, fifo_run, run_refines}
use sigmax.MpscQueue.OneCell.{one_cell_overwrites}

-- No spurious failure; one of them.
abbrev once : List Bool
once = false ∷ []

abbrev retry : List Bool
retry = true ∷ false ∷ []

abbrev fresh : MpscQueue ℕ
fresh = record {
  slots = λ _. 0;
  sequence = λ i. i;
  head = 0;
  tail = 0;
  push_count = 0;
  pop_count = 0;
}

fresh-init : init 0 ≡ fresh
unfolding init
fresh-init = refl

fresh-IsValid : (C : ℕ) → 2 ≤ C → C < 2 ^ 64 → IsValid C fresh
unfolding init
fresh-IsValid C h k = init-IsValid C 0 h k

-- `PushAndPop_SingleThread`, with a queue of two cells that is filled first.
abbrev script : List (Call ℕ)
script =
    push once 1
    ∷ push retry 2
    ∷ push once 3
    ∷ take once
    ∷ push once 4
    ∷ take retry
    ∷ take once
    ∷ take once
    ∷ []

run-script :
    run 2 script fresh
    ≡ some (
        pushed success
        ∷ pushed success
        ∷ pushed queue_is_full
        ∷ taken (value 1)
        ∷ pushed success
        ∷ taken (value 2)
        ∷ taken (value 4)
        ∷ taken (unexpected queue_is_empty)
        ∷ [])
unfolding run push_back push_loop publish pop pop_loop release index diff ℕ_discrete
run-script = refl

init-IsValid_test : IsValid {A = ℕ} 16 (init 0)
init-IsValid_test = init-IsValid 16 0 (omega arith) (omega arith)

run_refines_example : run 2 script fresh ≡ some (fifo_run 2 script (contents 2 fresh))
run_refines_example =
    run_refines 2 script fresh (fresh-IsValid 2 (omega arith) (omega arith)) (omega arith)
      (refl, (refl, (refl, (refl, (refl, (refl, (refl, (refl, tt))))))))

-- A queue of two cells with one element.
abbrev one_held : MpscQueue ℕ
one_held = publish 2 8 0 fresh

one_held-IsValid : IsValid 2 one_held
one_held-IsValid =
    publish-IsValid (fresh-IsValid 2 (omega arith) (omega arith)) (omega arith) 8 (omega arith)

push_back_refines_example :
    let (status, xs) = Fifo.push 2 7 (contents 2 one_held) in
    (after : MpscQueue ℕ) × (push_back 2 retry 7 one_held ≡ some (status, after))
    × (contents 2 after ≡ xs)
    × IsValid 2 after
    × (after.head ≤ one_held.head + 1)
    × (after.push_count ≡ (
        if ltb (length (contents 2 one_held)) 2
        then add64 one_held.push_count 1
        else one_held.push_count))
    × (after.pop_count ≡ one_held.pop_count)
unfolding publish
push_back_refines_example = push_back_refines one_held-IsValid (omega arith) retry 7 refl

pop_refines_example :
    let (answer, xs) = Fifo.pop (contents 2 one_held) in
    (after : MpscQueue ℕ) × (pop 2 once one_held ≡ some (answer, after))
    × (contents 2 after ≡ xs)
    × IsValid 2 after
    × (after.head ≡ one_held.head)
    × (after.pop_count ≡ (
        if ltb 0 (length (contents 2 one_held))
        then add64 one_held.pop_count 1
        else one_held.pop_count))
    × (after.push_count ≡ one_held.push_count)
unfolding publish
pop_refines_example = pop_refines one_held-IsValid (omega arith) once refl

one_cell_overwrites_example :
    (first second : MpscQueue ℕ) × (push_back 1 once 5 fresh ≡ some (success, first))
    × (push_back 1 retry 6 first ≡ some (success, second))
    × (second.slots (index 1 0) ≡ 6)
    × (pop 1 retry second ≡ none)
unfolding index
one_cell_overwrites_example =
    one_cell_overwrites fresh 5 6 once retry retry refl (omega arith) (omega arith) refl refl

counts_lem_test :
    (after : MpscQueue ℕ) × (queue_after 2 script fresh ≡ some after) × IsCounted 2 after
unfolding init contents get_push_count get_pop_count
counts_lem_test =
    counts_lem 2 script fresh (fresh-IsValid 2 (omega arith) (omega arith)) (omega arith)
      (omega arith) (refl, (refl, (refl, (refl, (refl, (refl, (refl, (refl, tt)))))))) refl
