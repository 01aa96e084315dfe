-- ===== src/UnitTests/Single.antt =====
-- The tests of test/mpsc_test.cpp that have one thread, as lists of their lines.
use sigmax.Base.{
  ℕ, suc, zero, ◌+◌, ◌^◌, ◌<◌, ◌≤◌, ◌≡◌, refl, arith, List, [], ◌∷◌, ◌++◌, map, Bool, true, false,
  ◌&&◌, ◌==◌, Option, none, some, Expected, value, unexpected, length,
}
use mathlib.Core.Option
use sigmax.Fifo
use sigmax.QueueState.{QueueState, success, queue_is_empty, queue_is_full}
use sigmax.MpscQueue.{MpscQueue, init, push_back, pop}
use sigmax.MpscQueue.Valid.{IsValid, init-IsValid, contents}
use sigmax.MpscQueue.Refine.{settles, push_back_refines, pop_refines}

-- A call of the queue, with the answer that the test expects; `PushBack` may have none.
pub data Line : Type 0 where
  push_line : ℕ → Option QueueState → Line
  pop_line : Expected ℕ QueueState → Line

abbrev same_status : QueueState → QueueState → Bool
same_status success success = true
same_status queue_is_empty queue_is_empty = true
same_status queue_is_full queue_is_full = true
same_status _ _ = false

abbrev pub meets : Option QueueState → QueueState → Bool
meets none status = true
meets (some expected) status = same_status expected status

abbrev pub same_answer : Expected ℕ QueueState → Expected ℕ QueueState → Bool
same_answer (value x) (value y) = x == y
same_answer (unexpected e) (unexpected f) = same_status e f
same_answer _ _ = false

-- The numbers of a loop from 0 on.
abbrev below : ℕ → List ℕ
below zero = []
below (suc n) = below n ++ n ∷ []

abbrev push_all : ℕ → List Line
push_all n = map (λ i. push_line i (some success)) (below n)

abbrev pop_all : ℕ → List Line
pop_all n = map (λ i. pop_line (value i)) (below n)

abbrev no_more : Line
no_more = pop_line (unexpected queue_is_empty)

abbrev pub push_single_thread : List Line
push_single_thread = push_all 16

abbrev pub push_and_pop_single_thread : List Line
push_and_pop_single_thread =
    push_line 1 (some success)
    ∷ push_line 2 (some success)
    ∷ push_line 3 (some success)
    ∷ pop_line (value 1)
    ∷ pop_line (value 2)
    ∷ pop_line (value 3)
    ∷ no_more
    ∷ []

abbrev pub fill_and_pop_empty_single_thread : List Line
fill_and_pop_empty_single_thread = push_all 8 ++ (pop_all 8 ++ no_more ∷ [])

abbrev overflow : List Line
overflow =
    map (λ j. push_line j none) (below 16)
    ++ (map (λ k. push_line (10 + k) (some queue_is_full)) (below 2)
        ++ (pop_all 16 ++ no_more ∷ no_more ∷ []))

abbrev pub overflow_twice_single_thread : List Line
overflow_twice_single_thread = overflow ++ overflow

-- Whether all expectations of a test are met. The compare-exchanges of its `n`th call fail for no
-- reason as `weak n` says; `none` means that a call did not return.
unfoldable pub passes : (C : ℕ) → (ℕ → List Bool) → ℕ → List Line → MpscQueue ℕ → Option Bool
passes C weak n [] q = some true
passes C weak n (push_line x expected ∷ lines) q = elim (push_back C (weak n) x q) [
  | none ↦ none
  | some (status, q') ↦
      Option.map (λ ok. meets expected status && ok) (passes C weak (suc n) lines q')
]
passes C weak n (pop_line expected ∷ lines) q = elim (pop C (weak n) q) [
  | none ↦ none
  | some (answer, q') ↦
      Option.map (λ ok. same_answer expected answer && ok) (passes C weak (suc n) lines q')
]

-- The same test on the FIFO.
unfoldable fifo_passes : ℕ → List Line → List ℕ → Bool
fifo_passes C [] xs = true
fifo_passes C (push_line x expected ∷ lines) xs =
    let (status, xs') = Fifo.push C x xs in meets expected status && fifo_passes C lines xs'
fifo_passes C (pop_line expected ∷ lines) xs =
    let (answer, xs') = Fifo.pop xs in same_answer expected answer && fifo_passes C lines xs'

module _ (C : ℕ) (weak : ℕ → List Bool) (settle : (n : ℕ) → settles (weak n) ≡ true) where
  passes-fifo_passes :
      (lines : List Line) (n : ℕ) (q : MpscQueue ℕ)
      → IsValid C q
      → q.head + length lines + C < 2 ^ 63
      → passes C weak n lines q ≡ some (fifo_passes C lines (contents C q))
  unfolding passes fifo_passes
  passes-fifo_passes [] n q v room = refl
  passes-fifo_passes (push_line x expected ∷ lines) n q v room =
      let (after, e, held, v', top, _, _) =
        push_back_refines v (omega arith) (weak n) x (settle n) in
      ground (arith, e, held, passes-fifo_passes lines (suc n) after v' (omega arith))
  passes-fifo_passes (pop_line expected ∷ lines) n q v room =
      let (after, e, held, v', top, _, _) = pop_refines v (omega arith) (weak n) (settle n) in
      ground (arith, e, held, passes-fifo_passes lines (suc n) after v' (omega arith))

  -- A test on a new queue.
  passes-init :
      (lines : List Line)
      → 2 ≤ C
      → length lines + C < 2 ^ 63
      → passes C weak 0 lines (init 0) ≡ some (fifo_passes C lines [])
  unfolding init contents
  passes-init lines several room =
      passes-fifo_passes lines 0 (init 0) (init-IsValid C 0 several (omega arith)) (omega arith)

-- Each of the four tests with one thread returns from all its calls and meets all its expectations,
-- whichever compare-exchanges fail for no reason, if in each call some does not.
pub single_thread_tests_pass :
    (weak : ℕ → List Bool)
    → ((n : ℕ) → settles (weak n) ≡ true)
    → (passes 16 weak 0 push_single_thread (init 0) ≡ some true)
      × (passes 16 weak 0 push_and_pop_single_thread (init 0) ≡ some true)
      × (passes 8 weak 0 fill_and_pop_empty_single_thread (init 0) ≡ some true)
      × (passes 16 weak 0 overflow_twice_single_thread (init 0) ≡ some true)
unfolding fifo_passes Fifo.push Fifo.pop
single_thread_tests_pass weak settle = (
  passes-init 16 weak settle push_single_thread (omega arith) (omega arith),
  passes-init 16 weak settle push_and_pop_single_thread (omega arith) (omega arith),
  passes-init 8 weak settle fill_and_pop_empty_single_thread (omega arith) (omega arith),
  passes-init 16 weak settle overflow_twice_single_thread (omega arith) (omega arith),
)
