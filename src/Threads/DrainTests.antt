-- ===== src/Threads/DrainTests.antt =====
-- Calls of several threads of src/sigmax/mpsc_queue.hpp that are in progress, and no new ones.
use sigmax.Base.{
  ℕ, zero, suc, ◌+◌, ◌<◌, ◌*◌, ◌≡◌, ◌⊎◌, inl, inr, ◌^◌, refl, arith, Bool, true, false, List, [],
  ◌∷◌,
}
use mathlib.Core.List.{foldl}
use native.Mathlib.Decide.{dec_lt}
use sigmax.Threads.{idle, System, call_push, call_pop, step, act}
use sigmax.Threads.Play.{Run, run}
use sigmax.Threads.Retries.{failures}
use sigmax.Threads.Retries.All.{Draining, begun, go_on, Returned, all_calls_steps}
use sigmax.Threads.Sides.{is_busy}

-- Producers 1 and 2 have called, and so has thread 0, to pop.
abbrev three : Run false
three = run (call_push 1 7 ∷ call_push 2 8 ∷ call_pop 0 ∷ [])

record Drain : Type 0 where
  taken : ℕ
  spurious : ℕ
  last : System ℕ
  steps_taken : Draining false 2 3 three.last taken spurious last

unfoldable drain_step : Drain → ℕ × Bool → Drain
unfolding dec_lt
drain_step d (i, weak) = elim (dec_lt (d.last.queue.head + 2 + 1) (2 ^ 63)) [
  | yes room ↦ elim (dec_lt i 3) [
    | yes mine ↦ elim (is_busy (d.last.pc i)) [
      | inl at ↦ d
      | inr busy ↦ record {
        taken = suc d.taken;
        spurious = d.spurious + failures weak;
        last = act 2 (step i weak) d.last;
        steps_taken = go_on i weak d.steps_taken mine busy room;
      }
    ]
    | no other ↦ d
  ]
  | no _ ↦ d
]

-- Each of the three goes on in turn.
abbrev turns : ℕ → List (ℕ × Bool)
turns zero = []
turns (suc n) = (1, false) ∷ (2, false) ∷ (0, false) ∷ turns n

unfoldable drained : Drain
unfolding run drain_step
drained =
    foldl drain_step (record { taken = 0; spurious = 0; last = three.last; steps_taken = begun })
      ((1, false) ∷ (1, false) ∷ (1, true) ∷ turns 12)

drained_counts :
    (drained.taken ≡ 21)
    × (drained.spurious ≡ 1)
    × (drained.last.pc 0 ≡ idle)
    × (drained.last.pc 1 ≡ idle)
    × (drained.last.pc 2 ≡ idle)
unfolding drained is_busy
drained_counts = (refl, refl, refl, refl, refl)

all_calls_steps_example :
    let bound = 3 * (8 + 2 * 3) + 2 * drained.spurious in
    (drained.taken < bound) ⊎ ((drained.taken ≡ bound) × Returned 3 drained.last)
unfolding run
all_calls_steps_example =
    all_calls_steps (omega arith) (omega arith) three.reach 3 drained.steps_taken
