-- ===== src/Benchmark/Load/StopTests.antt =====
-- The threads of benchmarks/mpsc_queue_benchmark.cpp after the flag has been set, in one run.
use native.Mathlib.Decide.{dec_lt}
use sigmax.Base.{ℕ, zero, suc, ◌+◌, ◌*◌, ◌<◌, ◌^◌, ◌≡◌, ◌⊎◌, refl, [], ◌∷◌, false, arith, inl, inr}
use mathlib.Core.List.{foldl}
use native.Mathlib.Decide.{ℕ_discrete}
use sigmax.MpscQueue.Words.{diff}
use sigmax.MpscQueue.Index.{index}
use sigmax.Threads.{idle, act, turn, advance, note_accepted, note_delivered}
use sigmax.Threads.Retries.{failures}
use sigmax.Threads.Retries.All.{Returned}
use sigmax.Threads.Sides.{is_busy}
use sigmax.Benchmark.Load.{
  Load, go_on, reader_round, load_act, begin_read, run_step, count, note_answer,
}
use sigmax.Benchmark.Load.Stop.{AllSee, Winding, stopped, round, call_step, stopped_load_steps}
use sigmax.Benchmark.Load.Tests.{writing}

-- A run from `writing` on, in which a writer is about to write its element and the flag is set.
record Wind : Type 0 where
  taken : ℕ
  spurious : ℕ
  last : Load
  run : Winding false 2 1 writing.last taken spurious last

unfoldable step_on : Wind → ℕ → Wind
unfolding dec_lt
step_on d i = elim (dec_lt (d.last.sys.queue.head + 2 + 1) (2 ^ 63)) [
  | yes room ↦ elim (dec_lt i 2) [
    | yes mine ↦ elim (is_busy (d.last.sys.pc i)) [
      | inl rests ↦ d
      | inr busy ↦ record {
        taken = suc d.taken;
        spurious = d.spurious + failures false;
        last = load_act 2 1 (go_on i false) d.last;
        run = call_step i false mine busy room d.run;
      }
    ]
    | no other ↦ d
  ]
  | no _ ↦ d
]

unfoldable wound : Wind
unfolding step_on load_act begin_read run_step count note_answer act turn advance note_accepted
    note_delivered index diff ℕ_discrete writing
wound =
    foldl step_on
      (record {
        taken = 0;
        spurious = 0;
        last = load_act 2 1 reader_round writing.last;
        run = round reader_round refl stopped;
      })
      (0 ∷ 1 ∷ 0 ∷ 0 ∷ 0 ∷ 0 ∷ [])

wound_counts : (wound.taken ≡ 4) × (wound.last.sys.pc 0 ≡ idle) × (wound.last.sys.pc 1 ≡ idle)
unfolding wound is_busy
wound_counts = (refl, refl, refl)

all_see : AllSee 1 writing.last
unfolding writing
all_see zero lt = refl
all_see (suc zero) lt = refl
all_see (suc (suc i)) lt = absurd (omega arith)

stopped_load_steps_example :
    let bound = 2 * (8 + 2 * 2) + 2 * wound.spurious in
    (wound.taken < bound) ⊎ ((wound.taken ≡ bound) × Returned 2 wound.last.sys)
unfolding writing
stopped_load_steps_example =
    stopped_load_steps (omega arith) (omega arith) writing.reach all_see wound.run
