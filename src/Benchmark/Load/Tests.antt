-- ===== src/Benchmark/Load/Tests.antt =====
-- One writer and the reader of benchmarks/mpsc_queue_benchmark.cpp on a queue of two cells.
use native.Mathlib.Decide.{ℕ_discrete, dec_lt}
use sigmax.Base.{ℕ, zero, suc, ◌+◌, ◌^◌, ◌≡◌, refl, List, [], ◌∷◌, false, arith, length}
use sigmax.MpscQueue.{init, get_push_count, get_pop_count}
use sigmax.MpscQueue.Words.{diff}
use sigmax.MpscQueue.Index.{index}
use sigmax.MpscQueue.Valid.{contents}
use sigmax.Threads.{idle, act, turn, advance, note_accepted, note_delivered, when_idle, start}
use sigmax.Benchmark.Run.{reader}
use sigmax.Benchmark.Load.{
  message, Load, Choice, writer_round, reader_round, go_on, set_stop, see_stop, count, note_answer,
  begin_write, begin_read, run_step, load_act, load_start, LoadReach, begin, next,
}
use sigmax.Benchmark.Load.Counts.{benchmark_counts, reader_counts}

pub record Run : Type 0 where
  pub last : Load
  pub reach : LoadReach false 2 1 (message 0) last

unfoldable play : Run → List Choice → Run
unfolding dec_lt
play r [] = r
play r (c ∷ choices) = elim (dec_lt (r.last.sys.queue.head + 2 + 1) (2 ^ 63)) [
  | yes room ↦ play (record { last = load_act 2 1 c r.last; reach = next c r.reach room }) choices
  | no _ ↦ r
]

-- `n` steps of a thread, with no spurious failure.
abbrev steps : ℕ → ℕ → List Choice → List Choice
steps i zero rest = rest
steps i (suc n) rest = go_on i false ∷ steps i n rest

-- The reader finds the queue empty, the writer pushes twice, the reader pops one element.
unfoldable played : Run
unfolding play load_start load_act begin_write begin_read run_step count note_answer start init act
    turn advance note_accepted note_delivered when_idle index diff ℕ_discrete
played =
    play (record { last = load_start (message 0); reach = begin })
      (reader_round
        ∷ steps 1 3 (
            writer_round 0
            ∷ steps 0 7 (
                writer_round 0
                ∷ steps 0 7
                    (reader_round ∷ steps 1 7 (set_stop ∷ see_stop 1 ∷ reader_round ∷ [])))))

played_counts : played.last.counts ≡ (2, 1)
unfolding played
played_counts = refl

played-idle : (i : ℕ) → played.last.sys.pc i ≡ idle
unfolding played
played-idle zero = refl
played-idle (suc zero) = refl
played-idle (suc (suc i)) = ground arith

benchmark_counts_test :
    (reader played.last.rets ≡ played.last.counts)
    × (get_pop_count played.last.sys.queue ≡ played.last.counts.1)
    × (get_push_count played.last.sys.queue
        ≡ played.last.counts.1 + length (contents 2 played.last.sys.queue))
benchmark_counts_test = benchmark_counts (omega arith) (omega arith) played.reach played-idle

-- The reader is in no call, while the writer has claimed a position and not written its element.
unfoldable pub writing : Run
unfolding play load_start load_act begin_write begin_read run_step count note_answer start init act
    turn advance note_accepted note_delivered when_idle index diff ℕ_discrete
writing =
    play (record { last = load_start (message 0); reach = begin })
      (writer_round 0
        ∷ steps 0 7 (
            reader_round
            ∷ steps 1 7 (writer_round 0 ∷ steps 0 3 (set_stop ∷ see_stop 0 ∷ see_stop 1 ∷ []))))

writing_counts : (writing.last.counts ≡ (1, 1)) × (writing.last.sys.queue.head ≡ 2)
unfolding writing
writing_counts = (refl, refl)

reader_counts_example :
    (reader writing.last.rets ≡ writing.last.counts)
    × (get_pop_count writing.last.sys.queue ≡ writing.last.counts.1)
    × (writing.last.sys.queue.tail ≡ writing.last.counts.1)
unfolding writing
reader_counts_example = reader_counts (omega arith) (omega arith) writing.reach refl
