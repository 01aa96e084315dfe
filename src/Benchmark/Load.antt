-- ===== src/Benchmark/Load.antt =====
-- The threads of `RunBenchmark` in benchmarks/mpsc_queue_benchmark.cpp on the queue that they share,
-- from the moment when they are told to go. A round of a thread's loop tests `stop` and enters the
-- call in one step; the steps of the call are those of the queue. The counters do not overflow. The
-- flag `stop` is a plain bool: the write of the main thread is seen by each thread at a time of its
-- own, if at all.
mod Steps
pub mod Counts
pub mod Stop
mod Tests
mod StopTests
use sigmax.Base.{
  ℕ, ◌+◌, ◌<◌, ◌≡◌, ◌^◌, List, [], ◌∷◌, ◌++◌, Bool, true, false, not, ◌&&◌, ltb, ◌==◌,
  if◌then◌else◌, Expected, value, unexpected, update,
}
use sigmax.Base.Int.{pos}
use sigmax.OrderType.{Order, OrderState, buy}
use sigmax.QueueState.{QueueState}
use sigmax.Threads.Sides.{is_idle}
use sigmax.Threads.{
  Pc, pop_return, System, call_push, call_pop, step, act, start, Earlier, load_late,
}

-- What a writer pushes; `i` is its loop variable.
abbrev pub message : ℕ → Order
message i = record {
  order_id = pos i;
  instrument_id = "AAPL";
  side = buy;
  state = OrderState.fresh;
  quantity = pos 100;
  price = pos 100;
  ts = pos 1000000000000000000;
}

-- The queue with its threads, the loop variables of the writers, what the reader has counted, the
-- flag that the main thread writes, and what each thread sees of it; `rets` records the answers that
-- the reader has got, and no step reads it.
pub record Load : Type 0 where
  pub sys : System Order
  pub numbers : ℕ → ℕ
  pub counts : ℕ × ℕ
  pub stop : Bool
  pub seen : ℕ → Bool
  pub rets : List (Expected Order QueueState)

-- What happens next: a writer or the reader begins a round of its loop, a thread takes a step of its
-- call, the main thread wakes up and sets the flag, or its write comes into the sight of a thread.
pub data Choice : Type 0 where
  writer_round : ℕ → Choice
  reader_round : Choice
  go_on : ℕ → Bool → Choice
  set_stop : Choice
  see_stop : ℕ → Choice

-- The counting of the reader when `Pop` returns to it.
unfoldable pub count : Pc Order → ℕ × ℕ → ℕ × ℕ
count (pop_return (value a)) (counter, successful) = (counter + 1, successful + 1)
count (pop_return (unexpected e)) (counter, successful) = (counter + 1, successful)
count p counts = counts

unfoldable pub note_answer :
    Pc Order → List (Expected Order QueueState) → List (Expected Order QueueState)
note_answer (pop_return answer) rets = rets ++ answer ∷ []
note_answer p rets = rets

module _ (C producers : ℕ) where
  -- The writers are the threads below `producers`, and the reader is thread `producers`.
  unfoldable pub begin_write : ℕ → Load → Load
  begin_write j l =
      if ltb j producers && not (l.seen j) && is_idle (l.sys.pc j)
      then record l {
        sys = act C (call_push j (message (l.numbers j))) l.sys;
        numbers = update l.numbers j (l.numbers j + 1);
      }
      else l

  unfoldable pub begin_read : Load → Load
  begin_read l =
      if not (l.seen producers) && is_idle (l.sys.pc producers)
      then record l { sys = act C (call_pop producers) l.sys }
      else l

  unfoldable pub run_step : ℕ → Bool → Load → Load
  run_step i weak l =
      let after = act C (step i weak) l.sys in
      if i == producers
      then record l {
        sys = after;
        counts = count (l.sys.pc producers) l.counts;
        rets = note_answer (l.sys.pc producers) l.rets;
      }
      else record l { sys = after }

  unfoldable pub load_act : Choice → Load → Load
  load_act (writer_round j) l = begin_write j l
  load_act reader_round l = begin_read l
  load_act (go_on i weak) l = run_step i weak l
  load_act set_stop l = record l { stop = true }
  load_act (see_stop i) l = if l.stop then record l { seen = update l.seen i true } else l

unfoldable pub load_start : Order → Load
load_start blank = record {
  sys = start blank;
  numbers = λ _. 0;
  counts = (0, 0);
  stop = false;
  seen = λ _. false;
  rets = [];
}

-- The states that a run of the benchmark reaches; with `late`, loads of the queue may be late.
pub data LoadReach (late : Bool) (C producers : ℕ) (blank : Order) : Load → Type 0 where
  begin : LoadReach late C producers blank (load_start blank)
  next :
      {l : Load} (c : Choice)
      → LoadReach late C producers blank l
      → l.sys.queue.head + C + 1 < 2 ^ 63
      → LoadReach late C producers blank (load_act C producers c l)
  delayed :
      {l : Load} (i v : ℕ)
      → late ≡ true
      → Earlier C l.sys.queue (l.sys.pc i) v
      → LoadReach late C producers blank l
      → l.sys.queue.head + C + 1 < 2 ^ 63
      → LoadReach late C producers blank (record l { sys = load_late C i v l.sys })
