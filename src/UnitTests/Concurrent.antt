-- ===== src/UnitTests/Concurrent.antt =====
-- The two tests of test/mpsc_test.cpp with several writers and one reader, from the moment when their
-- threads are told to go. A round of a loop tests its condition and enters the call in one step; the
-- steps of the call are those of the queue.
mod Writer
mod Reader
mod Steps
pub mod Linked
mod Turn
mod Parts
mod Reached
pub mod Passed
mod Finish
mod Rounds
mod Takes
pub mod Ends
use sigmax.Base.{
  ℕ, ◌+◌, ◌<◌, ◌≡◌, ◌^◌, ◌/◌, Bool, true, false, not, ◌&&◌, ◌||◌, ltb, ◌==◌, if◌then◌else◌, value,
  update,
}
use sigmax.QueueState.{QueueState, success}
use sigmax.Threads.Sides.{is_idle}
use sigmax.Threads.{
  Pc, push_return, pop_return, System, call_push, call_pop, step, act, start, Earlier, load_late,
}

-- What the two tests differ in: how many writers there are, what each of them pushes and how often,
-- how many elements the reader waits for, and whether the writers expect SUCCESS.
pub record Plan : Type 0 where
  pub queue_size : ℕ
  pub writers : ℕ
  pub pushed : ℕ → ℕ
  pub values_to_write : ℕ
  pub values_to_read : ℕ
  pub checked : Bool

abbrev pub multiple_consumer_test1 : Plan
multiple_consumer_test1 = record {
  queue_size = 512;
  writers = 2;
  pushed = λ j. if j == 0 then 1 else 2;
  values_to_write = 512 / 2;
  values_to_read = 512;
  checked = true;
}

abbrev pub multiple_consumer_test2 : Plan
multiple_consumer_test2 = record {
  queue_size = 512;
  writers = 3;
  pushed = λ _. 1;
  values_to_write = 512;
  values_to_read = 512;
  checked = false;
}

-- The queue with its threads, the loop variables of the writers, what the reader has counted and
-- added up, and whether an expectation of a writer has failed.
pub record Running : Type 0 where
  pub sys : System ℕ
  pub written : ℕ → ℕ
  pub successful_pop_count : ℕ
  pub sum : ℕ
  pub failed : Bool

pub data Choice : Type 0 where
  writer_round : ℕ → Choice
  reader_round : Choice
  go_on : ℕ → Bool → Choice

abbrev pub is_success : QueueState → Bool
is_success success = true
is_success _ = false

module _ (p : Plan) where
  -- The writers are the threads below `writers`, and the reader is the thread after them.
  unfoldable pub begin_push : ℕ → Running → Running
  begin_push j t =
      if ltb j p.writers && (ltb (t.written j) p.values_to_write && is_idle (t.sys.pc j))
      then record t { sys = act p.queue_size (call_push j (p.pushed j)) t.sys }
      else t

  unfoldable pub begin_pop : Running → Running
  begin_pop t =
      if ltb t.successful_pop_count p.values_to_read && is_idle (t.sys.pc p.writers)
      then record t { sys = act p.queue_size (call_pop p.writers) t.sys }
      else t

  -- What the loops do with the answer of their call.
  unfoldable pub take_answer : ℕ → Pc ℕ → Running → Running
  take_answer i (push_return status) t = record t {
    written = update t.written i (t.written i + 1);
    failed = t.failed || (p.checked && not (is_success status));
  }
  take_answer i (pop_return (value x)) t = record t {
    successful_pop_count = t.successful_pop_count + 1;
    sum = t.sum + x;
  }
  take_answer i pc t = t

  unfoldable pub run_step : ℕ → Bool → Running → Running
  run_step i weak t = record (take_answer i (t.sys.pc i) t) {
    sys = act p.queue_size (step i weak) t.sys;
  }

  unfoldable pub test_act : Choice → Running → Running
  test_act (writer_round j) t = begin_push j t
  test_act reader_round t = begin_pop t
  test_act (go_on i weak) t = run_step i weak t

unfoldable pub test_start : Running
test_start = record {
  sys = start 0;
  written = λ _. 0;
  successful_pop_count = 0;
  sum = 0;
  failed = false;
}

-- The states that a run of a test reaches; with `late`, loads of the queue may be late.
pub data TestReach (late : Bool) (p : Plan) : Running → Type 0 where
  begin : TestReach late p test_start
  next :
      {t : Running} (c : Choice)
      → TestReach late p t
      → t.sys.queue.head + p.queue_size + 1 < 2 ^ 63
      → TestReach late p (test_act p c t)
  delayed :
      {t : Running} (i v : ℕ)
      → late ≡ true
      → Earlier p.queue_size t.sys.queue (t.sys.pc i) v
      → TestReach late p t
      → t.sys.queue.head + p.queue_size + 1 < 2 ^ 63
      → TestReach late p (record t { sys = load_late p.queue_size i v t.sys })

-- Some choices lead from one state of a run to another, with no late load.
pub data Follows (p : Plan) (t : Running) : Running → Type 0 where
  here : Follows p t t
  further :
      {u : Running} (c : Choice)
      → Follows p t u
      → u.sys.queue.head + p.queue_size + 1 < 2 ^ 63
      → Follows p t (test_act p c u)
