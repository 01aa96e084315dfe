-- ===== src/UnitTests/Concurrent/Reached.antt =====
-- In every state of a test with threads of test/mpsc_test.cpp the loop variables are in accord with
-- the calls and answers.
use sigmax.Base.{◌≤◌, ◌<◌, ◌^◌, inl, inr, refl, arith, Bool, ◌&&◌, ltb, Bool-cases}
use sigmax.MpscQueue.{init}
use sigmax.SharedFifo.Callers.{pushes, pushes_by}
use sigmax.SharedFifo.Told.{last_pushed, sent, received}
use sigmax.Threads
use sigmax.Threads.{
  Pc, idle, push_enter, push_return, push_write, push_publish, push_tally, pop_enter, pop_return,
  System, call_push, call_pop, step, act, turn, advance, when_idle, start, Reach, Earlier, observe,
  load_late,
}
use sigmax.Threads.Sides.{is_idle, idle_of}
use sigmax.Threads.Refine.{history}
use sigmax.UnitTests.Concurrent.{
  Plan, Running, TestReach, begin, next, delayed, writer_round, reader_round, go_on, begin_push,
  begin_pop, test_act, test_start,
}
use sigmax.UnitTests.Concurrent.Steps.{push-Linked, pop-Linked, load-Linked}
use sigmax.UnitTests.Concurrent.Turn.{turn-Linked}
use sigmax.UnitTests.Concurrent.Linked.{Linked}

module _ {late : Bool} {p : Plan} (several : 2 ≤ p.queue_size) (small : p.queue_size < 2 ^ 63) where
  pub TestReach-Linked : {t : Running} → TestReach late p t → Linked late p t
  unfolding test_act test_start begin_push begin_pop start init history pushes pushes_by last_pushed
      sent received
  TestReach-Linked begin = record {
    reach = Threads.begin;
    pushing = λ j ne. refl;
    popping = refl;
    writes = λ j. record {
      calls = refl;
      within = omega arith;
      last = tt;
      sents = tt;
      answered = omega arith;
    };
    reads = record { alone = tt; got = refl; adds = refl; taken = refl; wanted = omega arith };
    passed = λ few. refl;
  }
  TestReach-Linked (next {t} (writer_round j) r room) =
      let l = TestReach-Linked r in
      elim (Bool-cases
        (ltb j p.writers && (ltb (t.written j) p.values_to_write && is_idle (t.sys.pc j)))) [
          | inr stays ↦ rw stays l
          | inl goes ↦ rw goes (
              push-Linked l room j (idle_of (t.sys.pc j) (ground (arith, goes)))
                (ground (arith, goes)) (ground (arith, goes)))
        ]
  TestReach-Linked (next {t} reader_round r room) =
      let l = TestReach-Linked r in
      elim (Bool-cases
        (ltb t.successful_pop_count p.values_to_read && is_idle (t.sys.pc p.writers))) [
          | inr stays ↦ rw stays l
          | inl goes ↦ rw goes (
              pop-Linked l room (idle_of (t.sys.pc p.writers) (ground (arith, goes)))
                (ground (arith, goes)))
        ]
  TestReach-Linked (next {t} (go_on i weak) r room) =
      turn-Linked several small (TestReach-Linked r) room i weak
  TestReach-Linked (delayed {t} i v on e r room) = load-Linked (TestReach-Linked r) room i v on e
