-- ===== src/UnitTests/Tests.antt =====
-- The tests of test/mpsc_test.cpp, played out.
use sigmax.Base.{arith, ltb, ◌+◌, ◌*◌, ◌/◌, true, false, ◌≡◌, refl, [], ◌∷◌, some}
use sigmax.MpscQueue.{init, get_pop_count}
use sigmax.Threads.{idle}
use sigmax.UnitTests.Concurrent.{
  Running, multiple_consumer_test1, multiple_consumer_test2, test_start, TestReach, begin, Follows,
}
use sigmax.UnitTests.Concurrent.Ends.{can_end}
use sigmax.UnitTests.Concurrent.Passed.{
  multiple_consumer_test1_passes, multiple_consumer_test2_passes,
}
use sigmax.UnitTests.Single.{
  passes, push_single_thread, push_and_pop_single_thread, fill_and_pop_empty_single_thread,
  overflow_twice_single_thread, single_thread_tests_pass,
}

single_thread_tests_pass_example :
    (passes 16 (λ _. true ∷ false ∷ []) 0 push_single_thread (init 0) ≡ some true)
    × (passes 16 (λ _. true ∷ false ∷ []) 0 push_and_pop_single_thread (init 0) ≡ some true)
    × (passes 8 (λ _. true ∷ false ∷ []) 0 fill_and_pop_empty_single_thread (init 0) ≡ some true)
    × (passes 16 (λ _. true ∷ false ∷ []) 0 overflow_twice_single_thread (init 0) ≡ some true)
single_thread_tests_pass_example = single_thread_tests_pass (λ _. true ∷ false ∷ []) (λ n. refl)

-- A run of each test with threads that ends.
can_end_example :
    (u : Running) × Follows multiple_consumer_test1 test_start u
    × TestReach false multiple_consumer_test1 u
    × (u.sys.pc 2 ≡ idle)
    × (ltb u.successful_pop_count 512 ≡ false)
can_end_example =
    can_end false multiple_consumer_test1 (omega arith) (omega arith) (omega arith) (omega arith)
      (omega arith) test_start begin

ended1 :
    (u : Running) × Follows multiple_consumer_test1 test_start u
    × TestReach true multiple_consumer_test1 u
    × (u.sys.pc 2 ≡ idle)
    × (ltb u.successful_pop_count 512 ≡ false)
ended1 =
    can_end true multiple_consumer_test1 (omega arith) (omega arith) (omega arith) (omega arith)
      (omega arith) test_start begin

multiple_consumer_test1_passes_example :
    (ended1.0.failed ≡ false)
    × (ended1.0.successful_pop_count ≡ 512)
    × (ended1.0.sum ≡ 512 / 2 * (1 + 2))
multiple_consumer_test1_passes_example = multiple_consumer_test1_passes ended1.2 ended1.3 ended1.4

ended2 :
    (u : Running) × Follows multiple_consumer_test2 test_start u
    × TestReach true multiple_consumer_test2 u
    × (u.sys.pc 3 ≡ idle)
    × (ltb u.successful_pop_count 512 ≡ false)
ended2 =
    can_end true multiple_consumer_test2 (omega arith) (omega arith) (omega arith) (omega arith)
      (omega arith) test_start begin

multiple_consumer_test2_passes_example :
    (ended2.0.successful_pop_count ≡ 512)
    × (ended2.0.sum ≡ 512)
    × (get_pop_count ended2.0.sys.queue ≡ 512)
multiple_consumer_test2_passes_example = multiple_consumer_test2_passes ended2.2 ended2.3 ended2.4
