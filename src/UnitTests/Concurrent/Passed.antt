-- ===== src/UnitTests/Concurrent/Passed.antt =====
-- The expectations of the tests with threads in test/mpsc_test.cpp.
use sigmax.Base.{
  ℕ, ◌+◌, ◌-◌, ◌/◌, ◌≤◌, ◌<◌, ◌≡◌, ◌^◌, refl, ap, sym, ◌∙◌, subst, arith, Bool, false, ltb, List,
  [], ◌++◌, ◌*◌, length, length-append, All,
}
use native.Mathlib.Decide.{ℕ_discrete}
use sigmax.MpscQueue.{get_pop_count}
use sigmax.SharedFifo.Callers.{
  All-before, All-elements, total, total-append, total-same, total-one, total-elements,
}
use sigmax.Totals.{sum_to, sum_to-le, sum_to-tight, sum_to-same}
use sigmax.Threads.Consumer.{fifo_by_producer}
use sigmax.Threads.Counts.{popped_count, to_tally_pop}
use sigmax.Threads.Quiet.{stretch}
use sigmax.SharedFifo.Told.{received, from, elements, taken_out}
use sigmax.Threads.{idle}
use sigmax.Threads.Sides.{pushing-tally, in_hand}
use sigmax.Threads.Refine.{phase_of}
use sigmax.UnitTests.Concurrent.{
  Plan, Running, multiple_consumer_test1, multiple_consumer_test2, TestReach,
}
use sigmax.UnitTests.Concurrent.Parts.{
  entered, told, writer_part, no_others, writer_values, pushes-le, no_elements,
}
use sigmax.UnitTests.Concurrent.Linked.{Linked}
use sigmax.UnitTests.Concurrent.Reached.{TestReach-Linked}

module _ {late : Bool} {p : Plan} {t : Running} (several : 2 ≤ p.queue_size)
    (small : p.queue_size < 2 ^ 63) (l : Linked late p t) (done : t.sys.pc p.writers ≡ idle)
    (enough : ltb t.successful_pop_count p.values_to_read ≡ false) where
  counted : t.successful_pop_count ≡ p.values_to_read
  counted = ground (arith, l.reads.wanted)

  -- The elements that have been put in are those received, and others.
  abbrev others : List ℕ
  others =
      taken_out (phase_of t.sys.accepted (t.sys.pc p.writers))
      ++ stretch t.sys.accepted t.sys.queue.tail (t.sys.queue.head - t.sys.queue.tail)

  in_order :
      elements (entered several small l) ≡ received p.writers (told several small l) ++ others
  in_order = (fifo_by_producer several small l.reach p.writers l.reads.alone).1

  writers_sum :
      (f : ℕ → ℕ)
      → total f (elements (entered several small l))
        ≡ sum_to (λ j. total f (from j (entered several small l))) p.writers
  writers_sum f = total-elements f p.writers (entered several small l) (no_others several small l)

  -- When the reader has got as many elements as all writers together push, each writer has put in all
  -- of its own, and the reader has got them all.
  module _ (whole : p.writers * p.values_to_write ≡ p.values_to_read) where
    lengths_sum :
        length (elements (entered several small l))
        ≡ sum_to (λ j. length (from j (entered several small l))) p.writers
    lengths_sum =
        sym (total-one (elements (entered several small l)))
        ∙ writers_sum (λ _. 1)
        ∙ sum_to-same (λ j. total (λ _. 1) (from j (entered several small l)))
            (λ j. length (from j (entered several small l))) p.writers
            (λ j lt. total-one (from j (entered several small l)))

    split_length :
        length (elements (entered several small l)) ≡ t.successful_pop_count + length others
    split_length =
        ap length in_order
        ∙ length-append (received p.writers (told several small l)) others
        ∙ ap (λ n. n + length others) l.reads.got

    each_writes_all :
        (j : ℕ) → j < p.writers → length (from j (entered several small l)) ≡ p.values_to_write
    each_writes_all =
        sum_to-tight (λ j. length (from j (entered several small l))) p.values_to_write p.writers
          (λ j lt. ground (arith, writer_part several small l j))
          (omega (arith, whole, counted, split_length, lengths_sum))

    nothing_left : others ≡ []
    nothing_left = no_elements others (
        omega (
          arith,
          split_length,
          lengths_sum,
          counted,
          whole,
          sum_to-le (λ j. length (from j (entered several small l))) p.values_to_write p.writers
              (λ j lt. ground (arith, writer_part several small l j)),
        ))

    whole_sum : t.sum ≡ sum_to (λ j. p.values_to_write * p.pushed j) p.writers
    whole_sum =
        sym l.reads.adds
        ∙ (let h : total (λ x. x) (elements (entered several small l))
                ≡ total (λ x. x) (received p.writers (told several small l)) =
              ap (total (λ x. x)) in_order
              ∙ total-append (λ x. x) (received p.writers (told several small l)) others
              ∙ omega (arith, ap (total (λ x. x)) nothing_left) in
            sym h)
        ∙ writers_sum (λ x. x)
        ∙ sum_to-same (λ j. total (λ x. x) (from j (entered several small l)))
            (λ j. p.values_to_write * p.pushed j) p.writers
            (λ j lt.
              total-same (λ x. x) (p.pushed j) (from j (entered several small l))
                (writer_values several small l j)
              ∙ ap (λ n. n * p.pushed j) (each_writes_all j lt))

  -- When all writers push the number 1, the reader adds up as many as it counts.
  ones_sum : ((j : ℕ) → p.pushed j ≡ 1) → t.sum ≡ t.successful_pop_count
  ones_sum one =
      let all_ones : All (λ x. x ≡ 1) (elements (entered several small l)) =
        All-elements (λ x. x ≡ 1) (entered several small l)
          (λ j.
            subst (λ v. All (λ x. x ≡ v) (from j (entered several small l))) (one j)
              (writer_values several small l j)) in
      let received_ones : All (λ x. x ≡ 1) (received p.writers (told several small l)) =
        All-before (λ x. x ≡ 1) (received p.writers (told several small l)) others
          (subst (All (λ x. x ≡ 1)) in_order all_ones) in
      sym l.reads.adds
      ∙ total-same (λ x. x) 1 (received p.writers (told several small l)) received_ones
      ∙ omega (arith, l.reads.got)

  popped_all : get_pop_count t.sys.queue ≡ t.successful_pop_count
  popped_all =
      popped_count several small l.reach none_popping
      ∙ omega (arith, l.reads.taken, ap in_hand done)
    where
      none_popping : (i : ℕ) → to_tally_pop (t.sys.pc i) ≡ 0
      none_popping i = elim (ℕ_discrete i p.writers) [
        | yes at ↦ ap (λ k. to_tally_pop (t.sys.pc k)) at ∙ ap to_tally_pop done
        | no other ↦ pushing-tally (t.sys.pc i) (l.pushing i other)
      ]

module _ {late : Bool} {t : Running} where
  -- In every state that a run of `MultipleConsumerTest1` reaches, late loads included, in which the
  -- reader has ended its loop: no expectation of a writer has failed, the reader has counted 512
  -- elements, and their sum is 256 times 1 and 2.
  pub multiple_consumer_test1_passes :
      TestReach late multiple_consumer_test1 t
      → t.sys.pc 2 ≡ idle
      → ltb t.successful_pop_count 512 ≡ false
      → (t.failed ≡ false) × (t.successful_pop_count ≡ 512) × (t.sum ≡ 512 / 2 * (1 + 2))
  multiple_consumer_test1_passes r done enough =
      let l = TestReach-Linked (omega arith) (omega arith) r in
      (
        l.passed (pushes-le (omega arith) (omega arith) l),
        counted (omega arith) (omega arith) l done enough,
        whole_sum (omega arith) (omega arith) l done enough refl,
      )

  -- In every state that a run of `MultipleConsumerTest2` reaches, late loads included, when the
  -- reader has ended its loop: it has counted 512 elements, their sum is 512, and so is
  -- `GetPopCount`.
  pub multiple_consumer_test2_passes :
      TestReach late multiple_consumer_test2 t
      → t.sys.pc 3 ≡ idle
      → ltb t.successful_pop_count 512 ≡ false
      → (t.successful_pop_count ≡ 512) × (t.sum ≡ 512) × (get_pop_count t.sys.queue ≡ 512)
  multiple_consumer_test2_passes r done enough =
      let l = TestReach-Linked (omega arith) (omega arith) r in
      let all = counted (omega arith) (omega arith) l done enough in
      (
        all,
        ones_sum (omega arith) (omega arith) l done enough (λ j. refl) ∙ all,
        popped_all (omega arith) (omega arith) l done enough ∙ all,
      )
