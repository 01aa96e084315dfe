-- ===== src/UnitTests/Concurrent/Ends.antt =====
-- The tests with threads of test/mpsc_test.cpp can always come to their end.
use sigmax.Base.{
  ℕ, zero, suc, ◌+◌, ◌*◌, ◌≤◌, ◌<◌, ◌≡◌, ◌^◌, update, refl, ap, sym, ◌∙◌, subst, arith, Bool, true,
  false, ltb, ◌&&◌, update_at, update_other,
}
use native.Mathlib.Decide.{ℕ_discrete, dec_lt}
use sigmax.SharedFifo.Callers.{pushes, pushes_by, pushes-sum_to}
use sigmax.Totals.{sum_to-const, sum_to-same}
use sigmax.Threads.{idle, pop_enter, act, when_idle}
use sigmax.Threads.Retries.{is_popping}
use sigmax.Threads.Room.{all_claimed, waiting}
use sigmax.Threads.Sides.{is_idle, in_hand}
use sigmax.Threads.Taking.{Promising}
use sigmax.Threads.Refine.{history}
use sigmax.UnitTests.Concurrent.{
  Plan, Running, TestReach, reader_round, begin_pop, test_act, Follows,
}
use sigmax.UnitTests.Concurrent.Reached.{TestReach-Linked}
use sigmax.UnitTests.Concurrent.Writer.{in_push}
use sigmax.UnitTests.Concurrent.Reader.{in_pop}
use sigmax.UnitTests.Concurrent.Finish.{Later, now, choose, and_later, finish}
use sigmax.UnitTests.Concurrent.Rounds.{Written, all_write}
use sigmax.UnitTests.Concurrent.Takes.{finish_pop, rests, Only-Written, left, Taking, take_on}

module _ (late : Bool) (p : Plan) (several : 2 ≤ p.queue_size) (small : p.queue_size < 2 ^ 63)
    (fits : p.writers * p.values_to_write + p.queue_size + 1 < 2 ^ 63)
    (fills : p.values_to_read ≤ p.queue_size)
    (lasts : p.values_to_read ≤ p.writers * p.values_to_write) where
  -- No thread is in a call, and the writers have written all their values.
  abbrev Quiet : Running → Type 0
  Quiet t = Written late p several small fits p.writers t × (t.sys.pc p.writers ≡ idle)

  all_rest : (t : Running) → TestReach late p t → Quiet t → (j : ℕ) → t.sys.pc j ≡ idle
  all_rest t r (written, done) j = elim (ℕ_discrete p.writers j) [
    | yes e ↦ ap t.sys.pc (sym e) ∙ done
    | no ne ↦ rests late p several small fits t t written r (λ k other. (refl, refl)) j ne
  ]

  -- Then the queue has been given as many elements as the reader wants.
  enough_given : (t : Running) → TestReach late p t → Quiet t → p.values_to_read ≤ t.sys.queue.head
  enough_given t r q =
      let l = TestReach-Linked several small r in
      let calls : pushes (history l.reach) ≡ p.writers * p.values_to_write =
        pushes-sum_to p.writers (history l.reach) (λ j le. ground (arith, (l.writes j).within))
        ∙ sum_to-same (λ j. pushes_by j (history l.reach)) (λ _. p.values_to_write) p.writers
            (λ j lt. omega (arith, (l.writes j).calls, (q.0 j lt).1, ap in_push (q.0 j lt).0))
        ∙ sum_to-const p.values_to_write p.writers in
      ground (arith, calls, all_claimed several small l.reach (λ i. ap waiting (all_rest t r q i)))

  -- The reader takes one more element.
  take_one :
      (t : Running)
      → TestReach late p t
      → Quiet t
      → t.successful_pop_count < p.values_to_read
      → Later late p several small fits t
          (λ u. Quiet u × (u.successful_pop_count ≡ t.successful_pop_count + 1))
  unfolding test_act begin_pop act when_idle
  take_one t r q more =
      and_later late p several small fits
        (choose late p several small fits t
          (λ u.
            (u.sys.pc p.writers ≡ pop_enter)
            × Taking late p several small fits (t.successful_pop_count + 1) t u)
          reader_round r begun)
        (λ u r' (at, taking).
          and_later late p several small fits
            (finish late p several small fits p.writers
              (λ u. Taking late p several small fits (t.successful_pop_count + 1) t u)
              (left late p several small fits)
              (λ v r'' k awake.
                take_on late p several small fits (t.successful_pop_count + 1) t v q.0 r'' k awake)
              (left late p several small fits u) u r' taking (omega arith))
            (λ v r'' (done, (k, sure, counts, others)). now late p several small fits v _ r'' (
              (Only-Written late p several small fits t v q.0 others, done),
              omega (arith, counts, ap in_pop done),
            )))
    where
      some_left : t.sys.queue.tail < t.sys.queue.head
      some_left = omega (
        arith,
        enough_given t r q,
        (TestReach-Linked several small r).reads.taken,
        ap in_hand q.1,
      )

      begun :
          let u = test_act p reader_round t in
          (u.sys.pc p.writers ≡ pop_enter)
          × Taking late p several small fits (t.successful_pop_count + 1) t u
      begun =
          let goes : ltb t.successful_pop_count p.values_to_read && is_idle (t.sys.pc p.writers)
              ≡ true =
            ground (arith, q.1) in
          let at : update t.sys.pc p.writers (when_idle pop_enter (t.sys.pc p.writers)) p.writers
              ≡ pop_enter =
            update_at t.sys.pc p.writers (when_idle pop_enter (t.sys.pc p.writers))
            ∙ ap (when_idle pop_enter) q.1 in
          rw goes (
            at,
            (
              ap is_popping at,
              subst (Promising t.sys.queue) (sym at) some_left,
              omega (arith, ap in_pop at),
              λ j ne. (
                update_other t.sys.pc p.writers j (when_idle pop_enter (t.sys.pc p.writers)) ne,
                refl,
              ),
            ),
          )

  take_rest :
      (n : ℕ) (t : Running)
      → TestReach late p t
      → Quiet t
      → p.values_to_read ≤ t.successful_pop_count + n
      → Later late p several small fits t
          (λ u. (u.sys.pc p.writers ≡ idle) × (ltb u.successful_pop_count p.values_to_read ≡ false))
  take_rest zero t r q le = now late p several small fits t _ r (q.1, ground arith)
  take_rest (suc n) t r q le = elim (dec_lt t.successful_pop_count p.values_to_read) [
    | no all ↦ now late p several small fits t _ r (q.1, ground arith)
    | yes more ↦
        and_later late p several small fits (take_one t r q more)
          (λ u r' (q', one). take_rest n u r' q' (omega arith))
  ]

  -- From every state that a run of the test reaches, late loads included, some choices without
  -- late loads lead to a state in which the reader has ended its loop: no state is a dead end. The
  -- reader wants no more elements than the queue has cells and the writers push, which are few
  -- enough for the positions to stay below 2^63.
  pub can_end :
      (t : Running)
      → TestReach late p t
      → (u : Running) × Follows p t u
        × TestReach late p u
        × (u.sys.pc p.writers ≡ idle)
        × (ltb u.successful_pop_count p.values_to_read ≡ false)
  can_end t r =
      let (v, f, r', (done, over)) =
        and_later late p several small fits
          (all_write late p several small fits p.writers t r (omega arith))
          (λ u r' written.
            and_later late p several small fits (finish_pop late p several small fits u r')
              (λ v r'' (done, others).
                take_rest p.values_to_read v r''
                  (Only-Written late p several small fits u v written others, done)
                  (omega arith))) in
      (v, f, r', done, over)
