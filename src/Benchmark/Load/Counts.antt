-- ===== src/Benchmark/Load/Counts.antt =====
-- What the reader of benchmarks/mpsc_queue_benchmark.cpp has counted, against the queue.
use native.Mathlib.Decide.{ℕ_discrete}
use sigmax.Base.{
  subst, same_view, other_view, ltb, not, ◌&&◌, ◌==◌, ℕ, ◌+◌, ◌≤◌, ◌<◌, ◌≡◌, ◌≢◌, ◌^◌, Bool, true,
  arith, refl, ap, sym, ◌∙◌, update_at, Bool-cases, inl, inr, ==_iff, length,
}
use sigmax.OrderType.{Order}
use sigmax.MpscQueue.{get_push_count, get_pop_count, init}
use sigmax.MpscQueue.Valid.{contents}
use sigmax.Threads
use sigmax.Threads.{
  Pc, idle, push_enter, pop_enter, pop_read, pop_release, pop_tally, pop_return, System, call_push,
  call_pop, step, act, turn, advance, when_idle, start, Reach, Earlier, observe, load_late,
}
use sigmax.Threads.Invariant.{Reach-Holds}
use sigmax.Threads.Retries.{is_pushing, is_popping}
use sigmax.Threads.Counts.{quiet_counts, popped_count, to_tally_pop}
use sigmax.Benchmark.Run.{reader, reader_loop}
use sigmax.Benchmark.Load.{
  message, Load, writer_round, reader_round, go_on, set_stop, see_stop, count, begin_write,
  begin_read, run_step, load_act, load_start, LoadReach, begin, next, delayed,
}
use sigmax.Threads.Sides.{in_hand, is_idle, idle_of, write_step, late_step, pushing-tally}
use sigmax.Benchmark.Load.Steps.{either_branch, read_step, reader-note_answer}

module _ (C producers : ℕ) where
  -- The writers only push, the reader only pops, and what has been popped is counted or on its way.
  record Tallied (l : Load) : Type 0 where
    writers : (i : ℕ) → i ≢ producers → is_pushing (l.sys.pc i) ≡ true
    pops : is_popping (l.sys.pc producers) ≡ true
    taken : l.sys.queue.tail ≡ l.counts.1 + in_hand (l.sys.pc producers)
    counted : reader l.rets ≡ l.counts

  module _ (l : Load) (t : Tallied l) where
    idle_at : (i : ℕ) → is_idle (l.sys.pc i) ≡ true → l.sys.pc i ≡ idle
    idle_at i h = idle_of (l.sys.pc i) h

    begin_write-Tallied : (j : ℕ) → Tallied (begin_write C producers j l)
    unfolding begin_write act when_idle
    begin_write-Tallied j =
        elim (Bool-cases (ltb j producers && not (l.seen j) && is_idle (l.sys.pc j))) [
          | inr stays ↦ rw stays t
          | inl goes ↦
              let at = idle_at j (ground (arith, goes)) in
              let p' = when_idle (push_enter (message (l.numbers j))) (l.sys.pc j) in
              let ne : j ≢ producers = λ e. absurd (ground (arith, goes)) in
              rw goes (record {
                writers = λ i other.
                    same_view is_pushing l.sys.pc j p' (rw at refl) i ∙ t.writers i other;
                pops = other_view is_popping l.sys.pc j p' producers ne ∙ t.pops;
                taken =
                    t.taken
                    ∙ ap (◌+◌ l.counts.1) (sym (other_view in_hand l.sys.pc j p' producers ne));
                counted = t.counted;
              })
        ]

    begin_read-Tallied : Tallied (begin_read C producers l)
    unfolding begin_read act when_idle
    begin_read-Tallied =
        elim (Bool-cases (not (l.seen producers) && is_idle (l.sys.pc producers))) [
          | inr stays ↦ rw stays t
          | inl goes ↦
              let at = idle_at producers (ground (arith, goes)) in
              let p' = when_idle pop_enter (l.sys.pc producers) in
              rw goes (record {
                writers = λ i other.
                    other_view is_pushing l.sys.pc producers p' i (λ e. other (sym e))
                    ∙ t.writers i other;
                pops = same_view is_popping l.sys.pc producers p' (rw at refl) producers ∙ t.pops;
                taken =
                    t.taken
                    ∙ ap (◌+◌ l.counts.1)
                        (sym (same_view in_hand l.sys.pc producers p' (rw at refl) producers));
                counted = t.counted;
              })
        ]

    reader_turn :
        (weak : Bool)
        → l.sys.queue.tail + 1 < 2 ^ 63
        → Tallied (run_step C producers producers weak l)
    unfolding run_step act turn
    reader_turn weak room =
        let (q', p') = advance C weak l.sys.queue (l.sys.pc producers) in
        let (k, tail) =
          read_step C weak l.sys.queue (l.sys.pc producers) l.counts (omega arith) t.pops in
        rw ((==_iff producers producers).1 refl) (record {
          writers =
              λ j w. other_view is_pushing l.sys.pc producers p' j (λ e. w (sym e)) ∙ t.writers j w;
          pops = ap is_popping (update_at l.sys.pc producers p') ∙ k;
          taken = omega (arith, t.taken, ap in_hand (update_at l.sys.pc producers p'));
          counted =
              reader-note_answer (l.sys.pc producers) l.rets
              ∙ ap (count (l.sys.pc producers)) t.counted;
        })

    run_step-Tallied :
        (i : ℕ) (weak : Bool)
        → l.sys.queue.tail + 1 < 2 ^ 63
        → Tallied (run_step C producers i weak l)
    unfolding run_step act turn
    run_step-Tallied i weak room = elim (Bool-cases (i == producers)) [
      | inl same ↦
          subst (λ k. Tallied (run_step C producers k weak l)) (sym ((==_iff i producers).0 same))
            (reader_turn weak room)
      | inr other ↦
          let ne : i ≢ producers = λ e. absurd (ground (arith, ==_iff i producers)) in
          let (q', p') = advance C weak l.sys.queue (l.sys.pc i) in
          let (k, tail) = write_step C weak l.sys.queue (l.sys.pc i) (t.writers i ne) in
          rw other (record {
            writers = λ j w.
                same_view is_pushing l.sys.pc i p' (k ∙ sym (t.writers i ne)) j ∙ t.writers j w;
            pops = other_view is_popping l.sys.pc i p' producers ne ∙ t.pops;
            taken =
                tail
                ∙ t.taken
                ∙ ap (◌+◌ l.counts.1) (sym (other_view in_hand l.sys.pc i p' producers ne));
            counted = t.counted;
          })
    ]

    late-Tallied :
        (i v : ℕ)
        → Earlier C l.sys.queue (l.sys.pc i) v
        → Tallied (record l { sys = load_late C i v l.sys })
    unfolding load_late
    late-Tallied i v e =
        let p' = observe C (l.sys.pc i) v in
        let (push, pop, hand) = late_step C l.sys.queue (l.sys.pc i) v e in
        record {
          writers = λ j w. same_view is_pushing l.sys.pc i p' push j ∙ t.writers j w;
          pops = same_view is_popping l.sys.pc i p' pop producers ∙ t.pops;
          taken =
              t.taken ∙ ap (◌+◌ l.counts.1) (sym (same_view in_hand l.sys.pc i p' hand producers));
          counted = t.counted;
        }

module _ {late : Bool} {C producers : ℕ} {blank : Order} (several : 2 ≤ C)
    (small : C < 2 ^ 63) where
  pub LoadReach-Reach : {l : Load} → LoadReach late C producers blank l → Reach late C blank l.sys
  unfolding load_act load_start begin_write begin_read run_step
  LoadReach-Reach begin = Threads.begin
  LoadReach-Reach (next {l} (writer_round j) r room) =
      either_branch _ (λ k. Reach late C blank k.sys)
        (Threads.next (call_push j _) (LoadReach-Reach r) room) (LoadReach-Reach r)
  LoadReach-Reach (next {l} reader_round r room) =
      either_branch _ (λ k. Reach late C blank k.sys)
        (Threads.next (call_pop _) (LoadReach-Reach r) room) (LoadReach-Reach r)
  LoadReach-Reach (next {l} (go_on i weak) r room) =
      either_branch _ (λ k. Reach late C blank k.sys)
        (Threads.next (step i weak) (LoadReach-Reach r) room)
        (Threads.next (step i weak) (LoadReach-Reach r) room)
  LoadReach-Reach (next {l} set_stop r room) = LoadReach-Reach r
  LoadReach-Reach (next {l} (see_stop i) r room) =
      either_branch l.stop (λ k. Reach late C blank k.sys) (LoadReach-Reach r) (LoadReach-Reach r)
  LoadReach-Reach (delayed {l} i v on e r room) = Threads.delayed i v on e (LoadReach-Reach r) room

  LoadReach-Tallied : {l : Load} → LoadReach late C producers blank l → Tallied C producers l
  unfolding load_act load_start start init reader reader_loop
  LoadReach-Tallied begin = record {
    writers = λ i ne. refl;
    pops = refl;
    taken = refl;
    counted = refl;
  }
  LoadReach-Tallied (next {l} (writer_round j) r room) =
      begin_write-Tallied C producers l (LoadReach-Tallied r) j
  LoadReach-Tallied (next {l} reader_round r room) =
      begin_read-Tallied C producers l (LoadReach-Tallied r)
  LoadReach-Tallied (next {l} (go_on i weak) r room) =
      let (lap, inv, cov) = Reach-Holds C blank several small (LoadReach-Reach r) in
      run_step-Tallied C producers l (LoadReach-Tallied r) i weak (omega (arith, inv.ordered))
  LoadReach-Tallied (next {l} set_stop r room) =
      let t = LoadReach-Tallied r in
      record { writers = t.writers; pops = t.pops; taken = t.taken; counted = t.counted }
  LoadReach-Tallied (next {l} (see_stop i) r room) =
      let t = LoadReach-Tallied r in
      either_branch l.stop (Tallied C producers)
        (record { writers = t.writers; pops = t.pops; taken = t.taken; counted = t.counted }) t
  LoadReach-Tallied (delayed {l} i v on e r room) =
      late-Tallied C producers l (LoadReach-Tallied r) i v e

  -- In every state that a run of the benchmark reaches with no thread in a call: what the reader
  -- has counted is what `reader` counts in its answers; its count of elements is `GetPopCount`; and
  -- with the number of elements left in the queue it makes up `GetPushCount`.
  pub benchmark_counts :
      {l : Load}
      → LoadReach late C producers blank l
      → ((i : ℕ) → l.sys.pc i ≡ idle)
      → (reader l.rets ≡ l.counts)
        × (get_pop_count l.sys.queue ≡ l.counts.1)
        × (get_push_count l.sys.queue ≡ l.counts.1 + length (contents C l.sys.queue))
  benchmark_counts {l} r quiet =
      let t = LoadReach-Tallied r in
      let (pushes, pops, both) = quiet_counts several small (LoadReach-Reach r) quiet in
      let none_in_hand : in_hand (l.sys.pc producers) ≡ 0 = ap in_hand (quiet producers) in
      (t.counted, omega (arith, t.taken), omega (arith, t.taken))

  -- In every state that a run of the benchmark reaches with the reader in no call, as when the main
  -- thread gets its answer: what the reader has counted is what `reader` counts in its answers, and
  -- its count of elements is `GetPopCount` and the number of claimed positions, wherever the writers
  -- stand.
  pub reader_counts :
      {l : Load}
      → LoadReach late C producers blank l
      → l.sys.pc producers ≡ idle
      → (reader l.rets ≡ l.counts)
        × (get_pop_count l.sys.queue ≡ l.counts.1)
        × (l.sys.queue.tail ≡ l.counts.1)
  reader_counts {l} r done =
      let t = LoadReach-Tallied r in
      let none_in_hand : in_hand (l.sys.pc producers) ≡ 0 = ap in_hand done in
      let all_counted = popped_count several small (LoadReach-Reach r) none_popping in
      (t.counted, omega (arith, t.taken), omega (arith, t.taken))
    where
      none_popping : (i : ℕ) → to_tally_pop (l.sys.pc i) ≡ 0
      none_popping i = elim (ℕ_discrete i producers) [
        | yes at ↦ ap (λ k. to_tally_pop (l.sys.pc k)) at ∙ ap to_tally_pop done
        | no other ↦ pushing-tally (l.sys.pc i) ((LoadReach-Tallied r).writers i other)
      ]
