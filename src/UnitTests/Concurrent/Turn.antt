-- ===== src/UnitTests/Concurrent/Turn.antt =====
-- A step of a call in the tests with threads of test/mpsc_test.cpp keeps the loop variables in accord
-- with the calls and answers.
use sigmax.Base.{
  ℕ, ◌+◌, ◌≤◌, ◌<◌, ◌≡◌, ◌^◌, refl, ap, sym, ◌∙◌, subst, arith, Bool, true, false, List, update,
  update_at, update_other, update_each_at, same_view, other_view,
}
use native.Mathlib.Decide.{ℕ_discrete}
use sigmax.MpscQueue.{MpscQueue}
use sigmax.SharedFifo.{Event, log}
use sigmax.SharedFifo.Callers.{pushes}
use sigmax.Threads
use sigmax.Threads.{
  Pc, idle, push_enter, push_return, pop_enter, pop_return, System, call_push, call_pop, step, act,
  turn, advance, when_idle, start, Reach, Earlier, observe, load_late,
}
use sigmax.Threads.Invariant.{Reach-Holds}
use sigmax.Threads.Retries.{is_pushing, is_popping}
use sigmax.Threads.Room.{pushes-log, never_refused}
use sigmax.Threads.Sides.{write_step, read_turn}
use sigmax.Threads.Refine.{turn_event, event_of, history}
use sigmax.UnitTests.Concurrent.{Plan, Running, take_answer, run_step}
use sigmax.UnitTests.Concurrent.Writer.{
  in_push-advance, Writes, turn-unseen, same-Writes, turn-Writes,
}
use sigmax.UnitTests.Concurrent.Reader.{in_pop-advance, Reads, writer_turn-Reads, turn-Reads}
use sigmax.UnitTests.Concurrent.Linked.{
  share, Linked, answer_written, answer_other, answer_count, answer_failed,
}

module _ {late : Bool} {p : Plan} {t : Running} (several : 2 ≤ p.queue_size)
    (small : p.queue_size < 2 ^ 63) (l : Linked late p t)
    (room : t.sys.queue.head + p.queue_size + 1 < 2 ^ 63) (i : ℕ) (weak : Bool) where
  abbrev now : Pc ℕ
  now = t.sys.pc i

  abbrev moved : MpscQueue ℕ × Pc ℕ
  moved = advance p.queue_size weak t.sys.queue now

  abbrev told : List (Event ℕ)
  told = log (turn_event i now) (history l.reach)

  abbrev answered : Running
  answered = take_answer p i now t

  tail_room : t.sys.queue.tail + 1 < 2 ^ 63
  tail_room = omega (arith, (Reach-Holds p.queue_size 0 several small l.reach).1.ordered)

  turn-writes :
      (k : ℕ)
      → Writes (p.pushed k) (share p k) k told (update t.sys.pc i moved.1 k) (answered.written k)
  turn-writes =
      update_each_at (λ k pc. Writes (p.pushed k) (share p k) k told pc (answered.written k))
        t.sys.pc i moved.1
        (turn-Writes (l.writes i) now moved.1 (answered.written i) refl
          (in_push-advance p.queue_size weak t.sys.queue now) (answer_written p i now t))
        (λ k ne.
          same-Writes (l.writes k) told (t.sys.pc k) (answered.written k)
            (turn-unseen i k now (history l.reach) ne) refl (answer_other p i now t k ne))

  turn-passed : pushes told ≤ p.queue_size → answered.failed ≡ false
  turn-passed few =
      let before : pushes (history l.reach) ≤ p.queue_size =
        omega (arith, pushes-log (turn_event i now) (history l.reach)) in
      answer_failed p i now t (never_refused several small l.reach before i) ∙ l.passed before

  reader_turn :
      i ≡ p.writers
      → (is_popping moved.1 ≡ true)
        × Reads p.values_to_read i told moved.1 moved.0.tail answered.successful_pop_count
            answered.sum
  reader_turn at =
      let pops : is_popping now ≡ true = ap (λ k. is_popping (t.sys.pc k)) at ∙ l.popping in
      let (still, tail) = read_turn p.queue_size weak t.sys.queue now tail_room pops in
      let (count, sum) = answer_count p i now t in
      (
        still,
        turn-Reads
            (subst
              (λ k.
                Reads p.values_to_read k (history l.reach) (t.sys.pc k) t.sys.queue.tail
                  t.successful_pop_count t.sum)
              (sym at) l.reads)
            now moved.1 moved.0.tail answered.successful_pop_count answered.sum refl pops tail
            (in_pop-advance p.queue_size weak t.sys.queue now) count sum,
      )

  pub turn-Linked : Linked late p (run_step p i weak t)
  unfolding run_step act turn history event_of
  turn-Linked = elim (ℕ_discrete i p.writers) [
    | yes at ↦
        let (still, reads) = reader_turn at in
        record {
          reach = Threads.next (step i weak) l.reach room;
          pushing = λ k ne.
              other_view is_pushing t.sys.pc i moved.1 k (λ e. ne (sym e ∙ at)) ∙ l.pushing k ne;
          popping =
              subst (λ k. is_popping (update t.sys.pc i moved.1 k) ≡ true) at
                (ap is_popping (update_at t.sys.pc i moved.1) ∙ still);
          writes = turn-writes;
          reads =
              subst
                (λ k.
                  Reads p.values_to_read k told (update t.sys.pc i moved.1 k) moved.0.tail
                    answered.successful_pop_count answered.sum)
                at
                (subst
                  (λ pc.
                    Reads p.values_to_read i told pc moved.0.tail answered.successful_pop_count
                      answered.sum)
                  (sym (update_at t.sys.pc i moved.1)) reads);
          passed = turn-passed;
        }
    | no ne ↦
        let pushes_on = l.pushing i ne in
        let (still, tail) = write_step p.queue_size weak t.sys.queue now pushes_on in
        let (count, sum) = answer_count p i now t in
        record {
          reach = Threads.next (step i weak) l.reach room;
          pushing = λ k other.
              same_view is_pushing t.sys.pc i moved.1 (still ∙ sym pushes_on) k ∙ l.pushing k other;
          popping = other_view is_popping t.sys.pc i moved.1 p.writers ne ∙ l.popping;
          writes = turn-writes;
          reads =
              writer_turn-Reads l.reads i now _ moved.0.tail answered.successful_pop_count
                answered.sum pushes_on (update_other t.sys.pc i p.writers moved.1 ne) tail count
                sum;
          passed = turn-passed;
        }
  ]
