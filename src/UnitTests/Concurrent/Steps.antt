-- ===== src/UnitTests/Concurrent/Steps.antt =====
-- Each step of a test with threads in test/mpsc_test.cpp keeps the loop variables in accord with the
-- calls and answers.
use sigmax.Base.{
  ℕ, ◌+◌, ◌<◌, ◌≡◌, ◌≢◌, ◌^◌, refl, ap, sym, ◌∙◌, subst, arith, Bool, true, ◌∷◌, update_at,
  update_other, update_each_at, same_view, other_view,
}
use sigmax.SharedFifo.{called_push, called_pop, log}
use sigmax.SharedFifo.Callers.{pushes, pushes_by}
use sigmax.SharedFifo.Told.{last_pushed, sent}
use sigmax.Threads
use sigmax.Threads.{
  Pc, idle, push_enter, push_return, pop_enter, pop_return, System, call_push, call_pop, step, act,
  turn, advance, when_idle, start, Reach, Earlier, observe, load_late,
}
use sigmax.Threads.Retries.{is_pushing, is_popping}
use sigmax.Threads.Room.{pushes-log}
use sigmax.Threads.Sides.{in_hand, late_step}
use sigmax.Threads.Refine.{call_event, event_of, history}
use sigmax.UnitTests.Concurrent.{Plan, Running}
use sigmax.UnitTests.Concurrent.Writer.{
  in_push, in_push-observe, Writes, call-unseen, same-Writes, call-Writes,
}
use sigmax.UnitTests.Concurrent.Reader.{
  in_pop, in_pop-observe, Reads, call-Reads, writer_call-Reads, load-Reads,
}
use sigmax.UnitTests.Concurrent.Linked.{share, Linked}

module _ {late : Bool} {p : Plan} {t : Running} (l : Linked late p t)
    (room : t.sys.queue.head + p.queue_size + 1 < 2 ^ 63) where
  pub push-Linked :
      (j : ℕ)
      → t.sys.pc j ≡ idle
      → j < p.writers
      → t.written j < p.values_to_write
      → Linked late p (record t { sys = act p.queue_size (call_push j (p.pushed j)) t.sys })
  unfolding act when_idle history event_of call_event
  push-Linked j at mine left =
      let p' = when_idle (push_enter (p.pushed j)) (t.sys.pc j) in
      let apart : j ≢ p.writers = λ e. absurd (omega (arith, e)) in
      record {
        reach = Threads.next (call_push j (p.pushed j)) l.reach room;
        pushing = λ k ne. same_view is_pushing t.sys.pc j p' (rw at refl) k ∙ l.pushing k ne;
        popping = other_view is_popping t.sys.pc j p' p.writers apart ∙ l.popping;
        writes =
            update_each_at
              (λ k pc.
                Writes (p.pushed k) (share p k) k
                  (log (call_event (called_push j (p.pushed j)) (t.sys.pc j)) (history l.reach)) pc
                  (t.written k))
              t.sys.pc j p' (rw at (call-Writes (l.writes j) at (ground arith)))
              (λ k ne. rw at (
                same-Writes (l.writes k) (called_push j (p.pushed j) ∷ history l.reach) (t.sys.pc k)
                  (t.written k) (call-unseen j k (p.pushed j) (history l.reach) ne) refl refl));
        reads = rw at (
            writer_call-Reads l.reads j (p.pushed j) _
              (update_other t.sys.pc j p.writers (push_enter (p.pushed j)) apart));
        passed = λ few. l.passed (
            omega (
              arith,
              pushes-log (call_event (called_push j (p.pushed j)) (t.sys.pc j)) (history l.reach),
            ));
      }

  pub pop-Linked :
      t.sys.pc p.writers ≡ idle
      → t.successful_pop_count < p.values_to_read
      → Linked late p (record t { sys = act p.queue_size (call_pop p.writers) t.sys })
  unfolding act when_idle history event_of call_event pushes pushes_by last_pushed sent
  pop-Linked at left =
      let p' = when_idle pop_enter (t.sys.pc p.writers) in
      record {
        reach = Threads.next (call_pop p.writers) l.reach room;
        pushing = λ k ne.
            other_view is_pushing t.sys.pc p.writers p' k (λ e. ne (sym e)) ∙ l.pushing k ne;
        popping = same_view is_popping t.sys.pc p.writers p' (rw at refl) p.writers ∙ l.popping;
        writes =
            update_each_at
              (λ k pc.
                Writes (p.pushed k) (share p k) k
                  (log (call_event (called_pop p.writers) (t.sys.pc p.writers)) (history l.reach))
                  pc (t.written k))
              t.sys.pc p.writers p'
              (rw at (
                same-Writes (l.writes p.writers) (called_pop p.writers ∷ history l.reach) pop_enter
                  (t.written p.writers) (refl, refl, refl) (ap in_push (sym at)) refl))
              (λ k ne. rw at (
                same-Writes (l.writes k) (called_pop p.writers ∷ history l.reach) (t.sys.pc k)
                  (t.written k) (refl, refl, refl) refl refl));
        reads =
            subst
              (λ pc.
                Reads p.values_to_read p.writers
                  (log (call_event (called_pop p.writers) (t.sys.pc p.writers)) (history l.reach))
                  pc t.sys.queue.tail t.successful_pop_count t.sum)
              (sym (update_at t.sys.pc p.writers p')) (rw at (call-Reads l.reads at left));
        passed = λ few. l.passed (
            omega (
              arith,
              pushes-log (call_event (called_pop p.writers) (t.sys.pc p.writers)) (history l.reach),
            ));
      }

  -- A late load.
  pub load-Linked :
      (i v : ℕ)
      → late ≡ true
      → Earlier p.queue_size t.sys.queue (t.sys.pc i) v
      → Linked late p (record t { sys = load_late p.queue_size i v t.sys })
  unfolding load_late history
  load-Linked i v on e =
      let p' = observe p.queue_size (t.sys.pc i) v in
      let (push, pop, hand) = late_step p.queue_size t.sys.queue (t.sys.pc i) v e in
      record {
        reach = Threads.delayed i v on e l.reach room;
        pushing = λ k ne. same_view is_pushing t.sys.pc i p' push k ∙ l.pushing k ne;
        popping = same_view is_popping t.sys.pc i p' pop p.writers ∙ l.popping;
        writes = λ k.
            same-Writes (l.writes k) (history l.reach) _ (t.written k) (refl, refl, refl)
              (same_view in_push t.sys.pc i p'
                (in_push-observe p.queue_size t.sys.queue (t.sys.pc i) v e) k)
              refl;
        reads = load-Reads l.reads _ (same_view in_hand t.sys.pc i p' hand p.writers) (
            same_view in_pop t.sys.pc i p'
              (in_pop-observe p.queue_size t.sys.queue (t.sys.pc i) v e) p.writers);
        passed = l.passed;
      }
