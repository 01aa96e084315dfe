-- ===== src/UnitTests/Concurrent/Takes.antt =====
-- The reader of the tests with threads of test/mpsc_test.cpp goes on alone when the writers have ended.
use sigmax.Base.{
  ℕ, suc, ◌+◌, ◌*◌, ◌≤◌, ◌<◌, ◌≡◌, ◌≢◌, ◌^◌, refl, ap, sym, ◌∙◌, subst, arith, Bool, value,
  unexpected, true, false, update_at,
}
use native.Mathlib.Decide.{dec_lt}
use sigmax.MpscQueue.{MpscQueue}
use sigmax.Threads.{Pc, idle, pop_return, advance, act, turn}
use sigmax.Threads.Retries.{is_pushing, is_popping, left_to_pop}
use sigmax.Threads.Retries.Step.{pop_step-le}
use sigmax.Threads.Sides.{hands_over}
use sigmax.Threads.Taking.{Promising, advance-Promising}
use sigmax.UnitTests.Concurrent.{Plan, Running, TestReach, run_step}
use sigmax.UnitTests.Concurrent.Reached.{TestReach-Linked}
use sigmax.UnitTests.Concurrent.Writer.{in_push}
use sigmax.UnitTests.Concurrent.Reader.{in_pop}
use sigmax.UnitTests.Concurrent.Linked.{answer_count}
use sigmax.UnitTests.Concurrent.Finish.{Later, now, and_later, finish}
use sigmax.UnitTests.Concurrent.Rounds.{Only, Only-Only, run_step-Only, Written}

pushing_rests : (p : Pc ℕ) → is_pushing p ≡ true → in_push p ≡ 0 → p ≡ idle
pushing_rests p k none = ground arith

-- A call that returns an element is counted when it returns.
in_pop-counted :
    (C : ℕ) (weak : Bool) (q : MpscQueue ℕ) (p : Pc ℕ)
    → Promising q p
    → in_pop (advance C weak q p).1 + hands_over p ≡ in_pop p
unfolding advance
in_pop-counted C weak q (pop_return (value x)) before = refl
in_pop-counted C weak q (pop_return (unexpected e)) before = absurd before
in_pop-counted C weak q p before = ground arith

module _ (late : Bool) (p : Plan) (several : 2 ≤ p.queue_size) (small : p.queue_size < 2 ^ 63)
    (fits : p.writers * p.values_to_write + p.queue_size + 1 < 2 ^ 63) where
  abbrev pub left : Running → ℕ
  left u = left_to_pop u.sys.queue.tail (u.sys.pc p.writers)

  -- A step of the reader in a call.
  pop_on :
      (u : Running)
      → TestReach late p u
      → is_popping (u.sys.pc p.writers) ≡ true
      → u.sys.pc p.writers ≢ idle
      → let v = run_step p p.writers false u in
        (is_popping (v.sys.pc p.writers) ≡ true) × (suc (left v) ≤ left u)
  unfolding run_step act turn
  pop_on u r k awake =
      let l = TestReach-Linked several small r in
      let (q', p') = advance p.queue_size false u.sys.queue (u.sys.pc p.writers) in
      let (still, less) =
        pop_step-le several small l.reach p.writers false (u.sys.pc p.writers) refl awake k in
      let here = update_at u.sys.pc p.writers p' in
      (ap is_popping here ∙ still, omega (arith, less, ap (left_to_pop q'.tail) here))

  -- The reader comes to the end of the call that it is in.
  pub finish_pop :
      (t : Running)
      → TestReach late p t
      → Later late p several small fits t (λ u. (u.sys.pc p.writers ≡ idle) × Only p.writers t u)
  finish_pop t r =
      let l = TestReach-Linked several small r in
      and_later late p several small fits
        (finish late p several small fits p.writers
          (λ u. (is_popping (u.sys.pc p.writers) ≡ true) × Only p.writers t u) left
          (λ u r' (k, others) awake.
            let (still, less) = pop_on u r' k awake in
            (
              (
                still,
                Only-Only p.writers t u (run_step p p.writers false u) others
                    (run_step-Only p p.writers false u),
              ),
              less,
            ))
          (left t) t r (l.popping, λ j ne. (refl, refl)) (omega arith))
        (λ u r' (done, (k, others)). now late p several small fits u _ r' (done, others))

  -- When the writers have ended, no thread but the reader is in a call.
  pub rests :
      (t u : Running)
      → Written late p several small fits p.writers t
      → TestReach late p u
      → Only p.writers t u
      → (j : ℕ) → p.writers ≢ j
      → u.sys.pc j ≡ idle
  rests t u written r others j ne = elim (dec_lt j p.writers) [
    | yes lt ↦ (others j ne).0 ∙ (written j lt).0
    | no ge ↦
        let l = TestReach-Linked several small r in
        let none : in_push (u.sys.pc j) ≡ 0 =
          ground (arith, (l.writes j).calls, (l.writes j).within) in
        pushing_rests (u.sys.pc j) (l.pushing j (λ e. ne (sym e))) none
  ]

  pub Only-Written :
      (t u : Running)
      → Written late p several small fits p.writers t
      → Only p.writers t u
      → Written late p several small fits p.writers u
  Only-Written t u written others j lt =
      let ne : p.writers ≢ j = λ e. absurd (omega (arith, e)) in
      ((others j ne).0 ∙ (written j lt).0, (others j ne).1 ∙ (written j lt).1)

  -- What holds while the reader takes an element, when the others are in no call.
  abbrev pub Taking : ℕ → Running → Running → Type 0
  Taking count t u =
      (is_popping (u.sys.pc p.writers) ≡ true)
      × Promising u.sys.queue (u.sys.pc p.writers)
      × (u.successful_pop_count + in_pop (u.sys.pc p.writers) ≡ count)
      × Only p.writers t u

  pub take_on :
      (count : ℕ) (t u : Running)
      → Written late p several small fits p.writers t
      → TestReach late p u
      → Taking count t u
      → u.sys.pc p.writers ≢ idle
      → Taking count t (run_step p p.writers false u)
        × (suc (left (run_step p p.writers false u)) ≤ left u)
  unfolding run_step act turn
  take_on count t u written r (k, sure, counts, others) awake =
      let l = TestReach-Linked several small r in
      let (q', p') = advance p.queue_size false u.sys.queue (u.sys.pc p.writers) in
      let (still, less) = pop_on u r k awake in
      let here = update_at u.sys.pc p.writers p' in
      (
        (
          still,
          subst (Promising q') (sym here) (
              advance-Promising several small l.reach p.writers
                (λ j ne. rests t u written r others j ne) (u.sys.pc p.writers) refl k sure),
          omega (
            arith,
            counts,
            ap in_pop here,
            (answer_count p p.writers (u.sys.pc p.writers) u).0,
            in_pop-counted p.queue_size false u.sys.queue (u.sys.pc p.writers) sure,
          ),
          Only-Only p.writers t u (run_step p p.writers false u) others
              (run_step-Only p p.writers false u),
        ),
        less,
      )
