-- ===== src/UnitTests/Concurrent/Parts.antt =====
-- What the writers of test/mpsc_test.cpp have put into the queue.
use sigmax.Base.{
  ℕ, ◌≤◌, ◌<◌, ◌≡◌, ◌^◌, refl, ap, sym, subst, arith, Bool, List, [], ◌∷◌, ◌*◌, Option, none, some,
  length, length-append, All,
}
use sigmax.SharedFifo.{Event}
use sigmax.SharedFifo.Callers.{pushes, pushes_by, pushes-sum_to, All-append}
use sigmax.Totals.{sum_to-le}
use sigmax.Threads.Consumer.{fifo_by_producer}
use sigmax.QueueState.{success}
use sigmax.SharedFifo.Told.{last_pushed, sent, from, put_in, option_list}
use sigmax.Threads.{Pc, push_return, push_write, push_publish, push_tally}
use sigmax.Threads.Refine.{phase_of, history}
use sigmax.UnitTests.Concurrent.{Plan, Running}
use sigmax.UnitTests.Concurrent.Writer.{in_push}
use sigmax.UnitTests.Concurrent.Linked.{share, Linked}

module _ {A : Type 0} where
  -- What a call of `PushBack` has put in.
  put_in-length :
      (f : ℕ → A) (pc : Pc A) (last : Option A) → length (put_in (phase_of f pc) last) ≤ in_push pc
  unfolding phase_of
  put_in-length f (push_return success) none = omega arith
  put_in-length f (push_return success) (some a) = omega arith
  put_in-length f pc none = ground arith
  put_in-length f pc (some a) = ground arith

  put_in-All :
      (P : A → Type 0) (f : ℕ → A) (pc : Pc A) (last : Option A)
      → All P (option_list last)
      → All P (put_in (phase_of f pc) last)
  unfolding phase_of
  put_in-All P f (push_return success) last h = h
  put_in-All P f (push_return status) last h = tt
  put_in-All P f (push_write a pos) last h = h
  put_in-All P f (push_publish a pos) last h = h
  put_in-All P f push_tally last h = h
  put_in-All P f pc last h = tt

  pub no_elements : (xs : List A) → length xs ≤ 0 → xs ≡ []
  no_elements [] h = refl
  no_elements (x ∷ xs) h = absurd (omega arith)

module _ {late : Bool} {p : Plan} {t : Running} (several : 2 ≤ p.queue_size)
    (small : p.queue_size < 2 ^ 63) (l : Linked late p t) where
  abbrev pub told : List (Event ℕ)
  told = history l.reach

  -- The elements that the writers have put in, by `fifo_by_producer`.
  abbrev pub entered : List (ℕ × ℕ)
  entered = (fifo_by_producer several small l.reach p.writers l.reads.alone).0

  pub writer_part : (j : ℕ) → length (from j entered) ≤ share p j
  writer_part j = omega (
    arith,
    ap length ((fifo_by_producer several small l.reach p.writers l.reads.alone).2 j),
    length-append (sent j told)
        (put_in (phase_of t.sys.accepted (t.sys.pc j)) (last_pushed j told)),
    put_in-length t.sys.accepted (t.sys.pc j) (last_pushed j told),
    (l.writes j).answered,
    (l.writes j).calls,
    (l.writes j).within,
  )

  pub no_others : (j : ℕ) → p.writers ≤ j → from j entered ≡ []
  no_others j le = no_elements (from j entered) (ground (arith, writer_part j))

  pub writer_values : (j : ℕ) → All (λ x. x ≡ p.pushed j) (from j entered)
  writer_values j =
      subst (All (λ x. x ≡ p.pushed j))
        (sym ((fifo_by_producer several small l.reach p.writers l.reads.alone).2 j))
        (All-append (λ x. x ≡ p.pushed j) (sent j told) _ (l.writes j).sents
          (put_in-All (λ x. x ≡ p.pushed j) t.sys.accepted (t.sys.pc j) (last_pushed j told)
            (l.writes j).last))

  -- No more than all writers push together has been pushed.
  pub pushes-le : pushes told ≤ p.writers * p.values_to_write
  pushes-le = omega (
    arith,
    pushes-sum_to p.writers told (λ j le. ground (arith, (l.writes j).within)),
    sum_to-le (λ j. pushes_by j told) p.values_to_write p.writers
        (λ j lt. ground (arith, (l.writes j).within)),
  )
