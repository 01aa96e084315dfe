-- ===== src/Threads/Invariant/Pop.antt =====
-- The steps of `Pop` in src/sigmax/mpsc_queue.hpp that change shared data.
use sigmax.Base.{ℕ, ◌+◌, ◌<◌, ◌≡◌, ◌≢◌, Option, some, value, update, update_each, arith}
use sigmax.MpscQueue.Words.{add64}
use sigmax.MpscQueue.Index.{index, index-inj, index-add}
use sigmax.Threads.{Pc, push_check, pop_claim, pop_read, pop_release, pop_tally, pop_return}
use sigmax.Threads.Invariant.Defs.{Local, Inv, reads}
use sigmax.Threads.Invariant.Stay.{reader-lt}

module _ {A : Type 0} {C : ℕ} {slots : ℕ → A} {sequence : ℕ → ℕ} {head tail : ℕ} {accepted : ℕ → A}
    {delivered : ℕ → Option A} {lap : ℕ → ℕ} {pc : ℕ → Pc A}
    (inv : Inv C slots sequence head tail accepted delivered lap pc) (i : ℕ) (pos : ℕ) where
  open inv use {
    several, small, ordered, home, near, phase, claimed, taken, kept, pending, faithful, threads,
    one_writer, one_reader,
  }

  module _ (l : Local C slots sequence head tail accepted delivered lap (pop_claim pos))
      (e : tail ≡ pos) where
    -- The cell still holds the element of the tail.
    pub held : (lap (index C pos) ≡ pos) × (sequence (index C pos) ≡ pos + 1) × (pos < head)
    held = ground (arith, near pos, phase pos, home pos, index-inj C pos (lap (index C pos)))

    claim-others :
        (p : Pc A)
        → Local C slots sequence head tail accepted delivered lap p
        → Local C slots sequence head (add64 pos 1) accepted delivered lap p
    claim-others (push_check b r) h = h
    claim-others (pop_tally b) (p, lt, d) = (p, omega arith, d)
    claim-others (pop_return (value b)) (p, lt, d) = (p, omega arith, d)
    claim-others p h = ground arith

    pub claim-Inv :
        Inv C slots sequence head (add64 pos 1) accepted delivered lap (update pc i (pop_read pos))
    claim-Inv = record {
      several = several;
      small = small;
      ordered = omega (arith, held);
      home = home;
      near = λ p. omega (arith, near p);
      phase = phase;
      claimed = claimed;
      taken = λ p h. ground (arith, taken p, held);
      kept = kept;
      pending = λ p h. pending p (omega arith);
      faithful = faithful;
      threads =
          update_each (Local C slots sequence head (add64 pos 1) accepted delivered lap) pc i
            (pop_read pos) (ground (arith, held, pending pos))
            (λ j ne. claim-others (pc j) (threads j));
      one_writer = λ j k p g h. ground (arith, one_writer j k p);
      one_reader =
          λ j k p g h. ground (arith, one_reader j k p, reader-lt inv j p, reader-lt inv k p);
    }

  module _ (here : pc i ≡ pop_read pos)
      (l : Local C slots sequence head tail accepted delivered lap (pop_read pos)) where
    read-others :
        (p : Pc A)
        → reads p ≢ some pos
        → Local C slots sequence head tail accepted delivered lap p
        → Local C slots sequence head tail accepted
            (update delivered pos (some (slots (index C pos))))
            lap
            p
    read-others (push_check b r) ne h = h
    read-others (pop_tally b) ne (p, lt, d) = (p, lt, ground arith)
    read-others (pop_return (value b)) ne (p, lt, d) = (p, lt, ground arith)
    read-others p ne h = ground arith

    pub read-Inv :
        Inv C slots sequence head tail accepted
          (update delivered pos (some (slots (index C pos))))
          lap
          (update pc i (pop_release pos (slots (index C pos))))
    read-Inv = record {
      several = several;
      small = small;
      ordered = ordered;
      home = home;
      near = near;
      phase = phase;
      claimed = claimed;
      taken = taken;
      kept = kept;
      pending = λ p h. ground (arith, pending p);
      faithful = λ p b h. ground (arith, faithful p b, kept pos);
      threads =
          update_each
            (Local C slots sequence head tail accepted
              (update delivered pos (some (slots (index C pos)))) lap)
            pc i (pop_release pos (slots (index C pos))) (ground arith)
            (λ j ne.
              read-others (pc j) (λ w. ne (one_reader i j pos (ground arith) w)) (threads j));
      one_writer = λ j k p g h. ground (arith, one_writer j k p);
      one_reader = λ j k p g h. ground (arith, one_reader j k p);
    }

  module _ (a : A) (here : pc i ≡ pop_release pos a)
      (l : Local C slots sequence head tail accepted delivered lap (pop_release pos a)) where
    release-others :
        (p : Pc A)
        → reads p ≢ some pos
        → Local C slots sequence head tail accepted delivered lap p
        → Local C slots
            (update sequence (index C pos) (add64 pos C))
            head
            tail
            accepted
            delivered
            (update lap (index C pos) (pos + C))
            p
    release-others (push_check b r) ne h = h
    release-others (pop_tally b) ne h = h
    release-others (pop_return (value b)) ne h = h
    release-others p ne h = ground arith

    pub release-Inv :
        Inv C slots
          (update sequence (index C pos) (add64 pos C))
          head
          tail
          accepted
          delivered
          (update lap (index C pos) (pos + C))
          (update pc i (pop_tally a))
    release-Inv = record {
      several = several;
      small = small;
      ordered = ordered;
      home = λ p. ground (arith, home p, index-add C pos);
      near = λ p. ground (arith, near p);
      phase = λ p. ground (arith, phase p);
      claimed = λ p h. ground (arith, claimed p);
      taken = λ p h. ground (arith, taken p);
      kept = λ p h. ground (arith, kept p);
      pending = pending;
      faithful = faithful;
      threads =
          update_each
            (Local C slots (update sequence (index C pos) (add64 pos C)) head tail accepted
              delivered (update lap (index C pos) (pos + C)))
            pc i (pop_tally a) (pos, l.0, l.3)
            (λ j ne.
              release-others (pc j) (λ w. ne (one_reader i j pos (ground arith) w)) (threads j));
      one_writer = λ j k p g h. ground (arith, one_writer j k p);
      one_reader = λ j k p g h. ground (arith, one_reader j k p);
    }
