-- ===== src/Threads/Invariant/Push.antt =====
-- The steps of `PushBack` in src/sigmax/mpsc_queue.hpp that change shared data.
use sigmax.Base.{ℕ, ◌+◌, ◌<◌, ◌≡◌, ◌≢◌, ◌^◌, Option, some, value, update, update_each, arith}
use sigmax.MpscQueue.Words.{add64}
use sigmax.MpscQueue.Index.{index, index-inj}
use sigmax.Threads.{
  Pc, push_check, push_claim, push_write, push_publish, push_tally, pop_tally, pop_return,
}
use sigmax.Threads.Invariant.Defs.{Local, Inv, writes}
use sigmax.Threads.Invariant.Stay.{writer-lt}

module _ {A : Type 0} {C : ℕ} {slots : ℕ → A} {sequence : ℕ → ℕ} {head tail : ℕ} {accepted : ℕ → A}
    {delivered : ℕ → Option A} {lap : ℕ → ℕ} {pc : ℕ → Pc A}
    (inv : Inv C slots sequence head tail accepted delivered lap pc) (i : ℕ) (a : A) (pos : ℕ) where
  open inv use {
    several, small, ordered, home, near, phase, claimed, taken, kept, pending, faithful, threads,
    one_writer, one_reader,
  }

  module _ (l : Local C slots sequence head tail accepted delivered lap (push_claim a pos))
      (e : head ≡ pos) (room : head + C + 1 < 2 ^ 63) where
    claim_lap : lap (index C pos) ≡ pos
    claim_lap = ground (arith, near pos, home pos, index-inj C pos (lap (index C pos)))

    claim-others :
        (p : Pc A)
        → Local C slots sequence head tail accepted delivered lap p
        → Local C slots sequence (add64 pos 1) tail (update accepted pos a) delivered lap p
    claim-others (push_check b r) h = omega arith
    claim-others (pop_tally b) h = h
    claim-others (pop_return (value b)) h = h
    claim-others p h = ground arith

    pub claim-Inv :
        Inv C slots sequence
          (add64 pos 1)
          tail
          (update accepted pos a)
          delivered
          lap
          (update pc i (push_write a pos))
    claim-Inv = record {
      several = several;
      small = omega arith;
      ordered = omega arith;
      home = home;
      near = near;
      phase = λ p. ground (arith, phase p);
      claimed = λ p h. ground (arith, claimed p, claim_lap);
      taken = taken;
      kept = λ p h. ground (arith, kept p, phase p);
      pending = pending;
      faithful = λ p b h. ground (arith, faithful p b, pending p);
      threads =
          update_each
            (Local C slots sequence (add64 pos 1) tail (update accepted pos a) delivered lap) pc i
            (push_write a pos) (ground (arith, claim_lap, phase pos))
            (λ j ne. claim-others (pc j) (threads j));
      one_writer =
          λ j k p g h. ground (arith, one_writer j k p, writer-lt inv j p, writer-lt inv k p);
      one_reader = λ j k p g h. ground (arith, one_reader j k p);
    }

  module _ (here : pc i ≡ push_write a pos)
      (l : Local C slots sequence head tail accepted delivered lap (push_write a pos)) where
    write-others :
        (p : Pc A)
        → writes p ≢ some pos
        → Local C slots sequence head tail accepted delivered lap p
        → Local C (update slots (index C pos) a) sequence head tail accepted delivered lap p
    write-others (push_check b r) ne h = h
    write-others (push_publish b r) ne h = ground arith
    write-others (pop_tally b) ne h = h
    write-others (pop_return (value b)) ne h = h
    write-others p ne h = h

    pub write-Inv :
        Inv C
          (update slots (index C pos) a)
          sequence
          head
          tail
          accepted
          delivered
          lap
          (update pc i (push_publish a pos))
    write-Inv = record {
      several = several;
      small = small;
      ordered = ordered;
      home = home;
      near = near;
      phase = phase;
      claimed = claimed;
      taken = taken;
      kept = λ p h. ground (arith, kept p);
      pending = pending;
      faithful = faithful;
      threads =
          update_each
            (Local C (update slots (index C pos) a) sequence head tail accepted delivered lap) pc i
            (push_publish a pos) (ground arith)
            (λ j ne.
              write-others (pc j) (λ w. ne (one_writer i j pos (ground arith) w)) (threads j));
      one_writer = λ j k p g h. ground (arith, one_writer j k p);
      one_reader = λ j k p g h. ground (arith, one_reader j k p);
    }

  module _ (here : pc i ≡ push_publish a pos)
      (l : Local C slots sequence head tail accepted delivered lap (push_publish a pos)) where
    publish-others :
        (p : Pc A)
        → writes p ≢ some pos
        → Local C slots sequence head tail accepted delivered lap p
        → Local C slots
            (update sequence (index C pos) (add64 pos 1))
            head
            tail
            accepted
            delivered
            lap
            p
    publish-others (push_check b r) ne h = h
    publish-others (pop_tally b) ne h = h
    publish-others (pop_return (value b)) ne h = h
    publish-others p ne h = ground arith

    pub publish-Inv :
        Inv C slots
          (update sequence (index C pos) (add64 pos 1))
          head
          tail
          accepted
          delivered
          lap
          (update pc i push_tally)
    publish-Inv = record {
      several = several;
      small = small;
      ordered = ordered;
      home = home;
      near = near;
      phase = λ p. ground (arith, phase p);
      claimed = claimed;
      taken = λ p h. ground (arith, taken p);
      kept = λ p h. ground (arith, kept p);
      pending = pending;
      faithful = faithful;
      threads =
          update_each
            (Local C slots (update sequence (index C pos) (add64 pos 1)) head tail accepted
              delivered lap)
            pc i push_tally tt
            (λ j ne.
              publish-others (pc j) (λ w. ne (one_writer i j pos (ground arith) w)) (threads j));
      one_writer = λ j k p g h. ground (arith, one_writer j k p);
      one_reader = λ j k p g h. ground (arith, one_reader j k p);
    }
