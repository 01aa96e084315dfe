-- ===== src/Threads/Invariant/Stay.antt =====
-- The steps of a thread that change no cell and no counter of src/sigmax/mpsc_queue.hpp.
use sigmax.Base.{ℕ, ◌≤◌, ◌<◌, ◌≡◌, ◌^◌, Option, none, some, update, update_each, arith, true}
use sigmax.Base.Int.{is_zero}
use sigmax.MpscQueue.Words.{add64, diff, is_zero-diff}
use sigmax.MpscQueue.Index.{index, index-inj}
use sigmax.Threads.{Pc, push_claim, push_write, pop_claim, pop_read}
use sigmax.Threads.Invariant.Defs.{Local, Inv, writes, reads}

module _ {A : Type 0} {C : ℕ} {slots : ℕ → A} {sequence : ℕ → ℕ} {head tail : ℕ} {accepted : ℕ → A}
    {delivered : ℕ → Option A} {lap : ℕ → ℕ} {pc : ℕ → Pc A}
    (inv : Inv C slots sequence head tail accepted delivered lap pc) where
  open inv use {
    several, small, ordered, home, near, phase, claimed, taken, kept, pending, faithful, threads,
    one_writer, one_reader,
  }

  -- What a thread's place says of its local variables.
  pub thread :
      (i : ℕ) (p : Pc A) → pc i ≡ p → Local C slots sequence head tail accepted delivered lap p
  thread i p e = rw (← e) (threads i)

  -- A step that touches no shared data, to a place that claims no cell.
  pub stay :
      (i : ℕ) (p : Pc A)
      → Local C slots sequence head tail accepted delivered lap p
      → writes p ≡ none
      → reads p ≡ none
      → Inv C slots sequence head tail accepted delivered lap (update pc i p)
  stay i p loc w r = record {
    several = several;
    small = small;
    ordered = ordered;
    home = home;
    near = near;
    phase = phase;
    claimed = claimed;
    taken = taken;
    kept = kept;
    pending = pending;
    faithful = faithful;
    threads =
        update_each (Local C slots sequence head tail accepted delivered lap) pc i p loc
          (λ j ne. threads j);
    one_writer = λ j k p' a b. ground (arith, one_writer j k p');
    one_reader = λ j k p' a b. ground (arith, one_reader j k p');
  }

  -- Every number that the code compares is small.
  pub sequence-lt : (p : ℕ) → sequence (index C p) < 2 ^ 63
  sequence-lt p = ground (arith, near p, phase p)

  -- A cell that says `pos` waits for `pos`; one that says `pos + 1` holds the element of `pos`.
  pub lap_of_free : (pos : ℕ) → sequence (index C pos) ≡ pos → lap (index C pos) ≡ pos
  lap_of_free pos h = ground (arith, phase pos, home pos, index-inj C (lap (index C pos)) pos)

  -- A sequence number of the cell, the present one or an earlier one, that a check lets pass.
  pub push_checked :
      (a : A) (pos v : ℕ)
      → pos ≤ head
      → v ≤ sequence (index C pos)
      → is_zero (diff v pos) ≡ true
      → Local C slots sequence head tail accepted delivered lap (push_claim a pos)
  push_checked a pos v h le e = ground (
    arith,
    sequence-lt pos,
    is_zero-diff v pos,
    phase pos,
    home pos,
    index-inj C (lap (index C pos)) pos,
  )

  pub pop_checked :
      (pos v : ℕ)
      → pos ≤ tail
      → v ≤ sequence (index C pos)
      → is_zero (diff v (add64 pos 1)) ≡ true
      → Local C slots sequence head tail accepted delivered lap (pop_claim pos)
  pop_checked pos v h le e = ground (arith, sequence-lt pos, is_zero-diff v (add64 pos 1))

  pub writer-lt : (i pos : ℕ) → writes (pc i) ≡ some pos → pos < head
  writer-lt i pos e = from (pc i) (threads i) e
    where
      from :
          (p : Pc A)
          → Local C slots sequence head tail accepted delivered lap p
          → writes p ≡ some pos
          → pos < head
      from (push_write a r) l w = ground arith
      from p l w = ground arith

  pub reader-lt : (i pos : ℕ) → reads (pc i) ≡ some pos → pos < tail
  reader-lt i pos e = from (pc i) (threads i) e
    where
      from :
          (p : Pc A)
          → Local C slots sequence head tail accepted delivered lap p
          → reads p ≡ some pos
          → pos < tail
      from (pop_read r) l w = ground arith
      from p l w = ground arith
