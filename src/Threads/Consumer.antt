-- ===== src/Threads/Consumer.antt =====
-- Any number of producers and one consumer on the queue of src/sigmax/mpsc_queue.hpp, by the calls
-- and answers that they see.
use sigmax.Base.{Bool, ℕ, ◌-◌, ◌<◌, ◌≤◌, ◌^◌, ◌≡◌, ap, ap₂, sym, ◌∙◌, List, ◌++◌}
use sigmax.MpscQueue.Valid.{contents}
use mathlib.Core.List.{append-nil}
use sigmax.SharedFifo.Told.{
  OnlyPops, elements, from, received, sent, taken_out, put_in, last_pushed,
}
use sigmax.SharedFifo.Through.{Runs-Told}
use sigmax.Threads.{idle, System, Reach}
use sigmax.Threads.Refine.{phase_of, shared, history, Reach-Runs}
use sigmax.Threads.Quiet.{stretch, quiet_lem}

module _ {A : Type 0} {late : Bool} {C : ℕ} {blank : A} {s : System A} (several : 2 ≤ C)
    (small : C < 2 ^ 63) (r : Reach late C blank s) (c : ℕ) (only : OnlyPops c (history r)) where
  -- In every reachable state, if no thread but `c` has called `Pop`: the elements that have been
  -- accepted are those that `c` has received, then the one that its call has taken out and not
  -- returned yet, then those of the positions from the tail to the head, in this order; and each
  -- producer's part of them is what it has pushed with SUCCESS, then the element of a call that has
  -- claimed a position and not returned yet, in the order of its calls.
  pub fifo_by_producer :
      (ins : List (ℕ × A)) × (elements ins
        ≡ received c (history r)
          ++ (taken_out (phase_of s.accepted (s.pc c))
              ++ stretch s.accepted s.queue.tail (s.queue.head - s.queue.tail)))
      × ((i : ℕ)
          → from i ins
            ≡ sent i (history r)
              ++ put_in (phase_of s.accepted (s.pc i)) (last_pushed i (history r)))
  unfolding shared
  fifo_by_producer =
      let (ins, told) = Runs-Told (Reach-Runs several small r) only in
      (ins, told.order, told.producers)

  -- If, besides, no thread is in a call: the elements that the producers have pushed with SUCCESS
  -- are interleaved in one list, each producer's in the order of its calls, and what the consumer has
  -- received and then what the queue holds make up this list: nothing is lost, nothing is received
  -- twice, and nothing overtakes.
  pub nothing_lost :
      ((i : ℕ) → s.pc i ≡ idle)
      → (ins : List (ℕ × A)) × (elements ins ≡ received c (history r) ++ contents C s.queue)
        × ((i : ℕ) → from i ins ≡ sent i (history r))
  unfolding phase_of
  nothing_lost quiet =
      let (ins, order, producers) = fifo_by_producer in
      let (valid, out, held) = quiet_lem several small r quiet in
      (
        ins,
        order
            ∙ ap₂ (λ x y. received c (history r) ++ (taken_out x ++ y))
                (ap (phase_of s.accepted) (quiet c)) (sym held),
        λ i.
            producers i
            ∙ (ap (λ x. sent i (history r) ++ put_in x (last_pushed i (history r)))
                  (ap (phase_of s.accepted) (quiet i))
                ∙ append-nil (sent i (history r))),
      )
