-- ===== src/MpscQueue/Client.antt =====
-- Any sequence of calls of src/sigmax/mpsc_queue.hpp by one thread, against the bounded FIFO.
use sigmax.Base.{
  ℕ, ◌+◌, ◌^◌, ◌<◌, ◌≡◌, refl, List, [], ◌∷◌, Bool, true, arith, Option, none, some, length,
  Expected, All,
}
use sigmax.Fifo
use sigmax.QueueState.{QueueState}
use sigmax.MpscQueue.{MpscQueue, push_back, pop}
use sigmax.MpscQueue.Valid.{IsValid, contents}
use sigmax.MpscQueue.Refine.{settles, push_back_refines, pop_refines}

-- A call, with the failures of its compare-exchanges.
pub data Call {ℓ} (A : Type ℓ) : Type ℓ where
  push : List Bool → A → Call A
  take : List Bool → Call A

pub data Reply {ℓ} (A : Type ℓ) : Type ℓ where
  pushed : QueueState → Reply A
  taken : Expected A QueueState → Reply A

module _ {ℓ} {A : Type ℓ} where
  abbrev pub Settles : Call A → Type 0
  Settles (push weak a) = settles weak ≡ true
  Settles (take weak) = settles weak ≡ true

  abbrev pub and_then : Reply A → Option (List (Reply A)) → Option (List (Reply A))
  and_then r none = none
  and_then r (some rs) = some (r ∷ rs)

  module _ (C : ℕ) where
    unfoldable pub run : List (Call A) → MpscQueue A → Option (List (Reply A))
    run [] q = some []
    run (push weak a ∷ calls) q = elim (push_back C weak a q) [
      | none ↦ none
      | some (status, q') ↦ and_then (pushed status) (run calls q')
    ]
    run (take weak ∷ calls) q = elim (pop C weak q) [
      | none ↦ none
      | some (answer, q') ↦ and_then (taken answer) (run calls q')
    ]

    unfoldable pub fifo_run : List (Call A) → List A → List (Reply A)
    fifo_run [] xs = []
    fifo_run (push weak a ∷ calls) xs =
        let (status, xs') = Fifo.push C a xs in pushed status ∷ fifo_run calls xs'
    fifo_run (take weak ∷ calls) xs =
        let (answer, xs') = Fifo.pop xs in taken answer ∷ fifo_run calls xs'

    -- Any sequence of calls on a valid queue returns, if in each call some compare-exchange does
    -- not fail for no reason and the head stays `C` below 2^63; and the replies are those of the
    -- FIFO of capacity `C` that starts with what the queue holds.
    pub run_refines :
        (calls : List (Call A)) (q : MpscQueue A)
        → IsValid C q
        → q.head + length calls + C < 2 ^ 63
        → All Settles calls
        → run calls q ≡ some (fifo_run calls (contents C q))
    unfolding run fifo_run
    run_refines [] q v room h = refl
    run_refines (push weak a ∷ calls) q v room h =
        let (after, e, held, v', top, _, _) = push_back_refines v (omega arith) weak a h.0 in
        ground (arith, e, held, run_refines calls after v' (omega arith) h.1)
    run_refines (take weak ∷ calls) q v room h =
        let (after, e, held, v', top, _, _) = pop_refines v (omega arith) weak h.0 in
        ground (arith, e, held, run_refines calls after v' (omega arith) h.1)
