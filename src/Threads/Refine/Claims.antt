-- ===== src/Threads/Refine/Claims.antt =====
-- The steps of a thread of src/sigmax/mpsc_queue.hpp, seen from the shared list: those that claim a
-- position, and why a call may fail.
use sigmax.Base.{
  none, ℕ, ◌+◌, ◌-◌, ◌≤◌, ◌<◌, ◌≡◌, ◌^◌, ◌⊎◌, inl, inr, refl, ap, ap₂, sym, ◌∙◌, Option, some,
  arith, [], ◌∷◌, ◌++◌, length, update, update_other, unexpected, Bool,
}
use sigmax.QueueState.{queue_is_empty, queue_is_full}
use sigmax.MpscQueue.{MpscQueue}
use sigmax.MpscQueue.Words.{add64}
use sigmax.MpscQueue.Index.{index}
use sigmax.SharedFifo
use sigmax.SharedFifo.{
  Phase, Shared, resting, pushing, entered, push_answered, popping, holding, pop_answered, Advances,
  SameItems, at_rest, Runs,
}
use sigmax.Threads.{
  Pc, push_check, push_claim, push_write, push_return, pop_check, pop_claim, pop_read, pop_return,
  advance, System, Reach,
}
use sigmax.Threads.Invariant.{Holds, Local, held, thread, Reach-Holds, reads, writes}
use sigmax.Threads.Answers.{full_answer, empty_answer}
use sigmax.Threads.Quiet.{stretch}
use sigmax.Threads.Refine.Stretch.{length-stretch, stretch-claim, stretch-first}
use sigmax.Threads.Refine.Shared.{phase_of, shared, moves, pauses, reads-holding, writes-entered}

module _ {A : Type 0} {late : Bool} {C : ℕ} {blank : A} {s : System A} (several : 2 ≤ C)
    (small : C < 2 ^ 63) (r : Reach late C blank s) (room : s.queue.head + C + 1 < 2 ^ 63)
    (i : ℕ) where
  abbrev now : Holds C s
  now = Reach-Holds C blank several small r

  -- A step inside one phase.
  pub paused :
      (old new : Pc A) (q : MpscQueue A)
      → s.pc i ≡ old
      → phase_of s.accepted new ≡ phase_of s.accepted old
      → q.head ≡ s.queue.head
      → q.tail ≡ s.queue.tail
      → (f : ℕ → Option A)
      → SharedFifo.Step late C none (shared s) (
          shared
            (record { queue = q; pc = update s.pc i new; accepted = s.accepted; delivered = f }))
  unfolding shared
  paused old new q e same h t f =
      SharedFifo.pause refl (ap₂ (λ a b. stretch s.accepted a (b - a)) t h)
        (pauses s.pc s.accepted i old new e same)

  -- A step from one phase to another that claims nothing.
  pub moved :
      (old new : Pc A) (q : MpscQueue A)
      → q.head ≡ s.queue.head
      → q.tail ≡ s.queue.tail
      → (f : ℕ → Option A)
      → let t =
          shared
            (record { queue = q; pc = update s.pc i new; accepted = s.accepted; delivered = f }) in
        SameItems (shared s) t × Advances (shared s) i (phase_of s.accepted new) t
  unfolding shared
  moved old new q h t f = (
    ap₂ (λ a b. stretch s.accepted a (b - a)) t h,
    moves s.pc s.accepted s.accepted i new _ refl (λ j. refl),
  )

  pub was : (old : Pc A) → s.pc i ≡ old → (shared s).phase i ≡ phase_of s.accepted old
  unfolding shared
  was old e = ap (phase_of s.accepted) e

  size : length ((shared s).items) ≡ s.queue.head - s.queue.tail
  unfolding shared
  size = length-stretch s.accepted s.queue.tail (s.queue.head - s.queue.tail)

  -- Why a `PushBack` may answer that the queue is full, and a `Pop` that it is empty.
  pub may_refuse :
      (pos : ℕ) (a : A) (weak : Bool)
      → s.pc i ≡ push_check a pos
      → (advance C weak s.queue (push_check a pos)).1 ≡ push_return queue_is_full
      → (C ≤ length ((shared s).items)) ⊎ ((j : ℕ) × (b : A) × ((shared s).phase j ≡ holding b))
  unfolding shared
  may_refuse pos a weak e h = from (full_answer several small r i pos a weak e h)
    where
      from :
          (s.queue.tail + C ≤ s.queue.head)
            ⊎ ((j : ℕ) × (p : ℕ) × (reads (s.pc j) ≡ some p) × (p + C ≤ s.queue.head))
          → (C ≤ length ((shared s).items)) ⊎ ((j : ℕ) × (b : A) × ((shared s).phase j ≡ holding b))
      from (inl far) = inl (omega (arith, size))
      from (inr (j, p, w, far)) =
          let (b, f) = reads-holding s.accepted (s.pc j) p w in inr (j, b, f)

  pub may_find_none :
      (pos : ℕ) (weak : Bool)
      → s.pc i ≡ pop_check pos
      → (advance C weak s.queue (pop_check pos)).1 ≡ pop_return (unexpected queue_is_empty)
      → ((shared s).items ≡ []) ⊎ ((j : ℕ) × ((shared s).phase j ≡ entered))
  unfolding shared
  may_find_none pos weak e h = from (empty_answer several small r i pos weak e h)
    where
      from :
          (s.queue.tail ≡ s.queue.head) ⊎ ((j : ℕ) × (writes (s.pc j) ≡ some s.queue.tail))
          → ((shared s).items ≡ []) ⊎ ((j : ℕ) × ((shared s).phase j ≡ entered))
      from (inl same) = inl (
          ap (stretch s.accepted s.queue.tail)
            (let n : s.queue.head - s.queue.tail ≡ 0 = omega arith in n))
      from (inr (j, w)) = inr (j, writes-entered s.accepted (s.pc j) _ w)

  -- The claim of the head's position puts the element into the list.
  pub enters :
      (pos : ℕ) (a : A)
      → s.pc i ≡ push_claim a pos
      → s.queue.head ≡ pos
      → SharedFifo.Step late C none (shared s) (
          shared (record {
            queue = record s.queue { head = add64 pos 1 };
            pc = update s.pc i (push_write a pos);
            accepted = update s.accepted pos a;
            delivered = s.delivered;
          }))
  unfolding shared phase_of
  enters pos a e at =
      SharedFifo.enter i a refl (was _ e) (omega (arith, size, now.1.near pos, thread now.1 i _ e))
        grown
        (moves s.pc s.accepted (update s.accepted pos a) i (push_write a pos) entered refl
          (λ j. keeps (s.pc j) (now.1.threads j)))
    where
      next_position : add64 pos 1 ≡ pos + 1
      next_position = omega (arith, room)

      grown :
          stretch (update s.accepted pos a) s.queue.tail (add64 pos 1 - s.queue.tail)
          ≡ stretch s.accepted s.queue.tail (s.queue.head - s.queue.tail) ++ a ∷ []
      grown =
          ap (λ h. stretch (update s.accepted pos a) s.queue.tail (h - s.queue.tail)) next_position
          ∙ (stretch-claim s.accepted s.queue.tail pos a (omega (arith, now.1.ordered))
              ∙ ap (λ h. stretch s.accepted s.queue.tail (h - s.queue.tail) ++ a ∷ []) (sym at))

      keeps :
          (x : Pc A)
          → Local C s.queue.slots s.queue.sequence s.queue.head s.queue.tail s.accepted s.delivered
              now.0 x
          → phase_of (update s.accepted pos a) x ≡ phase_of s.accepted x
      keeps (pop_read p) l =
          ap holding
            (update_other s.accepted pos p a (λ same. absurd (omega (arith, l.0, now.1.ordered))))
      keeps x l = refl

  -- The claim of the tail's position takes the first element out of the list.
  pub leaves :
      (pos : ℕ)
      → s.pc i ≡ pop_claim pos
      → s.queue.tail ≡ pos
      → (f : ℕ → Option A)
      → SharedFifo.Step late C none (shared s) (
          shared (record {
            queue = record s.queue { tail = add64 pos 1 };
            pc = update s.pc i (pop_read pos);
            accepted = s.accepted;
            delivered = f;
          }))
  unfolding shared phase_of
  leaves pos e at f =
      SharedFifo.leave i (s.accepted pos) refl (was _ e) shrunk
        (moves s.pc s.accepted s.accepted i (pop_read pos) _ refl (λ j. refl))
    where
      before_head : pos < s.queue.head
      before_head = omega (arith, held now.1 i pos (thread now.1 i _ e) at, at)

      next_position : add64 pos 1 ≡ pos + 1
      next_position = omega (arith, room, before_head)

      shrunk :
          stretch s.accepted s.queue.tail (s.queue.head - s.queue.tail)
          ≡ s.accepted pos ∷ stretch s.accepted (add64 pos 1) (s.queue.head - add64 pos 1)
      shrunk =
          ap (λ t. stretch s.accepted t (s.queue.head - t)) at
          ∙ (stretch-first s.accepted pos s.queue.head before_head
              ∙ ap (λ k. s.accepted pos ∷ stretch s.accepted k (s.queue.head - k))
                  (sym next_position))

  -- The cell of a position that is being read holds the element accepted for it.
  pub reads_accepted :
      (pos : ℕ) → s.pc i ≡ pop_read pos → s.queue.slots (index C pos) ≡ s.accepted pos
  reads_accepted pos e = ground (arith, thread now.1 i _ e, now.1.kept pos)
