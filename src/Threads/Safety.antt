-- ===== src/Threads/Safety.antt =====
-- What holds in every state that the interleaved calls of src/sigmax/mpsc_queue.hpp reach.
use sigmax.Base.{Bool, ℕ, ◌≤◌, ◌<◌, ◌≡◌, ◌≢◌, ◌+◌, ◌^◌, refl, Option, none, some, value, arith}
use sigmax.Base.Int.{pos_part, neg_part}
use sigmax.MpscQueue.Words.{add64, diff, diff-fits}
use sigmax.MpscQueue.Index.{index, index-inj}
use sigmax.Threads.{
  Pc, push_check, push_claim, push_write, pop_check, pop_claim, pop_read, pop_return, System, Reach,
}
use sigmax.Threads.Invariant.{Local, Inv, Covered, Holds, Reach-Holds, thread, held, sequence-lt}

module _ {A : Type 0} where
  -- The position whose cell's data a thread is about to read or write.
  abbrev pub touches : Pc A → Option ℕ
  touches (push_write a pos) = some pos
  touches (pop_read pos) = some pos
  touches _ = none

  abbrev pub touched_cell : ℕ → Pc A → Option ℕ
  touched_cell C (push_write a pos) = some (index C pos)
  touched_cell C (pop_read pos) = some (index C pos)
  touched_cell C _ = none

  -- The position whose cell a thread is about to examine, and the number that it subtracts.
  abbrev pub compares : Pc A → Option (ℕ × ℕ)
  compares (push_check a pos) = some (pos, pos)
  compares (pop_check pos) = some (pos, add64 pos 1)
  compares _ = none

module _ {A : Type 0} {late : Bool} {C : ℕ} {blank : A} {s : System A} (several : 2 ≤ C)
    (small : C < 2 ^ 63) (r : Reach late C blank s) where
  abbrev reached : Holds C s
  reached = Reach-Holds C blank several small r

  abbrev inv :
      Inv C s.queue.slots s.queue.sequence s.queue.head s.queue.tail s.accepted s.delivered
        reached.0 s.pc
  inv = reached.1

  abbrev cov :
      Covered C s.queue.sequence s.queue.head s.queue.tail s.accepted s.delivered reached.0 s.pc
  cov = reached.2

  abbrev Here : Pc A → Type 0
  Here =
      Local C s.queue.slots s.queue.sequence s.queue.head s.queue.tail s.accepted s.delivered
        reached.0

  -- In every reachable state, what has been delivered for a position is the element accepted for
  -- it, the position lies below the tail, and the tail does not pass the head.
  pub delivered_lem :
      (p : ℕ) (a : A)
      → s.delivered p ≡ some a
      → (s.accepted p ≡ a) × (p < s.queue.tail) × (s.queue.tail ≤ s.queue.head)
  delivered_lem p a h = (inv.faithful p a h, ground (arith, inv.pending p), inv.ordered)

  -- A `Pop` that returns an element returns one that some `PushBack` was accepted with.
  pub pop_returns_accepted :
      (i : ℕ) (a : A)
      → s.pc i ≡ pop_return (value a)
      → (p : ℕ) × (p < s.queue.tail) × (s.delivered p ≡ some a) × (s.accepted p ≡ a)
  pop_returns_accepted i a e =
      let (p, lt, d) = thread inv i (pop_return (value a)) e in (p, lt, d, inv.faithful p a d)

  -- Two threads that are about to read or write the data of one cell are the same thread.
  pub race_free :
      (i j p q : ℕ)
      → touches (s.pc i) ≡ some p
      → touches (s.pc j) ≡ some q
      → index C p ≡ index C q
      → i ≡ j
  race_free i j p q = from (s.pc i) (s.pc j) refl refl (inv.threads i) (inv.threads j)
    where
      from :
          (x y : Pc A)
          → s.pc i ≡ x
          → s.pc j ≡ y
          → Here x
          → Here y
          → touches x ≡ some p
          → touches y ≡ some q
          → index C p ≡ index C q
          → i ≡ j
      from (push_write a k) (push_write b l) e f g h u v w = ground (arith, inv.one_writer i j p)
      from (pop_read k) (pop_read l) e f g h u v w = ground (arith, inv.one_reader i j p)
      from x y e f g h u v w = ground arith

  -- A position that a thread is about to read has not been delivered: no element is popped twice.
  pub read_once : (i p : ℕ) → s.pc i ≡ pop_read p → s.delivered p ≡ none
  read_once i p e = (thread inv i (pop_read p) e).3

  -- In every thread that is about to load a sequence number and to subtract, the difference that
  -- it computes from what the cell says now is in the range of `std::int64_t`.
  pub differences_fit :
      (i p e : ℕ)
      → compares (s.pc i) ≡ some (p, e)
      → (pos_part (diff (s.queue.sequence (index C p)) e) < 2 ^ 63)
        × (neg_part (diff (s.queue.sequence (index C p)) e) ≤ 2 ^ 63)
  differences_fit i p e = from (s.pc i) (inv.threads i)
    where
      from :
          (x : Pc A)
          → Here x
          → compares x ≡ some (p, e)
          → (pos_part (diff (s.queue.sequence (index C p)) e) < 2 ^ 63)
            × (neg_part (diff (s.queue.sequence (index C p)) e) ≤ 2 ^ 63)
      from (push_check a k) h c = diff-fits _ e (sequence-lt inv p) (ground (arith, inv.small))
      from (pop_check k) h c =
          diff-fits _ e (sequence-lt inv p) (ground (arith, inv.small, inv.ordered))
      from x h c = cc

  -- In every reachable state, of a thread that has found its cell free, with a load that may have
  -- been late, and whose compare-exchange of the head would succeed: the cell still waits for the
  -- element of this position, which lies less than `C` past the tail, and no thread is about
  -- to read or write the cell.
  pub push_claim_current :
      (i pos : ℕ) (a : A)
      → s.pc i ≡ push_claim a pos
      → s.queue.head ≡ pos
      → (s.queue.sequence (index C pos) ≡ pos)
        × (pos < s.queue.tail + C)
        × ((j : ℕ) → touched_cell C (s.pc j) ≢ some (index C pos))
  push_claim_current i pos a e at = (now.0, now.2, λ j. from (s.pc j) (inv.threads j))
    where
      now :
          (s.queue.sequence (index C pos) ≡ pos)
          × (reached.0 (index C pos) ≡ pos)
          × (pos < s.queue.tail + C)
      now = ground (
        arith,
        thread inv i (push_claim a pos) e,
        inv.near pos,
        inv.phase pos,
        inv.home pos,
        index-inj C pos (reached.0 (index C pos)),
      )

      from : (x : Pc A) → Here x → touched_cell C x ≢ some (index C pos)
      from (push_write b k) l same = absurd (ground (arith, now))
      from (pop_read k) l same = absurd (ground (arith, now))
      from x l same = absurd (ground arith)

  -- In every reachable state, of a thread that has found the element of its position published, with
  -- a load that may have been late, and whose compare-exchange of the tail would succeed: the
  -- position lies below the head, its cell still holds the element accepted for it, nothing has been
  -- delivered for it, and no thread is about
  -- to read or write the cell.
  pub pop_claim_current :
      (i pos : ℕ)
      → s.pc i ≡ pop_claim pos
      → s.queue.tail ≡ pos
      → (pos < s.queue.head)
        × (s.queue.slots (index C pos) ≡ s.accepted pos)
        × (s.delivered pos ≡ none)
        × ((j : ℕ) → touched_cell C (s.pc j) ≢ some (index C pos))
  pop_claim_current i pos e at = (
    now.2,
    ground (arith, now, inv.kept pos),
    inv.pending pos (omega (arith, at)),
    λ j. from (s.pc j) (inv.threads j),
  )
    where
      now :
          (reached.0 (index C pos) ≡ pos)
          × (s.queue.sequence (index C pos) ≡ pos + 1)
          × (pos < s.queue.head)
      now = held inv i pos (thread inv i _ e) at

      from : (x : Pc A) → Here x → touched_cell C x ≢ some (index C pos)
      from (push_write b k) l same = absurd (ground (arith, now))
      from (pop_read k) l same = absurd (ground (arith, now))
      from x l same = absurd (ground arith)
