-- ===== src/Threads/Answers.antt =====
-- What the answers of `PushBack` and `Pop` in src/sigmax/mpsc_queue.hpp tell their callers.
use sigmax.Base.{ℕ, ◌+◌, ◌≤◌, ◌<◌, ◌≡◌, ◌^◌, ◌⊎◌, inl, inr, some, unexpected, arith, Bool}
use native.Mathlib.Decide.{dec_lt}
use sigmax.QueueState.{queue_is_empty, queue_is_full}
use sigmax.MpscQueue.Words.{add64, is_negative-diff}
use sigmax.MpscQueue.Index.{index, index-inj}
use sigmax.Threads.{Pc, push_check, push_return, pop_check, pop_return, System, advance, Reach}
use sigmax.Threads.Invariant.{
  Local, Inv, Covered, writes, reads, Holds, Reach-Holds, thread, sequence-lt,
}

module _ {A : Type 0} {late : Bool} {C : ℕ} {blank : A} {s : System A} (several : 2 ≤ C)
    (small : C < 2 ^ 63) (r : Reach late C blank s) where
  abbrev reached : Holds C s
  reached = Reach-Holds C blank several small r

  abbrev inv :
      Inv C s.queue.slots s.queue.sequence s.queue.head s.queue.tail s.accepted s.delivered
        reached.0 s.pc
  inv = reached.1

  abbrev cov :
      Covered C s.queue.sequence s.queue.head s.queue.tail s.accepted s.delivered reached.0 s.pc
  cov = reached.2

  abbrev Here : Pc A → Type 0
  Here =
      Local C s.queue.slots s.queue.sequence s.queue.head s.queue.tail s.accepted s.delivered
        reached.0

  seq_at : ℕ → ℕ
  seq_at pos = s.queue.sequence (index C pos)

  lap_at : ℕ → ℕ
  lap_at pos = reached.0 (index C pos)

  -- A cell that is behind the position that a producer wants is a lap behind it.
  lap_behind : (pos : ℕ) → pos ≤ s.queue.head → seq_at pos < pos → lap_at pos + C ≤ s.queue.head
  unfolding seq_at lap_at
  lap_behind pos le lt =
      ground (arith, inv.phase pos, inv.home pos, index-inj C (reached.0 (index C pos)) pos)

  full-behind :
      (i pos : ℕ) (a : A) (weak : Bool)
      → s.pc i ≡ push_check a pos
      → (advance C weak s.queue (push_check a pos)).1 ≡ push_return queue_is_full
      → (pos ≤ s.queue.head) × (seq_at pos < pos)
  unfolding advance seq_at
  full-behind i pos a weak e h = ground (
    arith,
    thread inv i (push_check a pos) e,
    inv.small,
    sequence-lt inv pos,
    is_negative-diff (s.queue.sequence (index C pos)) pos,
  )

  empty-behind :
      (i pos : ℕ) (weak : Bool)
      → s.pc i ≡ pop_check pos
      → (advance C weak s.queue (pop_check pos)).1 ≡ pop_return (unexpected queue_is_empty)
      → (pos ≡ s.queue.tail) × (seq_at pos ≤ pos)
  unfolding advance seq_at
  empty-behind i pos weak e h = ground (
    arith,
    thread inv i (pop_check pos) e,
    inv.small,
    inv.ordered,
    inv.taken pos,
    sequence-lt inv pos,
    is_negative-diff (s.queue.sequence (index C pos)) (add64 pos 1),
  )

  -- A `PushBack` whose next step answers that the queue is full: at that step `C` positions or
  -- more lie between the tail and the head, or a `Pop` has claimed an element a lap or more behind
  -- the head and not yet released its cell.
  pub full_answer :
      (i pos : ℕ) (a : A) (weak : Bool)
      → s.pc i ≡ push_check a pos
      → (advance C weak s.queue (push_check a pos)).1 ≡ push_return queue_is_full
      → (s.queue.tail + C ≤ s.queue.head)
        ⊎ ((j : ℕ) × (p : ℕ) × (reads (s.pc j) ≡ some p) × (p + C ≤ s.queue.head))
  unfolding lap_at seq_at
  full_answer i pos a weak e h = elim (dec_lt (lap_at pos) s.queue.tail) [
    | yes lt ↦
        let (le, behind) = full-behind i pos a weak e h in
        let (j, w) =
          cov.reader_of pos (ground (arith, inv.phase pos, inv.home pos, inv.taken (lap_at pos)))
            lt in
        inr (j, lap_at pos, w, lap_behind pos le behind)
    | no ge ↦
        let (le, behind) = full-behind i pos a weak e h in
        inl (omega (arith, lap_behind pos le behind))
  ]

  -- A `Pop` whose next step answers that the queue is empty: at that step the tail has reached the
  -- head, or a `PushBack` has claimed the position of the tail and not yet published its element.
  pub empty_answer :
      (i pos : ℕ) (weak : Bool)
      → s.pc i ≡ pop_check pos
      → (advance C weak s.queue (pop_check pos)).1 ≡ pop_return (unexpected queue_is_empty)
      → (s.queue.tail ≡ s.queue.head) ⊎ ((j : ℕ) × (writes (s.pc j) ≡ some s.queue.tail))
  unfolding seq_at
  empty_answer i pos weak e h = elim (dec_lt s.queue.tail s.queue.head) [
    | yes lt ↦
        let (at_tail, behind) = empty-behind i pos weak e h in
        let waits : (seq_at pos ≡ pos) × (reached.0 (index C pos) ≡ pos) =
          ground (arith, inv.phase pos, inv.claimed pos) in
        let (j, w) = cov.writer_of pos (omega arith) (omega arith) in inr (j, ground arith)
    | no ge ↦ inl (omega (arith, inv.ordered))
  ]
