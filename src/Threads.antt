-- ===== src/Threads.antt =====
-- The queue of src/sigmax/mpsc_queue.hpp called by any number of threads, producers and consumers.
-- Each access to an atomic member, and each plain access to a cell's data, is one step of one
-- thread, and the steps are interleaved in any order. Every load yields the last value that was
-- stored (sequential consistency), or, in the runs that are called late, any earlier one too.
pub mod Invariant
pub mod Safety
pub mod Quiet
pub mod Answers
pub mod Order
pub mod Alone
pub mod Refine
pub mod Consumer
pub mod Counts
pub mod Retries
pub mod Progress
pub mod Sides
pub mod Taking
pub mod Room
mod Play
mod Tests
mod ConsumerTests
mod ContendedTests
mod LoneTests
mod LateTests
mod DrainTests
use sigmax.Base.{
  ℕ, ◌+◌, ◌<◌, ◌≤◌, ◌≡◌, ◌^◌, Bool, true, not, ◌&&◌, Option, none, some, Expected, value,
  unexpected, update, ◌==◌, if◌then◌else◌,
}
use sigmax.Base.Int.{is_zero, is_negative}
use sigmax.QueueState.{QueueState, success, queue_is_empty, queue_is_full}
use sigmax.MpscQueue.{MpscQueue}
use sigmax.MpscQueue
use sigmax.MpscQueue.Words.{add64, diff}
use sigmax.MpscQueue.Index.{index}

-- Where a thread stands, with its live local variables.
pub data Pc (A : Type 0) : Type 0 where
  idle : Pc A  -- in no call
  push_enter : A → Pc A  -- before the load of the head
  push_check : A → (pos : ℕ) → Pc A  -- before the load of the cell's sequence number
  push_claim : A → (pos : ℕ) → Pc A  -- before the compare-exchange of the head
  push_write : A → (pos : ℕ) → Pc A  -- before the write of the cell's data
  push_publish : A → (pos : ℕ) → Pc A  -- before the store of the cell's sequence number
  push_tally : Pc A  -- before the increment of the push count
  push_return : QueueState → Pc A
  pop_enter : Pc A
  pop_check : (pos : ℕ) → Pc A
  pop_claim : (pos : ℕ) → Pc A
  pop_read : (pos : ℕ) → Pc A  -- before the read of the cell's data
  pop_release : (pos : ℕ) → A → Pc A  -- before the store of the cell's sequence number
  pop_tally : A → Pc A
  pop_return : Expected A QueueState → Pc A

module _ {A : Type 0} (C : ℕ) where
  -- One step of a thread inside `PushBack` or `Pop`; `weak` says that a compare-exchange fails
  -- although the value is the expected one.
  unfoldable pub advance : Bool → MpscQueue A → Pc A → MpscQueue A × Pc A
  advance weak q idle = (q, idle)
  advance weak q (push_enter element) = (q, push_check element q.head)
  advance weak q (push_check element pos) =
      let d = diff (q.sequence (index C pos)) pos in
      (
        q,
        (if is_zero d
            then push_claim element pos
            else (if is_negative d then push_return queue_is_full else push_enter element)),
      )
  advance weak q (push_claim element pos) =
      if not weak && (q.head == pos)
      then (record q { head = add64 pos 1 }, push_write element pos)
      else (q, push_check element q.head)
  advance weak q (push_write element pos) =
      (record q { slots = update q.slots (index C pos) element }, push_publish element pos)
  advance weak q (push_publish element pos) =
      (record q { sequence = update q.sequence (index C pos) (add64 pos 1) }, push_tally)
  advance weak q push_tally = (record q { push_count = add64 q.push_count 1 }, push_return success)
  advance weak q (push_return status) = (q, idle)
  advance weak q pop_enter = (q, pop_check q.tail)
  advance weak q (pop_check pos) =
      let d = diff (q.sequence (index C pos)) (add64 pos 1) in
      (
        q,
        (if is_zero d
            then pop_claim pos
            else (if is_negative d then pop_return (unexpected queue_is_empty) else pop_enter)),
      )
  advance weak q (pop_claim pos) =
      if not weak && (q.tail == pos)
      then (record q { tail = add64 pos 1 }, pop_read pos)
      else (q, pop_check q.tail)
  advance weak q (pop_read pos) = (q, pop_release pos (q.slots (index C pos)))
  advance weak q (pop_release pos element) =
      (record q { sequence = update q.sequence (index C pos) (add64 pos C) }, pop_tally element)
  advance weak q (pop_tally element) =
      (record q { pop_count = add64 q.pop_count 1 }, pop_return (value element))
  advance weak q (pop_return answer) = (q, idle)

module _ {A : Type 0} (C : ℕ) where
  -- The values that a load may yield late, at the place where a thread stands: the head and the
  -- tail, and the sequence number of a cell, never fall, and a cell starts with its own index. A
  -- compare-exchange that fails is a load of the head or of the tail. What bounds a late load of the
  -- C++ memory model besides is left out, so more runs are covered.
  abbrev pub Earlier : MpscQueue A → Pc A → ℕ → Type 0
  Earlier q (push_enter element) v = v ≤ q.head
  Earlier q (push_check element pos) v = (index C pos ≤ v) × (v ≤ q.sequence (index C pos))
  Earlier q (push_claim element pos) v = v ≤ q.head
  Earlier q pop_enter v = v ≤ q.tail
  Earlier q (pop_check pos) v = (index C pos ≤ v) × (v ≤ q.sequence (index C pos))
  Earlier q (pop_claim pos) v = v ≤ q.tail
  Earlier q _ v = ⊥

  -- The step of a thread whose load yields `v`.
  unfoldable pub observe : Pc A → ℕ → Pc A
  observe (push_enter element) v = push_check element v
  observe (push_check element pos) v =
      let d = diff v pos in
      if is_zero d
      then push_claim element pos
      else (if is_negative d then push_return queue_is_full else push_enter element)
  observe (push_claim element pos) v = push_check element v
  observe pop_enter v = pop_check v
  observe (pop_check pos) v =
      let d = diff v (add64 pos 1) in
      if is_zero d
      then pop_claim pos
      else (if is_negative d then pop_return (unexpected queue_is_empty) else pop_enter)
  observe (pop_claim pos) v = pop_check v
  observe p v = p

-- The queue and the threads, with two records of the past that no step reads: the element whose
-- `PushBack` claimed a position, and the element that a `Pop` read for a position.
pub record System (A : Type 0) : Type 0 where
  pub queue : MpscQueue A
  pub pc : ℕ → Pc A
  pub accepted : ℕ → A
  pub delivered : ℕ → Option A

module _ {A : Type 0} where
  -- A compare-exchange of the head that succeeds enters its element in the record.
  unfoldable pub note_accepted : Bool → MpscQueue A → Pc A → (ℕ → A) → ℕ → A
  note_accepted weak q (push_claim element pos) accepted =
      if not weak && (q.head == pos) then update accepted pos element else accepted
  note_accepted weak q _ accepted = accepted

  unfoldable pub note_delivered : (C : ℕ) → MpscQueue A → Pc A → (ℕ → Option A) → ℕ → Option A
  note_delivered C q (pop_read pos) delivered = update delivered pos (some (q.slots (index C pos)))
  note_delivered C q _ delivered = delivered

-- What the scheduler may choose next: a thread calls, or goes on.
pub data Action (A : Type 0) : Type 0 where
  call_push : ℕ → A → Action A
  call_pop : ℕ → Action A
  step : ℕ → Bool → Action A

module _ {A : Type 0} where
  -- A thread that is inside a call does not make another.
  unfoldable pub when_idle : Pc A → Pc A → Pc A
  when_idle p idle = p
  when_idle p busy = busy

  unfoldable pub turn : (C : ℕ) → Bool → ℕ → Pc A → System A → System A
  turn C weak i p s =
      let (q, p') = advance C weak s.queue p in
      record {
        queue = q;
        pc = update s.pc i p';
        accepted = note_accepted weak s.queue p s.accepted;
        delivered = note_delivered C s.queue p s.delivered;
      }

  unfoldable pub act : (C : ℕ) → Action A → System A → System A
  act C (call_push i a) s = record s { pc = update s.pc i (when_idle (push_enter a) (s.pc i)) }
  act C (call_pop i) s = record s { pc = update s.pc i (when_idle pop_enter (s.pc i)) }
  act C (step i weak) s = turn C weak i (s.pc i) s

  unfoldable pub start : A → System A
  start blank = record {
    queue = MpscQueue.init blank;
    pc = λ _. idle;
    accepted = λ _. blank;
    delivered = λ _. none;
  }

-- A load of thread `i` yields `v`.
unfoldable pub load_late : {A : Type 0} → (C : ℕ) → ℕ → ℕ → System A → System A
load_late C i v s = record s { pc = update s.pc i (observe C (s.pc i) v) }

-- The states that some interleaving reaches; with `late`, loads may be late. The head stays `C`
-- below 2^63, which takes longer than any run lasts; past that the signed difference of `PushBack`
-- overflows.
pub data Reach {A : Type 0} (late : Bool) (C : ℕ) (blank : A) : System A → Type 0 where
  begin : Reach late C blank (start blank)
  next :
      {s : System A} (a : Action A)
      → Reach late C blank s
      → s.queue.head + C + 1 < 2 ^ 63
      → Reach late C blank (act C a s)
  delayed :
      {s : System A} (i v : ℕ)
      → late ≡ true
      → Earlier C s.queue (s.pc i) v
      → Reach late C blank s
      → s.queue.head + C + 1 < 2 ^ 63
      → Reach late C blank (load_late C i v s)
