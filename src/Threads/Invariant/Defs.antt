-- ===== src/Threads/Invariant/Defs.antt =====
-- The invariant of the interleaved calls of src/sigmax/mpsc_queue.hpp.
use sigmax.Base.{ℕ, ◌+◌, ◌≤◌, ◌<◌, ◌≡◌, ◌⊎◌, ◌^◌, Option, none, some, value}
use sigmax.MpscQueue.Index.{index}
use sigmax.Threads.{
  System, Pc, push_check, push_claim, push_write, push_publish, pop_check, pop_claim, pop_read,
  pop_release, pop_tally, pop_return,
}

module _ {A : Type 0} where
  -- The position whose cell a thread has claimed for writing, or for reading.
  abbrev pub writes : Pc A → Option ℕ
  writes (push_write a pos) = some pos
  writes (push_publish a pos) = some pos
  writes _ = none

  abbrev pub reads : Pc A → Option ℕ
  reads (pop_read pos) = some pos
  reads (pop_release pos a) = some pos
  reads _ = none

module _ {A : Type 0} (C : ℕ) (slots : ℕ → A) (sequence : ℕ → ℕ) (head tail : ℕ) (accepted : ℕ → A)
    (delivered : ℕ → Option A) (lap : ℕ → ℕ) where
  -- What the local variables of a thread say. `lap i` is the position that cell `i` stands for now.
  abbrev pub Local : Pc A → Type 0
  Local (push_check a pos) = pos ≤ head
  Local (push_claim a pos) = (pos ≤ head) × (pos ≤ lap (index C pos))
  Local (push_write a pos) =
      (pos < head) × (lap (index C pos) ≡ pos) × (sequence (index C pos) ≡ pos) × (accepted pos ≡ a)
  Local (push_publish a pos) =
      (pos < head)
      × (lap (index C pos) ≡ pos)
      × (sequence (index C pos) ≡ pos)
      × (accepted pos ≡ a)
      × (slots (index C pos) ≡ a)
  Local (pop_check pos) = pos ≤ tail
  Local (pop_claim pos) = (pos ≤ tail) × (pos < sequence (index C pos))
  Local (pop_read pos) =
      (pos < tail)
      × (lap (index C pos) ≡ pos)
      × (sequence (index C pos) ≡ pos + 1)
      × (delivered pos ≡ none)
  Local (pop_release pos a) =
      (pos < tail)
      × (lap (index C pos) ≡ pos)
      × (sequence (index C pos) ≡ pos + 1)
      × (delivered pos ≡ some a)
  Local (pop_tally a) = (p : ℕ) × (p < tail) × (delivered p ≡ some a)
  Local (pop_return (value a)) = (p : ℕ) × (p < tail) × (delivered p ≡ some a)
  Local _ = Unit

pub record Inv {A : Type 0} (C : ℕ) (slots : ℕ → A) (sequence : ℕ → ℕ) (head tail : ℕ)
    (accepted : ℕ → A) (delivered : ℕ → Option A) (lap : ℕ → ℕ) (pc : ℕ → Pc A) : Type 0 where
  pub several : 2 ≤ C
  pub small : head + C + 1 ≤ 2 ^ 63
  pub ordered : tail ≤ head
  -- A cell waits for the element of its position, or holds it; it is at most one lap ahead.
  pub home : (p : ℕ) → index C (lap (index C p)) ≡ index C p
  pub near : (p : ℕ) → lap (index C p) < tail + C
  pub phase :
      (p : ℕ)
      → (sequence (index C p) ≡ lap (index C p))
        ⊎ ((sequence (index C p) ≡ lap (index C p) + 1) × (lap (index C p) < head))
  pub claimed : (p : ℕ) → p < head → p ≤ lap (index C p)
  pub taken : (p : ℕ) → p < tail → p < sequence (index C p)
  -- What a cell holds is the element accepted for its position.
  pub kept :
      (p : ℕ)
      → sequence (index C p) ≡ lap (index C p) + 1
      → slots (index C p) ≡ accepted (lap (index C p))
  -- What was delivered for a position is what was accepted for it; past the tail, nothing yet.
  pub pending : (p : ℕ) → tail ≤ p → delivered p ≡ none
  pub faithful : (p : ℕ) (a : A) → delivered p ≡ some a → accepted p ≡ a
  pub threads : (i : ℕ) → Local C slots sequence head tail accepted delivered lap (pc i)
  pub one_writer : (i j p : ℕ) → writes (pc i) ≡ some p → writes (pc j) ≡ some p → i ≡ j
  pub one_reader : (i j p : ℕ) → reads (pc i) ≡ some p → reads (pc j) ≡ some p → i ≡ j

-- What lies between two calls has a thread that will finish it.
pub record Covered {A : Type 0} (C : ℕ) (sequence : ℕ → ℕ) (head tail : ℕ) (accepted : ℕ → A)
    (delivered : ℕ → Option A) (lap : ℕ → ℕ) (pc : ℕ → Pc A) : Type 0 where
  pub writer_of :
      (p : ℕ)
      → sequence (index C p) ≡ lap (index C p)
      → lap (index C p) < head
      → (i : ℕ) × (writes (pc i) ≡ some (lap (index C p)))
  pub reader_of :
      (p : ℕ)
      → sequence (index C p) ≡ lap (index C p) + 1
      → lap (index C p) < tail
      → (i : ℕ) × (reads (pc i) ≡ some (lap (index C p)))
  pub read_all :
      (p : ℕ) → p < tail → (delivered p ≡ some (accepted p)) ⊎ ((i : ℕ) × (pc i ≡ pop_read p))

-- The invariant of a system, for some lap of each cell.
abbrev pub Holds : {A : Type 0} → ℕ → System A → Type 0
Holds C s =
    (lap : ℕ → ℕ) × Inv C s.queue.slots s.queue.sequence s.queue.head s.queue.tail s.accepted
      s.delivered lap s.pc
    × Covered C s.queue.sequence s.queue.head s.queue.tail s.accepted s.delivered lap s.pc
