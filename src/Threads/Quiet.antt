-- ===== src/Threads/Quiet.antt =====
-- The queue of src/sigmax/mpsc_queue.hpp when every call has returned.
use sigmax.Base.{
  Bool, ℕ, zero, suc, ◌+◌, ◌-◌, ◌≤◌, ◌<◌, ◌≡◌, ◌^◌, ◌⊎◌, inl, inr, refl, none, some, arith, List,
  [], ◌∷◌, ap₂, map,
}
use native.Mathlib.Decide.{dec_lt}
use sigmax.MpscQueue.Index.{index, index-inj}
use sigmax.MpscQueue.Valid.{IsValid, contents, window}
use sigmax.Threads.{Pc, idle, pop_read, System, Reach}
use sigmax.Threads.Invariant.{Local, Inv, Covered, writes, reads, Holds, Reach-Holds}

-- The `n` entries of a table from `p` on.
abbrev pub stretch : {A : Type 0} → (ℕ → A) → ℕ → ℕ → List A
stretch f p zero = []
stretch f p (suc n) = f p ∷ stretch f (suc p) n

module _ {A : Type 0} {late : Bool} {C : ℕ} {blank : A} {s : System A} (several : 2 ≤ C)
    (small : C < 2 ^ 63) (r : Reach late C blank s) where
  abbrev reached : Holds C s
  reached = Reach-Holds C blank several small r

  abbrev inv :
      Inv C s.queue.slots s.queue.sequence s.queue.head s.queue.tail s.accepted s.delivered
        reached.0 s.pc
  inv = reached.1

  abbrev cov :
      Covered C s.queue.sequence s.queue.head s.queue.tail s.accepted s.delivered reached.0 s.pc
  cov = reached.2

  abbrev Here : Pc A → Type 0
  Here =
      Local C s.queue.slots s.queue.sequence s.queue.head s.queue.tail s.accepted s.delivered
        reached.0

  module _ (quiet : (i : ℕ) → s.pc i ≡ idle) where
    no_writer : (p : ℕ) → writes (s.pc p) ≡ none
    no_writer p = rw (quiet p)

    no_reader : (p : ℕ) → reads (s.pc p) ≡ none
    no_reader p = rw (quiet p)

    not_waiting :
        (p : ℕ)
        → s.queue.sequence (index C p) ≡ reached.0 (index C p)
        → s.queue.head ≤ reached.0 (index C p)
    not_waiting p e = elim (dec_lt (reached.0 (index C p)) s.queue.head) [
      | yes lt ↦ let (j, w) = cov.writer_of p e lt in absurd (ground (arith, no_writer j))
      | no ge ↦ omega arith
    ]

    not_taken :
        (p : ℕ)
        → s.queue.sequence (index C p) ≡ reached.0 (index C p) + 1
        → s.queue.tail ≤ reached.0 (index C p)
    not_taken p e = elim (dec_lt (reached.0 (index C p)) s.queue.tail) [
      | yes lt ↦ let (j, w) = cov.reader_of p e lt in absurd (ground (arith, no_reader j))
      | no ge ↦ omega arith
    ]

    -- A position between the tail and the head has its element in its cell.
    held :
        (p : ℕ)
        → s.queue.tail ≤ p
        → p < s.queue.head
        → (s.queue.sequence (index C p) ≡ p + 1) × (s.queue.slots (index C p) ≡ s.accepted p)
    held p lo hi = ground (
      arith,
      inv.claimed p,
      inv.near p,
      inv.home p,
      inv.phase p,
      inv.kept p,
      not_waiting p,
      index-inj C p (reached.0 (index C p)),
    )

    free : (p : ℕ) → s.queue.head ≤ p → p < s.queue.tail + C → s.queue.sequence (index C p) ≡ p
    free p lo hi = ground (
      arith,
      inv.near p,
      inv.home p,
      inv.phase p,
      inv.ordered,
      not_waiting p,
      not_taken p,
      index-inj C p (reached.0 (index C p)),
      index-inj C (reached.0 (index C p)) p,
    )

    within_a_lap : s.queue.head ≤ s.queue.tail + C
    within_a_lap = ground (arith, inv.claimed (s.queue.head - 1), inv.near (s.queue.head - 1))

    delivered_all : (p : ℕ) → p < s.queue.tail → s.delivered p ≡ some (s.accepted p)
    delivered_all p lt = from (cov.read_all p lt)
      where
        from :
            (s.delivered p ≡ some (s.accepted p)) ⊎ ((i : ℕ) × (s.pc i ≡ pop_read p))
            → s.delivered p ≡ some (s.accepted p)
        from (inl d) = d
        from (inr (j, w)) = cc (quiet j)

    stretch-delivered :
        (n p : ℕ)
        → p + n ≤ s.queue.tail
        → stretch s.delivered p n ≡ map some (stretch s.accepted p n)
    stretch-delivered zero p hi = refl
    stretch-delivered (suc n) p hi =
        ap₂ ◌∷◌ (delivered_all p (omega arith)) (stretch-delivered n (suc p) (omega arith))

    window-held :
        (n p : ℕ)
        → s.queue.tail ≤ p
        → p + n ≤ s.queue.head
        → window C s.queue.slots p n ≡ stretch s.accepted p n
    window-held zero p lo hi = refl
    window-held (suc n) p lo hi =
        ap₂ ◌∷◌ (held p lo (omega arith)).1 (window-held n (suc p) (omega arith) (omega arith))

    -- When no thread is in a call, the queue is one that a single thread may go on with; the
    -- elements delivered for the positions below the tail are those accepted for them, so none is
    -- lost; and the queue holds the elements accepted for the other positions, in their order.
    pub quiet_lem :
        IsValid C s.queue
        × (stretch s.delivered 0 s.queue.tail ≡ map some (stretch s.accepted 0 s.queue.tail))
        × (contents C s.queue ≡ stretch s.accepted s.queue.tail (s.queue.head - s.queue.tail))
    unfolding contents
    quiet_lem = (
      record {
        several = several;
        ordered = inv.ordered;
        fits = within_a_lap;
        small = omega (arith, inv.small);
        holding = λ p lo hi. (held p lo hi).0;
        waiting = free;
      },
      stretch-delivered s.queue.tail 0 (omega arith),
      window-held (s.queue.head - s.queue.tail) s.queue.tail (omega arith)
          (omega (arith, inv.ordered)),
    )
