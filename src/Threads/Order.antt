-- ===== src/Threads/Order.antt =====
-- In which order the calls of src/sigmax/mpsc_queue.hpp claim positions, and what stays as it is.
use sigmax.Base.{
  ℕ, ◌+◌, ◌≤◌, ◌<◌, ◌≡◌, ◌^◌, ◌⊎◌, inl, inr, refl, arith, Bool, true, Bool-cases, not, ◌&&◌, ◌==◌,
}
use sigmax.Threads.{
  Pc, push_claim, push_write, pop_claim, pop_read, System, Action, call_push, call_pop, step, act,
  turn, advance, note_accepted, Reach,
}
use sigmax.Threads.Invariant.{Holds, held, thread, Reach-Holds}

-- Between `s` and `t` the head has not moved, or one `PushBack` has claimed its position, for the
-- element that the record says; likewise the tail, and then the head was past it.
abbrev pub InOrder : {A : Type 0} → System A → System A → Type 0
InOrder s t =
    ((t.queue.head ≡ s.queue.head)
      ⊎ ((i : ℕ) × (t.queue.head ≡ s.queue.head + 1)
          × (t.pc i ≡ push_write (t.accepted s.queue.head) s.queue.head)))
    × ((t.queue.tail ≡ s.queue.tail)
        ⊎ ((i : ℕ) × (t.queue.tail ≡ s.queue.tail + 1)
            × (s.queue.tail < s.queue.head)
            × (t.pc i ≡ pop_read s.queue.tail)))

module _ {A : Type 0} {late : Bool} {C : ℕ} {blank : A} {s : System A} (several : 2 ≤ C)
    (small : C < 2 ^ 63) (r : Reach late C blank s) (room : s.queue.head + C + 1 < 2 ^ 63) where
  abbrev now : Holds C s
  now = Reach-Holds C blank several small r

  turn-InOrder : (i : ℕ) (weak : Bool) (p : Pc A) → s.pc i ≡ p → InOrder s (turn C weak i p s)
  unfolding turn advance note_accepted
  turn-InOrder i weak (push_claim a pos) e = elim (Bool-cases (not weak && (s.queue.head == pos))) [
    | inl won ↦ rw won (inr (i, ground arith, ground arith), inl refl)
    | inr lost ↦ rw lost (inl refl, inl refl)
  ]
  turn-InOrder i weak (pop_claim pos) e = elim (Bool-cases (not weak && (s.queue.tail == pos))) [
    | inl won ↦ rw won (inl refl, inr (i, ground (arith, now.1.ordered), claimed won, ground arith))
    | inr lost ↦ rw lost (inl refl, inl refl)
  ]
    where
      claimed : not weak && (s.queue.tail == pos) ≡ true → s.queue.tail < s.queue.head
      claimed won = omega (arith, held now.1 i pos (thread now.1 i _ e) at_tail, at_tail)
        where
          at_tail : s.queue.tail ≡ pos
          at_tail = ground arith
  turn-InOrder i weak p e = (inl refl, inl refl)

  -- Positions are claimed one after the other: an action moves the head by one position at most,
  -- and if it does, some thread is about to write the element accepted for the head's old
  -- position; it moves the tail by one position at most, and if it does, the head was past the
  -- tail, and some thread is about to read the element of the tail's old position.
  pub claims-InOrder : (a : Action A) → InOrder s (act C a s)
  unfolding act
  claims-InOrder (call_push i a) = (inl refl, inl refl)
  claims-InOrder (call_pop i) = (inl refl, inl refl)
  claims-InOrder (step i weak) = turn-InOrder i weak (s.pc i) refl
