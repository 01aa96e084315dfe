-- ===== src/Threads/Taking.antt =====
-- A thread that pops from the queue of src/sigmax/mpsc_queue.hpp while no other thread is in a call
-- and the queue holds an element.
use sigmax.Base.{
  ℕ, ◌≤◌, ◌<◌, ◌≡◌, ◌≢◌, ◌^◌, inl, inr, refl, ap, arith, Bool, true, false, Bool-cases, some,
  unexpected, ◌==◌,
}
use native.Mathlib.Decide.{ℕ_discrete}
use sigmax.Base.Int.{is_zero, is_negative}
use sigmax.QueueState.{queue_is_empty}
use sigmax.MpscQueue.{MpscQueue}
use sigmax.MpscQueue.Words.{add64, diff}
use sigmax.MpscQueue.Index.{index}
use sigmax.Threads.{
  Pc, idle, push_check, push_claim, pop_enter, pop_check, pop_claim, pop_return, System, Reach,
  advance,
}
use sigmax.Threads.Invariant.{writes}
use sigmax.Threads.Retries.{is_popping}
use sigmax.Threads.Answers.{empty_answer}

module _ {A : Type 0} where
  -- The call is going to return an element, as long as no other thread pops.
  abbrev pub Promising : MpscQueue A → Pc A → Type 0
  Promising q pop_enter = q.tail < q.head
  Promising q (pop_check pos) = q.tail < q.head
  Promising q (pop_claim pos) = q.tail < q.head
  Promising q (pop_return (unexpected e)) = ⊥
  Promising q p = Unit

module _ {A : Type 0} {late : Bool} {C : ℕ} {blank : A} {s : System A} (several : 2 ≤ C)
    (small : C < 2 ^ 63) (r : Reach late C blank s) (c : ℕ)
    (alone : (j : ℕ) → c ≢ j → s.pc j ≡ idle) where
  no_writer : (j pos p : ℕ) → s.pc c ≡ pop_check pos → writes (s.pc j) ≢ some p
  no_writer j pos p at = elim (ℕ_discrete c j) [
    | yes e ↦ λ w. ground (arith, ap s.pc e)
    | no ne ↦ λ w. ground (arith, alone j ne)
  ]

  pub advance-Promising :
      (p : Pc A)
      → s.pc c ≡ p
      → is_popping p ≡ true
      → Promising s.queue p
      → let (q', p') = advance C false s.queue p in Promising q' p'
  unfolding advance
  advance-Promising (pop_check pos) at k some_left =
      elim (Bool-cases (is_zero (diff (s.queue.sequence (index C pos)) (add64 pos 1)))) [
        | inl free ↦ rw free some_left
        | inr busy ↦
            elim (Bool-cases (is_negative (diff (s.queue.sequence (index C pos)) (add64 pos 1)))) [
              | inl empty ↦ absurd (impossible (rw (busy, empty) refl))
              | inr behind ↦ rw (busy, behind) some_left
            ]
      ]
    where
      impossible :
          (advance C false s.queue (pop_check pos)).1 ≢ pop_return (unexpected queue_is_empty)
      impossible h = elim (empty_answer several small r c pos false at h) [
        | inl none_left ↦ absurd (omega arith)
        | inr writer ↦ no_writer (writer.0) pos s.queue.tail at (writer.1)
      ]
  advance-Promising (pop_claim pos) at k some_left = elim (Bool-cases (s.queue.tail == pos)) [
    | inl won ↦ rw won tt
    | inr lost ↦ rw lost some_left
  ]
  advance-Promising pop_enter at k some_left = some_left
  advance-Promising (pop_return answer) at k some_left = tt
  advance-Promising (push_check a pos) at k some_left = absurd (ground arith)
  advance-Promising (push_claim a pos) at k some_left = absurd (ground arith)
  advance-Promising p at k some_left = tt
