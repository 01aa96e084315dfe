-- ===== src/Threads/Retries/Step.antt =====
-- One step of a call of src/sigmax/mpsc_queue.hpp leaves it less to do.
use sigmax.Base.{ℕ, suc, ◌+◌, ◌*◌, ◌≤◌, ◌<◌, ◌≡◌, ◌≢◌, ◌^◌, refl, arith, update_other, Bool, true}
use sigmax.MpscQueue.{MpscQueue}
use sigmax.MpscQueue.Words.{is_zero-diff, is_negative-diff, add64}
use sigmax.MpscQueue.Index.{index, index-inj}
use sigmax.Threads.{
  Pc, idle, push_enter, push_check, push_claim, push_write, push_publish, push_tally, push_return,
  pop_enter, pop_check, pop_claim, System, Action, call_push, call_pop, step, when_idle, act, turn,
  advance, Reach,
}
use sigmax.Threads.Invariant.{Inv, thread, sequence-lt, Reach-Holds}
use sigmax.Threads.Retries.{failures, actor, is_pushing, is_popping, left_to_push, left_to_pop}

module _ {A : Type 0} where
  module _ {late : Bool} {C : ℕ} {blank : A} {t : System A} (several : 2 ≤ C) (small : C < 2 ^ 63)
      (r : Reach late C blank t) (i : ℕ) (weak : Bool) where
    inv :
        Inv C t.queue.slots t.queue.sequence t.queue.head t.queue.tail t.accepted t.delivered
          (Reach-Holds C blank several small r).0
          t.pc
    inv = (Reach-Holds C blank several small r).1

    -- A push that finds its cell ahead of it has loaded an old head.
    push_behind :
        (a : A) (pos : ℕ)
        → t.pc i ≡ push_check a pos
        → (pos ≤ t.queue.head)
          × (pos < t.queue.sequence (index C pos) → pos < t.queue.head)
          × (t.queue.sequence (index C pos) < 2 ^ 63)
          × (t.queue.head < 2 ^ 63)
    push_behind a pos at = ground (
      arith,
      thread inv i (push_check a pos) at,
      inv.small,
      inv.ordered,
      sequence-lt inv pos,
      inv.near pos,
      inv.phase pos,
      inv.home pos,
      index-inj C pos ((Reach-Holds C blank several small r).0 (index C pos)),
    )

    pop_behind :
        (pos : ℕ)
        → t.pc i ≡ pop_check pos
        → (pos ≤ t.queue.tail)
          × (pos + 1 < t.queue.sequence (index C pos) → pos < t.queue.tail)
          × (t.queue.sequence (index C pos) < 2 ^ 63)
          × (t.queue.tail + 1 < 2 ^ 63)
    pop_behind pos at = ground (
      arith,
      thread inv i (pop_check pos) at,
      inv.small,
      inv.ordered,
      sequence-lt inv pos,
      inv.near pos,
      inv.phase pos,
      inv.home pos,
      index-inj C pos ((Reach-Holds C blank several small r).0 (index C pos)),
    )

    -- A step of a push call leaves it less to do, or uses up a spurious failure.
    pub push_step-le :
        (p : Pc A)
        → t.pc i ≡ p
        → p ≢ idle
        → is_pushing p ≡ true
        → let (q', p') = advance C weak t.queue p in
          (is_pushing p' ≡ true)
          × (suc (left_to_push q'.head p') ≤ left_to_push t.queue.head p + 2 * failures weak)
    unfolding advance
    push_step-le idle at busy k = absurd (busy refl)
    push_step-le (push_enter a) at busy k = ground arith
    push_step-le (push_check a pos) at busy k =
        let (le, ahead, seq_small, head_small) = push_behind a pos at in
        ground (
          arith,
          is_zero-diff (t.queue.sequence (index C pos)) pos seq_small (omega arith),
          is_negative-diff (t.queue.sequence (index C pos)) pos seq_small (omega arith),
        )
    push_step-le (push_claim a pos) at busy k = ground (arith, thread inv i (push_claim a pos) at)
    push_step-le (push_write a pos) at busy k = ground arith
    push_step-le (push_publish a pos) at busy k = ground arith
    push_step-le push_tally at busy k = ground arith
    push_step-le (push_return status) at busy k = ground arith
    push_step-le _ at busy k = ground arith

    pub pop_step-le :
        (p : Pc A)
        → t.pc i ≡ p
        → p ≢ idle
        → is_popping p ≡ true
        → let (q', p') = advance C weak t.queue p in
          (is_popping p' ≡ true)
          × (suc (left_to_pop q'.tail p') ≤ left_to_pop t.queue.tail p + 2 * failures weak)
    unfolding advance
    pop_step-le idle at busy k = absurd (busy refl)
    pop_step-le pop_enter at busy k = ground arith
    pop_step-le (pop_check pos) at busy k =
        let (le, ahead, seq_small, tail_small) = pop_behind pos at in
        ground (
          arith,
          is_zero-diff (t.queue.sequence (index C pos)) (add64 pos 1) seq_small (ground arith),
          is_negative-diff (t.queue.sequence (index C pos)) (add64 pos 1) seq_small (ground arith),
        )
    pop_step-le (pop_claim pos) at busy k = ground (arith, thread inv i (pop_claim pos) at)
    pop_step-le p at busy k = ground arith

  module _ (C : ℕ) where
    pub advance-counters :
        (weak : Bool) (q : MpscQueue A) (p : Pc A)
        → q.head + 1 < 2 ^ 63
        → q.tail + 1 < 2 ^ 63
        → let q' = (advance C weak q p).0 in (q.head ≤ q'.head) × (q.tail ≤ q'.tail)
    unfolding advance
    advance-counters weak q p h k = ground arith

    pub act-counters :
        (t : System A) (a : Action A)
        → t.queue.head + 1 < 2 ^ 63
        → t.queue.tail + 1 < 2 ^ 63
        → let q' = (act C a t).queue in (t.queue.head ≤ q'.head) × (t.queue.tail ≤ q'.tail)
    unfolding act turn
    act-counters t (call_push i a) h k = (omega arith, omega arith)
    act-counters t (call_pop i) h k = (omega arith, omega arith)
    act-counters t (step i weak) h k = advance-counters weak t.queue (t.pc i) h k

    pub act-others : (t : System A) (a : Action A) (i : ℕ) → actor a ≢ i → (act C a t).pc i ≡ t.pc i
    unfolding act turn
    act-others t (call_push j a) i ne = update_other t.pc j i (when_idle (push_enter a) (t.pc j)) ne
    act-others t (call_pop j) i ne = update_other t.pc j i (when_idle pop_enter (t.pc j)) ne
    act-others t (step j weak) i ne = update_other t.pc j i (advance C weak t.queue (t.pc j)).1 ne

    pub left_to_push-head :
        (h h' : ℕ) (p : Pc A) → h ≤ h' → left_to_push h' p + 2 * h ≤ left_to_push h p + 2 * h'
    left_to_push-head h h' p le = ground arith

    pub left_to_pop-tail :
        (h h' : ℕ) (p : Pc A) → h ≤ h' → left_to_pop h' p + 2 * h ≤ left_to_pop h p + 2 * h'
    left_to_pop-tail h h' p le = ground arith
