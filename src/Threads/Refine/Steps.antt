-- ===== src/Threads/Refine/Steps.antt =====
-- Every step of the queue of src/sigmax/mpsc_queue.hpp under threads is one of the shared list.
use sigmax.Base.{
  ℕ, ◌+◌, ◌≤◌, ◌<◌, ◌≡◌, ◌^◌, inl, inr, refl, ap, arith, update, value, unexpected, Bool, true,
  none, not, ◌&&◌, ◌==◌, Bool-cases,
}
use sigmax.QueueState.{success, queue_is_empty, queue_is_full}
use sigmax.Base.Int.{is_zero, is_negative}
use sigmax.MpscQueue.Words.{add64, diff}
use sigmax.MpscQueue.Index.{index}
use sigmax.SharedFifo
use sigmax.SharedFifo.{
  called_push, called_pop, Phase, Shared, resting, pushing, entered, push_answered, popping,
  holding, pop_answered, Advances, SameItems, at_rest, Runs,
}
use sigmax.Threads.{
  Pc, idle, push_enter, push_check, push_claim, push_write, push_publish, push_tally, push_return,
  pop_enter, pop_check, pop_claim, pop_read, pop_release, pop_tally, pop_return, advance, System,
  note_accepted, note_delivered, Action, call_push, call_pop, step, when_idle, turn, act, start,
  Reach, begin, next, delayed, Earlier, observe, load_late,
}
use sigmax.MpscQueue.{init}
use sigmax.Threads.Refine.Shared.{phase_of, shared, turn_event, call_event, event_of, history}
use sigmax.Threads.Refine.Claims.{
  paused, moved, was, may_refuse, may_find_none, enters, leaves, reads_accepted,
}

module _ {A : Type 0} {late : Bool} {C : ℕ} {blank : A} {s : System A} (several : 2 ≤ C)
    (small : C < 2 ^ 63) (r : Reach late C blank s) (room : s.queue.head + C + 1 < 2 ^ 63)
    (i : ℕ) where
  turn-Step :
      (weak : Bool) (p : Pc A)
      → s.pc i ≡ p
      → SharedFifo.Step late C (turn_event i p) (shared s) (shared (turn C weak i p s))
  unfolding turn_event turn advance note_accepted note_delivered phase_of
  turn-Step weak idle e = paused several small r room i idle idle _ e refl refl refl _
  turn-Step weak (push_enter a) e =
      paused several small r room i (push_enter a) (push_check a s.queue.head) _ e refl refl refl _
  turn-Step weak (push_check a pos) e =
      elim (Bool-cases (is_zero (diff (s.queue.sequence (index C pos)) pos))) [
        | inl free ↦ rw free (
            paused several small r room i (push_check a pos) (push_claim a pos) _ e refl refl refl
              _)
        | inr busy ↦ elim (Bool-cases (is_negative (diff (s.queue.sequence (index C pos)) pos))) [
          | inl full ↦
              let (same, on) =
                moved several small r room i (push_check a pos) (push_return queue_is_full) s.queue
                  refl refl s.delivered in
              rw (busy, full)
                (SharedFifo.refuse i a refl (was several small r room i _ e)
                  (may_refuse several small r room i pos a weak e (rw (busy, full) refl)) same on)
          | inr late ↦
              rw (busy, late)
                (paused several small r room i (push_check a pos) (push_enter a) _ e refl refl refl
                  _)
        ]
      ]
  turn-Step weak (push_claim a pos) e = elim (Bool-cases (not weak && (s.queue.head == pos))) [
    | inl won ↦ rw won (enters several small r room i pos a e (ground arith))
    | inr lost ↦ rw lost (
        paused several small r room i (push_claim a pos) (push_check a s.queue.head) _ e refl refl
          refl _)
  ]
  turn-Step weak (push_write a pos) e =
      paused several small r room i (push_write a pos) (push_publish a pos) _ e refl refl refl _
  turn-Step weak (push_publish a pos) e =
      let (same, on) =
        moved several small r room i (push_publish a pos) push_tally _ refl refl s.delivered in
      SharedFifo.accept i refl (was several small r room i _ e) same on
  turn-Step weak push_tally e =
      paused several small r room i push_tally (push_return success) _ e refl refl refl _
  turn-Step weak (push_return status) e =
      let (same, on) =
        moved several small r room i (push_return status) idle s.queue refl refl s.delivered in
      SharedFifo.return_push i status refl (was several small r room i _ e) same on
  turn-Step weak pop_enter e =
      paused several small r room i pop_enter (pop_check s.queue.tail) _ e refl refl refl _
  turn-Step weak (pop_check pos) e =
      elim (Bool-cases (is_zero (diff (s.queue.sequence (index C pos)) (add64 pos 1)))) [
        | inl free ↦
            rw free
              (paused several small r room i (pop_check pos) (pop_claim pos) _ e refl refl refl _)
        | inr busy ↦
            elim (Bool-cases (is_negative (diff (s.queue.sequence (index C pos)) (add64 pos 1)))) [
              | inl empty ↦
                  let (same, on) =
                    moved several small r room i (pop_check pos)
                      (pop_return (unexpected queue_is_empty)) s.queue refl refl s.delivered in
                  rw (busy, empty)
                    (SharedFifo.find_none i refl (was several small r room i _ e)
                      (may_find_none several small r room i pos weak e (rw (busy, empty) refl)) same
                      on)
              | inr late ↦
                  rw (busy, late)
                    (paused several small r room i (pop_check pos) pop_enter _ e refl refl refl _)
            ]
      ]
  turn-Step weak (pop_claim pos) e = elim (Bool-cases (not weak && (s.queue.tail == pos))) [
    | inl won ↦ rw won (leaves several small r room i pos e (ground arith) _)
    | inr lost ↦ rw lost (
        paused several small r room i (pop_claim pos) (pop_check s.queue.tail) _ e refl refl refl _)
  ]
  turn-Step weak (pop_read pos) e =
      paused several small r room i (pop_read pos) (pop_release pos (s.queue.slots (index C pos))) _
        e (ap holding (reads_accepted several small r room i pos e)) refl refl _
  turn-Step weak (pop_release pos a) e =
      let (same, on) =
        moved several small r room i (pop_release pos a) (pop_tally a) _ refl refl s.delivered in
      SharedFifo.deliver i a refl (was several small r room i _ e) same on
  turn-Step weak (pop_tally a) e =
      paused several small r room i (pop_tally a) (pop_return (value a)) _ e refl refl refl _
  turn-Step weak (pop_return answer) e =
      let (same, on) =
        moved several small r room i (pop_return answer) idle s.queue refl refl s.delivered in
      SharedFifo.return_pop i answer refl (was several small r room i _ e) same on

  -- A load that yields an earlier value, in which a call may fail for a reason that has passed.
  load-Step :
      late ≡ true
      → (v : ℕ) (p : Pc A) → s.pc i ≡ p
      → Earlier C s.queue p v
      → SharedFifo.Step late C none
          (shared s)
          (shared (record s { pc = update s.pc i (observe C p v) }))
  unfolding observe phase_of
  load-Step l v (push_enter a) e le =
      paused several small r room i (push_enter a) (push_check a v) _ e refl refl refl _
  load-Step l v (push_check a pos) e le = elim (Bool-cases (is_zero (diff v pos))) [
    | inl free ↦
        rw free
          (paused several small r room i (push_check a pos) (push_claim a pos) _ e refl refl refl _)
    | inr busy ↦ elim (Bool-cases (is_negative (diff v pos))) [
      | inl full ↦
          let (same, on) =
            moved several small r room i (push_check a pos) (push_return queue_is_full) s.queue refl
              refl s.delivered in
          rw (busy, full)
            (SharedFifo.refuse_late i a l refl (was several small r room i _ e) same on)
      | inr behind ↦
          rw (busy, behind)
            (paused several small r room i (push_check a pos) (push_enter a) _ e refl refl refl _)
    ]
  ]
  load-Step l v (push_claim a pos) e le =
      paused several small r room i (push_claim a pos) (push_check a v) _ e refl refl refl _
  load-Step l v pop_enter e le =
      paused several small r room i pop_enter (pop_check v) _ e refl refl refl _
  load-Step l v (pop_check pos) e le = elim (Bool-cases (is_zero (diff v (add64 pos 1)))) [
    | inl free ↦
        rw free (paused several small r room i (pop_check pos) (pop_claim pos) _ e refl refl refl _)
    | inr busy ↦ elim (Bool-cases (is_negative (diff v (add64 pos 1)))) [
      | inl empty ↦
          let (same, on) =
            moved several small r room i (pop_check pos) (pop_return (unexpected queue_is_empty))
              s.queue refl refl s.delivered in
          rw (busy, empty)
            (SharedFifo.find_none_late i l refl (was several small r room i _ e) same on)
      | inr behind ↦
          rw (busy, behind)
            (paused several small r room i (pop_check pos) pop_enter _ e refl refl refl _)
    ]
  ]
  load-Step l v (pop_claim pos) e le =
      paused several small r room i (pop_claim pos) (pop_check v) _ e refl refl refl _
  load-Step l v p e le = absurd le

  -- A thread that is in a call does not make another.
  call_push-Step :
      (a : A) (p : Pc A)
      → s.pc i ≡ p
      → SharedFifo.Step late C
          (call_event (called_push i a) p)
          (shared s)
          (shared (record s { pc = update s.pc i (when_idle (push_enter a) p) }))
  unfolding when_idle call_event phase_of
  call_push-Step a idle e =
      let (same, on) =
        moved several small r room i idle (push_enter a) s.queue refl refl s.delivered in
      SharedFifo.call_push i a refl (was several small r room i idle e) same on
  call_push-Step a p e = paused several small r room i p p s.queue e refl refl refl s.delivered

  call_pop-Step :
      (p : Pc A)
      → s.pc i ≡ p
      → SharedFifo.Step late C
          (call_event (called_pop i) p)
          (shared s)
          (shared (record s { pc = update s.pc i (when_idle pop_enter p) }))
  unfolding when_idle call_event phase_of
  call_pop-Step idle e =
      let (same, on) = moved several small r room i idle pop_enter s.queue refl refl s.delivered in
      SharedFifo.call_pop i refl (was several small r room i idle e) same on
  call_pop-Step p e = paused several small r room i p p s.queue e refl refl refl s.delivered

module _ {A : Type 0} {late : Bool} {C : ℕ} {blank : A} (several : 2 ≤ C) (small : C < 2 ^ 63) where
  act-Step :
      {s : System A}
      → Reach late C blank s
      → s.queue.head + C + 1 < 2 ^ 63
      → (a : Action A) → SharedFifo.Step late C (event_of s a) (shared s) (shared (act C a s))
  unfolding act event_of
  act-Step {s} r room (call_push i a) = call_push-Step several small r room i a (s.pc i) refl
  act-Step {s} r room (call_pop i) = call_pop-Step several small r room i (s.pc i) refl
  act-Step {s} r room (step i weak) = turn-Step several small r room i weak (s.pc i) refl

  -- Whatever the interleaving, the list that the queue stands for and the progress of the calls
  -- change only as a shared list of capacity `C` allows, with the calls and answers that the
  -- callers of the queue see; only if loads may be late may a call also fail for a reason that has
  -- passed.
  pub Reach-Runs : {s : System A} (r : Reach late C blank s) → Runs late C (history r) (shared s)
  unfolding shared history start init phase_of load_late
  Reach-Runs begin = SharedFifo.start
  Reach-Runs (next {s} a r room) = SharedFifo.step _ (Reach-Runs r) (act-Step r room a)
  Reach-Runs (delayed {s} i v l e r room) =
      SharedFifo.step none (Reach-Runs r) (load-Step several small r room i l v (s.pc i) refl e)
