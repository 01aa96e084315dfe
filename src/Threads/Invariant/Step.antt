-- ===== src/Threads/Invariant/Step.antt =====
-- Every action of the scheduler keeps the invariant, so every reachable state has it.
use sigmax.Base.{
  ℕ, ◌+◌, ◌≤◌, ◌<◌, ◌≡◌, ◌^◌, refl, none, value, update, update_self, arith, Bool-cases, inl, inr,
  Bool, not, ◌&&◌, ◌==◌,
}
use sigmax.Base.Int.{is_zero, is_negative}
use sigmax.MpscQueue.{init}
use sigmax.MpscQueue.Words.{add64, diff}
use sigmax.MpscQueue.Index.{index, index_of_lt, index-lt}
use sigmax.Threads.{
  Pc, idle, push_enter, push_check, push_claim, push_write, push_publish, push_tally, push_return,
  pop_enter, pop_check, pop_claim, pop_read, pop_release, pop_tally, pop_return, advance, System,
  note_accepted, note_delivered, Action, call_push, call_pop, step, when_idle, turn, act, start,
  Reach, begin, next, delayed, Earlier, observe, load_late,
}
use sigmax.Threads.Invariant.Defs.{Local, Inv, Covered, Holds, writes, reads}
use sigmax.Threads.Invariant.Stay.{thread, stay, push_checked, pop_checked}
use sigmax.Threads.Invariant.Cover
use sigmax.Threads.Invariant.Cover.{stay-Covered}
use sigmax.Threads.Invariant.Push
use sigmax.Threads.Invariant.Pop

module _ {A : Type 0} (C : ℕ) (s : System A) (h : Holds C s) (room : s.queue.head + C + 1 < 2 ^ 63)
    (i : ℕ) where
  abbrev inv :
      Inv C s.queue.slots s.queue.sequence s.queue.head s.queue.tail s.accepted s.delivered h.0 s.pc
  inv = h.1

  abbrev cov : Covered C s.queue.sequence s.queue.head s.queue.tail s.accepted s.delivered h.0 s.pc
  cov = h.2

  -- A step to a place that claims no cell, from one that claims none.
  stays :
      (old new : Pc A)
      → s.pc i ≡ old
      → Local C s.queue.slots s.queue.sequence s.queue.head s.queue.tail s.accepted s.delivered h.0
          new
      → writes old ≡ none
      → reads old ≡ none
      → writes new ≡ none
      → reads new ≡ none
      → Holds C (record s { pc = update s.pc i new })
  stays old new e l w r w' r' = (h.0, stay inv i new l w' r', stay-Covered inv cov i old new e w r)

  turn-Holds : (weak : Bool) (p : Pc A) → s.pc i ≡ p → Holds C (turn C weak i p s)
  unfolding turn advance note_accepted note_delivered
  turn-Holds weak idle e = stays _ idle e tt refl refl refl refl
  turn-Holds weak (push_enter a) e =
      stays _ (push_check a s.queue.head) e (omega arith) refl refl refl refl
  turn-Holds weak (push_check a pos) e =
      elim (Bool-cases (is_zero (diff (s.queue.sequence (index C pos)) pos))) [
        | inl free ↦ rw free (
            stays _ (push_claim a pos) e
              (push_checked inv a pos _ (thread inv i _ e) (omega arith) free) refl refl refl refl)
        | inr busy ↦ elim (Bool-cases (is_negative (diff (s.queue.sequence (index C pos)) pos))) [
          | inl full ↦ rw (busy, full) (stays _ _ e tt refl refl refl refl)
          | inr late ↦ rw (busy, late) (stays _ (push_enter a) e tt refl refl refl refl)
        ]
      ]
  turn-Holds weak (push_claim a pos) e = elim (Bool-cases (not weak && (s.queue.head == pos))) [
    | inl won ↦ rw won (
      h.0,
      Push.claim-Inv inv i a pos (thread inv i _ e) (ground arith) room,
      Cover.push_claim-Covered inv cov i a pos e (ground arith) room,
    )
    | inr lost ↦ rw lost (stays _ (push_check a s.queue.head) e (omega arith) refl refl refl refl)
  ]
  turn-Holds weak (push_write a pos) e = (
    h.0,
    Push.write-Inv inv i a pos e (thread inv i _ e),
    Cover.push_write-Covered inv cov i a pos e,
  )
  turn-Holds weak (push_publish a pos) e = (
    h.0,
    Push.publish-Inv inv i a pos e (thread inv i _ e),
    Cover.push_publish-Covered inv cov i a pos e (thread inv i _ e),
  )
  turn-Holds weak push_tally e = stays _ _ e tt refl refl refl refl
  turn-Holds weak (push_return status) e = stays _ idle e tt refl refl refl refl
  turn-Holds weak pop_enter e = stays _ (pop_check s.queue.tail) e (omega arith) refl refl refl refl
  turn-Holds weak (pop_check pos) e =
      elim (Bool-cases (is_zero (diff (s.queue.sequence (index C pos)) (add64 pos 1)))) [
        | inl free ↦ rw free (
            stays _ (pop_claim pos) e (pop_checked inv pos _ (thread inv i _ e) (omega arith) free)
              refl refl refl refl)
        | inr busy ↦
            elim (Bool-cases (is_negative (diff (s.queue.sequence (index C pos)) (add64 pos 1)))) [
              | inl full ↦ rw (busy, full) (stays _ _ e tt refl refl refl refl)
              | inr late ↦ rw (busy, late) (stays _ pop_enter e tt refl refl refl refl)
            ]
      ]
  turn-Holds weak (pop_claim pos) e = elim (Bool-cases (not weak && (s.queue.tail == pos))) [
    | inl won ↦ rw won (
      h.0,
      Pop.claim-Inv inv i pos (thread inv i _ e) (ground arith),
      Cover.pop_claim-Covered inv cov i pos e (ground arith) room,
    )
    | inr lost ↦ rw lost (stays _ (pop_check s.queue.tail) e (omega arith) refl refl refl refl)
  ]
  turn-Holds weak (pop_read pos) e = (
    h.0,
    Pop.read-Inv inv i pos e (thread inv i _ e),
    Cover.pop_read-Covered inv cov i pos e (thread inv i _ e),
  )
  turn-Holds weak (pop_release pos a) e = (
    _,
    Pop.release-Inv inv i pos a e (thread inv i _ e),
    Cover.pop_release-Covered inv cov i a pos e (thread inv i _ e),
  )
  turn-Holds weak (pop_tally a) e =
      stays _ (pop_return (value a)) e (thread inv i _ e) refl refl refl refl
  turn-Holds weak (pop_return answer) e = stays _ idle e tt refl refl refl refl

  -- A load that yields an earlier value.
  load-Holds :
      (v : ℕ) (p : Pc A)
      → s.pc i ≡ p
      → Earlier C s.queue p v
      → Holds C (record s { pc = update s.pc i (observe C p v) })
  unfolding observe
  load-Holds v (push_enter a) e le = stays _ (push_check a v) e le refl refl refl refl
  load-Holds v (push_check a pos) e (lo, le) = elim (Bool-cases (is_zero (diff v pos))) [
    | inl free ↦ rw free (
        stays _ (push_claim a pos) e (push_checked inv a pos v (thread inv i _ e) le free) refl refl
          refl refl)
    | inr busy ↦ elim (Bool-cases (is_negative (diff v pos))) [
      | inl full ↦ rw (busy, full) (stays _ _ e tt refl refl refl refl)
      | inr late ↦ rw (busy, late) (stays _ (push_enter a) e tt refl refl refl refl)
    ]
  ]
  load-Holds v (push_claim a pos) e le = stays _ (push_check a v) e le refl refl refl refl
  load-Holds v pop_enter e le = stays _ (pop_check v) e le refl refl refl refl
  load-Holds v (pop_check pos) e (lo, le) = elim (Bool-cases (is_zero (diff v (add64 pos 1)))) [
    | inl free ↦ rw free (
        stays _ (pop_claim pos) e (pop_checked inv pos v (thread inv i _ e) le free) refl refl refl
          refl)
    | inr busy ↦ elim (Bool-cases (is_negative (diff v (add64 pos 1)))) [
      | inl empty ↦ rw (busy, empty) (stays _ _ e tt refl refl refl refl)
      | inr late ↦ rw (busy, late) (stays _ pop_enter e tt refl refl refl refl)
    ]
  ]
  load-Holds v (pop_claim pos) e le = stays _ (pop_check v) e le refl refl refl refl
  load-Holds v p e le = absurd le

  call-Holds :
      (new p : Pc A)
      → s.pc i ≡ p
      → Local C s.queue.slots s.queue.sequence s.queue.head s.queue.tail s.accepted s.delivered h.0
          new
      → writes new ≡ none
      → reads new ≡ none
      → Holds C (record s { pc = update s.pc i (when_idle new p) })
  unfolding when_idle
  call-Holds new idle e l w r = stays idle new e l refl refl w r
  call-Holds new p e l w r = rw (update_self s.pc i _ e) h

module _ {A : Type 0} (C : ℕ) where
  pub act-Holds :
      (s : System A) (a : Action A)
      → s.queue.head + C + 1 < 2 ^ 63
      → Holds C s
      → Holds C (act C a s)
  unfolding act
  act-Holds s (call_push i a) room h =
      call-Holds C s h room i (push_enter a) (s.pc i) refl tt refl refl
  act-Holds s (call_pop i) room h = call-Holds C s h room i pop_enter (s.pc i) refl tt refl refl
  act-Holds s (step i weak) room h = turn-Holds C s h room i weak (s.pc i) refl

  pub start-Holds : (blank : A) → 2 ≤ C → C < 2 ^ 63 → Holds C (start blank)
  unfolding start init
  start-Holds blank several small = (
    (λ i. i),
    record {
      several = several;
      small = omega arith;
      ordered = omega arith;
      home = λ p. index_of_lt C (index C p) (index-lt C p (omega arith));
      near = λ p. omega (arith, index-lt C p);
      phase = λ p. inl refl;
      claimed = λ p e. absurd (omega arith);
      taken = λ p e. absurd (omega arith);
      kept = λ p e. absurd (omega arith);
      pending = λ p e. refl;
      faithful = λ p a e. cc;
      threads = λ i. tt;
      one_writer = λ j k p a b. cc;
      one_reader = λ j k p a b. cc;
    },
    record {
      writer_of = λ p e lt. absurd (omega arith);
      reader_of = λ p e lt. absurd (omega arith);
      read_all = λ p lt. absurd (omega arith);
    },
  )

  pub Reach-Holds :
      {late : Bool} (blank : A) {s : System A}
      → 2 ≤ C
      → C < 2 ^ 63
      → Reach late C blank s
      → Holds C s
  unfolding load_late
  Reach-Holds blank several small begin = start-Holds blank several small
  Reach-Holds blank several small (next {s} a r room) =
      act-Holds s a room (Reach-Holds blank several small r)
  Reach-Holds blank several small (delayed {s} i v l e r room) =
      load-Holds C s (Reach-Holds blank several small r) room i v (s.pc i) refl e
