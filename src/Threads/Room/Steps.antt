-- ===== src/Threads/Room/Steps.antt =====
-- The steps of src/sigmax/mpsc_queue.hpp against the number of calls of PushBack.
use native.Mathlib.Decide.{dec_lt}
use sigmax.Base.{
  refl, ◌⊎◌, inl, inr, true, ℕ, ◌+◌, ◌≤◌, ◌<◌, ◌≡◌, ◌^◌, ap, sym, ◌∙◌, subst, arith, Bool, update,
  update_each, false, List, Option, none, some,
}
use sigmax.Base.Int.{is_negative}
use sigmax.QueueState.{success}
use sigmax.MpscQueue.Words.{diff, is_negative-diff}
use sigmax.MpscQueue.Index.{index, index_of_lt}
use sigmax.SharedFifo.{Event, called_push, called_pop, returned_push, returned_pop, log}
use sigmax.SharedFifo.Callers.{pushes}
use sigmax.Threads.{
  Pc, idle, push_enter, push_check, push_claim, push_return, pop_return, System, advance, Earlier,
  observe,
}
use sigmax.Threads.Refine.{turn_event}
use sigmax.Threads.Invariant.{Holds, thread, sequence-lt}
use sigmax.Totals.{Total, Total-update}

module _ {A : Type 0} where
  -- A call that has claimed no position yet.
  abbrev pub waiting : Pc A → ℕ
  waiting (push_enter a) = 1
  waiting (push_check a pos) = 1
  waiting (push_claim a pos) = 1
  waiting _ = 0

  -- An answer of `PushBack` other than SUCCESS.
  abbrev pub refused : Pc A → Bool
  refused (push_return success) = false
  refused (push_return status) = true
  refused _ = false

  -- Each call has claimed one position at most, and none is told anything but SUCCESS.
  pub record Roomy (C : ℕ) (s : System A) (h : List (Event A)) : Type 0 where
    pub waits : ℕ
    pub waiters : Total (λ j. waiting (s.pc j)) waits
    pub claims : s.queue.head + waits ≤ pushes h
    pub only_success : pushes h ≤ C → (i : ℕ) → refused (s.pc i) ≡ false
    -- Until `C` positions have been claimed, each call has claimed one or is going to.
    pub first_lap_claims : (C ≤ s.queue.head) ⊎ (pushes h ≤ s.queue.head + waits)

  pub waiting-le : (pc : ℕ → Pc A) (w i : ℕ) → Total (λ j. waiting (pc j)) w → waiting (pc i) ≤ w
  waiting-le pc w i total =
      let (w', e, _) = Total-update waiting pc i idle w total in omega (arith, e)

  pub pushes-log : (o : Option (Event A)) (h : List (Event A)) → pushes h ≤ pushes (log o h)
  unfolding pushes
  pushes-log none h = omega arith
  pushes-log (some (called_push i a)) h = omega arith
  pushes-log (some (called_pop i)) h = omega arith
  pushes-log (some (returned_push i status)) h = omega arith
  pushes-log (some (returned_pop i answer)) h = omega arith

  pub turn_event-pushes :
      (i : ℕ) (p : Pc A) (h : List (Event A)) → pushes (log (turn_event i p) h) ≡ pushes h
  unfolding pushes turn_event
  turn_event-pushes i (push_return status) h = refl
  turn_event-pushes i (pop_return answer) h = refl
  turn_event-pushes i p h = refl

  -- Thread `i` moves on to `p'`.
  pub Roomy-update :
      {C : ℕ} {h : List (Event A)} (s s' : System A) (i : ℕ) (p' : Pc A) (o : Option (Event A))
      → s'.pc ≡ update s.pc i p'
      → s'.queue.head + waiting p' + pushes h ≤ s.queue.head + waiting (s.pc i) + pushes (log o h)
      → (pushes (log o h) ≤ C → refused p' ≡ false)
      → s.queue.head ≤ s'.queue.head
      → (C ≤ s'.queue.head)
        ⊎ (s.queue.head + waiting (s.pc i) + pushes (log o h)
            ≤ s'.queue.head + waiting p' + pushes h)
      → Roomy C s h
      → Roomy C s' (log o h)
  Roomy-update {C} {h} s s' i p' o at fits ok grows more b =
      let (w, e, total) = Total-update waiting s.pc i p' b.waits b.waiters in
      record {
        waits = w;
        waiters = subst (λ pc. Total (λ j. waiting (pc j)) w) (sym at) total;
        claims = omega (arith, b.claims);
        only_success = λ few j.
            subst (λ pc. refused (pc j) ≡ false) (sym at)
              (update_each (λ p. refused p ≡ false) s.pc i p' (ok few)
                (λ k ne. b.only_success (omega (arith, pushes-log o h)) k) j);
        first_lap_claims = ground (arith, b.first_lap_claims, more);
      }

module _ {A : Type 0} {C : ℕ} (s : System A) (now : Holds C s)
    (room : s.queue.head + C + 1 < 2 ^ 63) where
  -- In the first lap a cell's number is never behind the position.
  cell_number : (pos : ℕ) → pos < C → (index C pos ≡ pos) × (pos ≤ s.queue.sequence (index C pos))
  cell_number pos lt = ground (
    arith,
    index_of_lt C pos lt,
    index_of_lt C (now.0 (index C pos)),
    now.1.home pos,
    now.1.phase pos,
  )

  not_behind :
      (pos v : ℕ)
      → pos < C
      → index C pos ≤ v
      → v ≤ s.queue.sequence (index C pos)
      → is_negative (diff v pos) ≡ false
  not_behind pos v lt lo hi =
      let (same, le) = cell_number pos lt in
      is_negative-diff v pos (omega (arith, sequence-lt now.1 pos)) (omega (arith, now.1.small))
      ∙ ground (arith, same)

  -- A call that stops waiting has claimed a position, or `C` of them have been claimed.
  pub turn-lap :
      (weak : Bool) (i : ℕ) (p : Pc A)
      → s.pc i ≡ p
      → let (q', p') = advance C weak s.queue p in
        (s.queue.head ≤ q'.head)
        × ((C ≤ q'.head) ⊎ (s.queue.head + waiting p ≤ q'.head + waiting p'))
  unfolding advance
  turn-lap weak i (push_check a pos) at = elim (dec_lt pos C) [
    | yes lt ↦
        let (same, le) = cell_number pos lt in
        let fresh =
          not_behind pos (s.queue.sequence (index C pos)) lt (omega arith) (omega arith) in
        rw fresh (omega arith, inr (ground arith))
    | no ge ↦ (omega arith, inl (omega (arith, thread now.1 i _ at)))
  ]
  turn-lap weak i (push_claim a pos) at = (ground (arith, room), inr (ground (arith, room)))
  turn-lap weak i p at = ground (arith, room)

  pub load-lap :
      (v i : ℕ) (p : Pc A)
      → s.pc i ≡ p
      → Earlier C s.queue p v
      → (C ≤ s.queue.head) ⊎ (waiting p ≤ waiting (observe C p v))
  unfolding observe
  load-lap v i (push_check a pos) at (lo, hi) = elim (dec_lt pos C) [
    | yes lt ↦ rw (not_behind pos v lt lo hi) (inr (ground arith))
    | no ge ↦ inl (omega (arith, thread now.1 i _ at))
  ]
  load-lap v i p at e = inr (ground arith)

  module _ {h : List (Event A)} (b : Roomy C s h) (i : ℕ) where
    first_lap : (a : A) (pos : ℕ) → s.pc i ≡ push_check a pos → pushes h ≤ C → pos < C
    first_lap a pos at few =
        omega
          (arith, thread now.1 i _ at, b.claims, waiting-le s.pc b.waits i b.waiters, ap waiting at)

    -- A push that is about to look at its cell finds a number that is not behind.
    no_refusal :
        (a : A) (pos v : ℕ)
        → s.pc i ≡ push_check a pos
        → pushes h ≤ C
        → index C pos ≤ v
        → v ≤ s.queue.sequence (index C pos)
        → is_negative (diff v pos) ≡ false
    no_refusal a pos v at few lo hi = not_behind pos v (first_lap a pos at few) lo hi

    pub turn-few :
        (weak : Bool) (p : Pc A)
        → s.pc i ≡ p
        → pushes h ≤ C
        → refused (advance C weak s.queue p).1 ≡ false
    unfolding advance
    turn-few weak (push_check a pos) at few =
        let (same, le) = cell_number pos (first_lap a pos at few) in
        let fresh =
          no_refusal a pos (s.queue.sequence (index C pos)) at few (omega arith) (omega arith) in
        rw fresh (ground arith)
    turn-few weak p at few = ground arith

    pub turn-claims :
        (weak : Bool) (p : Pc A)
        → (advance C weak s.queue p).0.head + waiting (advance C weak s.queue p).1
          ≤ s.queue.head + waiting p
    unfolding advance
    turn-claims weak p = ground arith

    pub load-few :
        (v : ℕ) (p : Pc A)
        → s.pc i ≡ p
        → Earlier C s.queue p v
        → pushes h ≤ C
        → refused (observe C p v) ≡ false
    unfolding observe
    load-few v (push_check a pos) at (lo, hi) few =
        rw (no_refusal a pos v at few lo hi) (ground arith)
    load-few v (push_return status) at e few = absurd e
    load-few v p at e few = ground arith

    pub load-waiting : (v : ℕ) (p : Pc A) → waiting (observe C p v) ≤ waiting p
    unfolding observe
    load-waiting v p = ground arith
