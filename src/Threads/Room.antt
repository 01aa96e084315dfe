-- ===== src/Threads/Room.antt =====
-- A queue of src/sigmax/mpsc_queue.hpp that is given no more elements than it has cells is never
-- full for a caller, late loads included.
mod Steps
use sigmax.Base.{
  ◌⊎◌, inr, ℕ, ◌+◌, ◌≤◌, ◌<◌, ◌≡◌, ◌^◌, refl, ap, subst, arith, Bool, update, false, List, ◌∷◌,
  none, some,
}
use sigmax.MpscQueue.{init}
use sigmax.SharedFifo.{Event, called_push, called_pop, log}
use sigmax.Threads.{
  Pc, idle, push_enter, pop_enter, System, call_push, call_pop, step, act, turn, advance, when_idle,
  start, Reach, begin, next, delayed, observe, load_late,
}
use sigmax.Threads.Invariant.{Reach-Holds}
use sigmax.Totals.{Total-none}
use sigmax.Threads.Refine.{turn_event, call_event, event_of, history}
use sigmax.Threads.Room.Steps.{
  waiting, Roomy, pushes-log, Roomy-update, refused, turn-lap, load-lap, turn_event-pushes,
  turn-few, turn-claims, load-few, load-waiting,
}
use sigmax.SharedFifo.Callers.{pushes}
pub use sigmax.Threads.Room.Steps.{refused, pushes-log, waiting}

module _ {A : Type 0} {C : ℕ} where
  call-Roomy :
      {s : System A} {h : List (Event A)} (i : ℕ) (new p : Pc A) (e : Event A)
      → s.pc i ≡ p
      → refused new ≡ false
      → waiting new + pushes h ≡ pushes (e ∷ h)
      → Roomy C s h
      → Roomy C (record s { pc = update s.pc i (when_idle new p) }) (log (call_event e p) h)
  unfolding when_idle call_event
  call-Roomy {s} i new idle e at ok fits b =
      Roomy-update s _ i new (some e) refl (omega arith) (λ few. ok) (omega arith)
        (inr (omega (arith, ap waiting at))) b
  call-Roomy {s} i new p e at ok fits b =
      Roomy-update s _ i p none refl (omega (arith, ap waiting at))
        (λ few. subst (λ x. refused x ≡ false) at (b.only_success few i)) (omega arith)
        (inr (omega (arith, ap waiting at))) b

module _ {A : Type 0} {late : Bool} {C : ℕ} {blank : A} (several : 2 ≤ C) (small : C < 2 ^ 63) where
  Reach-Roomy : {s : System A} (r : Reach late C blank s) → Roomy C s (history r)
  unfolding start init history event_of act turn load_late pushes
  Reach-Roomy begin = record {
    waits = 0;
    waiters = record { bound = 0; beyond = λ j le. refl; sums = refl };
    claims = omega arith;
    only_success = λ few i. refl;
    first_lap_claims = inr (omega arith);
  }
  Reach-Roomy (next {s} (call_push i a) r room) =
      call-Roomy i (push_enter a) (s.pc i) (called_push i a) refl refl (omega arith) (Reach-Roomy r)
  Reach-Roomy (next {s} (call_pop i) r room) =
      call-Roomy i pop_enter (s.pc i) (called_pop i) refl refl (omega arith) (Reach-Roomy r)
  Reach-Roomy (next {s} (step i weak) r room) =
      let now = Reach-Holds C blank several small r in
      let b = Reach-Roomy r in
      Roomy-update s (act C (step i weak) s) i (advance C weak s.queue (s.pc i)).1
        (turn_event i (s.pc i)) refl
        (omega (
          arith,
          turn-claims s now room b i weak (s.pc i),
          pushes-log (turn_event i (s.pc i)) (history r),
        ))
        (λ few.
          turn-few s now room b i weak (s.pc i) refl
            (omega (arith, pushes-log (turn_event i (s.pc i)) (history r))))
        (turn-lap s now room weak i (s.pc i) refl).0
        (ground (
          arith,
          (turn-lap s now room weak i (s.pc i) refl).1,
          turn_event-pushes i (s.pc i) (history r),
        ))
        b
  Reach-Roomy (delayed {s} i v on e r room) =
      let now = Reach-Holds C blank several small r in
      let b = Reach-Roomy r in
      Roomy-update s (load_late C i v s) i (observe C (s.pc i) v) none refl
        (omega (arith, load-waiting s now room b i v (s.pc i)))
        (λ few. load-few s now room b i v (s.pc i) refl e few) (omega arith)
        (ground (arith, load-lap s now room v i (s.pc i) refl e)) b

  module _ {s : System A} (r : Reach late C blank s) where
    -- In every reachable state, the positions claimed by producers are no more than the calls of
    -- `PushBack`.
    pub claims_called : s.queue.head ≤ pushes (history r)
    claims_called = omega (arith, (Reach-Roomy r).claims)

    -- As long as `PushBack` has been called at most `C` times, by any threads, every call that is
    -- about to answer answers SUCCESS, even if loads are late.
    pub never_refused : pushes (history r) ≤ C → (i : ℕ) → refused (s.pc i) ≡ false
    never_refused few = (Reach-Roomy r).only_success few

    -- When no thread waits to claim a position, either `C` positions or more have been claimed, or
    -- one for each call.
    pub all_claimed :
        ((i : ℕ) → waiting (s.pc i) ≡ 0) → (C ≤ s.queue.head) ⊎ (s.queue.head ≡ pushes (history r))
    all_claimed none_waiting =
        let b = Reach-Roomy r in
        let z : b.waits ≡ 0 = Total-none (λ j. waiting (s.pc j)) b.waits none_waiting b.waiters in
        ground (arith, b.first_lap_claims, b.claims)
