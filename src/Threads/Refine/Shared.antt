-- ===== src/Threads/Refine/Shared.antt =====
-- The list that the queue of src/sigmax/mpsc_queue.hpp stands for under threads, and their calls.
use sigmax.Base.{
  Bool, Option, none, some, List, [], ℕ, ◌-◌, ◌≡◌, ◌≢◌, refl, ap, sym, subst, ◌∙◌, some, update,
  update_at, update_other, value,
}
use native.Mathlib.Decide.{ℕ_discrete}
use sigmax.QueueState.{success}
use sigmax.SharedFifo.{
  Event, called_push, called_pop, returned_push, returned_pop, log, Phase, Shared, resting, pushing,
  entered, push_answered, popping, holding, pop_answered,
}
use sigmax.Threads.{
  Action, call_push, call_pop, step, Reach, begin, next, delayed, Pc, idle, push_enter, push_check,
  push_claim, push_write, push_publish, push_tally, push_return, pop_enter, pop_check, pop_claim,
  pop_read, pop_release, pop_tally, pop_return, System,
}
use sigmax.Threads.Invariant.{reads, writes}
use sigmax.Threads.Quiet.{stretch}

module _ {A : Type 0} where
  -- How far the call of a thread is, for the shared list.
  unfoldable pub phase_of : (ℕ → A) → Pc A → Phase A
  phase_of accepted idle = resting
  phase_of accepted (push_enter a) = pushing a
  phase_of accepted (push_check a pos) = pushing a
  phase_of accepted (push_claim a pos) = pushing a
  phase_of accepted (push_write a pos) = entered
  phase_of accepted (push_publish a pos) = entered
  phase_of accepted push_tally = push_answered success
  phase_of accepted (push_return status) = push_answered status
  phase_of accepted pop_enter = popping
  phase_of accepted (pop_check pos) = popping
  phase_of accepted (pop_claim pos) = popping
  phase_of accepted (pop_read pos) = holding (accepted pos)
  phase_of accepted (pop_release pos a) = holding a
  phase_of accepted (pop_tally a) = pop_answered (value a)
  phase_of accepted (pop_return answer) = pop_answered answer

  -- The list that the queue stands for: the elements accepted for the positions from the tail to
  -- the head.
  unfoldable pub shared : System A → Shared A
  shared s = record {
    items = stretch s.accepted s.queue.tail (s.queue.head - s.queue.tail);
    phase = λ i. phase_of s.accepted (s.pc i);
  }

  -- What a caller sees of a step of thread `i`, and of a call that it would make.
  unfoldable pub turn_event : ℕ → Pc A → Option (Event A)
  turn_event i (push_return status) = some (returned_push i status)
  turn_event i (pop_return answer) = some (returned_pop i answer)
  turn_event i p = none

  unfoldable pub call_event : Event A → Pc A → Option (Event A)
  call_event event idle = some event
  call_event event busy = none

  unfoldable pub event_of : System A → Action A → Option (Event A)
  unfolding turn_event call_event
  event_of s (call_push i a) = call_event (called_push i a) (s.pc i)
  event_of s (call_pop i) = call_event (called_pop i) (s.pc i)
  event_of s (step i weak) = turn_event i (s.pc i)

  -- What the callers have seen in an interleaving, the last first.
  unfoldable pub history :
      {late : Bool} {C : ℕ} {blank : A} {s : System A} → Reach late C blank s → List (Event A)
  unfolding event_of
  history begin = []
  history (next {s} a r room) = log (event_of s a) (history r)
  history (delayed i v l e r room) = history r

  -- Thread `i` moves on, and the records change nothing for the others.
  pub moves :
      (pc : ℕ → Pc A) (f g : ℕ → A) (i : ℕ) (new : Pc A) (q : Phase A)
      → phase_of g new ≡ q
      → ((j : ℕ) → phase_of g (pc j) ≡ phase_of f (pc j))
      → (phase_of g (update pc i new i) ≡ q)
        × ((j : ℕ) → i ≢ j → phase_of g (update pc i new j) ≡ phase_of f (pc j))
  moves pc f g i new q e same = (
    ap (phase_of g) (update_at pc i new) ∙ e,
    λ j ne. ap (phase_of g) (update_other pc i j new ne) ∙ same j,
  )

  -- Thread `i` moves on inside one phase.
  pub pauses :
      (pc : ℕ → Pc A) (f : ℕ → A) (i : ℕ) (old new : Pc A)
      → pc i ≡ old
      → phase_of f new ≡ phase_of f old
      → (j : ℕ) → phase_of f (update pc i new j) ≡ phase_of f (pc j)
  pauses pc f i old new e same j = elim (ℕ_discrete i j) [
    | yes at ↦
        subst (λ k. phase_of f (update pc i new k) ≡ phase_of f (pc k)) at
          (ap (phase_of f) (update_at pc i new) ∙ (same ∙ ap (phase_of f) (sym e)))
    | no ne ↦ ap (phase_of f) (update_other pc i j new ne)
  ]

  pub reads-holding :
      (f : ℕ → A) (x : Pc A) (p : ℕ) → reads x ≡ some p → (b : A) × (phase_of f x ≡ holding b)
  unfolding phase_of
  reads-holding f (pop_read pos) p e = (f pos, refl)
  reads-holding f (pop_release pos a) p e = (a, refl)
  reads-holding f x p e = cc

  pub writes-entered : (f : ℕ → A) (x : Pc A) (p : ℕ) → writes x ≡ some p → phase_of f x ≡ entered
  unfolding phase_of
  writes-entered f (push_write a pos) p e = refl
  writes-entered f (push_publish a pos) p e = refl
  writes-entered f x p e = cc
