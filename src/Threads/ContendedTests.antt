-- ===== src/Threads/ContendedTests.antt =====
-- Two producers that contend for a position of the queue of src/sigmax/mpsc_queue.hpp.
use sigmax.Base.{
  ℕ, suc, ◌+◌, ◌<◌, ◌-◌, ◌*◌, ◌≡◌, ◌⊎◌, inl, inr, ◌^◌, refl, arith, Bool, true, false, length, [],
  ◌∷◌,
}
use mathlib.Core.List.{foldl}
use native.Mathlib.Decide.{ℕ_discrete, dec_lt}
use sigmax.MpscQueue.{get_push_count, get_pop_count}
use sigmax.MpscQueue.Valid.{contents}
use sigmax.Threads.{idle, System, Action, call_push, call_pop, step, act}
use sigmax.Threads.Sides.{is_busy}
use sigmax.Threads.Play.{Run, run, steps, settled, settled-idle}
use sigmax.Threads.Retries.{actor, failures, Within, called, other, own}
use sigmax.Threads.Retries.Bound.{push_call_steps, pop_call_steps}
use sigmax.Threads.Counts.{quiet_counts}

-- A state that a run of thread 1 and others reaches from `s`.
record Trip (s : System ℕ) : Type 0 where
  taken : ℕ
  spurious : ℕ
  last : System ℕ
  within : Within false 2 1 s taken spurious last

unfoldable own_step : {s : System ℕ} → Trip s → Bool → Trip s
unfolding dec_lt
own_step t weak = elim (dec_lt (t.last.queue.head + 2 + 1) (2 ^ 63)) [
  | yes room ↦ elim (is_busy (t.last.pc 1)) [
    | inl at ↦ t
    | inr busy ↦ record {
      taken = suc t.taken;
      spurious = t.spurious + failures weak;
      last = act 2 (step 1 weak) t.last;
      within = own weak t.within busy room;
    }
  ]
  | no _ ↦ t
]

unfoldable other_step : {s : System ℕ} → Trip s → Action ℕ → Trip s
unfolding dec_lt
other_step t a = elim (dec_lt (t.last.queue.head + 2 + 1) (2 ^ 63)) [
  | yes room ↦ elim (ℕ_discrete (actor a) 1) [
    | yes at ↦ t
    | no ne ↦ record {
      taken = t.taken;
      spurious = t.spurious;
      last = act 2 a t.last;
      within = other a t.within ne room;
    }
  ]
  | no _ ↦ t
]

-- Producers 1 and 2 have both called.
abbrev both : Run false
both = run (call_push 1 7 ∷ call_push 2 8 ∷ [])

-- Producer 1 loads the head; producer 2 runs to its claim; producer 1 fails, and comes to its end.
unfoldable contended : Trip both.last
unfolding run own_step other_step
contended =
    let t1 =
      own_step (record { taken = 0; spurious = 0; last = both.last; within = called }) false in
    let t2 = foldl other_step t1 (steps 2 3 []) in
    foldl own_step t2
      (false ∷ false ∷ false ∷ true ∷ false ∷ false ∷ false ∷ false ∷ false ∷ false ∷ [])

contended_counts :
    (contended.taken ≡ 11) × (contended.spurious ≡ 1) × (contended.last.queue.head ≡ 2)
unfolding contended is_busy
contended_counts = (refl, refl, refl)

push_call_steps_example :
    let bound =
      7 + 2 * (contended.last.queue.head - both.last.queue.head) + 2 * contended.spurious in
    (contended.taken < bound) ⊎ ((contended.taken ≡ bound) × (contended.last.pc 1 ≡ idle))
unfolding run
push_call_steps_example =
    push_call_steps (omega arith) (omega arith) both.reach contended.within 7 refl

abbrev asked : Run false
asked = run (call_push 2 8 ∷ steps 2 7 (call_pop 1 ∷ []))

unfoldable answered : Trip asked.last
unfolding run own_step
answered =
    foldl own_step (record { taken = 0; spurious = 0; last = asked.last; within = called })
      (false ∷ false ∷ true ∷ false ∷ false ∷ false ∷ false ∷ false ∷ false ∷ [])

answered_counts : (answered.taken ≡ 9) × (answered.spurious ≡ 1) × (answered.last.queue.tail ≡ 1)
unfolding answered is_busy
answered_counts = (refl, refl, refl)

pop_call_steps_example :
    let bound =
      7 + 2 * (answered.last.queue.tail - asked.last.queue.tail) + 2 * answered.spurious in
    (answered.taken < bound) ⊎ ((answered.taken ≡ bound) × (answered.last.pc 1 ≡ idle))
unfolding run
pop_call_steps_example = pop_call_steps (omega arith) (omega arith) asked.reach answered.within refl

quiet_counts_example :
    (get_push_count settled.last.queue ≡ settled.last.queue.head)
    × (get_pop_count settled.last.queue ≡ settled.last.queue.tail)
    × (get_push_count settled.last.queue
        ≡ get_pop_count settled.last.queue + length (contents 2 settled.last.queue))
quiet_counts_example = quiet_counts (omega arith) (omega arith) settled.reach settled-idle
