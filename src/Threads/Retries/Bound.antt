-- ===== src/Threads/Retries/Bound.antt =====
-- How many steps a call of src/sigmax/mpsc_queue.hpp takes among the steps of the other threads.
use native.Mathlib.Decide.{dec_lt}
use sigmax.Base.{
  ◌⊎◌, inl, inr, ℕ, suc, ◌+◌, ◌-◌, ◌*◌, ◌≤◌, ◌<◌, ◌≡◌, ◌≢◌, ◌^◌, refl, ap, ◌∙◌, arith, update_at,
  update_other, Bool, true,
}
use sigmax.MpscQueue.{MpscQueue}
use sigmax.Threads.{
  Pc, idle, push_enter, pop_enter, System, Action, step, act, turn, advance, Reach, next, delayed,
  observe, load_late,
}
use sigmax.Threads.Invariant.{Reach-Holds}
use sigmax.Threads.Retries.{
  failures, is_pushing, is_popping, left_to_push, left_to_pop, Within, called, other, other_delayed,
  own,
}
use sigmax.Threads.Retries.Step.{
  push_step-le, pop_step-le, act-counters, act-others, left_to_push-head, left_to_pop-tail,
}

module _ {A : Type 0} where
  pub push_left : (h : ℕ) (p : Pc A) → is_pushing p ≡ true → left_to_push h p ≡ 0 → p ≡ idle
  push_left h p k z = ground arith

  pub pop_left : (h : ℕ) (p : Pc A) → is_popping p ≡ true → left_to_pop h p ≡ 0 → p ≡ idle
  pop_left h p k z = ground arith

module _ {A : Type 0} {late : Bool} {C : ℕ} {blank : A} (several : 2 ≤ C) (small : C < 2 ^ 63) where
  counters-grow :
      (t : System A) (a : Action A)
      → Reach late C blank t
      → t.queue.head + C + 1 < 2 ^ 63
      → let q' = (act C a t).queue in (t.queue.head ≤ q'.head) × (t.queue.tail ≤ q'.tail)
  counters-grow t a reach room =
      let (_, inv, _) = Reach-Holds C blank several small reach in
      act-counters C t a (omega arith) (omega (arith, inv.ordered))

module _ {A : Type 0} {late : Bool} {C : ℕ} {blank : A} {s : System A} (several : 2 ≤ C)
    (small : C < 2 ^ 63) (r : Reach late C blank s) {i : ℕ} where
  Within-Reach : {n w : ℕ} {t : System A} → Within late C i s n w t → Reach late C blank t
  Within-Reach called = r
  Within-Reach (other a run ne room) = next a (Within-Reach run) room
  Within-Reach (other_delayed j v run l e ne room) = delayed j v l e (Within-Reach run) room
  Within-Reach (own weak run busy room) = next (step i weak) (Within-Reach run) room

  -- What the two kinds of call have in common: a measure that each step of the call lowers, and
  -- that a claim of another call raises by 2 at most.
  module _ (in_call : Pc A → Bool) (left : ℕ → Pc A → ℕ) (counter : MpscQueue A → ℕ)
      (grows : (t : System A) (a : Action A)
        → Reach late C blank t
        → t.queue.head + C + 1 < 2 ^ 63
        → counter t.queue ≤ counter (act C a t).queue)
      (slack : (h h' : ℕ) (p : Pc A) → h ≤ h' → left h' p + 2 * h ≤ left h p + 2 * h')
      (lowers : (t : System A) (weak : Bool)
        → Reach late C blank t
        → t.pc i ≢ idle
        → in_call (t.pc i) ≡ true
        → let (q', p') = advance C weak t.queue (t.pc i) in
          (in_call p' ≡ true)
          × (suc (left (counter q') p')
              ≤ left (counter t.queue) (t.pc i) + 2 * failures weak)) where
    run-le :
        {n w : ℕ} {t : System A}
        → in_call (s.pc i) ≡ true
        → Within late C i s n w t
        → (in_call (t.pc i) ≡ true)
          × (n + left (counter t.queue) (t.pc i) + 2 * counter s.queue
              ≤ left (counter s.queue) (s.pc i) + 2 * counter t.queue + 2 * w)
          × (counter s.queue ≤ counter t.queue)
    unfolding act turn load_late
    run-le k called = (k, omega arith, omega arith)
    run-le k (other {n} {w} {t} a run ne room) =
        let (kt, le, up) = run-le k run in
        let more = grows t a (Within-Reach run) room in
        let same = act-others C t a i ne in
        (
          ap in_call same ∙ kt,
          omega (
            arith,
            slack (counter t.queue) (counter (act C a t).queue) (t.pc i) more,
            ap (left (counter (act C a t).queue)) same,
          ),
          omega arith,
        )
    run-le k (other_delayed {n} {w} {t} j v run l e ne room) =
        let (kt, le, up) = run-le k run in
        let same = update_other t.pc j i (observe C (t.pc j) v) ne in
        (ap in_call same ∙ kt, omega (arith, ap (left (counter t.queue)) same), up)
    run-le k (own {n} {w} {t} weak run busy room) =
        let (kt, le, up) = run-le k run in
        let (kt', less) = lowers t weak (Within-Reach run) busy kt in
        let more = grows t (step i weak) (Within-Reach run) room in
        let (q', p') = advance C weak t.queue (t.pc i) in
        let here = update_at t.pc i p' in
        (ap in_call here ∙ kt', omega (arith, ap (left (counter q')) here), omega arith)

  module _ {n w : ℕ} {t : System A} (run : Within late C i s n w t) where
    -- From a reachable state in which a thread is at the start of `PushBack`, among any steps of
    -- the other threads, if its own loads yield the last values stored: the call takes at most 7 steps, 2 more for each position that the
    -- producers claim meanwhile, and 2 more for each spurious failure of its compare-exchange; when
    -- it has taken that many, it has returned.
    pub push_call_steps :
        (a : A)
        → s.pc i ≡ push_enter a
        → let bound = 7 + 2 * (t.queue.head - s.queue.head) + 2 * w in
          (n < bound) ⊎ ((n ≡ bound) × (t.pc i ≡ idle))
    push_call_steps a at =
        let (k, le, up) =
          run-le is_pushing left_to_push (λ q. q.head)
            (λ t' b reach room. (counters-grow several small t' b reach room).0)
            (left_to_push-head C)
            (λ t' weak reach busy. push_step-le several small reach i weak (t'.pc i) refl busy)
            (ap is_pushing at) run in
        let whole : left_to_push s.queue.head (s.pc i) ≡ 7 = ap (left_to_push s.queue.head) at in
        elim (dec_lt n (7 + 2 * (t.queue.head - s.queue.head) + 2 * w)) [
          | yes less ↦ inl less
          | no all ↦ inr (omega arith, push_left t.queue.head (t.pc i) k (omega arith))
        ]

    -- From a reachable state in which a thread is at the start of `Pop`, among any steps of the
    -- other threads, if its own loads yield the last values stored: the call takes at most 7 steps, 2 more for each position that the consumers
    -- claim meanwhile, and 2 more for each spurious failure of its compare-exchange; when it has
    -- taken that many, it has returned.
    pub pop_call_steps :
        s.pc i ≡ pop_enter
        → let bound = 7 + 2 * (t.queue.tail - s.queue.tail) + 2 * w in
          (n < bound) ⊎ ((n ≡ bound) × (t.pc i ≡ idle))
    pop_call_steps at =
        let (k, le, up) =
          run-le is_popping left_to_pop (λ q. q.tail)
            (λ t' b reach room. (counters-grow several small t' b reach room).1)
            (left_to_pop-tail C)
            (λ t' weak reach busy. pop_step-le several small reach i weak (t'.pc i) refl busy)
            (ap is_popping at) run in
        let whole : left_to_pop s.queue.tail (s.pc i) ≡ 7 = ap (left_to_pop s.queue.tail) at in
        elim (dec_lt n (7 + 2 * (t.queue.tail - s.queue.tail) + 2 * w)) [
          | yes less ↦ inl less
          | no all ↦ inr (omega arith, pop_left t.queue.tail (t.pc i) k (omega arith))
        ]
