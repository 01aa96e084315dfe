-- ===== src/Threads/Retries/All.antt =====
-- How many steps the calls of several threads of src/sigmax/mpsc_queue.hpp take together.
use native.Mathlib.Decide.{dec_lt}
use sigmax.Base.{
  ◌⊎◌, inl, inr, ℕ, suc, ◌+◌, ◌-◌, ◌*◌, ◌≤◌, ◌<◌, ◌≡◌, ◌≢◌, ◌^◌, refl, ap, arith, update_at,
  update_other, Bool, true,
}
use sigmax.Totals.{sum_to, sum_to-le, sum_to-step, sum_to-zero}
use sigmax.Threads.{
  idle, System, step, act, turn, advance, Reach, next, delayed, Earlier, observe, load_late,
}
use sigmax.Threads.Invariant.{Reach-Holds}
use sigmax.Threads.Retries.{failures}
use sigmax.Threads.Retries.Measure.{
  left, wants, left-le, left_idle, pushes_only, pops_only, one_side, left-observe, wants-observe,
  wants-advance,
}
use sigmax.Threads.Retries.Step.{
  push_step-le, pop_step-le, act-counters, act-others, left_to_push-head, left_to_pop-tail,
}

module _ {A : Type 0} where
  -- `n` steps of the threads below `k`, each of which is in a call; no call begins. In `w` a step
  -- with a spurious failure allowed counts once and, with `late`, a load that is late twice.
  pub data Draining (late : Bool) (C k : ℕ) (s : System A) : (n w : ℕ) → System A → Type 0 where
    begun : Draining late C k s 0 0 s
    go_on :
        {n w : ℕ} {t : System A} (i : ℕ) (weak : Bool)
        → Draining late C k s n w t
        → i < k
        → t.pc i ≢ idle
        → t.queue.head + C + 1 < 2 ^ 63
        → Draining late C k s (suc n) (w + failures weak) (act C (step i weak) t)
    go_on_late :
        {n w : ℕ} {t : System A} (i v : ℕ)
        → Draining late C k s n w t
        → i < k
        → late ≡ true
        → Earlier C t.queue (t.pc i) v
        → t.queue.head + C + 1 < 2 ^ 63
        → Draining late C k s (suc n) (w + 2) (load_late C i v t)

  -- No thread below `k` is in a call.
  abbrev pub Returned : ℕ → System A → Type 0
  Returned k t = (j : ℕ) → j < k → t.pc j ≡ idle

scale_sum : (k c d : ℕ) → k * (2 * (c + d)) ≡ k * (2 * c) + k * (2 * d)
scale_sum k c d = grind arith

scale_le : (k c : ℕ) → c ≤ k → k * (2 * c) ≤ k * (2 * k)
scale_le k c h = grind arith

module _ {A : Type 0} {late : Bool} {C : ℕ} {blank : A} (several : 2 ≤ C) (small : C < 2 ^ 63) where
  module _ (t : System A) (r : Reach late C blank t) (room : t.queue.head + C + 1 < 2 ^ 63) (i : ℕ)
      (weak : Bool) where
    abbrev after : System A
    after = act C (step i weak) t

    tail_room : t.queue.tail + 1 < 2 ^ 63
    tail_room = omega (arith, (Reach-Holds C blank several small r).1.ordered)

    own-le :
        t.pc i ≢ idle
        → left after.queue (after.pc i) + 1 ≤ left t.queue (t.pc i) + 2 * failures weak
    unfolding act turn
    own-le awake =
        let (q', p') = advance C weak t.queue (t.pc i) in
        let here = update_at t.pc i p' in
        elim (one_side (t.pc i)) [
          | inl pushes ↦
              let (still, less) = push_step-le several small r i weak (t.pc i) refl awake pushes in
              omega (arith, less, pushes_only q'.tail p' still, ap (left q') here)
          | inr pops ↦
              let (still, less) = pop_step-le several small r i weak (t.pc i) refl awake pops in
              omega (arith, less, pops_only q'.head p' still, ap (left q') here)
        ]

    -- The positions that the step claims.
    grown :
        (d : ℕ) × (after.queue.head + after.queue.tail ≡ t.queue.head + t.queue.tail + d)
        × ((j : ℕ) → i ≢ j → left after.queue (after.pc j) ≤ left t.queue (t.pc j) + 2 * d)
        × (d + wants (after.pc i) ≤ wants (t.pc i))
    unfolding act turn
    grown =
        let q' = (advance C weak t.queue (t.pc i)).0 in
        let p' = (advance C weak t.queue (t.pc i)).1 in
        let (h, l) = act-counters C t (step i weak) (omega (arith, room)) tail_room in
        (
          q'.head + q'.tail - (t.queue.head + t.queue.tail),
          omega (arith, h, l),
          λ j ne. omega (
            arith,
            h,
            l,
            left_to_push-head C t.queue.head q'.head (t.pc j) h,
            left_to_pop-tail C t.queue.tail q'.tail (t.pc j) l,
            ap (left q') (update_other t.pc i j p' ne),
          ),
          omega (
            arith,
            h,
            l,
            wants-advance C weak t.queue (t.pc i) (omega (arith, room)) tail_room,
            ap wants (update_at t.pc i p'),
          ),
        )

module _ {A : Type 0} {late : Bool} {C : ℕ} {blank : A} (several : 2 ≤ C) (small : C < 2 ^ 63)
    {s : System A} (r : Reach late C blank s) (k : ℕ) where
  Draining-Reach : {n w : ℕ} {t : System A} → Draining late C k s n w t → Reach late C blank t
  Draining-Reach begun = r
  Draining-Reach (go_on i weak d lt awake room) = next (step i weak) (Draining-Reach d) room
  Draining-Reach (go_on_late i v d lt on e room) = delayed i v on e (Draining-Reach d) room

  abbrev all_left : System A → ℕ
  all_left t = sum_to (λ j. left t.queue (t.pc j)) k

  abbrev all_wants : System A → ℕ
  all_wants t = sum_to (λ j. wants (t.pc j)) k

  drained :
      {n w : ℕ} {t : System A}
      → Draining late C k s n w t
      → (c : ℕ) × (c + all_wants t ≤ all_wants s)
        × (n + all_left t ≤ all_left s + k * (2 * c) + 2 * w)
  unfolding load_late
  drained begun = (0, omega arith, omega arith)
  drained (go_on {n} {w} {t} i weak run lt awake room) =
      let (c, claims, steps) = drained run in
      let r' = Draining-Reach run in
      let t' = act C (step i weak) t in
      let own = own-le several small t r' room i weak awake in
      let (d, sum, others, fewer) = grown several small t r' room i weak in
      (
        c + d,
        omega (
          arith,
          claims,
          sum_to-step (λ j. wants (t.pc j)) (λ j. wants (t'.pc j)) d 0 0 i k lt (omega arith)
              (λ j ne. omega (arith, ap wants (act-others C t (step i weak) j ne))),
        ),
        omega (
          arith,
          steps,
          scale_sum k c d,
          sum_to-step (λ j. left t.queue (t.pc j)) (λ j. left t'.queue (t'.pc j)) 1 (2 * d)
              (2 * failures weak) i k lt own others,
        ),
      )
  drained (go_on_late {n} {w} {t} i v run lt on e room) =
      let (c, claims, steps) = drained run in
      let p' = observe C (t.pc i) v in
      let t' = load_late C i v t in
      let here = update_at t.pc i p' in
      let there : (j : ℕ) → i ≢ j → t'.pc j ≡ t.pc j = λ j ne. update_other t.pc i j p' ne in
      (
        c,
        omega (
          arith,
          claims,
          sum_to-step (λ j. wants (t.pc j)) (λ j. wants (t'.pc j)) 0 0 0 i k lt
              (omega (arith, wants-observe C v (t.pc i), ap wants here))
              (λ j ne. omega (arith, ap wants (there j ne))),
        ),
        omega (
          arith,
          steps,
          sum_to-step (λ j. left t.queue (t.pc j)) (λ j. left t'.queue (t'.pc j)) 1 0 (2 * 2) i k lt
              (omega (arith, left-observe C v t.queue (t.pc i), ap (left t.queue) here))
              (λ j ne. omega (arith, ap (left t.queue) (there j ne))),
        ),
      )

  -- From a reachable state, in a run in which only the threads below `k` take steps, in the calls
  -- that they are in, and no call begins, whatever the order of their steps, with the head staying
  -- C + 1 below 2^63: together they take at
  -- most 8 + 2k steps for each thread, 2 for each spurious failure of a compare-exchange, and 4 for
  -- each load that is late; when they have taken that many, all of their calls have returned.
  pub all_calls_steps :
      {n w : ℕ} {t : System A}
      → Draining late C k s n w t
      → let bound = k * (8 + 2 * k) + 2 * w in (n < bound) ⊎ ((n ≡ bound) × Returned k t)
  all_calls_steps {n} {w} {t} run =
      let (c, claims, steps) = drained run in
      let most = sum_to-le (λ j. left s.queue (s.pc j)) 8 k (λ j lt. left-le s.queue (s.pc j)) in
      let wanted = sum_to-le (λ j. wants (s.pc j)) 1 k (λ j lt. ground arith) in
      let few : c ≤ k = omega arith in
      let whole : k * (8 + 2 * k) ≡ k * 8 + k * (2 * k) = grind arith in
      elim (dec_lt n (k * (8 + 2 * k) + 2 * w)) [
        | yes less ↦ inl less
        | no all ↦
            let done : all_left t ≡ 0 = omega (arith, scale_le k c few) in
            inr (
              omega (arith, scale_le k c few),
              λ j lt.
                  left_idle t.queue (t.pc j) (sum_to-zero (λ i. left t.queue (t.pc i)) k done j lt),
            )
      ]
