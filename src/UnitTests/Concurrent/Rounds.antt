-- ===== src/UnitTests/Concurrent/Rounds.antt =====
-- A writer of the tests with threads of test/mpsc_test.cpp comes to the end of its loop.
use sigmax.Base.{
  ℕ, zero, suc, ◌+◌, ◌*◌, ◌≤◌, ◌<◌, ◌≡◌, ◌≢◌, ◌^◌, refl, ap, sym, ◌∙◌, arith, Bool, true, false,
  ltb, ◌&&◌, update_at, update_other,
}
use native.Mathlib.Decide.{ℕ_discrete, dec_lt}
use sigmax.Threads.{idle, push_enter, advance, act, turn, when_idle}
use sigmax.Threads.Retries.{is_pushing, left_to_push}
use sigmax.Threads.Retries.Step.{push_step-le}
use sigmax.Threads.Sides.{is_idle}
use sigmax.UnitTests.Concurrent.{
  Plan, Running, TestReach, writer_round, begin_push, run_step, test_act,
}
use sigmax.UnitTests.Concurrent.Reached.{TestReach-Linked}
use sigmax.UnitTests.Concurrent.Writer.{in_push, in_push-advance}
use sigmax.UnitTests.Concurrent.Linked.{answer_written, answer_other}
use sigmax.UnitTests.Concurrent.Finish.{Later, now, choose, and_later, finish}

-- Only thread `i` has moved.
abbrev pub Only : ℕ → Running → Running → Type 0
Only i t u = (j : ℕ) → i ≢ j → (u.sys.pc j ≡ t.sys.pc j) × (u.written j ≡ t.written j)

pub Only-Only : (i : ℕ) (t u v : Running) → Only i t u → Only i u v → Only i t v
Only-Only i t u v one two j ne = ((two j ne).0 ∙ (one j ne).0, (two j ne).1 ∙ (one j ne).1)

pub run_step-Only : (p : Plan) (i : ℕ) (weak : Bool) (t : Running) → Only i t (run_step p i weak t)
unfolding run_step act turn
run_step-Only p i weak t j ne = (
  update_other t.sys.pc i j (advance p.queue_size weak t.sys.queue (t.sys.pc i)).1 ne,
  answer_other p i (t.sys.pc i) t j ne,
)

module _ (late : Bool) (p : Plan) (several : 2 ≤ p.queue_size) (small : p.queue_size < 2 ^ 63)
    (fits : p.writers * p.values_to_write + p.queue_size + 1 < 2 ^ 63) where
  -- What holds while thread `i` finishes a call of `PushBack` that it is in at `t`.
  abbrev Pushing : ℕ → Running → Running → Type 0
  Pushing i t u =
      (is_pushing (u.sys.pc i) ≡ true)
      × (u.written i + in_push (u.sys.pc i) ≡ t.written i + in_push (t.sys.pc i))
      × Only i t u

  abbrev left : ℕ → Running → ℕ
  left i u = left_to_push u.sys.queue.head (u.sys.pc i)

  push_on :
      (i : ℕ) (t u : Running)
      → TestReach late p u
      → Pushing i t u
      → u.sys.pc i ≢ idle
      → Pushing i t (run_step p i false u) × (suc (left i (run_step p i false u)) ≤ left i u)
  unfolding run_step act turn
  push_on i t u r (k, e, others) awake =
      let l = TestReach-Linked several small r in
      let (q', p') = advance p.queue_size false u.sys.queue (u.sys.pc i) in
      let (still, less) = push_step-le several small l.reach i false (u.sys.pc i) refl awake k in
      let here = update_at u.sys.pc i p' in
      (
        (
          ap is_pushing here ∙ still,
          omega (
            arith,
            e,
            ap in_push here,
            in_push-advance p.queue_size false u.sys.queue (u.sys.pc i),
            answer_written p i (u.sys.pc i) u,
          ),
          Only-Only i t u (run_step p i false u) others (run_step-Only p i false u),
        ),
        omega (arith, less, ap (left_to_push q'.head) here),
      )

  pub finish_push :
      (i : ℕ) (t : Running)
      → TestReach late p t
      → is_pushing (t.sys.pc i) ≡ true
      → Later late p several small fits t (λ u. (u.sys.pc i ≡ idle) × Pushing i t u)
  finish_push i t r k =
      finish late p several small fits i (Pushing i t) (left i) (push_on i t) (left i t) t r
        (k, refl, λ j ne. (refl, refl)) (omega arith)

  -- One round of a writer that has not written all its values.
  pub round :
      (j : ℕ) (t : Running)
      → TestReach late p t
      → j < p.writers
      → t.sys.pc j ≡ idle
      → t.written j < p.values_to_write
      → Later late p several small fits t
          (λ u. (u.sys.pc j ≡ idle) × (u.written j ≡ t.written j + 1) × Only j t u)
  unfolding test_act begin_push act when_idle
  round j t r mine at more =
      and_later late p several small fits
        (choose late p several small fits t
          (λ u. (u.sys.pc j ≡ push_enter (p.pushed j)) × (u.written j ≡ t.written j) × Only j t u)
          (writer_round j) r begun)
        (λ u r' (at', same, others).
          and_later late p several small fits (finish_push j u r' (ap is_pushing at'))
            (λ v r'' (done, (k, e, others')). now late p several small fits v _ r'' (
              done,
              omega (arith, e, ap in_push done, ap in_push at', same),
              Only-Only j t u v others others',
            )))
    where
      begun :
          let u = test_act p (writer_round j) t in
          (u.sys.pc j ≡ push_enter (p.pushed j)) × (u.written j ≡ t.written j) × Only j t u
      begun =
          let goes : ltb j p.writers
                && (ltb (t.written j) p.values_to_write && is_idle (t.sys.pc j))
              ≡ true =
            ground (arith, at) in
          rw goes (
            update_at t.sys.pc j (when_idle (push_enter (p.pushed j)) (t.sys.pc j))
                ∙ ap (when_idle (push_enter (p.pushed j))) at,
            refl,
            λ k ne. (
              update_other t.sys.pc j k (when_idle (push_enter (p.pushed j)) (t.sys.pc j)) ne,
              refl,
            ),
          )

  -- A writer that is in no call writes all its values.
  write_rest :
      (n j : ℕ) (t : Running)
      → TestReach late p t
      → j < p.writers
      → t.sys.pc j ≡ idle
      → p.values_to_write ≤ t.written j + n
      → t.written j ≤ p.values_to_write
      → Later late p several small fits t
          (λ u. (u.sys.pc j ≡ idle) × (u.written j ≡ p.values_to_write) × Only j t u)
  write_rest zero j t r mine at left most =
      now late p several small fits t _ r (at, omega arith, λ k ne. (refl, refl))
  write_rest (suc n) j t r mine at left most = elim (dec_lt (t.written j) p.values_to_write) [
    | no all ↦ now late p several small fits t _ r (at, omega arith, λ k ne. (refl, refl))
    | yes more ↦
        and_later late p several small fits (round j t r mine at more) (λ u r' (at', one, others).
          and_later late p several small fits
            (write_rest n j u r' mine at' (omega arith) (omega arith))
            (λ v r'' (done, all, others').
              now late p several small fits v _ r'' (done, all, Only-Only j t u v others others')))
  ]

  -- Writer `j` comes to the end of its loop.
  pub write_all :
      (j : ℕ) (t : Running)
      → TestReach late p t
      → j < p.writers
      → Later late p several small fits t
          (λ u. (u.sys.pc j ≡ idle) × (u.written j ≡ p.values_to_write) × Only j t u)
  write_all j t r mine =
      let l = TestReach-Linked several small r in
      and_later late p several small fits
        (finish_push j t r (l.pushing j (λ e. absurd (omega (arith, e)))))
        (λ u r' (at, (k, e, others)).
          let l' = TestReach-Linked several small r' in
          let most : u.written j ≤ p.values_to_write =
            ground (arith, (l'.writes j).calls, (l'.writes j).within) in
          and_later late p several small fits
            (write_rest p.values_to_write j u r' mine at (omega arith) most)
            (λ v r'' (done, all, others').
              now late p several small fits v _ r'' (done, all, Only-Only j t u v others others')))

  -- The writers below `n` have come to the end of their loops.
  abbrev pub Written : ℕ → Running → Type 0
  Written n u = (j : ℕ) → j < n → (u.sys.pc j ≡ idle) × (u.written j ≡ p.values_to_write)

  pub all_write :
      (n : ℕ) (t : Running)
      → TestReach late p t
      → n ≤ p.writers
      → Later late p several small fits t (Written n)
  all_write zero t r le = now late p several small fits t _ r (λ j lt. absurd (omega arith))
  all_write (suc n) t r le =
      and_later late p several small fits (all_write n t r (omega arith)) (λ u r' before.
        and_later late p several small fits (write_all n u r' (omega arith))
          (λ v r'' (done, all, others). now late p several small fits v _ r'' (λ j lt.
            elim (ℕ_discrete j n) [
              | yes e ↦ (ap v.sys.pc e ∙ done, ap v.written e ∙ all)
              | no ne ↦
                  let (at, wrote) = before j (omega arith) in
                  let (still, same) = others j (λ e. ne (sym e)) in (still ∙ at, same ∙ wrote)
            ])))
