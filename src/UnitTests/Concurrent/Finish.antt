-- ===== src/UnitTests/Concurrent/Finish.antt =====
-- A call in the tests with threads of test/mpsc_test.cpp comes to its end when its thread goes on alone.
use sigmax.Base.{
  ℕ, zero, suc, ◌+◌, ◌*◌, ◌≤◌, ◌<◌, ◌≡◌, ◌≢◌, ◌^◌, arith, Bool, false, inl, inr, Bool-cases,
}
use sigmax.Threads.{idle}
use sigmax.Threads.Sides.{is_idle, idle_of, awake_of}
use sigmax.Threads.Room.{claims_called}
use sigmax.UnitTests.Concurrent.{
  Plan, Running, TestReach, next, Choice, go_on, run_step, test_act, Follows, here, further,
}
use sigmax.UnitTests.Concurrent.Reached.{TestReach-Linked}
use sigmax.UnitTests.Concurrent.Parts.{pushes-le}

pub follows-follows : {p : Plan} {t u v : Running} → Follows p t u → Follows p u v → Follows p t v
follows-follows f here = f
follows-follows f (further c g room) = further c (follows-follows f g) room

module _ (late : Bool) (p : Plan) (several : 2 ≤ p.queue_size) (small : p.queue_size < 2 ^ 63)
    (fits : p.writers * p.values_to_write + p.queue_size + 1 < 2 ^ 63) where
  -- The writers do not push enough for the head to come near 2^63.
  pub roomy : (t : Running) → TestReach late p t → t.sys.queue.head + p.queue_size + 1 < 2 ^ 63
  roomy t r =
      let l = TestReach-Linked several small r in
      omega (arith, claims_called several small l.reach, pushes-le several small l)

  -- A state that some choices lead to, and what holds there.
  abbrev pub Later : Running → (Running → Type 0) → Type 0
  Later t Q = (u : Running) × Follows p t u × TestReach late p u × Q u

  pub now : (t : Running) (Q : Running → Type 0) → TestReach late p t → Q t → Later t Q
  now t Q r q = (t, here, r, q)

  pub choose :
      (t : Running) (Q : Running → Type 0) (c : Choice)
      → TestReach late p t
      → Q (test_act p c t)
      → Later t Q
  choose t Q c r q = (test_act p c t, further c here (roomy t r), next c r (roomy t r), q)

  pub and_later :
      {t : Running} {Q R : Running → Type 0}
      → Later t Q
      → ((u : Running) → TestReach late p u → Q u → Later u R)
      → Later t R
  and_later (u, f, r, q) more = let (v, g, r', q') = more u r q in (v, follows-follows f g, r', q')

  -- If each step of thread `i` keeps `Q` and lowers a measure, the thread comes to the end of its
  -- call.
  pub finish :
      (i : ℕ) (Q : Running → Type 0) (left : Running → ℕ)
      → ((t : Running)
          → TestReach late p t
          → Q t
          → t.sys.pc i ≢ idle
          → Q (run_step p i false t) × (suc (left (run_step p i false t)) ≤ left t))
      → (n : ℕ) (t : Running) → TestReach late p t
      → Q t
      → left t ≤ n
      → Later t (λ u. (u.sys.pc i ≡ idle) × Q u)
  unfolding test_act
  finish i Q left lowers zero t r q le = elim (Bool-cases (is_idle (t.sys.pc i))) [
    | inl rests ↦ now t _ r (idle_of (t.sys.pc i) rests, q)
    | inr busy ↦ absurd (omega (arith, (lowers t r q (awake_of (t.sys.pc i) busy)).1))
  ]
  finish i Q left lowers (suc n) t r q le = elim (Bool-cases (is_idle (t.sys.pc i))) [
    | inl rests ↦ now t _ r (idle_of (t.sys.pc i) rests, q)
    | inr busy ↦
        let (kept, less) = lowers t r q (awake_of (t.sys.pc i) busy) in
        and_later (choose t (λ u. Q u × (left u ≤ n)) (go_on i false) r (kept, omega arith))
          (λ u r' (q', le'). finish i Q left lowers n u r' q' le')
  ]
