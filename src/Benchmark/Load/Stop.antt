-- ===== src/Benchmark/Load/Stop.antt =====
-- How the threads of benchmarks/mpsc_queue_benchmark.cpp come to their ends once they see the flag.
use sigmax.Base.{
  ◌⊎◌, ℕ, suc, ◌+◌, ◌*◌, ◌≤◌, ◌<◌, ◌≡◌, ◌≢◌, ◌^◌, arith, refl, sym, subst, Bool, true, false, not,
  ◌&&◌, ltb, ◌==◌, update, inl, inr, Bool-cases,
}
use sigmax.OrderType.{Order}
use sigmax.Threads.{idle, act, step, Earlier, load_late}
use sigmax.Threads.Retries.{failures}
use sigmax.Threads.Retries.All.{Draining, begun, go_on, go_on_late, Returned, all_calls_steps}
use sigmax.Threads.Sides.{is_idle}
use sigmax.Benchmark.Load
use sigmax.Benchmark.Load.{
  Load, Choice, writer_round, reader_round, set_stop, see_stop, begin_write, begin_read, run_step,
  load_act, LoadReach,
}
use sigmax.Benchmark.Load.Steps.{either_branch}
use sigmax.Benchmark.Load.Counts.{LoadReach-Reach}

-- Whether a choice is not a step of a call.
abbrev pub is_round : Choice → Bool
is_round (Load.go_on i weak) = false
is_round _ = true

-- All writers and the reader see that the flag is set.
abbrev pub AllSee : (producers : ℕ) → Load → Type 0
AllSee producers l = (i : ℕ) → i < producers + 1 → l.seen i ≡ true

-- A run of the benchmark from `l` on with `n` steps of calls; a thread that is in no call takes no
-- step. In `w` a step with a spurious failure allowed counts once and, with `late`, a load that is
-- late twice.
pub data Winding (late : Bool) (C producers : ℕ) (l : Load) : (n w : ℕ) → Load → Type 0 where
  stopped : Winding late C producers l 0 0 l
  round :
      {n w : ℕ} {m : Load} (c : Choice)
      → is_round c ≡ true
      → Winding late C producers l n w m
      → Winding late C producers l n w (load_act C producers c m)
  call_step :
      {n w : ℕ} {m : Load} (i : ℕ) (weak : Bool)
      → i < producers + 1
      → m.sys.pc i ≢ idle
      → m.sys.queue.head + C + 1 < 2 ^ 63
      → Winding late C producers l n w m
      → Winding late C producers l
          (suc n)
          (w + failures weak)
          (load_act C producers (Load.go_on i weak) m)
  late_step :
      {n w : ℕ} {m : Load} (i v : ℕ)
      → i < producers + 1
      → late ≡ true
      → Earlier C m.sys.queue (m.sys.pc i) v
      → m.sys.queue.head + C + 1 < 2 ^ 63
      → Winding late C producers l n w m
      → Winding late C producers l (suc n) (w + 2) (record m { sys = load_late C i v m.sys })

update_lem : (f : ℕ → Bool) (j i : ℕ) → f i ≡ true → update f j true i ≡ true
update_lem f j i h = ground (arith, h)

module _ (C producers : ℕ) (m : Load) (see : AllSee producers m) where
  -- No round begins a call any more.
  round_stays :
      (c : Choice)
      → is_round c ≡ true
      → let after = load_act C producers c m in (after.sys ≡ m.sys) × AllSee producers after
  unfolding load_act begin_write begin_read
  round_stays (writer_round j) k = elim (Bool-cases (ltb j producers)) [
    | inl mine ↦
        let sees = see j (ground arith) in
        let guard : ltb j producers && not (m.seen j) && is_idle (m.sys.pc j) ≡ false =
          ground (arith, sees) in
        rw guard (refl, see)
    | inr other ↦ rw other (refl, see)
  ]
  round_stays reader_round k =
      let sees = see producers (omega arith) in
      let guard : not (m.seen producers) && is_idle (m.sys.pc producers) ≡ false =
        ground (arith, sees) in
      rw guard (refl, see)
  round_stays set_stop k = (refl, see)
  round_stays (see_stop j) k =
      either_branch m.stop (λ l. (l.sys ≡ m.sys) × AllSee producers l)
        (refl, λ i lt. update_lem m.seen j i (see i lt)) (refl, see)
  round_stays (Load.go_on i weak) k = absurd (ground arith)

  step_runs :
      (i : ℕ) (weak : Bool)
      → let after = load_act C producers (Load.go_on i weak) m in
        (after.sys ≡ act C (step i weak) m.sys) × AllSee producers after
  unfolding load_act run_step
  step_runs i weak = elim (Bool-cases (i == producers)) [
    | inl same ↦ rw same (refl, see)
    | inr other ↦ rw other (refl, see)
  ]

module _ {late : Bool} {C producers : ℕ} {blank : Order} (several : 2 ≤ C) (small : C < 2 ^ 63)
    {l : Load} (r : LoadReach late C producers blank l) (see : AllSee producers l) where
  Winding-Draining :
      {n w : ℕ} {m : Load}
      → Winding late C producers l n w m
      → Draining late C (producers + 1) l.sys n w m.sys × AllSee producers m
  Winding-Draining stopped = (begun, see)
  Winding-Draining (round {n} {w} {m} c k run) =
      let (drain, still) = Winding-Draining run in
      let (same, on) = round_stays C producers m still c k in
      (subst (Draining late C (producers + 1) l.sys n w) (sym same) drain, on)
  Winding-Draining (call_step {n} {w} {m} i weak lt awake room run) =
      let (drain, still) = Winding-Draining run in
      let (same, on) = step_runs C producers m still i weak in
      (
        subst (Draining late C (producers + 1) l.sys (suc n) (w + failures weak)) (sym same)
            (go_on i weak drain lt awake room),
        on,
      )
  Winding-Draining (late_step {n} {w} {m} i v lt on e room run) =
      let (drain, still) = Winding-Draining run in (go_on_late i v drain lt on e room, still)

  -- From a state that a run of the benchmark reaches and in which all of its threads see that the
  -- flag is set, in whatever order they go on from there, with the head staying C + 1 below 2^63: the
  -- writers and the reader together take at most 8 + 2k steps for each of the k threads, 2 for each
  -- spurious failure of a compare-exchange, and 4 for each load that is late; when they have taken
  -- that many, none of them is in a call.
  pub stopped_load_steps :
      {n w : ℕ} {m : Load}
      → Winding late C producers l n w m
      → let k = producers + 1 in
        let bound = k * (8 + 2 * k) + 2 * w in (n < bound) ⊎ ((n ≡ bound) × Returned k m.sys)
  stopped_load_steps run =
      all_calls_steps several small (LoadReach-Reach several small r) (producers + 1)
        (Winding-Draining run).0
