-- ===== src/Threads/Counts.antt =====
-- The two counts of the queue of src/sigmax/mpsc_queue.hpp under threads.
use sigmax.Base.{ℕ, ◌+◌, ◌≤◌, ◌<◌, ◌≡◌, ◌^◌, refl, ap, sym, subst, arith, update, Bool, length}
use sigmax.MpscQueue.{MpscQueue, init, get_push_count, get_pop_count}
use sigmax.MpscQueue.Valid.{contents, length-contents}
use sigmax.Threads.{
  Pc, idle, push_enter, push_check, pop_check, push_write, push_publish, push_tally, pop_enter,
  pop_read, pop_release, pop_tally, advance, System, Action, call_push, call_pop, step, act, turn,
  when_idle, start, Reach, begin, next, delayed, Earlier, observe, load_late,
}
use sigmax.Threads.Invariant.{Reach-Holds}
use sigmax.Totals.{Total, Total-update, Total-none}

module _ {A : Type 0} where
  -- A call that has claimed a position and not counted yet.
  abbrev pub to_tally_push : Pc A → ℕ
  to_tally_push (push_write a pos) = 1
  to_tally_push (push_publish a pos) = 1
  to_tally_push push_tally = 1
  to_tally_push _ = 0

  abbrev pub to_tally_pop : Pc A → ℕ
  to_tally_pop (pop_read pos) = 1
  to_tally_pop (pop_release pos a) = 1
  to_tally_pop (pop_tally a) = 1
  to_tally_pop _ = 0

  turn-balance :
      (C : ℕ) (weak : Bool) (q : MpscQueue A) (p : Pc A)
      → q.head + 1 < 2 ^ 64
      → q.tail + 1 < 2 ^ 64
      → q.push_count + 1 < 2 ^ 64
      → q.pop_count + 1 < 2 ^ 64
      → let (q', p') = advance C weak q p in
        (q'.push_count + to_tally_push p' + q.head ≡ q.push_count + to_tally_push p + q'.head)
        × (q'.pop_count + to_tally_pop p' + q.tail ≡ q.pop_count + to_tally_pop p + q'.tail)
  unfolding advance
  turn-balance C weak q idle h k l m = omega arith
  turn-balance C weak q p h k l m = ground arith

  -- Each position that a compare-exchange claimed is counted, or has a call that will count it.
  record Balanced (s : System A) : Type 0 where
    pushing : ℕ
    popping : ℕ
    pushers : Total (λ j. to_tally_push (s.pc j)) pushing
    poppers : Total (λ j. to_tally_pop (s.pc j)) popping
    pushes : s.queue.push_count + pushing ≡ s.queue.head
    pops : s.queue.pop_count + popping ≡ s.queue.tail

  Balanced-update :
      (s s' : System A) (i : ℕ) (p' : Pc A)
      → s'.pc ≡ update s.pc i p'
      → s'.queue.push_count + to_tally_push p' + s.queue.head
        ≡ s.queue.push_count + to_tally_push (s.pc i) + s'.queue.head
      → s'.queue.pop_count + to_tally_pop p' + s.queue.tail
        ≡ s.queue.pop_count + to_tally_pop (s.pc i) + s'.queue.tail
      → Balanced s
      → Balanced s'
  Balanced-update s s' i p' at more less b =
      let (u, u_eq, u_total) = Total-update to_tally_push s.pc i p' b.pushing b.pushers in
      let (o, o_eq, o_total) = Total-update to_tally_pop s.pc i p' b.popping b.poppers in
      record {
        pushing = u;
        popping = o;
        pushers = subst (λ pc. Total (λ j. to_tally_push (pc j)) u) (sym at) u_total;
        poppers = subst (λ pc. Total (λ j. to_tally_pop (pc j)) o) (sym at) o_total;
        pushes = omega (arith, b.pushes);
        pops = omega (arith, b.pops);
      }

  -- A late load claims no position.
  observe-tally :
      (C : ℕ) (q : MpscQueue A) (p : Pc A) (v : ℕ)
      → Earlier C q p v
      → (to_tally_push (observe C p v) ≡ to_tally_push p)
        × (to_tally_pop (observe C p v) ≡ to_tally_pop p)
  unfolding observe
  observe-tally C q (push_check a pos) v e = ground arith
  observe-tally C q (pop_check pos) v e = ground arith
  observe-tally C q p v e = ground arith

  when_idle-push :
      (p q : Pc A) → to_tally_push p ≡ 0 → to_tally_push (when_idle p q) ≡ to_tally_push q
  unfolding when_idle
  when_idle-push p q z = ground arith

  when_idle-pop : (p q : Pc A) → to_tally_pop p ≡ 0 → to_tally_pop (when_idle p q) ≡ to_tally_pop q
  unfolding when_idle
  when_idle-pop p q z = ground arith

  module _ (C : ℕ) where
    act-Balanced :
        (s : System A) (a : Action A)
        → s.queue.head + 1 < 2 ^ 63
        → s.queue.tail + 1 < 2 ^ 63
        → Balanced s
        → Balanced (act C a s)
    unfolding act turn
    act-Balanced s (call_push i a) hi ti b =
        let p' = when_idle (push_enter a) (s.pc i) in
        Balanced-update s (act C (call_push i a) s) i p' refl
          (omega (arith, when_idle-push (push_enter a) (s.pc i) refl))
          (omega (arith, when_idle-pop (push_enter a) (s.pc i) refl)) b
    act-Balanced s (call_pop i) hi ti b =
        let p' = when_idle pop_enter (s.pc i) in
        Balanced-update s (act C (call_pop i) s) i p' refl
          (omega (arith, when_idle-push pop_enter (s.pc i) refl))
          (omega (arith, when_idle-pop pop_enter (s.pc i) refl)) b
    act-Balanced s (step i weak) hi ti b =
        let (more, less) =
          turn-balance C weak s.queue (s.pc i) (omega arith) (omega arith) (omega (arith, b.pushes))
            (omega (arith, b.pops)) in
        Balanced-update s (act C (step i weak) s) i (advance C weak s.queue (s.pc i)).1 refl more
          less b

module _ {A : Type 0} {late : Bool} {C : ℕ} {blank : A} (several : 2 ≤ C) (small : C < 2 ^ 63) where
  Reach-Balanced : {s : System A} → Reach late C blank s → Balanced s
  unfolding start init load_late
  Reach-Balanced begin = record {
    pushing = 0;
    popping = 0;
    pushers = record { bound = 0; beyond = λ j le. refl; sums = refl };
    poppers = record { bound = 0; beyond = λ j le. refl; sums = refl };
    pushes = refl;
    pops = refl;
  }
  Reach-Balanced (next {s} a r room) =
      let (lap, inv, cov) = Reach-Holds C blank several small r in
      act-Balanced C s a (omega arith) (omega (arith, inv.ordered)) (Reach-Balanced r)
  Reach-Balanced (delayed {s} i v l e r room) =
      let b = Reach-Balanced r in
      let p' = observe C (s.pc i) v in
      Balanced-update s (load_late C i v s) i p' refl
        (omega (arith, (observe-tally C s.queue (s.pc i) v e).0))
        (omega (arith, (observe-tally C s.queue (s.pc i) v e).1)) b

  -- In every reachable state in which no call of `Pop` has claimed a position without counting it,
  -- the count of pops is the number of claimed positions, whatever the producers do.
  pub popped_count :
      {s : System A}
      → Reach late C blank s
      → ((i : ℕ) → to_tally_pop (s.pc i) ≡ 0)
      → get_pop_count s.queue ≡ s.queue.tail
  unfolding get_pop_count
  popped_count {s} r none_popping =
      let b = Reach-Balanced r in
      let o : b.popping ≡ 0 =
        Total-none (λ j. to_tally_pop (s.pc j)) b.popping none_popping b.poppers in
      omega (arith, b.pops)

  module _ {s : System A} (r : Reach late C blank s) (quiet : (i : ℕ) → s.pc i ≡ idle) where
    -- When no thread is in a call, `GetPushCount` is the number of claimed positions to push to,
    -- `GetPopCount` that of those to pop from, and the first is the second and the number of
    -- elements in the queue: each `PushBack` and each `Pop` that succeeded is counted once.
    pub quiet_counts :
        (get_push_count s.queue ≡ s.queue.head)
        × (get_pop_count s.queue ≡ s.queue.tail)
        × (get_push_count s.queue ≡ get_pop_count s.queue + length (contents C s.queue))
    unfolding get_push_count get_pop_count
    quiet_counts =
        let b = Reach-Balanced r in
        let u : b.pushing ≡ 0 =
          Total-none (λ j. to_tally_push (s.pc j)) b.pushing (λ j. ap to_tally_push (quiet j))
            b.pushers in
        let o : b.popping ≡ 0 =
          Total-none (λ j. to_tally_pop (s.pc j)) b.popping (λ j. ap to_tally_pop (quiet j))
            b.poppers in
        let (lap, inv, cov) = Reach-Holds C blank several small r in
        (
          omega (arith, b.pushes),
          omega (arith, b.pops),
          omega (arith, b.pushes, b.pops, length-contents C s.queue, inv.ordered),
        )
