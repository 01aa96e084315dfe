-- ===== src/Threads/Sides.antt =====
-- Threads that only push to the queue of src/sigmax/mpsc_queue.hpp, and threads that only pop.
use sigmax.Base.{
  ℕ, ◌+◌, ◌<◌, ◌≡◌, ◌⊎◌, inl, inr, ◌≢◌, ◌^◌, Bool, true, false, arith, refl, value, unexpected,
}
use sigmax.MpscQueue.{MpscQueue}
use sigmax.Threads.{
  Pc, idle, push_check, pop_check, pop_read, pop_release, pop_tally, pop_return, advance, Earlier,
  observe,
}
use sigmax.Threads.Retries.{is_pushing, is_popping}
use sigmax.Threads.Counts.{to_tally_pop}

module _ {A : Type 0} where
  abbrev pub is_idle : Pc A → Bool
  is_idle idle = true
  is_idle _ = false

  pub idle_of : (p : Pc A) → is_idle p ≡ true → p ≡ idle
  idle_of p h = ground arith

  pub awake_of : (p : Pc A) → is_idle p ≡ false → p ≢ idle
  awake_of p h = λ e. ground arith

  -- Whether a thread is in a call.
  unfoldable pub is_busy : (p : Pc A) → (p ≡ idle) ⊎ (p ≢ idle)
  is_busy idle = inl refl
  is_busy p = inr λ e. ground arith

  -- A call of `Pop` that has taken an element out of the queue and not returned it yet, and one that
  -- returns an element in its next step.
  abbrev pub in_hand : Pc A → ℕ
  in_hand (pop_read pos) = 1
  in_hand (pop_release pos a) = 1
  in_hand (pop_tally a) = 1
  in_hand (pop_return (value a)) = 1
  in_hand _ = 0

  abbrev pub hands_over : Pc A → ℕ
  hands_over (pop_return (value a)) = 1
  hands_over _ = 0

  pub pushing-tally : (p : Pc A) → is_pushing p ≡ true → to_tally_pop p ≡ 0
  pushing-tally p k = ground arith

  pub write_step :
      (C : ℕ) (weak : Bool) (q : MpscQueue A) (p : Pc A)
      → is_pushing p ≡ true
      → let (q', p') = advance C weak q p in (is_pushing p' ≡ true) × (q'.tail ≡ q.tail)
  unfolding advance
  write_step C weak q p k = ground arith

  pub read_turn :
      (C : ℕ) (weak : Bool) (q : MpscQueue A) (p : Pc A)
      → q.tail + 1 < 2 ^ 63
      → is_popping p ≡ true
      → let (q', p') = advance C weak q p in
        (is_popping p' ≡ true) × (q'.tail + in_hand p ≡ q.tail + hands_over p + in_hand p')
  unfolding advance
  read_turn C weak q (pop_return (value a)) h k = (refl, omega arith)
  read_turn C weak q (pop_return (unexpected a)) h k = (refl, omega arith)
  read_turn C weak q p h k = ground arith

  -- A late load of a call leaves it the call that it is.
  pub late_step :
      (C : ℕ) (q : MpscQueue A) (p : Pc A) (v : ℕ)
      → Earlier C q p v
      → (is_pushing (observe C p v) ≡ is_pushing p)
        × (is_popping (observe C p v) ≡ is_popping p)
        × (in_hand (observe C p v) ≡ in_hand p)
  unfolding observe
  late_step C q (push_check a pos) v e = ground arith
  late_step C q (pop_check pos) v e = ground arith
  late_step C q p v e = ground arith
