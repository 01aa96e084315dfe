-- ===== src/Threads/Retries/Measure.antt =====
-- A measure of the steps that a call of src/sigmax/mpsc_queue.hpp still takes.
use sigmax.Base.{◌⊎◌, ℕ, ◌+◌, ◌*◌, ◌≤◌, ◌<◌, ◌≡◌, ◌^◌, arith, Bool, true}
use sigmax.MpscQueue.{MpscQueue}
use sigmax.Threads.{
  Pc, idle, push_enter, push_check, push_claim, pop_enter, pop_check, pop_claim, advance, observe,
}
use sigmax.Threads.Retries.{is_pushing, is_popping, left_to_push, left_to_pop}

module _ {A : Type 0} where
  -- The steps that a call still takes when no other call claims a position, and whether it has a
  -- position to claim.
  abbrev pub left : MpscQueue A → Pc A → ℕ
  left q p = left_to_push q.head p + left_to_pop q.tail p

  abbrev pub wants : Pc A → ℕ
  wants (push_enter a) = 1
  wants (push_check a pos) = 1
  wants (push_claim a pos) = 1
  wants pop_enter = 1
  wants (pop_check pos) = 1
  wants (pop_claim pos) = 1
  wants _ = 0

  pub left-le : (q : MpscQueue A) (p : Pc A) → left q p ≤ 8
  left-le q p = ground arith

  pub left_idle : (q : MpscQueue A) (p : Pc A) → left q p ≡ 0 → p ≡ idle
  left_idle q p z = ground arith

  pub pushes_only : (t : ℕ) (p : Pc A) → is_pushing p ≡ true → left_to_pop t p ≡ 0
  pushes_only t p k = ground arith

  pub pops_only : (h : ℕ) (p : Pc A) → is_popping p ≡ true → left_to_push h p ≡ 0
  pops_only h p k = ground arith

  pub one_side : (p : Pc A) → (is_pushing p ≡ true) ⊎ (is_popping p ≡ true)
  one_side p = ground arith

  -- After a late load a call has at most one retry more ahead of it.
  pub left-observe :
      (C v : ℕ) (q : MpscQueue A) (p : Pc A) → left q (observe C p v) + 1 ≤ left q p + 2 * 2
  unfolding observe
  left-observe C v q p = ground arith

  pub wants-observe : (C v : ℕ) (p : Pc A) → wants (observe C p v) ≤ wants p
  unfolding observe
  wants-observe C v p = ground arith

  pub wants-advance :
      (C : ℕ) (weak : Bool) (q : MpscQueue A) (p : Pc A)
      → q.head + 1 < 2 ^ 63
      → q.tail + 1 < 2 ^ 63
      → let (q', p') = advance C weak q p in
        q'.head + q'.tail + wants p' ≤ q.head + q.tail + wants p
  unfolding advance
  wants-advance C weak q p h k = ground arith
