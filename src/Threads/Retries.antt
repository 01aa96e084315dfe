-- ===== src/Threads/Retries.antt =====
-- How often `PushBack` and `Pop` of src/sigmax/mpsc_queue.hpp go round their loops.
pub mod Step
pub mod Measure
pub mod Bound
pub mod All
use sigmax.Base.{ℕ, suc, ◌+◌, ◌<◌, ◌≡◌, ◌≢◌, ◌^◌, Bool, true, false, ltb, if◌then◌else◌}
use sigmax.Threads.{
  Pc, idle, push_enter, push_check, push_claim, push_write, push_publish, push_tally, push_return,
  pop_enter, pop_check, pop_claim, pop_read, pop_release, pop_tally, pop_return, System, Action,
  call_push, call_pop, step, act, Earlier, load_late,
}

-- A step whose compare-exchange may fail spuriously counts as one.
abbrev pub failures : Bool → ℕ
failures weak = if weak then 1 else 0

module _ {A : Type 0} where
  -- The thread that an action is of.
  abbrev pub actor : Action A → ℕ
  actor (call_push i a) = i
  actor (call_pop i) = i
  actor (step i weak) = i

  abbrev pub is_pushing : Pc A → Bool
  is_pushing (push_enter a) = true
  is_pushing (push_check a pos) = true
  is_pushing (push_claim a pos) = true
  is_pushing (push_write a pos) = true
  is_pushing (push_publish a pos) = true
  is_pushing push_tally = true
  is_pushing (push_return status) = true
  is_pushing idle = true
  is_pushing _ = false

  abbrev pub is_popping : Pc A → Bool
  is_popping pop_enter = true
  is_popping (pop_check pos) = true
  is_popping (pop_claim pos) = true
  is_popping (pop_read pos) = true
  is_popping (pop_release pos a) = true
  is_popping (pop_tally a) = true
  is_popping (pop_return answer) = true
  is_popping idle = true
  is_popping _ = false

-- 2 for a call whose loaded position is behind the counter: it has one retry ahead of it.
abbrev pub retry : ℕ → ℕ → ℕ
retry pos counter = if ltb pos counter then 2 else 0

module _ {A : Type 0} where
  -- The steps that a call still takes when no other call claims a position.
  abbrev pub left_to_push : ℕ → Pc A → ℕ
  left_to_push head (push_enter a) = 7
  left_to_push head (push_check a pos) = 6 + retry pos head
  left_to_push head (push_claim a pos) = 5 + retry pos head
  left_to_push head (push_write a pos) = 4
  left_to_push head (push_publish a pos) = 3
  left_to_push head push_tally = 2
  left_to_push head (push_return status) = 1
  left_to_push head _ = 0

  abbrev pub left_to_pop : ℕ → Pc A → ℕ
  left_to_pop tail pop_enter = 7
  left_to_pop tail (pop_check pos) = 6 + retry pos tail
  left_to_pop tail (pop_claim pos) = 5 + retry pos tail
  left_to_pop tail (pop_read pos) = 4
  left_to_pop tail (pop_release pos a) = 3
  left_to_pop tail (pop_tally a) = 2
  left_to_pop tail (pop_return answer) = 1
  left_to_pop tail _ = 0

  -- `n` steps of the call that thread `i` is in, `w` of them with a spurious failure allowed,
  -- among any actions of the other threads. The loads of thread `i` yield the last value stored;
  -- with `late`, those of the others may be late.
  pub data Within (late : Bool) (C i : ℕ) (s : System A) : (n w : ℕ) → System A → Type 0 where
    called : Within late C i s 0 0 s
    other :
        {n w : ℕ} {t : System A} (a : Action A)
        → Within late C i s n w t
        → actor a ≢ i
        → t.queue.head + C + 1 < 2 ^ 63
        → Within late C i s n w (act C a t)
    other_delayed :
        {n w : ℕ} {t : System A} (j v : ℕ)
        → Within late C i s n w t
        → late ≡ true
        → Earlier C t.queue (t.pc j) v
        → j ≢ i
        → t.queue.head + C + 1 < 2 ^ 63
        → Within late C i s n w (load_late C j v t)
    own :
        {n w : ℕ} {t : System A} (weak : Bool)
        → Within late C i s n w t
        → t.pc i ≢ idle
        → t.queue.head + C + 1 < 2 ^ 63
        → Within late C i s (suc n) (w + failures weak) (act C (step i weak) t)
