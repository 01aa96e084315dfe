-- ===== src/MpscQueue.antt =====
-- The queue of src/sigmax/mpsc_queue.hpp, called by one thread at a time. The template parameter
-- `C` is an argument; the constant member `m_buffer_mask` is `C`. An array of `C` cells is two
-- tables, read and written at `index C pos` only. Each round of a loop consumes one entry of
-- `weak`: whether `compare_exchange_weak` fails in that round although the value is the expected
-- one. `none` means that the list ran out. Log lines and profiling zones are left out.
pub mod Words
pub mod Index
pub mod Valid
pub mod Refine
pub mod Client
pub mod OneCell
pub mod Counts
mod Tests
use sigmax.Base.{
  ℕ, List, [], ◌∷◌, Option, none, some, Bool, not, ◌&&◌, Expected, value, unexpected, update, ◌==◌,
  if◌then◌else◌,
}
use sigmax.Base.Int.{is_zero, is_negative}
use sigmax.QueueState.{QueueState, success, queue_is_empty, queue_is_full}
use Words.{add64, diff}
use Index.{index}

-- `m_data[i].data`, `m_data[i].sequence`, and the four counters.
pub record MpscQueue {ℓ} (A : Type ℓ) : Type ℓ where
  pub slots : ℕ → A
  pub sequence : ℕ → ℕ
  pub head : ℕ
  pub tail : ℕ
  pub push_count : ℕ
  pub pop_count : ℕ

module _ {ℓ} {A : Type ℓ} where
  -- The constructor. `blank` is the value-initialised element of `m_data{}`. The cells from `C` on
  -- stand for nothing: no operation reads them.
  unfoldable pub init : A → MpscQueue A
  init blank = record {
    slots = λ _. blank;
    sequence = λ i. i;
    head = 0;
    tail = 0;
    push_count = 0;
    pop_count = 0;
  }

  module _ (C : ℕ) where
    -- What `PushBack` does once its compare-exchange has moved the head on from `pos`.
    unfoldable pub publish : A → ℕ → MpscQueue A → MpscQueue A
    publish element pos q = record q {
      slots = update q.slots (index C pos) element;
      sequence = update q.sequence (index C pos) (add64 pos 1);
      head = add64 pos 1;
      push_count = add64 q.push_count 1;
    }

    unfoldable pub push_loop : List Bool → A → ℕ → MpscQueue A → Option (QueueState × MpscQueue A)
    push_loop [] element pos q = none
    push_loop (weak ∷ rest) element pos q =
        let again = push_loop rest element q.head q in
        let d = diff (q.sequence (index C pos)) pos in
        if is_zero d
        then (if not weak && (q.head == pos) then some (success, publish element pos q) else again)
        else (if is_negative d then some (queue_is_full, q) else again)

    -- `PushBack(const T &)`
    unfoldable pub push_back : List Bool → A → MpscQueue A → Option (QueueState × MpscQueue A)
    push_back weak element q = push_loop weak element q.head q

    -- What `Pop` does once its compare-exchange has moved the tail on from `pos`.
    unfoldable pub release : ℕ → MpscQueue A → MpscQueue A
    release pos q = record q {
      sequence = update q.sequence (index C pos) (add64 pos C);
      tail = add64 pos 1;
      pop_count = add64 q.pop_count 1;
    }

    unfoldable pub pop_loop :
        List Bool → ℕ → MpscQueue A → Option (Expected A QueueState × MpscQueue A)
    pop_loop [] pos q = none
    pop_loop (weak ∷ rest) pos q =
        let again = pop_loop rest q.tail q in
        let d = diff (q.sequence (index C pos)) (add64 pos 1) in
        if is_zero d
        then (if not weak && (q.tail == pos)
            then some (value (q.slots (index C pos)), release pos q)
            else again)
        else (if is_negative d then some (unexpected queue_is_empty, q) else again)

    -- `Pop()`
    unfoldable pub pop : List Bool → MpscQueue A → Option (Expected A QueueState × MpscQueue A)
    pop weak q = pop_loop weak q.tail q

  -- `PushBack(const std::vector<T>)`: the body is empty.
  unfoldable pub push_back_all : List A → MpscQueue A → MpscQueue A
  push_back_all elements q = q

  -- `GetPushCount` and `GetPopCount`
  unfoldable pub get_push_count : MpscQueue A → ℕ
  get_push_count q = q.push_count

  unfoldable pub get_pop_count : MpscQueue A → ℕ
  get_pop_count q = q.pop_count
