-- ===== src/Threads/Play.antt =====
-- Interleavings of the queue of src/sigmax/mpsc_queue.hpp, played out.
use sigmax.Base.{ℕ, zero, suc, ◌+◌, ◌^◌, ◌≡◌, refl, List, [], ◌∷◌, Bool, false, arith}
use mathlib.Core.List.{foldl}
use native.Mathlib.Decide.{ℕ_discrete, dec_lt}
use sigmax.MpscQueue.{init}
use sigmax.MpscQueue.Words.{diff}
use sigmax.MpscQueue.Index.{index}
use sigmax.Threads.{
  idle, System, Action, call_push, call_pop, step, act, turn, advance, note_accepted,
  note_delivered, when_idle, start, Reach, begin, next,
}

-- A state with an interleaving that reaches it, from a queue of two cells.
pub record Run (late : Bool) : Type 0 where
  pub last : System ℕ
  pub reach : Reach late 2 0 last

unfoldable pub play : {late : Bool} → Run late → Action ℕ → Run late
unfolding dec_lt
play r a = elim (dec_lt (r.last.queue.head + 2 + 1) (2 ^ 63)) [
  | yes room ↦ record { last = act 2 a r.last; reach = next a r.reach room }
  | no _ ↦ r
]

unfoldable pub run : {late : Bool} → List (Action ℕ) → Run late
unfolding play start init act turn advance note_accepted note_delivered when_idle index diff
    ℕ_discrete
run = foldl play (record { last = start 0; reach = begin })

-- `n` steps of thread `i`, with no spurious failure.
abbrev pub steps : ℕ → ℕ → List (Action ℕ) → List (Action ℕ)
steps i zero rest = rest
steps i (suc n) rest = step i false ∷ steps i n rest

-- Thread 1 is about to write its element; thread 2 has published its own behind it.
abbrev pub overtaken : Run false
overtaken = run (call_push 1 7 ∷ steps 1 3 (call_push 2 8 ∷ steps 2 6 []))

-- Thread 1 writes and publishes; a third `PushBack` sees a full queue.
abbrev pub filled : Run false
filled = run (call_push 1 7 ∷ steps 1 7 (call_push 2 8 ∷ steps 2 7 (call_push 3 9 ∷ steps 3 1 [])))

-- Thread 4 has popped the first element and is about to return it.
abbrev pub popped : Run false
popped = run (call_push 1 7 ∷ steps 1 7 (call_pop 4 ∷ steps 4 6 []))

-- Thread 4 has claimed the first element and not read it yet.
abbrev pub reading : Run false
reading = run (call_push 1 7 ∷ steps 1 7 (call_pop 4 ∷ steps 4 3 []))

-- Thread 4 has loaded a tail whose element thread 1 has not published.
abbrev pub early : Run false
early = run (call_push 1 7 ∷ steps 1 3 (call_pop 4 ∷ steps 4 1 []))

-- One element popped, one left, and all calls returned.
abbrev pub settled : Run false
settled = run (call_push 1 7 ∷ steps 1 7 (call_push 2 8 ∷ steps 2 7 (call_pop 4 ∷ steps 4 7 [])))

pub settled-idle : (i : ℕ) → settled.last.pc i ≡ idle
unfolding run
settled-idle zero = refl
settled-idle (suc zero) = refl
settled-idle (suc (suc zero)) = refl
settled-idle (suc (suc (suc zero))) = refl
settled-idle (suc (suc (suc (suc zero)))) = refl
settled-idle (suc (suc (suc (suc (suc i))))) = ground arith
