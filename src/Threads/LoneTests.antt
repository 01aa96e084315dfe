-- ===== src/Threads/LoneTests.antt =====
-- A thread alone in the queue of src/sigmax/mpsc_queue.hpp, on a queue of two cells.
use sigmax.Base.{ℕ, [], ◌∷◌, true, false, ◌≡◌, refl, arith, value}
use native.Mathlib.Decide.{ℕ_discrete}
use sigmax.Fifo
use sigmax.QueueState.{success}
use sigmax.MpscQueue.{MpscQueue, init, publish}
use sigmax.MpscQueue
use sigmax.MpscQueue.Words.{diff}
use sigmax.MpscQueue.Index.{index}
use sigmax.MpscQueue.Valid.{IsValid, contents, init-IsValid}
use sigmax.Threads.{push_enter, push_return, pop_enter, pop_return}
use sigmax.Threads.Alone.{Leads, push_back_leads, pop_leads}
use sigmax.Threads.Progress.{lone_push_returns, lone_pop_returns}

abbrev fresh : MpscQueue ℕ
fresh = init 0

push_back_leads_test : Leads 2 (fresh, push_enter 7) (publish 2 7 0 fresh, push_return success)
unfolding MpscQueue.push_back MpscQueue.push_loop init diff index
push_back_leads_test =
    push_back_leads 2 (true ∷ false ∷ []) 7 fresh (publish 2 7 0 fresh) success refl

pop_leads_test :
    Leads 2
      (publish 2 7 0 fresh, pop_enter)
      (MpscQueue.release 2 0 (publish 2 7 0 fresh), pop_return (value 7))
unfolding MpscQueue.pop MpscQueue.pop_loop init publish diff index ℕ_discrete
pop_leads_test =
    pop_leads 2 (true ∷ false ∷ []) (publish 2 7 0 fresh)
      (MpscQueue.release 2 0 (publish 2 7 0 fresh)) (value 7) refl

fresh-IsValid : IsValid 2 fresh
fresh-IsValid = init-IsValid 2 0 (omega arith) (omega arith)

lone_push_returns_test :
    let (status, xs) = Fifo.push 2 7 (contents 2 fresh) in
    (after : MpscQueue ℕ) × Leads 2 (fresh, push_enter 7) (after, push_return status)
    × (contents 2 after ≡ xs)
    × IsValid 2 after
unfolding init
lone_push_returns_test = lone_push_returns fresh-IsValid (omega arith) 7

lone_pop_returns_test :
    let (answer, xs) = Fifo.pop (contents 2 fresh) in
    (after : MpscQueue ℕ) × Leads 2 (fresh, pop_enter) (after, pop_return answer)
    × (contents 2 after ≡ xs)
    × IsValid 2 after
unfolding init
lone_pop_returns_test = lone_pop_returns fresh-IsValid (omega arith)
