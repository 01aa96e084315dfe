-- ===== src/Threads/Progress.antt =====
-- A thread that runs alone on a valid queue of src/sigmax/mpsc_queue.hpp comes to the end of its call.
use sigmax.Base.{ℕ, ◌+◌, ◌<◌, ◌^◌, [], ◌∷◌, false, ◌≡◌, refl}
use sigmax.Fifo
use sigmax.MpscQueue.{MpscQueue}
use sigmax.MpscQueue.Valid.{IsValid, contents}
use sigmax.MpscQueue.Refine.{push_back_refines, pop_refines}
use sigmax.Threads.{push_enter, push_return, pop_enter, pop_return}
use sigmax.Threads.Alone.{Leads, push_back_leads, pop_leads}

module _ {A : Type 0} {C : ℕ} {q : MpscQueue A} (v : IsValid C q) (room : q.head + C < 2 ^ 63) where
  -- From a valid queue whose head stays `C` below 2^63, a thread that enters `PushBack` and runs
  -- alone takes some steps to its return, with the status of the FIFO; the queue is valid again and
  -- holds the FIFO's list.
  pub lone_push_returns :
      (a : A)
      → let (status, xs) = Fifo.push C a (contents C q) in
        (after : MpscQueue A) × Leads C (q, push_enter a) (after, push_return status)
        × (contents C after ≡ xs)
        × IsValid C after
  lone_push_returns a =
      let (after, e, same, valid, _, _, _) = push_back_refines v room (false ∷ []) a refl in
      (after, push_back_leads C (false ∷ []) a q after _ e, same, valid)

  -- From a valid queue whose head stays `C` below 2^63, a thread that enters `Pop` and runs alone
  -- takes some steps to its return, with the answer of the FIFO; the queue is valid again and holds
  -- the FIFO's list.
  pub lone_pop_returns :
      let (answer, xs) = Fifo.pop (contents C q) in
      (after : MpscQueue A) × Leads C (q, pop_enter) (after, pop_return answer)
      × (contents C after ≡ xs)
      × IsValid C after
  lone_pop_returns =
      let (after, e, same, valid, _, _, _) = pop_refines v room (false ∷ []) refl in
      (after, pop_leads C (false ∷ []) q after _ e, same, valid)
