-- ===== src/UnitTests/Concurrent/Writer.antt =====
-- What the calls of one writer of test/mpsc_test.cpp come to.
use sigmax.Base.{
  ℕ, ◌+◌, ◌≤◌, ◌<◌, ◌≡◌, ◌≢◌, refl, ap, sym, subst, arith, Bool, List, ◌∷◌, ◌++◌, length,
  length-append, All, some,
}
use sigmax.QueueState.{QueueState, success, queue_is_empty, queue_is_full}
use sigmax.MpscQueue.{MpscQueue}
use sigmax.SharedFifo.{Event, called_push, returned_push, returned_pop, log}
use sigmax.SharedFifo.Told.{last_pushed, sent, option_list}
use sigmax.SharedFifo.Callers.{pushes_by, All-append}
use sigmax.Threads.{
  Pc, idle, push_enter, push_check, push_claim, push_write, push_publish, push_tally, push_return,
  pop_check, pop_return, advance, Earlier, observe,
}
use sigmax.Threads.Refine.{turn_event}

module _ {A : Type 0} where
  -- A call of `PushBack`, and the step in which it returns.
  abbrev pub in_push : Pc A → ℕ
  in_push (push_enter a) = 1
  in_push (push_check a pos) = 1
  in_push (push_claim a pos) = 1
  in_push (push_write a pos) = 1
  in_push (push_publish a pos) = 1
  in_push push_tally = 1
  in_push (push_return status) = 1
  in_push _ = 0

  abbrev pub returns_push : Pc A → ℕ
  returns_push (push_return status) = 1
  returns_push _ = 0

  pub in_push-advance :
      (C : ℕ) (weak : Bool) (q : MpscQueue A) (p : Pc A)
      → in_push (advance C weak q p).1 + returns_push p ≡ in_push p
  unfolding advance
  in_push-advance C weak q p = ground arith

  pub in_push-observe :
      (C : ℕ) (q : MpscQueue A) (p : Pc A) (v : ℕ)
      → Earlier C q p v
      → in_push (observe C p v) ≡ in_push p
  unfolding observe
  in_push-observe C q (push_check a pos) v e = ground arith
  in_push-observe C q (pop_check pos) v e = ground arith
  in_push-observe C q p v e = ground arith

  -- Thread `j` has called `PushBack` with `v` only, at most `limit` times, and has had an answer
  -- `written` times.
  pub record Writes (v : A) (limit j : ℕ) (h : List (Event A)) (pc : Pc A) (written : ℕ)
      : Type 0 where
    pub calls : pushes_by j h ≡ written + in_push pc
    pub within : pushes_by j h ≤ limit
    pub last : All (λ x. x ≡ v) (option_list (last_pushed j h))
    pub sents : All (λ x. x ≡ v) (sent j h)
    pub answered : length (sent j h) ≤ written

  -- What thread `j` does not see of a step of thread `i`, and of a call by it.
  pub turn-unseen :
      (i j : ℕ) (p : Pc A) (h : List (Event A))
      → i ≢ j
      → let h' = log (turn_event i p) h in
        (pushes_by j h' ≡ pushes_by j h)
        × (last_pushed j h' ≡ last_pushed j h)
        × (sent j h' ≡ sent j h)
  unfolding pushes_by last_pushed sent turn_event
  turn-unseen i j (push_return success) h ne = (refl, refl, ground arith)
  turn-unseen i j (push_return queue_is_empty) h ne = (refl, refl, refl)
  turn-unseen i j (push_return queue_is_full) h ne = (refl, refl, refl)
  turn-unseen i j (pop_return answer) h ne = (refl, refl, refl)
  turn-unseen i j p h ne = (refl, refl, refl)

  pub call-unseen :
      (i j : ℕ) (a : A) (h : List (Event A))
      → i ≢ j
      → let h' = called_push i a ∷ h in
        (pushes_by j h' ≡ pushes_by j h)
        × (last_pushed j h' ≡ last_pushed j h)
        × (sent j h' ≡ sent j h)
  unfolding pushes_by last_pushed sent
  call-unseen i j a h ne = (ground arith, ground arith, refl)

  module _ {v : A} {limit j : ℕ} {h : List (Event A)} {pc : Pc A} {written : ℕ}
      (w : Writes v limit j h pc written) where
    pub same-Writes :
        (h' : List (Event A)) (pc' : Pc A) (written' : ℕ)
        → (pushes_by j h' ≡ pushes_by j h)
          × (last_pushed j h' ≡ last_pushed j h)
          × (sent j h' ≡ sent j h)
        → in_push pc' ≡ in_push pc
        → written' ≡ written
        → Writes v limit j h' pc' written'
    same-Writes h' pc' written' (called, pushed, answered) same kept = record {
      calls = omega (arith, w.calls);
      within = omega (arith, w.within);
      last = subst (λ o. All (λ x. x ≡ v) (option_list o)) (sym pushed) w.last;
      sents = subst (All (λ x. x ≡ v)) (sym answered) w.sents;
      answered = omega (arith, w.answered, ap length answered);
    }

    pub call-Writes :
        pc ≡ idle → written < limit → Writes v limit j (called_push j v ∷ h) (push_enter v) written
    unfolding pushes_by last_pushed sent
    call-Writes at lt = record {
      calls = ground (arith, w.calls);
      within = ground (arith, w.calls);
      last =
          subst (λ o. All (λ x. x ≡ v) (option_list o))
            (let e : some v ≡ last_pushed j (called_push j v ∷ h) = ground arith in e) (refl, tt);
      sents = w.sents;
      answered = w.answered;
    }

    -- A return of `PushBack`.
    pub return-Writes :
        (status : QueueState) (pc' : Pc A) (written' : ℕ)
        → pc ≡ push_return status
        → in_push pc' ≡ 0
        → written' ≡ written + 1
        → Writes v limit j (returned_push j status ∷ h) pc' written'
    unfolding pushes_by last_pushed sent
    return-Writes success pc' written' at none_left one_more = record {
      calls = omega (arith, w.calls, ap in_push at, none_left);
      within = w.within;
      last = w.last;
      sents =
          subst (All (λ x. x ≡ v))
            (let e : sent j h ++ option_list (last_pushed j h)
                  ≡ sent j (returned_push j success ∷ h) =
                ground arith in
              e)
            (All-append (λ x. x ≡ v) (sent j h) (option_list (last_pushed j h)) w.sents w.last);
      answered =
          ground (arith, w.answered, length-append (sent j h) (option_list (last_pushed j h)));
    }
    return-Writes status pc' written' at none_left one_more = record {
      calls = omega (arith, w.calls, ap in_push at, none_left);
      within = w.within;
      last = w.last;
      sents = w.sents;
      answered = omega (arith, w.answered);
    }

    -- Any step of this thread.
    pub turn-Writes :
        (p p' : Pc A) (written' : ℕ)
        → pc ≡ p
        → in_push p' + returns_push p ≡ in_push p
        → written' ≡ written + returns_push p
        → Writes v limit j (log (turn_event j p) h) p' written'
    unfolding turn_event pushes_by last_pushed sent
    turn-Writes (push_return status) p' written' at same one_more =
        return-Writes status p' written' at (omega (arith, same)) one_more
    turn-Writes (pop_return answer) p' written' at same one_more =
        same-Writes (returned_pop j answer ∷ h) p' _ (refl, refl, refl)
          (omega (arith, same, ap in_push at)) (omega arith)
    turn-Writes p p' written' at same one_more =
        same-Writes h p' _ (refl, refl, refl) (omega (arith, same, ap in_push at)) (omega arith)
