-- ===== src/UnitTests/Concurrent/Reader.antt =====
-- What the answers that the reader of test/mpsc_test.cpp gets come to.
use sigmax.Base.{
  ℕ, ◌+◌, ◌≤◌, ◌<◌, ◌≡◌, refl, ap, arith, Bool, true, List, [], ◌∷◌, length, length-append, value,
  unexpected,
}
use sigmax.MpscQueue.{MpscQueue}
use sigmax.SharedFifo.{Event, called_push, called_pop, returned_push, returned_pop, log}
use sigmax.SharedFifo.Told.{received, OnlyPops}
use sigmax.SharedFifo.Callers.{total, total-append}
use sigmax.Threads.{
  Pc, idle, push_check, push_return, pop_enter, pop_check, pop_claim, pop_read, pop_release,
  pop_tally, pop_return, advance, observe, Earlier,
}
use sigmax.Threads.Retries.{is_pushing, is_popping}
use sigmax.Threads.Sides.{in_hand, hands_over}
use sigmax.Threads.Refine.{turn_event}

-- The value that a call of `Pop` returns in its next step, and a call that has not returned.
abbrev pub worth : Pc ℕ → ℕ
worth (pop_return (value x)) = x
worth _ = 0

abbrev pub in_pop : Pc ℕ → ℕ
in_pop pop_enter = 1
in_pop (pop_check pos) = 1
in_pop (pop_claim pos) = 1
in_pop (pop_read pos) = 1
in_pop (pop_release pos a) = 1
in_pop (pop_tally a) = 1
in_pop (pop_return answer) = 1
in_pop _ = 0

-- Thread `c` alone has called `Pop`; the elements that it has received are `count`, at most `limit`,
-- and add up to `sum`; and with the one that it has in hand they are those that have left the queue.
pub record Reads (limit c : ℕ) (h : List (Event ℕ)) (pc : Pc ℕ) (tail count sum : ℕ) : Type 0 where
  pub alone : OnlyPops c h
  pub got : length (received c h) ≡ count
  pub adds : total (λ x. x) (received c h) ≡ sum
  pub taken : tail ≡ count + in_hand pc
  pub wanted : count + in_pop pc ≤ limit

module _ {limit c : ℕ} {h : List (Event ℕ)} {pc : Pc ℕ} {tail count sum : ℕ}
    (r : Reads limit c h pc tail count sum) where
  pub call-Reads :
      pc ≡ idle → count < limit → Reads limit c (called_pop c ∷ h) pop_enter tail count sum
  unfolding received
  call-Reads at lt = record {
    alone = (refl, r.alone);
    got = r.got;
    adds = r.adds;
    taken = omega (arith, r.taken, ap in_hand at);
    wanted = omega arith;
  }

  -- A call and a step of a thread that pushes.
  pub writer_call-Reads :
      (i a : ℕ) (pc' : Pc ℕ) → pc' ≡ pc → Reads limit c (called_push i a ∷ h) pc' tail count sum
  unfolding received
  writer_call-Reads i a pc' same = record {
    alone = r.alone;
    got = r.got;
    adds = r.adds;
    taken = omega (arith, r.taken, ap in_hand same);
    wanted = omega (arith, r.wanted, ap in_pop same);
  }

  -- A step in which thread `c` receives nothing.
  quiet-Reads :
      (h' : List (Event ℕ)) (pc' : Pc ℕ) (tail' count' sum' : ℕ)
      → received c h' ≡ received c h
      → OnlyPops c h'
      → tail' + in_hand pc ≡ tail + in_hand pc'
      → in_pop pc' ≤ in_pop pc
      → count' ≡ count
      → sum' ≡ sum
      → Reads limit c h' pc' tail' count' sum'
  quiet-Reads h' pc' tail' count' sum' same only moved fewer still kept = record {
    alone = only;
    got = omega (arith, ap length same, r.got);
    adds = omega (arith, ap (total (λ x. x)) same, r.adds);
    taken = omega (arith, r.taken);
    wanted = omega (arith, r.wanted);
  }

  pub writer_turn-Reads :
      (i : ℕ) (p pc' : Pc ℕ) (tail' count' sum' : ℕ)
      → is_pushing p ≡ true
      → pc' ≡ pc
      → tail' ≡ tail
      → count' ≡ count + hands_over p
      → sum' ≡ sum + worth p
      → Reads limit c (log (turn_event i p) h) pc' tail' count' sum'
  unfolding received turn_event
  writer_turn-Reads i (push_return status) pc' tail' count' sum' k same still more plus =
      quiet-Reads (returned_push i status ∷ h) pc' tail' count' sum' refl r.alone
        (omega (arith, ap in_hand same)) (omega (arith, ap in_pop same)) (omega arith) (omega arith)
  writer_turn-Reads i (pop_return answer) pc' tail' count' sum' k same still more plus =
      absurd (ground arith)
  writer_turn-Reads i p pc' tail' count' sum' k same still more plus =
      quiet-Reads h pc' tail' count' sum' refl r.alone (omega (arith, ap in_hand same))
        (omega (arith, ap in_pop same)) (omega arith) (omega arith)

  -- A step of the reader.
  pub turn-Reads :
      (p p' : Pc ℕ) (tail' count' sum' : ℕ)
      → pc ≡ p
      → is_popping p ≡ true
      → tail' + in_hand p ≡ tail + hands_over p + in_hand p'
      → in_pop p' + hands_over p ≤ in_pop p
      → count' ≡ count + hands_over p
      → sum' ≡ sum + worth p
      → Reads limit c (log (turn_event c p) h) p' tail' count' sum'
  unfolding received turn_event
  turn-Reads (pop_return (value x)) p' tail' count' sum' at k moved fewer more plus = record {
    alone = r.alone;
    got = ground (arith, r.got, length-append (received c h) (x ∷ []));
    adds = ground (arith, r.adds, total-append (λ y. y) (received c h) (x ∷ []));
    taken = omega (arith, r.taken, ap in_hand at);
    wanted = omega (arith, r.wanted, ap in_pop at);
  }
  turn-Reads (pop_return (unexpected e)) p' tail' count' sum' at k moved fewer more plus =
      quiet-Reads (returned_pop c (unexpected e) ∷ h) p' tail' count' sum' refl r.alone
        (omega (arith, ap in_hand at)) (omega (arith, ap in_pop at)) (omega arith) (omega arith)
  turn-Reads (push_return status) p' tail' count' sum' at k moved fewer more plus =
      absurd (ground arith)
  turn-Reads p p' tail' count' sum' at k moved fewer more plus =
      quiet-Reads h p' tail' count' sum' refl r.alone (omega (arith, ap in_hand at))
        (omega (arith, ap in_pop at)) (omega arith) (omega arith)

  -- A late load.
  pub load-Reads :
      (pc' : Pc ℕ)
      → in_hand pc' ≡ in_hand pc
      → in_pop pc' ≡ in_pop pc
      → Reads limit c h pc' tail count sum
  load-Reads pc' same kept =
      quiet-Reads h pc' tail count sum refl r.alone (omega arith) (omega arith) refl refl

pub in_pop-advance :
    (C : ℕ) (weak : Bool) (q : MpscQueue ℕ) (p : Pc ℕ)
    → in_pop (advance C weak q p).1 + hands_over p ≤ in_pop p
unfolding advance
in_pop-advance C weak q (pop_return (value x)) = omega arith
in_pop-advance C weak q (pop_return (unexpected e)) = omega arith
in_pop-advance C weak q p = ground arith

pub in_pop-observe :
    (C : ℕ) (q : MpscQueue ℕ) (p : Pc ℕ) (v : ℕ)
    → Earlier C q p v
    → in_pop (observe C p v) ≡ in_pop p
unfolding observe
in_pop-observe C q (push_check a pos) v e = ground arith
in_pop-observe C q (pop_check pos) v e = ground arith
in_pop-observe C q p v e = ground arith
