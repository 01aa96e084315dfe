-- ===== src/Threads/Alone.antt =====
-- A thread that runs alone takes the steps of a call in src/sigmax/mpsc_queue.hpp one after the
-- other: what it does is what the call does as one function.
use mathlib.Core.Option.{some-injective}
use sigmax.Base.{
  ℕ, List, [], ◌∷◌, some, Bool, false, not, ◌&&◌, Bool-cases, ◌≡◌, refl, ap, subst, ◌∙◌, ◌==◌,
  arith, Expected, value, unexpected, inl, inr,
}
use sigmax.Base.Int.{is_zero, is_negative}
use sigmax.QueueState.{QueueState, success, queue_is_full, queue_is_empty}
use sigmax.MpscQueue.{MpscQueue, publish, push_loop, push_back, release, pop_loop, pop}
use sigmax.MpscQueue.Words.{add64, diff}
use sigmax.MpscQueue.Index.{index}
use sigmax.Threads.{
  Pc, push_enter, push_check, push_claim, push_write, push_return, pop_enter, pop_check, pop_claim,
  pop_read, pop_return, advance,
}

module _ {A : Type 0} (C : ℕ) where
  -- As many steps as there are flags for the compare-exchanges.
  unfoldable pub steps : List Bool → MpscQueue A → Pc A → MpscQueue A × Pc A
  unfolding advance
  steps [] q p = (q, p)
  steps (weak ∷ flags) q p = let (q', p') = advance C weak q p in steps flags q' p'

  -- Some steps lead from one place to the other.
  abbrev pub Leads : MpscQueue A × Pc A → MpscQueue A × Pc A → Type 0
  Leads from to = (flags : List Bool) × (steps flags (from.0) (from.1) ≡ to)

  then_leads :
      (weak : Bool) (q : MpscQueue A) (p : Pc A) (middle : MpscQueue A × Pc A)
      {to : MpscQueue A × Pc A}
      → advance C weak q p ≡ middle
      → Leads middle to
      → Leads (q, p) to
  unfolding steps
  then_leads weak q p middle e (flags, f) = (weak ∷ flags, ap (λ m. steps flags (m.0) (m.1)) e ∙ f)

  -- What a return leaves, by the answer of the call.
  ends_as :
      {R : Type 0} (back : R → Pc A) (from : MpscQueue A × Pc A) {x y : R × MpscQueue A}
      → some x ≡ some y
      → Leads from (x.1, back (x.0))
      → Leads from (y.1, back (y.0))
  ends_as back from e l = subst (λ z. Leads from (z.1, back (z.0))) (some-injective _ _ e) l

  pushed :
      (a : A) (pos : ℕ) (q : MpscQueue A)
      → Leads
          (record q { head = add64 pos 1 }, push_write a pos)
          (publish C a pos q, push_return success)
  unfolding publish advance steps
  pushed a pos q = (false ∷ false ∷ false ∷ [], refl)

  push_loop_leads :
      (weak : List Bool) (a : A) (pos : ℕ) (q after : MpscQueue A) (status : QueueState)
      → push_loop C weak a pos q ≡ some (status, after)
      → Leads (q, push_check a pos) (after, push_return status)
  unfolding push_loop advance steps
  push_loop_leads [] a pos q after status e = cc
  push_loop_leads (w ∷ rest) a pos q after status e =
      elim (Bool-cases (is_zero (diff (q.sequence (index C pos)) pos))) [
        | inl equal ↦
            then_leads w q _ (q, push_claim a pos) (rw equal refl)
              (elim (Bool-cases (not w && (q.head == pos))) [
                | inl won ↦
                    then_leads w q _ (record q { head = add64 pos 1 }, push_write a pos)
                      (rw won refl)
                      (ends_as push_return _ {x = (success, publish C a pos q)} (ground arith)
                        (pushed a pos q))
                | inr lost ↦
                    then_leads w q _ (q, push_check a q.head) (rw lost refl)
                      (push_loop_leads rest a q.head q after status (ground arith))
              ])
        | inr differs ↦ elim (Bool-cases (is_negative (diff (q.sequence (index C pos)) pos))) [
          | inl full ↦
              then_leads w q _ (q, push_return queue_is_full) (rw (differs, full) refl)
                (ends_as push_return _ {x = (queue_is_full, q)} (ground arith) ([], refl))
          | inr late ↦
              then_leads w q _ (q, push_enter a) (rw (differs, late) refl)
                (then_leads w q _ (q, push_check a q.head) refl
                  (push_loop_leads rest a q.head q after status (ground arith)))
        ]
      ]

  popped :
      (pos : ℕ) (q : MpscQueue A)
      → Leads
          (record q { tail = add64 pos 1 }, pop_read pos)
          (release C pos q, pop_return (value (q.slots (index C pos))))
  unfolding release advance steps
  popped pos q = (false ∷ false ∷ false ∷ [], refl)

  pop_loop_leads :
      (weak : List Bool) (pos : ℕ) (q after : MpscQueue A) (answer : Expected A QueueState)
      → pop_loop C weak pos q ≡ some (answer, after)
      → Leads (q, pop_check pos) (after, pop_return answer)
  unfolding pop_loop advance steps
  pop_loop_leads [] pos q after answer e = cc
  pop_loop_leads (w ∷ rest) pos q after answer e =
      elim (Bool-cases (is_zero (diff (q.sequence (index C pos)) (add64 pos 1)))) [
        | inl equal ↦
            then_leads w q _ (q, pop_claim pos) (rw equal refl)
              (elim (Bool-cases (not w && (q.tail == pos))) [
                | inl won ↦
                    then_leads w q _ (record q { tail = add64 pos 1 }, pop_read pos) (rw won refl)
                      (ends_as pop_return _ {x = (value (q.slots (index C pos)), release C pos q)}
                        (ground arith) (popped pos q))
                | inr lost ↦
                    then_leads w q _ (q, pop_check q.tail) (rw lost refl)
                      (pop_loop_leads rest q.tail q after answer (ground arith))
              ])
        | inr differs ↦
            elim (Bool-cases (is_negative (diff (q.sequence (index C pos)) (add64 pos 1)))) [
              | inl none_left ↦
                  then_leads w q _ (q, pop_return (unexpected queue_is_empty))
                    (rw (differs, none_left) refl)
                    (ends_as pop_return _ {x = (unexpected queue_is_empty, q)} (ground arith)
                      ([], refl))
              | inr late ↦
                  then_leads w q _ (q, pop_enter) (rw (differs, late) refl)
                    (then_leads w q _ (q, pop_check q.tail) refl
                      (pop_loop_leads rest q.tail q after answer (ground arith)))
            ]
      ]

  -- If `PushBack` as one function returns, then a thread that enters it and runs alone takes some
  -- steps to its return, with the same status and the same queue.
  pub push_back_leads :
      (weak : List Bool) (a : A) (q after : MpscQueue A) (status : QueueState)
      → push_back C weak a q ≡ some (status, after)
      → Leads (q, push_enter a) (after, push_return status)
  unfolding push_back advance
  push_back_leads weak a q after status e =
      then_leads false q _ (q, push_check a q.head) refl
        (push_loop_leads weak a q.head q after status e)

  -- If `Pop` as one function returns, then a thread that enters it and runs alone takes some steps
  -- to its return, with the same answer and the same queue.
  pub pop_leads :
      (weak : List Bool) (q after : MpscQueue A) (answer : Expected A QueueState)
      → pop C weak q ≡ some (answer, after)
      → Leads (q, pop_enter) (after, pop_return answer)
  unfolding pop advance
  pop_leads weak q after answer e =
      then_leads false q _ (q, pop_check q.tail) refl (pop_loop_leads weak q.tail q after answer e)
