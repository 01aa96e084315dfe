-- ===== src/SharedFifo/Told.antt =====
-- What a history of calls and answers says, and how it goes with the shared list.
use native.Mathlib.Decide.{ℕ_discrete}
use sigmax.Base.{
  ℕ, ◌≡◌, List, [], ◌∷◌, ◌++◌, Option, none, some, Bool, true, false, ◌==◌, if◌then◌else◌, arith,
  map, refl, ap, subst, ◌∙◌, value,
}
use sigmax.QueueState.{success}
use sigmax.SharedFifo.{
  Phase, pushing, entered, push_answered, popping, holding, pop_answered, Event, called_push,
  called_pop, returned_push, returned_pop, log, Shared, Advances,
}

module _ {A : Type 0} where
  abbrev pub option_list : Option A → List A
  option_list none = []
  option_list (some a) = a ∷ []

  -- The element of the last call of `PushBack` by a thread.
  unfoldable pub last_pushed : ℕ → List (Event A) → Option A
  last_pushed i [] = none
  last_pushed i (called_push j a ∷ es) = if j == i then some a else last_pushed i es
  last_pushed i (event ∷ es) = last_pushed i es

  -- The elements that a thread has pushed with SUCCESS, in the order of its calls.
  unfoldable pub sent : ℕ → List (Event A) → List A
  unfolding last_pushed
  sent i [] = []
  sent i (returned_push j success ∷ es) =
      if j == i then sent i es ++ option_list (last_pushed i es) else sent i es
  sent i (event ∷ es) = sent i es

  -- The elements that `Pop` has returned to a thread, in their order.
  unfoldable pub received : ℕ → List (Event A) → List A
  received i [] = []
  received i (returned_pop j (value a) ∷ es) =
      if j == i then received i es ++ a ∷ [] else received i es
  received i (event ∷ es) = received i es

  -- No thread but `c` calls `Pop`.
  abbrev pub OnlyPops : ℕ → List (Event A) → Type 0
  OnlyPops c [] = Unit
  OnlyPops c (called_pop i ∷ es) = (i ≡ c) × OnlyPops c es
  OnlyPops c (event ∷ es) = OnlyPops c es

  pub only_before :
      (c : ℕ) (o : Option (Event A)) (es : List (Event A)) → OnlyPops c (log o es) → OnlyPops c es
  only_before c none es h = h
  only_before c (some (called_push i a)) es h = h
  only_before c (some (called_pop i)) es h = h.1
  only_before c (some (returned_push i status)) es h = h
  only_before c (some (returned_pop i answer)) es h = h

  -- The elements that one producer has put in.
  unfoldable pub from : ℕ → List (ℕ × A) → List A
  from i [] = []
  from i ((j, a) ∷ ins) = if j == i then a ∷ from i ins else from i ins

  abbrev pub elements : List (ℕ × A) → List A
  elements = map (λ (p : ℕ × A). p.1)

  -- What a call has taken out and not returned yet, and what it has put in and not answered for.
  abbrev pub taken_out : Phase A → List A
  taken_out (holding a) = a ∷ []
  taken_out (pop_answered (value a)) = a ∷ []
  taken_out _ = []

  abbrev pub put_in : Phase A → Option A → List A
  put_in entered last = option_list last
  put_in (push_answered success) last = option_list last
  put_in _ last = []

  abbrev pub pending : Phase A → Option A
  pending (pushing a) = some a
  pending _ = none

  abbrev pub is_pop : Phase A → Bool
  is_pop popping = true
  is_pop (holding a) = true
  is_pop (pop_answered answer) = true
  is_pop _ = false

  -- The elements that have entered the list so far, with their producers, are those that the
  -- consumer `c` has received, and then those that are still there.
  pub record Told (c : ℕ) (es : List (Event A)) (s : Shared A) (ins : List (ℕ × A)) : Type 0 where
    pub order : elements ins ≡ received c es ++ (taken_out (s.phase c) ++ s.items)
    pub producers : (i : ℕ) → from i ins ≡ sent i es ++ put_in (s.phase i) (last_pushed i es)
    pub current : (i : ℕ) (a : A) → pending (s.phase i) ≡ some a → last_pushed i es ≡ some a
    pub consumer : (i : ℕ) → is_pop (s.phase i) ≡ true → i ≡ c

  pub from-append : (i : ℕ) (xs ys : List (ℕ × A)) → from i (xs ++ ys) ≡ from i xs ++ from i ys
  unfolding from
  from-append i [] ys = refl
  from-append i ((j, a) ∷ xs) ys = ground (arith, from-append i xs ys)

  -- What a step does not change of the phase of the thread that moves, it changes of none.
  pub seen_same {κ} :
      {X : Type κ} (f : Phase A → X) (s t : Shared A) (i : ℕ) (p : Phase A)
      → Advances s i p t
      → f p ≡ f (s.phase i)
      → (k : ℕ) → f (t.phase k) ≡ f (s.phase k)
  seen_same f s t i p on e k = elim (ℕ_discrete i k) [
    | yes at ↦ subst (λ k. f (t.phase k) ≡ f (s.phase k)) at (ap f on.0 ∙ e)
    | no ne ↦ ap f (on.1 k ne)
  ]
