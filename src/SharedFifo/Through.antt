-- ===== src/SharedFifo/Through.antt =====
-- An element's way through the shared list: from its producer's call to the consumer's answer.
use mathlib.Core.List.{append_assoc, append-nil, map-append}
use sigmax.Base.{
  Bool, ℕ, ◌≡◌, List, [], ◌∷◌, ◌++◌, Option, ◌==◌, if◌then◌else◌, arith, refl, sym, ap, ap₂, subst,
  ◌∙◌, Expected, value, unexpected,
}
use sigmax.QueueState.{QueueState}
use sigmax.SharedFifo.{
  resting, pushing, entered, popping, holding, pop_answered, Event, returned_pop, log, Shared,
  Advances, SameItems, Step, pause, call_push, call_pop, enter, accept, refuse, refuse_late, leave,
  deliver, find_none, find_none_late, return_push, return_pop, Runs, start, step,
}
use sigmax.SharedFifo.Told.{
  last_pushed, sent, received, OnlyPops, from, elements, taken_out, put_in, pending, is_pop, Told,
  from-append, seen_same, only_before,
}
use sigmax.SharedFifo.Keep.{
  advance-Told, same_order, inner-Told, call_push-Told, call_pop-Told, return_push-Told,
}

module _ {A : Type 0} {c : ℕ} {es : List (Event A)} {s : Shared A} {ins : List (ℕ × A)}
    (told : Told c es s ins) where
  module _ {t : Shared A} {i : ℕ} where
    enter-Told :
        (a : A)
        → s.phase i ≡ pushing a
        → t.items ≡ s.items ++ a ∷ []
        → Advances s i entered t
        → Told c es t (ins ++ (i, a) ∷ [])
    unfolding from
    enter-Told a e grown on =
        advance-Told told on es (ins ++ (i, a) ∷ []) order
          (ground (
            arith,
            from-append i ins ((i, a) ∷ []),
            told.producers i,
            told.current i a,
            append-nil (sent i es),
          ))
          (λ k ne.
            (ground (arith, from-append k ins ((i, a) ∷ []), append-nil (from k ins)), refl, refl))
          (λ b h. ground arith) (λ h. ground arith)
      where
        order : elements (ins ++ (i, a) ∷ []) ≡ received c es ++ (taken_out (t.phase c) ++ t.items)
        order =
            map-append (λ (p : ℕ × A). p.1) ins ((i, a) ∷ [])
            ∙ (ap (λ x. x ++ a ∷ []) told.order
                ∙ (append_assoc (received c es) (taken_out (s.phase c) ++ s.items) (a ∷ [])
                    ∙ ap (λ x. received c es ++ x)
                        (append_assoc (taken_out (s.phase c)) s.items (a ∷ [])
                          ∙ ap₂ ◌++◌ (sym (seen_same taken_out s t i entered on (ground arith) c))
                              (sym grown))))

    leave-Told :
        (a : A)
        → s.phase i ≡ popping
        → s.items ≡ a ∷ t.items
        → Advances s i (holding a) t
        → Told c es t ins
    leave-Told a e first on =
        advance-Told told on es ins (told.order ∙ ap (λ x. received c es ++ x) same)
          (ground (arith, told.producers i)) (λ k ne. (refl, refl, refl)) (λ b h. ground arith)
          (λ h. mine)
      where
        mine : i ≡ c
        mine = told.consumer i (ap is_pop e)

        same : taken_out (s.phase c) ++ s.items ≡ taken_out (t.phase c) ++ t.items
        same =
            subst (λ k. taken_out (s.phase k) ++ s.items ≡ taken_out (t.phase k) ++ t.items) mine
              (ground (arith, on.0))

    return_pop-Told :
        (answer : Expected A QueueState)
        → s.phase i ≡ pop_answered answer
        → SameItems s t
        → Advances s i resting t
        → Told c (returned_pop i answer ∷ es) t ins
    unfolding received sent last_pushed
    return_pop-Told (value a) e same on =
        advance-Told told on (returned_pop i (value a) ∷ es) ins (told.order ∙ order)
          (ground (arith, told.producers i)) (λ k ne. (refl, refl, refl)) (λ b h. ground arith)
          (λ h. ground arith)
      where
        mine : i ≡ c
        mine = told.consumer i (ap is_pop e)

        order :
            received c es ++ (taken_out (s.phase c) ++ s.items)
            ≡ (if i == c then received c es ++ a ∷ [] else received c es)
              ++ (taken_out (t.phase c) ++ t.items)
        order =
            subst
              (λ k.
                received k es ++ (taken_out (s.phase k) ++ s.items)
                ≡ (if i == k then received k es ++ a ∷ [] else received k es)
                  ++ (taken_out (t.phase k) ++ t.items))
              mine (ground (arith, on.0, append_assoc (received i es) (a ∷ []) t.items))
    return_pop-Told (unexpected none_left) e same on =
        advance-Told told on (returned_pop i (unexpected none_left) ∷ es) ins
          (same_order told on same (ground arith)) (ground (arith, told.producers i))
          (λ k ne. (refl, refl, refl)) (λ b h. ground arith) (λ h. ground arith)

  pub step-Told :
      (o : Option (Event A)) {late : Bool} {C : ℕ} {t : Shared A}
      → OnlyPops c (log o es)
      → Step late C o s t
      → (ins' : List (ℕ × A)) × Told c (log o es) t ins'
  step-Told o only (pause e same still) = rw e (
    ins,
    record {
      order =
          told.order ∙ ap₂ (λ x y. received c es ++ (taken_out x ++ y)) (sym (still c)) (sym same);
      producers = λ i.
          told.producers i ∙ ap (λ q. sent i es ++ put_in q (last_pushed i es)) (sym (still i));
      current = λ i a h. told.current i a (ap pending (sym (still i)) ∙ h);
      consumer = λ i h. told.consumer i (ap is_pop (sym (still i)) ∙ h);
    },
  )
  step-Told o only (call_push i a e at same on) =
      rw e (ins, call_push-Told told on same (ground arith) a at refl)
  step-Told o only (call_pop i e at same on) = rw e (
    ins,
    call_pop-Told told on same (ground arith) (subst (λ x. OnlyPops c (log x es)) e only).0 at refl,
  )
  step-Told o only (enter i a e at room grown on) = rw e (_, enter-Told a at grown on)
  step-Told o only (accept i e at same on) =
      rw e (ins, inner-Told told on same (ground arith) (ground arith) refl (λ h. ground arith))
  step-Told o only (refuse i a e at why same on) =
      rw e (ins, inner-Told told on same (ground arith) (ground arith) refl (λ h. ground arith))
  step-Told o only (refuse_late i a l e at same on) =
      rw e (ins, inner-Told told on same (ground arith) (ground arith) refl (λ h. ground arith))
  step-Told o only (leave i a e at first on) = rw e (ins, leave-Told a at first on)
  step-Told o only (deliver i a e at same on) = rw e (
    ins,
    inner-Told told on same (ground arith) (ground arith) refl
        (λ h. told.consumer i (ap is_pop at)),
  )
  step-Told o only (find_none i e at why same on) = rw e (
    ins,
    inner-Told told on same (ground arith) (ground arith) refl
        (λ h. told.consumer i (ap is_pop at)),
  )
  step-Told o only (find_none_late i l e at same on) = rw e (
    ins,
    inner-Told told on same (ground arith) (ground arith) refl
        (λ h. told.consumer i (ap is_pop at)),
  )
  step-Told o only (return_push i status e at same on) =
      rw e (ins, return_push-Told told on same (ap taken_out (sym at)) status at refl)
  step-Told o only (return_pop i answer e at same on) =
      rw e (ins, return_pop-Told answer at same on)

module _ {A : Type 0} {late : Bool} {C c : ℕ} where
  -- A history in which `c` alone pops tells what the shared list holds.
  pub Runs-Told :
      {es : List (Event A)} {s : Shared A}
      → Runs late C es s
      → OnlyPops c es
      → (ins : List (ℕ × A)) × Told c es s ins
  unfolding from received sent
  Runs-Told start only = (
    [],
    record { order = refl; producers = λ i. refl; current = λ i a e. cc; consumer = λ i e. cc },
  )
  Runs-Told (step {es} o r st) only =
      let (ins, told) = Runs-Told r (only_before c o es only) in step-Told told o only st
