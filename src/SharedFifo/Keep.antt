-- ===== src/SharedFifo/Keep.antt =====
-- Every step of the shared list keeps the history in accord with the list.
use native.Mathlib.Decide.{ℕ_discrete}
use mathlib.Core.List.{append-nil}
use sigmax.Base.{
  ℕ, ◌≡◌, ◌≢◌, List, ◌∷◌, ◌++◌, none, some, true, arith, refl, sym, ap, ap₂, subst, ◌∙◌,
}
use sigmax.QueueState.{QueueState, success}
use sigmax.SharedFifo.{
  Phase, resting, pushing, push_answered, popping, Event, called_push, called_pop, returned_push,
  Shared, Advances, SameItems,
}
use sigmax.SharedFifo.Told.{
  last_pushed, sent, received, from, elements, taken_out, put_in, pending, is_pop, Told, seen_same,
  option_list,
}

module _ {A : Type 0} {c : ℕ} {es : List (Event A)} {s : Shared A} {ins : List (ℕ × A)}
    (told : Told c es s ins) where
  -- What the events and the list say of a thread that does not move.
  abbrev pub Unmoved : List (Event A) → List (ℕ × A) → ℕ → Type 0
  Unmoved es' ins' k =
      (from k ins' ≡ from k ins) × (sent k es' ≡ sent k es) × (last_pushed k es' ≡ last_pushed k es)

  module _ {t : Shared A} {i : ℕ} {p : Phase A} (on : Advances s i p t) where
    pub advance-Told :
        (es' : List (Event A)) (ins' : List (ℕ × A))
        → elements ins' ≡ received c es' ++ (taken_out (t.phase c) ++ t.items)
        → from i ins' ≡ sent i es' ++ put_in p (last_pushed i es')
        → ((k : ℕ) → i ≢ k → Unmoved es' ins' k)
        → ((a : A) → pending p ≡ some a → last_pushed i es' ≡ some a)
        → (is_pop p ≡ true → i ≡ c)
        → Told c es' t ins'
    advance-Told es' ins' order mine others cur cons = record {
      order = order;
      producers = λ k. elim (ℕ_discrete i k) [
        | yes at ↦
            subst (λ k. from k ins' ≡ sent k es' ++ put_in (t.phase k) (last_pushed k es')) at
              (mine ∙ ap (λ q. sent i es' ++ put_in q (last_pushed i es')) (sym on.0))
        | no ne ↦ ground (arith, told.producers k, others k ne, on.1 k ne)
      ];
      current = λ k a. elim (ℕ_discrete i k) [
        | yes at ↦ λ e.
            subst (λ k. last_pushed k es' ≡ some a) at
              (cur a (ap pending (sym on.0 ∙ ap t.phase at) ∙ e))
        | no ne ↦ λ e. ground (arith, told.current k a, others k ne, on.1 k ne)
      ];
      consumer = λ k. elim (ℕ_discrete i k) [
        | yes at ↦ λ e. sym at ∙ cons (ap is_pop (sym on.0 ∙ ap t.phase at) ∙ e)
        | no ne ↦ λ e. told.consumer k (ap is_pop (sym (on.1 k ne)) ∙ e)
      ];
    }

    -- The list and what has been taken out are as before.
    module _ (same : SameItems s t) (out : taken_out p ≡ taken_out (s.phase i)) where
      pub same_order : elements ins ≡ received c es ++ (taken_out (t.phase c) ++ t.items)
      same_order =
          told.order
          ∙ ap₂ (λ x y. received c es ++ (x ++ y)) (sym (seen_same taken_out s t i p on out c))
              (sym same)

      -- A step that no caller sees, and that takes nothing in or out.
      pub inner-Told :
          put_in p (last_pushed i es) ≡ put_in (s.phase i) (last_pushed i es)
          → pending p ≡ none
          → (is_pop p ≡ true → i ≡ c)
          → Told c es t ins
      inner-Told put quiet cons =
          advance-Told es ins same_order (told.producers i ∙ ap (λ x. sent i es ++ x) (sym put))
            (λ k ne. (refl, refl, refl)) (λ a e. ground arith) cons

      pub call_push-Told :
          (a : A) → s.phase i ≡ resting → p ≡ pushing a → Told c (called_push i a ∷ es) t ins
      unfolding sent received last_pushed
      call_push-Told a e f =
          advance-Told (called_push i a ∷ es) ins same_order (ground (arith, told.producers i))
            (λ k ne. (refl, refl, ground arith)) (λ b h. ground arith) (λ h. ground arith)

      pub call_pop-Told :
          i ≡ c → s.phase i ≡ resting → p ≡ popping → Told c (called_pop i ∷ es) t ins
      unfolding sent received last_pushed
      call_pop-Told mine e f =
          advance-Told (called_pop i ∷ es) ins same_order (ground (arith, told.producers i))
            (λ k ne. (refl, refl, refl)) (λ b h. ground arith) (λ h. mine)

      pub return_push-Told :
          (status : QueueState)
          → s.phase i ≡ push_answered status
          → p ≡ resting
          → Told c (returned_push i status ∷ es) t ins
      unfolding sent received last_pushed
      return_push-Told success e f =
          advance-Told (returned_push i success ∷ es) ins same_order
            (ground
              (arith, told.producers i, append-nil (sent i es ++ option_list (last_pushed i es))))
            (λ k ne. (refl, ground arith, refl)) (λ b h. ground arith) (λ h. ground arith)
      return_push-Told status e f =
          advance-Told (returned_push i status ∷ es) ins same_order
            (ground (arith, told.producers i)) (λ k ne. (refl, refl, refl)) (λ b h. ground arith)
            (λ h. ground arith)
