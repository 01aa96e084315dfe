-- ===== src/Database/Concurrent/Paid.antt =====
-- What the threads of src/sigmax/database.cpp have called `UpdateDb` with, against what they have put
-- into the store.
use sigmax.Base.{ℕ, ◌≡◌, ◌≢◌, List, [], ◌∷◌, ◌++◌, arith, map, sym, ap, subst, refl, ◌∙◌}
use native.Mathlib.Decide.{ℕ_discrete}
use mathlib.Core.List.{append-nil}
use sigmax.OrderType.{Order}
use sigmax.SharedFifo.Told.{from, from-append}

from-own : (i : ℕ) (orders : List Order) → from i (map (λ o. (i, o)) orders) ≡ orders
unfolding from
from-own i [] = refl
from-own i (o ∷ os) = ground (arith, from-own i os)

from-foreign : (i j : ℕ) → i ≢ j → (orders : List Order) → from j (map (λ o. (i, o)) orders) ≡ []
unfolding from
from-foreign i j ne [] = refl
from-foreign i j ne (o ∷ os) = ground (arith, from-foreign i j ne os)

-- The orders that a thread has called `UpdateDb` with, in the order of its calls, are those that it
-- has put into the store and then what its call still owes. `owed i` is what thread `i` owes.
pub record Paid (calls entered : List (ℕ × Order)) (owed : ℕ → List Order) : Type 0 where
  pub by_thread : (i : ℕ) → from i calls ≡ from i entered ++ owed i

module _ {calls entered : List (ℕ × Order)} {owed owed' : ℕ → List Order}
    (p : Paid calls entered owed) where
  pub Paid-same : ((i : ℕ) → owed' i ≡ owed i) → Paid calls entered owed'
  Paid-same e = record { by_thread = λ i. p.by_thread i ∙ ap (◌++◌ (from i entered)) (sym (e i)) }

  module _ (i : ℕ) (others : (j : ℕ) → i ≢ j → owed' j ≡ owed j) where
    put_own :
        (order : Order)
        → owed i ≡ order ∷ []
        → owed' i ≡ []
        → from i calls ≡ from i (entered ++ (i, order) ∷ []) ++ owed' i
    put_own order before now =
        rw (from-append i entered ((i, order) ∷ []), from-own i (order ∷ []), now, append-nil)
          (p.by_thread i ∙ ap (◌++◌ (from i entered)) before)

    -- A thread puts the order in that it owes.
    pub Paid-put :
        (order : Order)
        → owed i ≡ order ∷ []
        → owed' i ≡ []
        → Paid calls (entered ++ (i, order) ∷ []) owed'
    Paid-put order before now = record {
      by_thread = λ j. elim (ℕ_discrete i j) [
        | yes at ↦
            subst (λ k. from k calls ≡ from k (entered ++ (i, order) ∷ []) ++ owed' k) at
              (put_own order before now)
        | no ne ↦
            rw
              (
                from-append j entered ((i, order) ∷ []),
                from-foreign i j ne (order ∷ []),
                append-nil,
                others j ne,
              )
              (p.by_thread j)
      ];
    }

    call_own :
        (orders : List Order)
        → owed i ≡ []
        → owed' i ≡ orders
        → from i (calls ++ map (λ o. (i, o)) orders) ≡ from i entered ++ owed' i
    call_own orders before now =
        rw (from-append i calls (map (λ o. (i, o)) orders), from-own i orders, now)
          (ap (λ xs. xs ++ orders)
            (p.by_thread i ∙ ap (◌++◌ (from i entered)) before ∙ append-nil (from i entered)))

    -- A thread begins a call with these orders.
    pub Paid-call :
        (orders : List Order)
        → owed i ≡ []
        → owed' i ≡ orders
        → Paid (calls ++ map (λ o. (i, o)) orders) entered owed'
    Paid-call orders before now = record {
      by_thread = λ j. elim (ℕ_discrete i j) [
        | yes at ↦
            subst (λ k. from k (calls ++ map (λ o. (i, o)) orders) ≡ from k entered ++ owed' k) at
              (call_own orders before now)
        | no ne ↦
            rw
              (
                from-append j calls (map (λ o. (i, o)) orders),
                from-foreign i j ne orders,
                append-nil,
                others j ne,
              )
              (p.by_thread j)
      ];
    }
