-- ===== src/Database/Concurrent/Stock.antt =====
-- The orders of src/sigmax/database.cpp while threads append to them and sort them.
use Prim.Native.String.{String}
use native.Mathlib.Decide.{ℕ_discrete}
use mathlib.Core.List.{Perm, append_assoc, append-nil, map-append}
use mathlib.Core.List.Perm
use text.Mathlib.Text.{◌==◌}
use text.Mathlib.TextEquality.{eq_iff}
use sigmax.Base.{
  ℕ, ◌≡◌, ◌≢◌, refl, List, [], ◌∷◌, ◌++◌, Option, none, some, arith, ap, ◌∙◌, Bool-cases, inl, inr,
  if◌then◌else◌,
}
use sigmax.OrderType.{Order}
use sigmax.SharedFifo.Told.{elements}
use sigmax.Database.{IsSorted, Sorter}
use sigmax.Database.Valid.{for_instrument}

pub for_instrument-append :
    (k : String) (xs ys : List Order)
    → for_instrument k (xs ++ ys) ≡ for_instrument k xs ++ for_instrument k ys
unfolding for_instrument
for_instrument-append k [] ys = refl
for_instrument-append k (x ∷ xs) ys = ground (arith, for_instrument-append k xs ys)

-- What is stored for an instrument is what was stored at first and what has been put in since, in
-- some order; by rising timestamps, unless a thread has still to sort it. `sorting i` is the
-- instrument that thread `i` has still to sort.
pub record Stock (sorting : ℕ → Option String) (initial stored : String → List Order)
    (entered : List (ℕ × Order)) : Type 0 where
  pub sorted : (k : String) → ((i : ℕ) → sorting i ≢ some k) → IsSorted (stored k)
  pub content : (k : String) → Perm (stored k) (initial k ++ for_instrument k (elements entered))

module _ {sorting sorting' : ℕ → Option String} {initial stored stored' : String → List Order}
    {entered : List (ℕ × Order)} (s : Stock sorting initial stored entered) where
  pub Stock-same :
      ((i : ℕ) → sorting' i ≡ sorting i)
      → ((k : String) → stored' k ≡ stored k)
      → Stock sorting' initial stored' entered
  Stock-same h e = record {
    sorted = λ k no. rw (e k) (s.sorted k λ i w. no i (h i ∙ w));
    content = λ k. rw (e k) (s.content k);
  }

  module _ (i : ℕ) (others : (j : ℕ) → i ≢ j → sorting' j ≡ sorting j) where
    pub Stock-append :
        (order : Order)
        → sorting i ≡ none
        → sorting' i ≡ some order.instrument_id
        → ((k : String)
            → stored' k ≡ (
                if order.instrument_id == k
                then stored order.instrument_id ++ order ∷ []
                else stored k))
        → Stock sorting' initial stored' (entered ++ (i, order) ∷ [])
    unfolding for_instrument
    Stock-append order before now e = record {
      sorted = λ k no. elim (Bool-cases (order.instrument_id == k)) [
        | inl same ↦ absurd (no i (now ∙ ap some ((eq_iff order.instrument_id k).0 same)))
        | inr other ↦
            rw (e k, other) (s.sorted k λ j w. grind (arith, ℕ_discrete i j, others j, no j))
      ];
      content = λ k.
          rw (map-append, for_instrument-append k, ← append_assoc, e k)
            (elim (Bool-cases (order.instrument_id == k)) [
              | inl same ↦
                  rw (same, ← (eq_iff order.instrument_id k).0 same)
                    (Perm.append_right (order ∷ []) (s.content order.instrument_id))
              | inr other ↦ rw (other, append-nil) (s.content k)
            ]);
    }

    pub Stock-sort :
        (sorter : Sorter) (key : String)
        → sorting i ≡ some key
        → sorting' i ≡ none
        → ((k : String) → stored' k ≡ (if key == k then sorter.sort (stored key) else stored k))
        → Stock sorting' initial stored' entered
    Stock-sort sorter key before now e = record {
      sorted = λ k no. elim (Bool-cases (key == k)) [
        | inl same ↦ rw (e k, same) (sorter.sort-IsSorted (stored key))
        | inr other ↦
            rw (e k, other)
              (s.sorted k λ j w. grind (arith, ℕ_discrete i j, others j, no j, eq_iff key k))
      ];
      content = λ k. elim (Bool-cases (key == k)) [
        | inl same ↦
            rw (e k, same, (eq_iff key k).0 same)
              (Perm.trans (sorter.sort-perm (stored k)) (s.content k))
        | inr other ↦ rw (e k, other) (s.content k)
      ];
    }
