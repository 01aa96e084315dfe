-- ===== src/Database/Sample.antt =====
-- An insertion sort in the place of the `std::sort` of src/sigmax/database.cpp, and sample stores.
use Prim.Native.String.{String}
use mathlib.Core.List.{Perm}
use mathlib.Core.List.Perm
use text.Mathlib.Text.{◌==◌}
use sigmax.Base.{ℕ, List, [], ◌∷◌, if◌then◌else◌, arith, All, Bool-cases, inl, inr}
use sigmax.Base.Int.{pos, ltb_ℤ, ◌≤ℤ◌}
use sigmax.OrderType.{Order, OrderState, buy}
use sigmax.Std.Map.{find?}
use sigmax.Database.{DataBase, unlocked, IsSorted, Sorter}
use sigmax.Database.Valid.{IsValid}

-- Insertion by the timestamp, and the sort that it makes.
unfoldable pub insert : Order → List Order → List Order
insert x [] = x ∷ []
insert x (y ∷ ys) = if ltb_ℤ y.ts x.ts then y ∷ insert x ys else x ∷ y ∷ ys

unfoldable pub insertion_sort : List Order → List Order
insertion_sort [] = []
insertion_sort (x ∷ xs) = insert x (insertion_sort xs)

pub insert-perm : (x : Order) (xs : List Order) → Perm (insert x xs) (x ∷ xs)
unfolding insert
insert-perm x [] = Perm.refl _
insert-perm x (y ∷ ys) = elim (Bool-cases (ltb_ℤ y.ts x.ts)) [
  | inl later ↦ rw later (Perm.trans (Perm.cons y (insert-perm x ys)) (Perm.swap x y ys))
  | inr first ↦ rw first (Perm.refl _)
]

pub insertion_sort-perm : (xs : List Order) → Perm (insertion_sort xs) xs
unfolding insertion_sort
insertion_sort-perm [] = Perm.refl _
insertion_sort-perm (x ∷ xs) =
    Perm.trans (insert-perm x (insertion_sort xs)) (Perm.cons x (insertion_sort-perm xs))

pub insert-All :
    (z x : Order) (xs : List Order)
    → z.ts ≤ℤ x.ts
    → All (λ y. z.ts ≤ℤ y.ts) xs
    → All (λ y. z.ts ≤ℤ y.ts) (insert x xs)
unfolding insert
insert-All z x [] h a = (h, tt)
insert-All z x (y ∷ ys) h a = elim (Bool-cases (ltb_ℤ y.ts x.ts)) [
  | inl later ↦ rw later (a.0, insert-All z x ys h a.1)
  | inr first ↦ rw first (h, a)
]

All-trans :
    (x y : Order) (ys : List Order)
    → x.ts ≤ℤ y.ts
    → All (λ z. y.ts ≤ℤ z.ts) ys
    → All (λ z. x.ts ≤ℤ z.ts) ys
All-trans x y [] h a = tt
All-trans x y (z ∷ zs) h a = (omega arith, All-trans x y zs h a.1)

pub insert-IsSorted : (x : Order) (xs : List Order) → IsSorted xs → IsSorted (insert x xs)
unfolding insert
insert-IsSorted x [] s = (tt, tt)
insert-IsSorted x (y ∷ ys) s = elim (Bool-cases (ltb_ℤ y.ts x.ts)) [
  | inl later ↦ rw later (insert-All y x ys (ground arith) s.0, insert-IsSorted x ys s.1)
  | inr first ↦ rw first ((ground arith, All-trans x y ys (ground arith) s.0), s)
]

pub insertion_sort-IsSorted : (xs : List Order) → IsSorted (insertion_sort xs)
unfolding insertion_sort
insertion_sort-IsSorted [] = tt
insertion_sort-IsSorted (x ∷ xs) = insert-IsSorted x _ (insertion_sort-IsSorted xs)

abbrev pub sorter : Sorter
sorter = record {
  sort = insertion_sort;
  sort-perm = insertion_sort-perm;
  sort-IsSorted = insertion_sort-IsSorted;
}

abbrev pub order : String → ℕ → Order
order id t = record {
  order_id = pos t;
  instrument_id = id;
  side = buy;
  state = OrderState.fresh;
  quantity = pos 100;
  price = pos 100;
  ts = pos t;
}

-- One order of one instrument.
abbrev pub single : DataBase
single = record {
  orders = ("ethusdc", order "ethusdc" 5 ∷ []) ∷ [];
  instrument_locks = ("ethusdc", unlocked) ∷ [];
}

pub single-IsValid : IsValid single
unfolding find?
single-IsValid = record {
  paired = λ id. ground arith;
  unheld = λ id. ground arith;
  stocked = λ id e. ground arith;
  sorted = λ id. elim (Bool-cases ("ethusdc" == id)) [
    | inl same ↦ rw same (tt, tt)
    | inr other ↦ rw other tt
  ];
}
