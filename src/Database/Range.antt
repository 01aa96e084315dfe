-- ===== src/Database/Range.antt =====
-- `GetOrders` of src/sigmax/database.cpp over a range of timestamps. Its search is given the test
-- `timestamp < order.ts`, with the operands the wrong way round for a lower bound: by the C++
-- standard that is outside the defined behaviour of `std::lower_bound`, and the halving search that
-- the libraries make then runs to the end or stays at the front.
use sigmax.Base.{
  inl, inr, Bool-cases, if◌then◌else◌, unexpected, ℕ, zero, suc, ◌/◌, ◌≤◌, ◌≡◌, refl, subst, ap,
  List, [], ◌∷◌, Option, none, some, ◌||◌, Expected, value, unexpected, if◌then◌else◌, arith,
  length, get_elem?, get_elem?_of_lt, lt_of_get_elem?, All,
}
use sigmax.Base.Int.{ltb_ℤ, ◌≤ℤ◌}
use sigmax.OrderType.{Order, InstrumentId, Timestamp}
use sigmax.Std.Map.{contains, get_or}
use sigmax.Std.LowerBound.{lower_bound, lower_bound_reversed, lower_bound_nil}
use sigmax.Database.{
  instrument_not_found, DataBase, DbErrorType, IsSorted, get_orders_range, range_of, slice,
  timestamp_range_not_found,
}
use sigmax.Database.Valid.{IsValid, stored, with_lock-free}
use sigmax.Database.History.{relocked, relocked-IsValid}

All-get :
    (P : Order → Type 0) (xs : List Order) (i : ℕ) (x : Order)
    → All P xs
    → get_elem? xs i ≡ some x
    → P x
All-get P [] i x h e = cc
All-get P (y ∷ ys) zero x h e = subst P (ap (λ (o : Option Order). get_or o y) e) h.0
All-get P (y ∷ ys) (suc i) x h e = All-get P ys i x h.1 e

IsSorted-get :
    (xs : List Order) (i j : ℕ) (x y : Order)
    → IsSorted xs
    → i ≤ j
    → get_elem? xs i ≡ some x
    → get_elem? xs j ≡ some y
    → x.ts ≤ℤ y.ts
IsSorted-get [] i j x y s le e f = cc
IsSorted-get (a ∷ xs) zero zero x y s le e f = ground arith
IsSorted-get (a ∷ xs) zero (suc j) x y s le e f =
    ground (arith, All-get (λ o. a.ts ≤ℤ o.ts) xs j y s.0 f)
IsSorted-get (a ∷ xs) (suc i) zero x y s le e f = absurd (omega arith)
IsSorted-get (a ∷ xs) (suc i) (suc j) x y s le e f = IsSorted-get xs i j x y s.1 (omega arith) e f

-- What the call answers.
abbrev pub range_answer : List Order → Timestamp → Timestamp → Expected (List Order) DbErrorType
range_answer xs start end = elim (get_elem? xs (length xs / 2)) [
  | none ↦ unexpected timestamp_range_not_found
  | some middle ↦
      if ltb_ℤ start middle.ts || ltb_ℤ end middle.ts
      then unexpected timestamp_range_not_found
      else value []
]

module _ (xs : List Order) (sorted : IsSorted xs) (middle : Order)
    (e : get_elem? xs (length xs / 2) ≡ some middle) where
  bound :
      (t : Timestamp)
      → lower_bound (λ order. ltb_ℤ t order.ts) xs
        ≡ some (if ltb_ℤ t middle.ts then length xs else 0)
  bound t =
      lower_bound_reversed (λ order. ltb_ℤ t order.ts) xs middle
        (λ i j x y le a b h. ground (arith, IsSorted-get xs i j x y sorted le a b)) e

  range_of-middle :
      (start end : Timestamp) → range_of xs start end ≡ some (range_answer xs start end)
  unfolding range_of slice
  range_of-middle start end =
      ground (arith, bound start, bound end, lt_of_get_elem? xs (length xs / 2) e)

range_of_lem :
    (xs : List Order) (start end : Timestamp)
    → IsSorted xs
    → range_of xs start end ≡ some (range_answer xs start end)
unfolding range_of
range_of_lem [] start end s = ground (
  arith,
  lower_bound_nil (λ (order : Order). ltb_ℤ start order.ts),
  lower_bound_nil (λ (order : Order). ltb_ℤ end order.ts),
)
range_of_lem (x ∷ xs) start end s =
    let (middle, e) = get_elem?_of_lt (x ∷ xs) (suc (length xs) / 2) (omega arith) in
    range_of-middle (x ∷ xs) s middle e start end

-- `GetOrders` over a range of timestamps, on a valid store, returns no order whatever the range: it
-- answers with INSTRUMENT_NOT_FOUND if the store does not know the instrument, with the empty list if
-- neither end of the range lies before the timestamp of the order in the middle of those stored, and
-- with TIMESTAMP_RANGE_NOT_FOUND otherwise. It leaves a valid store with the same orders. The reversed
-- test lies outside the contract of `std::lower_bound`, so this is what the halving search of the
-- libraries makes of it.
pub get_orders_range_lem :
    {db : DataBase} (v : IsValid db) (k : InstrumentId) (start end : Timestamp)
    → (after : DataBase) × (get_orders_range k start end db
        ≡ some (
          (if contains k db.orders
              then range_answer (stored k db) start end
              else unexpected instrument_not_found),
          after,
        ))
      × IsValid after
      × (after.orders ≡ db.orders)
unfolding get_orders_range
get_orders_range_lem {db} v k start end = elim (Bool-cases (contains k db.orders)) [
  | inl known ↦ (
    relocked k db,
    rw (v.paired k, known)
        (with_lock-free k db _ _ _ (v.unheld k)
          (rw (range_of_lem (stored k db) start end (v.sorted k)))),
    relocked-IsValid v k known,
    refl,
  )
  | inr unknown ↦ (db, rw (v.paired k, unknown) refl, v, refl)
]
