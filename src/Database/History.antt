-- ===== src/Database/History.antt =====
-- What `GetOrders` of src/sigmax/database.cpp answers after any calls of `UpdateDb`.
use mathlib.Core.List.{Perm, append-nil, append_assoc}
use mathlib.Core.List.Perm
use text.Mathlib.Text.{◌==◌}
use text.Mathlib.TextEquality.{eq_iff}
use sigmax.Base.{
  ◌≡◌, ◌≢◌, refl, sym, List, [], ◌∷◌, ◌++◌, Option, none, some, true, Expected, value, unexpected,
  arith, Bool-cases, inl, inr, subst,
}
use sigmax.OrderType.{Order, InstrumentId}
use sigmax.Std.Map.{find?, assign, contains, get_or, is_some, find?-assign}
use sigmax.Database.{
  DataBase, DbErrorType, success, unlocked, locked, IsSorted, Sorter, update_db, get_orders, empty,
  instrument_not_found,
}
use sigmax.Database.Valid.{
  IsValid, stored, for_instrument, empty-IsValid, update_db_lem, with_lock-free, none_of_not,
}

-- What `GetOrders` should answer, if these are the orders of the instrument.
abbrev pub answer : List Order → Expected (List Order) DbErrorType
answer [] = unexpected instrument_not_found
answer (o ∷ os) = value (o ∷ os)

-- The store after a block under a lock.
abbrev pub relocked : InstrumentId → DataBase → DataBase
relocked k db = record db {
  instrument_locks = assign k unlocked (assign k locked db.instrument_locks);
}

module _ {db : DataBase} (v : IsValid db) (k : InstrumentId) where
  pub relocked-IsValid : contains k db.orders ≡ true → IsValid (relocked k db)
  relocked-IsValid known = record {
    paired = λ j. simp find?-assign (ground (arith, v.paired j, v.paired k, eq_iff k j));
    unheld = λ j. simp find?-assign (ground (arith, v.unheld j));
    stocked = v.stocked;
    sorted = v.sorted;
  }

  answer-stored :
      contains k db.orders ≡ true → answer (stored k db) ≡ value (get_or (find? k db.orders) [])
  answer-stored known = from (find? k db.orders) known (v.stocked k)
    where
      from :
          (o : Option (List Order))
          → is_some o ≡ true
          → o ≢ some []
          → answer (get_or o []) ≡ value (get_or o [])
      from none h ne = cc
      from (some []) h ne = absurd (ne refl)
      from (some (x ∷ xs)) h ne = refl

  -- `GetOrders` on a valid store answers INSTRUMENT_NOT_FOUND if it holds no orders of the
  -- instrument, and else all of them; it leaves a valid store with the same orders, by rising
  -- timestamps.
  pub get_orders_lem :
      (after : DataBase) × (get_orders k db ≡ some (answer (stored k db), after))
      × IsValid after
      × (after.orders ≡ db.orders)
      × IsSorted (stored k db)
  unfolding get_orders
  get_orders_lem = elim (Bool-cases (contains k db.orders)) [
    | inl known ↦ (
      relocked k db,
      rw (v.paired k, known, answer-stored known) (with_lock-free k db _ _ _ (v.unheld k) refl),
      relocked-IsValid known,
      refl,
      v.sorted k,
    )
    | inr unknown ↦ (db, rw (v.paired k, unknown, none_of_not unknown), v, refl, v.sorted k)
  ]

for_instrument-cons :
    (k : InstrumentId) (xs : List Order) (o : Order) (os : List Order)
    → xs ++ for_instrument k (o ∷ os) ≡ (xs ++ for_instrument k (o ∷ [])) ++ for_instrument k os
unfolding for_instrument
for_instrument-cons k xs o os = elim (Bool-cases (o.instrument_id == k)) [
  | inl same ↦ rw (same, append_assoc)
  | inr other ↦ rw (other, append-nil)
]

module _ (sorter : Sorter) where
  -- Calls of `UpdateDb` one after the other.
  unfoldable pub update_all : List Order → DataBase → Option DataBase
  update_all [] db = some db
  update_all (o ∷ os) db = elim (update_db sorter o db) [
    | none ↦ none
    | some (status, after) ↦ update_all os after
  ]

  update_all-cons :
      (o : Order) (os : List Order) (db mid after : DataBase)
      → update_db sorter o db ≡ some (success, mid)
      → update_all os mid ≡ some after
      → update_all (o ∷ os) db ≡ some after
  unfolding update_all
  update_all-cons o os db mid after e f = ground arith

  -- Any calls of `UpdateDb` from a valid store return; the store left behind is valid, and it holds
  -- for every instrument the orders that it held before and those of the calls for that instrument.
  pub update_all_lem :
      (os : List Order) (db : DataBase)
      → IsValid db
      → (after : DataBase) × (update_all os db ≡ some after)
        × IsValid after
        × ((k : InstrumentId) → Perm (stored k after) (stored k db ++ for_instrument k os))
  unfolding update_all for_instrument
  update_all_lem [] db v = (db, refl, v, λ k. rw append-nil (Perm.refl _))
  update_all_lem (o ∷ os) db v =
      let (mid, e, v', known, joined) = update_db_lem sorter v o in
      let (after, f, w, rest) = update_all_lem os mid v' in
      (
        after,
        update_all-cons o os db mid after e f,
        w,
        λ k.
            subst (Perm (stored k after)) (sym (for_instrument-cons k (stored k db) o os))
              (Perm.trans (rest k) (Perm.append_right _ (joined k))),
      )

  -- After any calls of `UpdateDb` from the empty store, `GetOrders` answers with the orders of
  -- those calls that are for its instrument, each as often as it was given, by rising timestamps;
  -- or with INSTRUMENT_NOT_FOUND if there are none.
  pub get_orders_after_updates :
      (os : List Order) (k : InstrumentId)
      → (db after : DataBase) × (xs : List Order) × (update_all os empty ≡ some db)
        × (get_orders k db ≡ some (answer xs, after))
        × Perm xs (for_instrument k os)
        × IsSorted xs
  unfolding for_instrument find?
  get_orders_after_updates os k =
      let (db, e, v, joined) = update_all_lem os empty empty-IsValid in
      let (after, f, w, same, sorted) = get_orders_lem v k in
      (db, after, stored k db, e, f, joined k, sorted)
