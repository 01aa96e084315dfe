-- ===== src/Database/Concurrent/Alone/Read.antt =====
-- A thread alone in one of the two `GetOrders` of src/sigmax/database.cpp, against the functions
-- whole.
use sigmax.Base.{
  ℕ, ◌≡◌, refl, List, [], Option, none, some, true, false, arith, sym, ◌∙◌, Bool-cases, inl, inr,
  Expected, unexpected,
}
use sigmax.OrderType.{Order, InstrumentId}
use sigmax.Std.Map.{find?, contains, get_or}
use sigmax.Database.{
  DataBase, DbErrorType, locked, unlocked, Sorter, knows, with_lock, get_orders, get_orders_range,
  instrument_not_found,
}
use sigmax.Database.Valid.{with_lock-free}
use sigmax.Database.Concurrent.{
  read_locks, read_copy, read_acquire, read_orders, read_return, lock_of, set_lock, advance, Query,
  all, between, evaluate, Answer,
}
use sigmax.Database.Concurrent.Alone.{
  alone, then_alone, same_answer, acquire-free, with_lock-unlocked, knows-IsKnown,
}

module _ (sorter : Sorter) where
  -- Either `GetOrders`, whole.
  abbrev pub get_whole :
      Query → InstrumentId → DataBase → Option (Expected (List Order) DbErrorType × DataBase)
  get_whole all id db = get_orders id db
  get_whole (between start end) id db = get_orders_range id start end db

  -- What it does under the lock.
  abbrev locked_body :
      Query → InstrumentId → DataBase → Option (Expected (List Order) DbErrorType × DataBase)
  locked_body query id d = elim (evaluate query (get_or (find? id d.orders) [])) [
    | none ↦ none
    | some answer ↦ some (answer, d)
  ]

  get_whole-known :
      (query : Query) (id : InstrumentId) (db : DataBase)
      → knows db id ≡ true
      → get_whole query id db ≡ with_lock id db (locked_body query id)
  unfolding get_orders get_orders_range knows
  get_whole-known all id db k = let known = knows-IsKnown db id k in rw (known.0, known.1) refl
  get_whole-known (between start end) id db k =
      let known = knows-IsKnown db id k in rw (known.0, known.1) refl

  get_whole-unknown :
      (query : Query) (id : InstrumentId) (db : DataBase)
      → knows db id ≡ false
      → get_whole query id db ≡ some (unexpected instrument_not_found, db)
  unfolding get_orders get_orders_range knows
  get_whole-unknown all id db k = ground (arith, k)
  get_whole-unknown (between start end) id db k = ground (arith, k)

  read_unknown :
      (query : Query) (id : InstrumentId) (db : DataBase)
      → knows db id ≡ false
      → (n : ℕ) × (alone sorter n (db, read_orders query id)
          ≡ (db, read_return (some (unexpected instrument_not_found))))
  unfolding alone advance knows
  read_unknown query id db unknown = elim (Bool-cases (contains id db.orders)) [
    | inl stocked ↦
        let new : contains id db.instrument_locks ≡ false = ground (arith, unknown, stocked) in
        (
          2,
          then_alone sorter 1 db db (read_orders query id) (read_locks query id) (rw stocked refl)
              ∙ then_alone sorter 0 db db (read_locks query id)
                  (read_return (some (unexpected instrument_not_found))) (rw new refl),
        )
    | inr new ↦ (
      1,
      then_alone sorter 0 db db (read_orders query id)
          (read_return (some (unexpected instrument_not_found))) (rw new refl),
    )
  ]

  read_locked :
      (query : Query) (id : InstrumentId) (db : DataBase)
      → lock_of id db ≡ unlocked
      → alone sorter 3 (db, read_acquire query id) ≡ (
        set_lock id unlocked (set_lock id locked db),
        read_return (evaluate query (get_or (find? id db.orders) [])),
      )
  unfolding alone advance
  read_locked query id db free =
      rw (acquire-free id (read_acquire query id) (read_copy query id) db free) refl

  read_known :
      (query : Query) (id : InstrumentId) (db after : DataBase)
      (answer : Expected (List Order) DbErrorType)
      → knows db id ≡ true
      → with_lock id db (locked_body query id) ≡ some (answer, after)
      → (o : Answer) → evaluate query (get_or (find? id db.orders) []) ≡ o
      → alone sorter 5 (db, read_orders query id) ≡ (after, read_return (some answer))
  unfolding advance with_lock
  read_known query id db after answer known h none e =
      let free =
        with_lock-unlocked id db (locked_body query id) answer after (lock_of id db) refl h in
      absurd (cc (rw (with_lock, free, locked_body, e) at h))
  read_known query id db after answer known h (some found) e =
      let free =
        with_lock-unlocked id db (locked_body query id) answer after (lock_of id db) refl h in
      let whole =
        with_lock-free id db (locked_body query id) found (set_lock id locked db) free
          (rw (locked_body, e) refl) in
      let (stocked, locks) = knows-IsKnown db id known in
      then_alone sorter 4 db db (read_orders query id) (read_locks query id) (rw stocked refl)
      ∙ then_alone sorter 3 db db (read_locks query id) (read_acquire query id) (rw locks refl)
      ∙ read_locked query id db free
      ∙ rw e (same_answer (λ a. read_return (some a)) _ _ _ _ whole h)

  -- If one of the two `GetOrders` as one function returns, then a thread that enters it and runs
  -- alone takes some steps to its return, with the same answer and the same store.
  pub read_alone :
      (query : Query) (id : InstrumentId) (db after : DataBase)
      (answer : Expected (List Order) DbErrorType)
      → get_whole query id db ≡ some (answer, after)
      → (n : ℕ) × (alone sorter n (db, read_orders query id) ≡ (after, read_return (some answer)))
  read_alone query id db after answer h = elim (Bool-cases (knows db id)) [
    | inl known ↦ (
      5,
      read_known query id db after answer known (sym (get_whole-known query id db known) ∙ h)
          (evaluate query (get_or (find? id db.orders) [])) refl,
    )
    | inr unknown ↦
        let (n, e) = read_unknown query id db unknown in
        (
          n,
          e
              ∙ same_answer (λ a. read_return (some a)) _ _ _ _
                  (get_whole-unknown query id db unknown) h,
        )
  ]
