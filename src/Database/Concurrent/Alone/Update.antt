-- ===== src/Database/Concurrent/Alone/Update.antt =====
-- A thread alone in `UpdateDb` of src/sigmax/database.cpp, against the function whole.
use sigmax.Base.{ℕ, ◌≡◌, refl, some, true, false, arith, ◌∙◌, Bool-cases, inl, inr}
use sigmax.OrderType.{Order}
use sigmax.Std.Map.{contains}
use sigmax.Database.{
  DataBase, DbErrorType, success, locked, unlocked, Sorter, knows, with_lock, append_sorted,
  introduce, finish_update, update_db,
}
use sigmax.Database.Valid.{with_lock-free}
use sigmax.Database.Concurrent.{
  update_orders, update_locks, update_assign, update_return, update_acquire, lock_of, set_lock,
  update_append, advance,
}
use sigmax.Database.Concurrent.Alone.{
  alone, then_alone, same_answer, acquire-free, with_lock-unlocked, knows-IsKnown,
}

module _ (sorter : Sorter) where
  update_locked :
      (order : Order) (db : DataBase)
      → lock_of order.instrument_id db ≡ unlocked
      → alone sorter 4 (db, update_acquire order) ≡ (
        set_lock order.instrument_id unlocked
            (append_sorted sorter order (set_lock order.instrument_id locked db)),
        update_return success,
      )
  unfolding alone append_sorted advance
  update_locked order db free =
      rw (acquire-free order.instrument_id (update_acquire order) (update_append order) db free)
        refl

  assigned :
      (order : Order) (db : DataBase)
      → alone sorter 2 (db, update_assign order)
        ≡ (introduce sorter order db, update_return success)
  unfolding alone advance introduce
  assigned order db = refl

  update_new :
      (order : Order) (db : DataBase)
      → knows db order.instrument_id ≡ false
      → (n : ℕ) × (alone sorter n (db, update_orders order)
          ≡ (introduce sorter order db, update_return success))
  unfolding advance knows
  update_new order db unknown = elim (Bool-cases (contains order.instrument_id db.orders)) [
    | inl stocked ↦
        let new : contains order.instrument_id db.instrument_locks ≡ false =
          ground (arith, unknown, stocked) in
        (
          4,
          then_alone sorter 3 db db (update_orders order) (update_locks order) (rw stocked refl)
              ∙ then_alone sorter 2 db db (update_locks order) (update_assign order) (rw new refl)
              ∙ assigned order db,
        )
    | inr new ↦ (
      3,
      then_alone sorter 2 db db (update_orders order) (update_assign order) (rw new refl)
          ∙ assigned order db,
    )
  ]

  update_known :
      (order : Order) (db after : DataBase) (status : DbErrorType)
      → knows db order.instrument_id ≡ true
      → with_lock order.instrument_id db (λ d. some (success, append_sorted sorter order d))
        ≡ some (status, after)
      → alone sorter 6 (db, update_orders order) ≡ (after, update_return status)
  unfolding advance
  update_known order db after status known h =
      let free =
        with_lock-unlocked order.instrument_id db
          (λ d. some (success, append_sorted sorter order d)) status after
          (lock_of order.instrument_id db) refl h in
      let whole =
        with_lock-free order.instrument_id db (λ d. some (success, append_sorted sorter order d))
          success (append_sorted sorter order (set_lock order.instrument_id locked db)) free refl in
      let (stocked, locks) = knows-IsKnown db order.instrument_id known in
      then_alone sorter 5 db db (update_orders order) (update_locks order) (rw stocked refl)
      ∙ then_alone sorter 4 db db (update_locks order) (update_acquire order) (rw locks refl)
      ∙ update_locked order db free
      ∙ same_answer update_return _ _ _ _ whole h

  -- If `UpdateDb` as one function returns, then a thread that enters it and runs alone takes some
  -- steps to its return, with the same status and the same store.
  pub update_alone :
      (order : Order) (db after : DataBase) (status : DbErrorType)
      → update_db sorter order db ≡ some (status, after)
      → (n : ℕ) × (alone sorter n (db, update_orders order) ≡ (after, update_return status))
  unfolding update_db finish_update
  update_alone order db after status h = elim (Bool-cases (knows db order.instrument_id)) [
    | inl known ↦ (6, update_known order db after status known (rw known at h))
    | inr unknown ↦
        let (n, e) = update_new order db unknown in
        (n, e ∙ same_answer update_return _ _ _ _ refl (rw unknown at h))
  ]
