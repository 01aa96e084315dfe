-- ===== src/Database.antt =====
-- The order store of src/sigmax/database.cpp. A call returns its answer and the new store; `none`
-- stands for a call that waits for ever on a lock, or that leaves the defined behaviour of C++.
-- The members that no function uses, `m_queue` and `m_algoCallbackFns`, are left out.
pub mod Valid
pub mod History
pub mod Range
pub mod Race
pub mod Concurrent
mod Sample
mod Tests
use Prim.Native.String.{String}
use mathlib.Core.List.{Perm}
use sigmax.Base.{
  ℕ, ◌-◌, List, [], ◌∷◌, ◌++◌, Option, none, some, Bool, not, ◌&&◌, ◌||◌, Expected, value,
  unexpected, if◌then◌else◌, ◌==◌, leb, length, All, take, drop,
}
use sigmax.Base.Int.{ltb_ℤ, ◌≤ℤ◌}
use sigmax.OrderType.{Order, InstrumentId, Timestamp}
use sigmax.Std.Map.{find?, assign, contains, modify, try_emplace, get_or}
use sigmax.Std.LowerBound.{lower_bound}

-- `enum class DBErrorType`
pub data DbErrorType : Type 0 where
  success update_failed file_access_error instrument_not_found timestamp_range_not_found :
      DbErrorType

-- `std::mutex`, by whether a thread holds it.
pub data Mutex : Type 0 where
  unlocked locked : Mutex

-- `class DataBase`: `m_orders` and `m_instrumentLocks`.
pub record DataBase : Type 0 where
  pub orders : List (String × List Order)
  pub instrument_locks : List (String × Mutex)

abbrev pub empty : DataBase
empty = record { orders = []; instrument_locks = [] }

-- By rising timestamps.
abbrev pub IsSorted : List Order → Type 0
IsSorted [] = Unit
IsSorted (x ∷ xs) = All (λ y. x.ts ≤ℤ y.ts) xs × IsSorted xs

-- `std::sort` by the timestamp: which of two orders with one timestamp comes first is left open.
pub record Sorter : Type 0 where
  pub sort : List Order → List Order
  pub sort-perm : (xs : List Order) → Perm (sort xs) xs
  pub sort-IsSorted : (xs : List Order) → IsSorted (sort xs)

-- `m_orders.contains(id) && m_instrumentLocks.contains(id)`
unfoldable pub knows : DataBase → InstrumentId → Bool
knows db id = contains id db.orders && contains id db.instrument_locks

-- A block under `std::lock_guard lock(m_instrumentLocks[id])`.
unfoldable pub with_lock :
    {R : Type 0}
    → InstrumentId
    → DataBase
    → (DataBase → Option (R × DataBase))
    → Option (R × DataBase)
with_lock id db body = elim (get_or (find? id db.instrument_locks) unlocked) [
  | locked ↦ none
  | unlocked ↦ elim (body (record db { instrument_locks = assign id locked db.instrument_locks })) [
    | none ↦ none
    | some (r, db') ↦
        some (r, record db' { instrument_locks = assign id unlocked db'.instrument_locks })
  ]
]

-- `UpdateDb`
module _ (sorter : Sorter) where
  unfoldable pub append_sorted : Order → DataBase → DataBase
  append_sorted order db =
      let id = order.instrument_id in
      let appended = modify id (λ v. v ++ order ∷ []) [] db.orders in
      record db { orders = modify id sorter.sort [] appended }

  unfoldable pub introduce : Order → DataBase → DataBase
  introduce order db = record {
    orders = assign order.instrument_id (order ∷ []) db.orders;
    instrument_locks = try_emplace order.instrument_id unlocked db.instrument_locks;
  }

  -- What the call does once its test has given `known`.
  unfoldable pub finish_update : Bool → Order → DataBase → Option (DbErrorType × DataBase)
  finish_update known order db =
      if known
      then with_lock order.instrument_id db (λ d. some (success, append_sorted order d))
      else some (success, introduce order db)

  unfoldable pub update_db : Order → DataBase → Option (DbErrorType × DataBase)
  unfolding finish_update
  update_db order db = finish_update (knows db order.instrument_id) order db

-- `SaveDbToFile`; `exists` is `std::filesystem::exists`. Nothing is written on either branch.
unfoldable pub save_db_to_file :
    {FilePath : Type 0} → (FilePath → Bool) → FilePath → DataBase → DbErrorType
save_db_to_file exists path db = if exists path then success else file_access_error

-- `GetOrders(instrumentId)`
unfoldable pub get_orders :
    InstrumentId → DataBase → Option (Expected (List Order) DbErrorType × DataBase)
get_orders id db =
    if not (contains id db.orders) || not (contains id db.instrument_locks)
    then some (unexpected instrument_not_found, db)
    else with_lock id db (λ d. some (value (get_or (find? id d.orders) []), d))

-- `std::vector<Order>(first, last)` over the indices of two iterators.
unfoldable pub slice : List Order → ℕ → ℕ → Option (List Order)
slice xs first last = if leb first last then some (take (last - first) (drop first xs)) else none

-- The body of `GetOrders(instrumentId, start, end)` under the lock. The test given to
-- `lower_bound` is `timestamp < order.ts`.
unfoldable pub range_of :
    List Order → Timestamp → Timestamp → Option (Expected (List Order) DbErrorType)
range_of xs start end = elim (lower_bound (λ order. ltb_ℤ start order.ts) xs) [
  | none ↦ none
  | some start_order ↦ elim (lower_bound (λ order. ltb_ℤ end order.ts) xs) [
    | none ↦ none
    | some end_order ↦
        if not (start_order == length xs) && not (end_order == length xs)
        then elim (slice xs start_order end_order) [ none ↦ none | some ret ↦ some (value ret) ]
        else some (unexpected timestamp_range_not_found)
  ]
]

-- `GetOrders(instrumentId, start, end)`
unfoldable pub get_orders_range :
    InstrumentId
    → Timestamp
    → Timestamp
    → DataBase
    → Option (Expected (List Order) DbErrorType × DataBase)
get_orders_range id start end db =
    if not (contains id db.orders) || not (contains id db.instrument_locks)
    then some (unexpected instrument_not_found, db)
    else with_lock id db (λ d. elim (range_of (get_or (find? id d.orders) []) start end) [
      | none ↦ none
      | some answer ↦ some (answer, d)
    ])
