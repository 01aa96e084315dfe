-- ===== src/Database/Concurrent.antt =====
-- The store of src/sigmax/database.cpp called by any number of threads. Each look-up in a map and
-- each change of one, and the taking and the giving back of a lock, is one step of one thread; the
-- steps are interleaved in any order. The sort is one step, as is the copy that `GetOrders` makes.
mod Locks
mod Stock
mod Paid
mod Tests
mod Moves
mod Step
pub mod Invariant
pub mod Known
pub mod Alone
use sigmax.Base.{
  ℕ, Bool, List, [], ◌∷◌, ◌++◌, Option, some, ◌≡◌, true, Expected, unexpected, value, update,
  if◌then◌else◌,
}
use sigmax.OrderType.{Order, InstrumentId, Timestamp}
use sigmax.Std.Map.{find?, assign, contains, modify, try_emplace, get_or}
use sigmax.Database.{
  DataBase, DbErrorType, success, instrument_not_found, Mutex, locked, unlocked, Sorter, range_of,
  save_db_to_file,
}

-- The two overloads of `GetOrders`.
pub data Query : Type 0 where
  all : Query
  between : (start end : Timestamp) → Query

abbrev pub Answer : Type 0
Answer = Option (Expected (List Order) DbErrorType)

abbrev pub evaluate : Query → List Order → Answer
evaluate all orders = some (value orders)
evaluate (between start end) orders = range_of orders start end

-- Where a thread stands in `UpdateDb`, `GetOrders` or `SaveDbToFile`, with its live local variables.
pub data Pc : Type 0 where
  idle : Pc
  update_orders : Order → Pc  -- before the look-up in `m_orders`
  update_locks : Order → Pc  -- before the look-up in `m_instrumentLocks`
  update_acquire : Order → Pc
  update_append : Order → Pc
  update_sort : Order → Pc
  update_release : Order → Pc
  update_assign : Order → Pc  -- before `m_orders[order.instrumentId] = { order }`
  update_emplace : Order → Pc
  update_return : DbErrorType → Pc
  read_orders : Query → InstrumentId → Pc
  read_locks : Query → InstrumentId → Pc
  read_acquire : Query → InstrumentId → Pc
  read_copy : Query → InstrumentId → Pc
  read_release : InstrumentId → Answer → Pc
  read_return : Answer → Pc
  save_check : Bool → Pc  -- before the look at the file system, which answers this
  save_return : DbErrorType → Pc

abbrev pub lock_of : InstrumentId → DataBase → Mutex
lock_of id db = get_or (find? id db.instrument_locks) unlocked

abbrev pub set_lock : InstrumentId → Mutex → DataBase → DataBase
set_lock id state db = record db { instrument_locks = assign id state db.instrument_locks }

-- The constructor of `std::lock_guard`: a thread that finds the lock held stays where it is.
unfoldable pub acquire : InstrumentId → Pc → Pc → DataBase → DataBase × Pc
acquire id waiting entered db = elim (lock_of id db) [
  | locked ↦ (db, waiting)
  | unlocked ↦ (set_lock id locked db, entered)
]

module _ (sorter : Sorter) where
  -- One step of a thread.
  unfoldable pub advance : DataBase → Pc → DataBase × Pc
  unfolding acquire save_db_to_file
  advance db idle = (db, idle)
  advance db (update_orders order) = (
    db,
    (if contains order.instrument_id db.orders then update_locks order else update_assign order),
  )
  advance db (update_locks order) = (
    db,
    (if contains order.instrument_id db.instrument_locks
        then update_acquire order
        else update_assign order),
  )
  advance db (update_acquire order) =
      acquire order.instrument_id (update_acquire order) (update_append order) db
  advance db (update_append order) = (
    record db { orders = modify order.instrument_id (λ v. v ++ order ∷ []) [] db.orders },
    update_sort order,
  )
  advance db (update_sort order) = (
    record db { orders = modify order.instrument_id sorter.sort [] db.orders },
    update_release order,
  )
  advance db (update_release order) =
      (set_lock order.instrument_id unlocked db, update_return success)
  advance db (update_assign order) = (
    record db { orders = assign order.instrument_id (order ∷ []) db.orders },
    update_emplace order,
  )
  advance db (update_emplace order) = (
    record db { instrument_locks = try_emplace order.instrument_id unlocked db.instrument_locks },
    update_return success,
  )
  advance db (update_return answer) = (db, idle)
  advance db (read_orders query id) = (
    db,
    (if contains id db.orders
        then read_locks query id
        else read_return (some (unexpected instrument_not_found))),
  )
  advance db (read_locks query id) = (
    db,
    (if contains id db.instrument_locks
        then read_acquire query id
        else read_return (some (unexpected instrument_not_found))),
  )
  advance db (read_acquire query id) = acquire id (read_acquire query id) (read_copy query id) db
  advance db (read_copy query id) =
      (db, read_release id (evaluate query (get_or (find? id db.orders) [])))
  advance db (read_release id answer) = (set_lock id unlocked db, read_return answer)
  advance db (read_return answer) = (db, idle)
  advance db (save_check exists) =
      (db, save_return (save_db_to_file (λ (path : Unit). exists) tt db))
  advance db (save_return answer) = (db, idle)

-- The store and the threads, with two records of the past that no step reads: the orders that
-- `UpdateDb` was called with, and those that it has put into the store, each with its thread.
pub record System : Type 0 where
  pub db : DataBase
  pub pc : ℕ → Pc
  pub calls : List (ℕ × Order)
  pub entered : List (ℕ × Order)

unfoldable pub note_entered : ℕ → Pc → List (ℕ × Order) → List (ℕ × Order)
note_entered i (update_append order) entered = entered ++ (i, order) ∷ []
note_entered i (update_assign order) entered = entered ++ (i, order) ∷ []
note_entered i _ entered = entered

-- What the scheduler may choose next: a thread calls, or goes on.
pub data Action : Type 0 where
  call_update : ℕ → Order → Action
  call_read : ℕ → Query → InstrumentId → Action
  call_save : ℕ → (exists : Bool) → Action
  step : ℕ → Action

-- A thread that is inside a call does not make another.
unfoldable pub call : ℕ → Pc → List (ℕ × Order) → Pc → System → System
call i place orders idle s = record s { pc = update s.pc i place; calls = s.calls ++ orders }
call i place orders busy s = s

unfoldable pub turn : Sorter → ℕ → Pc → System → System
turn sorter i p s =
    let (db', p') = advance sorter s.db p in
    record s { db = db'; pc = update s.pc i p'; entered = note_entered i p s.entered }

unfoldable pub act : Sorter → Action → System → System
act sorter (call_update i order) s = call i (update_orders order) ((i, order) ∷ []) (s.pc i) s
act sorter (call_read i query id) s = call i (read_orders query id) [] (s.pc i) s
act sorter (call_save i exists) s = call i (save_check exists) [] (s.pc i) s
act sorter (step i) s = turn sorter i (s.pc i) s

unfoldable pub start : DataBase → System
start db = record { db = db; pc = λ _. idle; calls = []; entered = [] }

-- An instrument that both maps have.
abbrev pub IsKnown : DataBase → InstrumentId → Type 0
IsKnown db id = (contains id db.orders ≡ true) × (contains id db.instrument_locks ≡ true)

-- The calls for instruments that the store knows from the start.
abbrev pub IsFamiliar : DataBase → Action → Type 0
IsFamiliar db (call_update i order) = IsKnown db order.instrument_id
IsFamiliar db (call_read i query id) = IsKnown db id
IsFamiliar db _ = Unit

-- The states that some interleaving of such calls reaches.
pub data Reach (sorter : Sorter) (db : DataBase) : System → Type 0 where
  begin : Reach sorter db (start db)
  next :
      {s : System} (a : Action)
      → Reach sorter db s
      → IsFamiliar db a
      → Reach sorter db (act sorter a s)
