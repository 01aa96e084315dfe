-- ===== src/Database/Concurrent/Invariant.antt =====
-- What holds of the store of src/sigmax/database.cpp and of every thread, as long as all calls are
-- for instruments that the store has known from the start.
use sigmax.Base.{ℕ, ◌≡◌, List, [], ◌∷◌, Option, none, some, true, false}
use sigmax.OrderType.{Order, InstrumentId}
use sigmax.Database.{DataBase}
use sigmax.Database.Valid.{stored}
use sigmax.Database.Concurrent.Paid.{Paid}
use sigmax.Database.Concurrent.Locks.{Locks}
use sigmax.Database.Concurrent.Stock.{Stock}
use sigmax.Database.Concurrent.{
  Pc, update_orders, update_locks, update_acquire, update_append, update_sort, update_release,
  update_assign, update_emplace, read_orders, read_locks, read_acquire, read_copy, read_release,
  lock_of, IsKnown,
}

-- The instrument whose lock a thread holds.
abbrev pub inside : Pc → Option InstrumentId
inside (update_append order) = some order.instrument_id
inside (update_sort order) = some order.instrument_id
inside (update_release order) = some order.instrument_id
inside (read_copy query id) = some id
inside (read_release id answer) = some id
inside _ = none

-- The instrument whose orders a thread has appended to and not sorted yet.
abbrev pub sorting : Pc → Option InstrumentId
sorting (update_sort order) = some order.instrument_id
sorting _ = none

-- The order that a call of `UpdateDb` has still to put into the store.
abbrev pub to_enter : Pc → List Order
to_enter (update_orders order) = order ∷ []
to_enter (update_locks order) = order ∷ []
to_enter (update_acquire order) = order ∷ []
to_enter (update_append order) = order ∷ []
to_enter (update_assign order) = order ∷ []
to_enter _ = []

-- The instrument of a call; a call for a known one does not introduce it.
abbrev pub Local : DataBase → Pc → Type 0
Local db (update_orders order) = IsKnown db order.instrument_id
Local db (update_locks order) = IsKnown db order.instrument_id
Local db (update_acquire order) = IsKnown db order.instrument_id
Local db (update_append order) = IsKnown db order.instrument_id
Local db (update_sort order) = IsKnown db order.instrument_id
Local db (update_assign order) = true ≡ false
Local db (update_emplace order) = true ≡ false
Local db (read_orders query id) = IsKnown db id
Local db (read_locks query id) = IsKnown db id
Local db (read_acquire query id) = IsKnown db id
Local db _ = Unit

pub record Inv (db₀ db : DataBase) (pc : ℕ → Pc) (calls entered : List (ℕ × Order)) : Type 0 where
  pub keys : (id : InstrumentId) → IsKnown db₀ id → IsKnown db id
  pub threads : (i : ℕ) → Local db₀ (pc i)
  pub locks : Locks (λ i. inside (pc i)) (λ id. lock_of id db)
  pub stock : Stock (λ i. sorting (pc i)) (λ id. stored id db₀) (λ id. stored id db) entered
  pub told : Paid calls entered (λ i. to_enter (pc i))
