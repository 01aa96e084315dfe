-- ===== src/Database/Concurrent/Known.antt =====
-- Calls for known instruments in src/sigmax/database.cpp, in any interleaving.
use sigmax.Base.{ℕ, ◌≡◌, ◌≢◌, List, ◌++◌, some, arith, refl, ap}
use mathlib.Core.List.{Perm}
use sigmax.OrderType.{Order, InstrumentId}
use sigmax.SharedFifo.Told.{from, elements}
use sigmax.Database.{DataBase, Sorter, IsSorted}
use sigmax.Database.Valid.{IsValid, stored, for_instrument}
use sigmax.Database.Concurrent.{
  Pc, read_copy, read_release, System, advance, Reach, Query, evaluate,
}
use sigmax.Database.Concurrent.Invariant.{inside, sorting, to_enter}
use sigmax.Database.Concurrent.Step.{Holds, Reach-Holds}

sorting-inside : (p : Pc) (id : InstrumentId) → sorting p ≡ some id → inside p ≡ some id
sorting-inside p id w = ground arith

module _ {sorter : Sorter} {db₀ : DataBase} {s : System} (v : IsValid db₀)
    (r : Reach sorter db₀ s) where
  inv : Holds db₀ s
  inv = Reach-Holds sorter v r

  -- From a valid store, as long as all calls are for instruments that it has known from the start:
  -- two threads that hold the lock of one instrument are the same.
  pub mutual_exclusion :
      (i j : ℕ) (id : InstrumentId) → inside (s.pc i) ≡ some id → inside (s.pc j) ≡ some id → i ≡ j
  mutual_exclusion = inv.locks.excluded

  -- From a valid store, as long as all calls are for instruments that it has known from the start:
  -- what each thread has called `UpdateDb` with, in the order of its calls, is what it has put into
  -- the store and then the order that its call has still to put in; and what is stored for an
  -- instrument is what was stored at first and what all threads have put in for it, in some order.
  pub no_update_lost :
      ((i : ℕ) → from i s.calls ≡ from i s.entered ++ to_enter (s.pc i))
      × ((id : InstrumentId)
          → Perm (stored id s.db) (stored id db₀ ++ for_instrument id (elements s.entered)))
  no_update_lost = (inv.told.by_thread, inv.stock.content)

  -- No thread has still to sort what another is about to copy.
  nobody :
      (i : ℕ) (query : Query) (id : InstrumentId)
      → s.pc i ≡ read_copy query id
      → (j : ℕ) → sorting (s.pc j) ≢ some id
  nobody i query id at j w =
      let same = inv.locks.excluded i j id (ap inside at) (sorting-inside (s.pc j) id w) in
      absurd (cc (at, same, w))

  -- From a valid store, as long as all calls are for instruments that it has known from the start:
  -- the step of either `GetOrders` that copies or searches the orders of an instrument
  -- answers for a list that is sorted by rising timestamps and holds the orders stored at first and
  -- those that all threads have put in for it, each as often as it was given.
  pub copy_lem :
      (i : ℕ) (query : Query) (id : InstrumentId)
      → s.pc i ≡ read_copy query id
      → (xs : List Order) × ((advance sorter s.db (s.pc i)).1 ≡ read_release id (evaluate query xs))
        × IsSorted xs
        × Perm xs (stored id db₀ ++ for_instrument id (elements s.entered))
  unfolding advance
  copy_lem i query id at =
      (stored id s.db, rw at refl, inv.stock.sorted id (nobody i query id at), inv.stock.content id)
