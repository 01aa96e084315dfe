-- ===== src/Database/Concurrent/Tests.antt =====
-- Two threads on the store of src/sigmax/database.cpp, in some interleavings.
use native.Mathlib.Decide.{ℕ_discrete}
use mathlib.Core.List.{foldl, Perm}
use sigmax.Base.{ℕ, ◌≡◌, refl, List, [], ◌∷◌, ◌++◌, some, value}
use sigmax.OrderType.{Order, InstrumentId}
use sigmax.SharedFifo.Told.{from, elements}
use sigmax.Std.Map.{find?, assign}
use sigmax.Database.{locked, IsSorted, empty, success}
use sigmax.Database.{introduce, update_db, finish_update, knows, get_orders, with_lock}
use sigmax.Database.Valid.{stored, for_instrument}
use sigmax.Database.Sample.{insert, insertion_sort, sorter, order, single, single-IsValid}
use sigmax.Database.Concurrent.{
  update_sort, update_return, read_acquire, read_copy, read_release, lock_of, System, call_update,
  call_read, step, act, call, turn, advance, acquire, note_entered, start, Reach, begin, next,
  Query, all, evaluate,
}
use sigmax.Database.Concurrent.Invariant.{to_enter}
use sigmax.Database.Concurrent.Alone.{alone}
use sigmax.Database.Concurrent.Alone.Update.{update_alone}
use sigmax.Database.Concurrent.Alone.Read.{read_alone}
use sigmax.Database.Concurrent.{update_orders, read_orders, read_return}
use sigmax.Database.Concurrent.Known.{mutual_exclusion, no_update_lost, copy_lem}

-- A state with an interleaving that reaches it.
record Run : Type 0 where
  last : System
  reach : Reach sorter single last

-- The threads named take one step each, in this order.
unfoldable go : Run → List ℕ → Run
go r [] = r
go r (i ∷ threads) =
    go (record { last = act sorter (step i) r.last; reach = next (step i) r.reach tt }) threads

-- Thread 2 calls `GetOrders`.
unfoldable ask : (query : Query) → Run → Run
unfolding find?
ask query r = record {
  last = act sorter (call_read 2 query "ethusdc") r.last;
  reach = next (call_read 2 query "ethusdc") r.reach (refl, refl);
}

-- Thread 1 has called `UpdateDb` before.
unfoldable asked : Run
unfolding ask find?
asked =
    let a = call_update 1 (order "ethusdc" 1) in
    ask all (record { last = act sorter a (start single); reach = next a begin (refl, refl) })

-- Thread 1 has appended its order and not sorted yet; thread 2 waits for the lock.
unfoldable waiting : Run
unfolding go asked start act call turn advance acquire note_entered find? assign ℕ_discrete
waiting = go asked (1 ∷ 1 ∷ 1 ∷ 1 ∷ 2 ∷ 2 ∷ 2 ∷ 2 ∷ [])

waiting_places :
    (waiting.last.pc 1 ≡ update_sort (order "ethusdc" 1))
    × (waiting.last.pc 2 ≡ read_acquire all "ethusdc")
    × (lock_of "ethusdc" waiting.last.db ≡ locked)
unfolding waiting ask
waiting_places = (refl, refl, refl)

-- Thread 1 has sorted and given the lock back, and thread 2 has taken it.
unfoldable copying : Run
unfolding waiting insert insertion_sort
copying = go waiting (1 ∷ 1 ∷ 2 ∷ [])

copying_places :
    (copying.last.pc 1 ≡ update_return success) × (copying.last.pc 2 ≡ read_copy all "ethusdc")
unfolding copying ask
copying_places = (refl, refl)

mutual_exclusion_example : ◌≡◌ {A = ℕ} 1 1
unfolding waiting ask
mutual_exclusion_example = mutual_exclusion single-IsValid waiting.reach 1 1 "ethusdc" refl refl

no_update_lost_example :
    ((i : ℕ)
      → from i copying.last.calls ≡ from i copying.last.entered ++ to_enter (copying.last.pc i))
    × ((id : InstrumentId)
        → Perm
            (stored id copying.last.db)
            (stored id single ++ for_instrument id (elements copying.last.entered)))
no_update_lost_example = no_update_lost single-IsValid copying.reach

copy_lem_example :
    (xs : List Order) × ((advance sorter copying.last.db (copying.last.pc 2)).1
      ≡ read_release "ethusdc" (evaluate all xs))
    × IsSorted xs
    × Perm xs (stored "ethusdc" single ++ for_instrument "ethusdc" (elements copying.last.entered))
unfolding copying ask
copy_lem_example = copy_lem single-IsValid copying.reach 2 all "ethusdc" refl

-- Two first updates of one instrument, each of which tests before the other goes on: one is lost.
abbrev raced : System
raced =
    foldl (λ s a. act sorter a s) (start empty)
      (call_update 1 (order "x" 1)
        ∷ call_update 2 (order "x" 2)
        ∷ step 1
        ∷ step 2
        ∷ step 1
        ∷ step 1
        ∷ step 2
        ∷ step 2
        ∷ [])

raced_places :
    (raced.pc 1 ≡ update_return success)
    × (raced.pc 2 ≡ update_return success)
    × (stored "x" raced.db ≡ order "x" 2 ∷ [])
unfolding waiting
raced_places = (refl, refl, refl)

update_alone_example :
    (n : ℕ) × (alone sorter n (empty, update_orders (order "x" 1))
      ≡ (introduce sorter (order "x" 1) empty, update_return success))
unfolding update_db finish_update knows find?
update_alone_example =
    update_alone sorter (order "x" 1) empty (introduce sorter (order "x" 1) empty) success refl

read_alone_test :
    (n : ℕ) × (alone sorter n (single, read_orders all "ethusdc")
      ≡ (single, read_return (some (value (order "ethusdc" 5 ∷ [])))))
unfolding get_orders with_lock find? assign
read_alone_test =
    read_alone sorter all "ethusdc" single single (value (order "ethusdc" 5 ∷ [])) refl
