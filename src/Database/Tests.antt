-- ===== src/Database/Tests.antt =====
-- The theorems on the store of src/sigmax/database.cpp at concrete stores.
use Prim.Native.String.{String}
use mathlib.Core.List.{Perm}
use sigmax.Base.{◌≡◌, refl, List, [], ◌∷◌, ◌++◌, some, true, unexpected, if◌then◌else◌}
use sigmax.Base.Int.{pos}
use sigmax.OrderType.{Order}
use sigmax.Std.Map.{find?, assign, contains}
use sigmax.Std.LowerBound.{lower_bound, search_loop}
use sigmax.Database.{
  instrument_not_found, DataBase, success, timestamp_range_not_found, unlocked, empty, IsSorted,
  knows, with_lock, append_sorted, introduce, finish_update, update_db, get_orders,
  get_orders_range, range_of, slice,
}
use sigmax.Database.Sample.{insert, insertion_sort, sorter, order, single, single-IsValid}
use sigmax.Database.Valid.{IsValid, stored, for_instrument, empty-IsValid, update_db_lem}
use sigmax.Database.History.{answer, update_all, get_orders_lem, get_orders_after_updates}
use sigmax.Database.Range.{range_answer, get_orders_range_lem}
use sigmax.Database.Race.{racing_updates_lose_one}

abbrev script : List Order
script = order "ethusdc" 5 ∷ order "bnbusdc" 2 ∷ order "ethusdc" 3 ∷ order "ethusdc" 4 ∷ []

-- The three orders of one instrument come sorted.
abbrev loaded : DataBase
loaded = record {
  orders =
      ("ethusdc", order "ethusdc" 3 ∷ order "ethusdc" 4 ∷ order "ethusdc" 5 ∷ [])
      ∷ ("bnbusdc", order "bnbusdc" 2 ∷ [])
      ∷ [];
  instrument_locks = ("ethusdc", unlocked) ∷ ("bnbusdc", unlocked) ∷ [];
}

load : update_all sorter script empty ≡ some loaded
unfolding update_all update_db knows with_lock append_sorted introduce find? assign insertion_sort
    insert
load = refl

-- A range that holds every order.
whole_range :
    range_of (order "x" 3 ∷ order "x" 4 ∷ order "x" 5 ∷ []) (pos 0) (pos 9)
    ≡ some (unexpected timestamp_range_not_found)
unfolding range_of lower_bound search_loop slice
whole_range = refl

update_db_lem_example :
    (after : DataBase) × (update_db sorter (order "ethusdc" 4) empty ≡ some (success, after))
    × IsValid after
    × (knows after "ethusdc" ≡ true)
    × ((k : String)
        → Perm (stored k after) (stored k empty ++ for_instrument k (order "ethusdc" 4 ∷ [])))
update_db_lem_example = update_db_lem sorter empty-IsValid (order "ethusdc" 4)

get_orders_lem_example :
    (after : DataBase) × (get_orders "ethusdc" single
      ≡ some (answer (stored "ethusdc" single), after))
    × IsValid after
    × (after.orders ≡ single.orders)
    × IsSorted (stored "ethusdc" single)
get_orders_lem_example = get_orders_lem single-IsValid "ethusdc"

get_orders_after_updates_example :
    (db after : DataBase) × (xs : List Order) × (update_all sorter script empty ≡ some db)
    × (get_orders "ethusdc" db ≡ some (answer xs, after))
    × Perm xs (for_instrument "ethusdc" script)
    × IsSorted xs
get_orders_after_updates_example = get_orders_after_updates sorter script "ethusdc"

get_orders_range_lem_example :
    (after : DataBase) × (get_orders_range "ethusdc" (pos 5) (pos 9) single
      ≡ some (
        (if contains "ethusdc" single.orders
            then range_answer (stored "ethusdc" single) (pos 5) (pos 9)
            else unexpected instrument_not_found),
        after,
      ))
    × IsValid after
    × (after.orders ≡ single.orders)
unfolding find?
get_orders_range_lem_example = get_orders_range_lem single-IsValid "ethusdc" (pos 5) (pos 9)

racing_updates_lose_one_example :
    (middle after : DataBase) × (finish_update sorter
        (knows empty "tlmusdc")
        (order "tlmusdc" 1)
        empty
      ≡ some (success, middle))
    × (finish_update sorter (knows empty "tlmusdc") (order "tlmusdc" 2) middle
        ≡ some (success, after))
    × (find? "tlmusdc" after.orders ≡ some (order "tlmusdc" 2 ∷ []))
unfolding knows find?
racing_updates_lose_one_example =
    racing_updates_lose_one sorter empty (order "tlmusdc" 1) (order "tlmusdc" 2) refl refl
