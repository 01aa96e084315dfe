-- ===== src/Database/Race.antt =====
-- Two calls of `UpdateDb` in src/sigmax/database.cpp at once. The test for a known instrument holds
-- no lock, so another call may run between the test and the branch that it chooses.
use text.Mathlib.TextPositions.{eq_refl}
use sigmax.Base.{◌≡◌, [], ◌∷◌, some, false}
use sigmax.OrderType.{Order}
use sigmax.Std.Map.{find?, find?-assign}
use sigmax.Database.{DataBase, success, Sorter, knows, introduce, finish_update}

module _ (sorter : Sorter) where
  -- Two calls for one instrument that the store does not know, both of which test before either
  -- goes on: both return SUCCESS, and the store then holds the second order alone.
  pub racing_updates_lose_one :
      (db : DataBase) (first second : Order)
      → first.instrument_id ≡ second.instrument_id
      → knows db first.instrument_id ≡ false
      → (middle after : DataBase) × (finish_update sorter (knows db first.instrument_id) first db
          ≡ some (success, middle))
        × (finish_update sorter (knows db second.instrument_id) second middle
            ≡ some (success, after))
        × (find? second.instrument_id after.orders ≡ some (second ∷ []))
  unfolding finish_update introduce
  racing_updates_lose_one db first second same unknown = (
    introduce sorter first db,
    introduce sorter second (introduce sorter first db),
    rw unknown,
    rw (← same, unknown),
    simp (find?-assign, eq_refl),
  )
