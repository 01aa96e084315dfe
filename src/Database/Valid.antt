-- ===== src/Database/Valid.antt =====
-- The representation of the store of src/sigmax/database.cpp between calls, and what `UpdateDb`
-- does to it.
use mathlib.Core.List.{Perm, append-nil}
use mathlib.Core.List.Perm
use text.Mathlib.Text.{◌==◌}
use text.Mathlib.TextEquality.{eq_iff}
use text.Mathlib.TextPositions.{eq_refl}
use sigmax.Base.{
  ◌≡◌, ◌≢◌, refl, ap, List, [], ◌∷◌, ◌++◌, Option, none, some, true, false, if◌then◌else◌, arith,
  Bool-cases, inl, inr, length, length-append,
}
use sigmax.OrderType.{Order, InstrumentId}
use sigmax.Std.Map.{find?, assign, contains, get_or, is_some, find?-assign}
use sigmax.Database.{
  DataBase, success, unlocked, locked, IsSorted, Sorter, knows, with_lock, append_sorted, introduce,
  update_db, empty,
}

-- The orders stored for an instrument, none if it is not known.
abbrev pub stored : InstrumentId → DataBase → List Order
stored id db = get_or (find? id db.orders) []

-- The orders of a list that are for an instrument, in their order.
unfoldable pub for_instrument : InstrumentId → List Order → List Order
for_instrument k [] = []
for_instrument k (o ∷ os) =
    if o.instrument_id == k then o ∷ for_instrument k os else for_instrument k os

-- The two maps have the same keys, no lock is held, and the orders of a known instrument are some,
-- by rising timestamps.
pub record IsValid (db : DataBase) : Type 0 where
  pub paired : (id : InstrumentId) → contains id db.instrument_locks ≡ contains id db.orders
  pub unheld : (id : InstrumentId) → get_or (find? id db.instrument_locks) unlocked ≡ unlocked
  pub stocked : (id : InstrumentId) → find? id db.orders ≢ some []
  pub sorted : (id : InstrumentId) → IsSorted (stored id db)

pub empty-IsValid : IsValid empty
unfolding find?
empty-IsValid = record {
  paired = λ id. refl;
  unheld = λ id. refl;
  stocked = λ id e. cc;
  sorted = λ id. tt;
}

-- A block under a lock that no thread holds runs, and gives the lock back.
pub with_lock-free :
    {R : Type 0} (id : InstrumentId) (db : DataBase) (body : DataBase → Option (R × DataBase))
    (r : R) (after : DataBase)
    → get_or (find? id db.instrument_locks) unlocked ≡ unlocked
    → body (record db { instrument_locks = assign id locked db.instrument_locks }) ≡ some (r, after)
    → with_lock id db body
      ≡ some (r, record after { instrument_locks = assign id unlocked after.instrument_locks })
unfolding with_lock
with_lock-free id db body r after u e = rw (u, with_lock, e)

pub none_of_not : {V : Type 0} {o : Option V} → is_some o ≡ false → o ≡ none
none_of_not {o} h = ground arith

module _ (sorter : Sorter) {db : DataBase} (v : IsValid db) (order : Order) where
  abbrev id : InstrumentId
  id = order.instrument_id

  -- The orders of the instrument after the call.
  abbrev fresh : List Order
  fresh = if contains id db.orders then sorter.sort (stored id db ++ order ∷ []) else order ∷ []

  -- What `UpdateDb` leaves behind, read by keys.
  record Updated (after : DataBase) : Type 0 where
    returns : update_db sorter order db ≡ some (success, after)
    entries :
        (k : InstrumentId)
        → find? k after.orders ≡ (if id == k then some fresh else find? k db.orders)
    locks :
        (k : InstrumentId)
        → find? k after.instrument_locks
          ≡ (if id == k then some unlocked else find? k db.instrument_locks)

  abbrev appended : DataBase
  appended = record (append_sorted sorter order db) {
    instrument_locks = assign id unlocked (assign id locked db.instrument_locks);
  }

  abbrev locked_db : DataBase
  locked_db = record db { instrument_locks = assign id locked db.instrument_locks }

  Updated-old : contains id db.orders ≡ true → Updated appended
  unfolding update_db append_sorted knows
  Updated-old old = record {
    returns =
        rw (v.paired id, old)
          (with_lock-free id db _ success (append_sorted sorter order locked_db) (v.unheld id)
            refl);
    entries = λ k. rw old (simp (find?-assign, eq_refl) (ground arith));
    locks = λ k. simp find?-assign (ground arith);
  }

  Updated-new : contains id db.orders ≡ false → Updated (introduce sorter order db)
  unfolding update_db introduce knows
  Updated-new new = record {
    returns = rw new;
    entries = λ k. rw new (find?-assign id k (order ∷ []) db.orders);
    locks = λ k. rw (v.paired id, new) (find?-assign id k unlocked db.instrument_locks);
  }

  updated : (after : DataBase) × Updated after
  updated = elim (Bool-cases (contains id db.orders)) [
    | inl old ↦ (appended, Updated-old old)
    | inr new ↦ (introduce sorter order db, Updated-new new)
  ]

  -- The order joins those of its instrument.
  fresh-perm : Perm fresh (stored id db ++ order ∷ [])
  fresh-perm = elim (Bool-cases (contains id db.orders)) [
    | inl old ↦ rw old (sorter.sort-perm _)
    | inr new ↦ rw (new, none_of_not new) (Perm.refl _)
  ]

  fresh-IsSorted : IsSorted fresh
  fresh-IsSorted = elim (Bool-cases (contains id db.orders)) [
    | inl old ↦ rw old (sorter.sort-IsSorted _)
    | inr new ↦ rw new (tt, tt)
  ]

  fresh-ne-nil : fresh ≢ []
  fresh-ne-nil e = absurd (
      omega (
        arith,
        ap length (Perm.nil-eq (rw e at fresh-perm)),
        length-append (stored id db) (order ∷ []),
      ))

  after-IsValid : (after : DataBase) → Updated after → IsValid after
  after-IsValid after u = record {
    paired = λ k. rw (u.entries k, u.locks k) (ground (arith, v.paired k));
    unheld = λ k. rw (u.locks k) (ground (arith, v.unheld k));
    stocked = λ k. elim (Bool-cases (id == k)) [
      | inl same ↦
          rw (u.entries k, same)
            (λ e. fresh-ne-nil (ap (λ (o : Option (List Order)). get_or o []) e))
      | inr other ↦ rw (u.entries k, other) (v.stocked k)
    ];
    sorted = λ k. elim (Bool-cases (id == k)) [
      | inl same ↦ rw (u.entries k, same) fresh-IsSorted
      | inr other ↦ rw (u.entries k, other) (v.sorted k)
    ];
  }

  -- `UpdateDb` on a valid store returns SUCCESS. The store left behind is valid, knows the order's
  -- instrument, and holds for every instrument the orders that it held before, with the new one
  -- among them if it is for that instrument.
  pub update_db_lem :
      (after : DataBase) × (update_db sorter order db ≡ some (success, after))
      × IsValid after
      × (knows after order.instrument_id ≡ true)
      × ((k : InstrumentId) → Perm (stored k after) (stored k db ++ for_instrument k (order ∷ [])))
  unfolding knows for_instrument
  update_db_lem =
      let (after, u) = updated in
      (
        after,
        u.returns,
        after-IsValid after u,
        rw (u.entries id, u.locks id, eq_refl),
        λ k. elim (Bool-cases (id == k)) [
          | inl same ↦ rw (u.entries k, same, ← (eq_iff id k).0 same) fresh-perm
          | inr other ↦ rw (u.entries k, other, append-nil) (Perm.refl _)
        ],
      )
