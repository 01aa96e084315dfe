-- ===== src/Database/Concurrent/Alone.antt =====
-- A thread that runs alone on the store of src/sigmax/database.cpp.
pub mod Update
pub mod Read
use sigmax.Base.{ℕ, zero, suc, ◌≡◌, refl, Option, none, some, true, arith, ap, sym, ◌∙◌}
use sigmax.OrderType.{InstrumentId}
use sigmax.Database.{DataBase, Mutex, locked, unlocked, Sorter, knows, with_lock}
use sigmax.Database.Concurrent.{Pc, lock_of, set_lock, advance, acquire, IsKnown}

pub acquire-free :
    (id : InstrumentId) (waiting entered : Pc) (db : DataBase)
    → lock_of id db ≡ unlocked
    → acquire id waiting entered db ≡ (set_lock id locked db, entered)
unfolding acquire
acquire-free id waiting entered db free = rw (acquire, free) refl

pub with_lock-unlocked :
    {R : Type 0} (id : InstrumentId) (db : DataBase) (body : DataBase → Option (R × DataBase))
    (r : R) (after : DataBase) (m : Mutex)
    → lock_of id db ≡ m
    → with_lock id db body ≡ some (r, after)
    → lock_of id db ≡ unlocked
unfolding with_lock
with_lock-unlocked id db body r after locked e h = absurd (cc (rw (with_lock, e) at h))
with_lock-unlocked id db body r after unlocked e h = e

pub knows-IsKnown : (db : DataBase) (id : InstrumentId) → knows db id ≡ true → IsKnown db id
unfolding knows
knows-IsKnown db id k = ground arith

-- What two descriptions of one answer have in common.
pub same_answer :
    {R : Type 0} (f : R → Pc) {x : Option (R × DataBase)} (r r' : R) (db db' : DataBase)
    → x ≡ some (r, db)
    → x ≡ some (r', db')
    → ◌≡◌ {A = DataBase × Pc} (db, f r) (db', f r')
same_answer {R} f r r' db db' e h =
    let both : ◌≡◌ {A = Option (R × DataBase)} (some (r, db)) (some (r', db')) = sym e ∙ h in
    ap (λ o. given o) both
  where
    given : Option (R × DataBase) → DataBase × Pc
    given none = (db, f r)
    given (some (a, d)) = (d, f a)

module _ (sorter : Sorter) where
  -- `n` steps of a thread, with none of another between them.
  unfoldable pub alone : ℕ → DataBase × Pc → DataBase × Pc
  alone zero (db, p) = (db, p)
  alone (suc n) (db, p) = alone n (advance sorter db p)

  pub then_alone :
      (n : ℕ) (db db' : DataBase) (p p' : Pc)
      → advance sorter db p ≡ (db', p')
      → alone (suc n) (db, p) ≡ alone n (db', p')
  unfolding alone
  then_alone n db db' p p' e = ap (alone n) e
