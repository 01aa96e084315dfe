-- ===== src/Database/Concurrent/Moves.antt =====
-- What the kinds of steps of src/sigmax/database.cpp do to the invariant.
use sigmax.Base.{
  same_view, other_view, ℕ, ◌≡◌, List, [], ◌∷◌, ◌++◌, none, some, arith, update, update_each, map,
  sym, ap, refl, update_at, ◌∙◌,
}
use sigmax.OrderType.{Order, InstrumentId}
use sigmax.Database.{DataBase, Mutex, locked, unlocked, Sorter}
use sigmax.Database.Valid.{stored}
use sigmax.Database.Concurrent.Locks.{Locks, Locks-same, Locks-take, Locks-give}
use sigmax.Database.Concurrent.Stock.{Stock, Stock-same, Stock-append, Stock-sort}
use sigmax.Std.Map.{assign, find?-assign, modify}
use sigmax.Database.Concurrent.{set_lock, Pc, idle, lock_of, IsKnown}
use sigmax.Database.Concurrent.Invariant.{Inv, inside, sorting, to_enter, Local}
use sigmax.Database.Concurrent.Paid.{Paid, Paid-same, Paid-put, Paid-call}

module _ {db₀ db : DataBase} {pc : ℕ → Pc} {calls entered : List (ℕ × Order)}
    (inv : Inv db₀ db pc calls entered) (i : ℕ) (p' : Pc) (loc : Local db₀ p') where
  open inv use {keys, threads, locks, stock, told}

  threads' : (j : ℕ) → Local db₀ (update pc i p' j)
  threads' = update_each (Local db₀) pc i p' loc (λ j ne. threads j)

  told_same : to_enter p' ≡ to_enter (pc i) → Paid calls entered (λ j. to_enter (update pc i p' j))
  told_same e = Paid-same told (same_view to_enter pc i p' e)

  same_orders :
      sorting p' ≡ sorting (pc i)
      → Stock (λ j. sorting (update pc i p' j)) (λ id. stored id db₀) (λ id. stored id db) entered
  same_orders e = Stock-same stock (same_view sorting pc i p' e) (λ id. refl)

  -- A step that changes nothing but the place of the thread.
  pub stay :
      inside p' ≡ inside (pc i)
      → sorting p' ≡ sorting (pc i)
      → to_enter p' ≡ to_enter (pc i)
      → Inv db₀ db (update pc i p') calls entered
  stay e_in e_sort e_enter = record {
    keys = keys;
    threads = threads';
    locks = Locks-same locks (same_view inside pc i p' e_in) (λ id. refl);
    stock = same_orders e_sort;
    told = told_same e_enter;
  }

  same_holders :
      inside p' ≡ inside (pc i) → Locks (λ j. inside (update pc i p' j)) (λ id. lock_of id db)
  same_holders e = Locks-same locks (same_view inside pc i p' e) (λ id. refl)

  keys_assign :
      (key : InstrumentId) (orders : List Order)
      → (id : InstrumentId) → IsKnown db₀ id
      → IsKnown (record db { orders = assign key orders db.orders }) id
  keys_assign key orders id known = simp find?-assign (ground (arith, keys id known))

  module _ (key : InstrumentId) where
    keys_set :
        (state : Mutex)
        → IsKnown db₀ key
        → (id : InstrumentId) → IsKnown db₀ id
        → IsKnown (set_lock key state db) id
    keys_set state k id known = simp find?-assign (ground (arith, keys id known))

    -- The lock of a known instrument is taken.
    pub take :
        IsKnown db₀ key
        → inside (pc i) ≡ none
        → inside p' ≡ some key
        → lock_of key db ≡ unlocked
        → sorting p' ≡ sorting (pc i)
        → to_enter p' ≡ to_enter (pc i)
        → Inv db₀ (set_lock key locked db) (update pc i p') calls entered
    take k before now free e_sort e_enter = record {
      keys = keys_set locked k;
      threads = threads';
      locks =
          Locks-take locks i key (other_view inside pc i p') before
            (ap inside (update_at pc i p') ∙ now) free (λ id. simp find?-assign (ground arith));
      stock = same_orders e_sort;
      told = told_same e_enter;
    }

    -- And given back.
    pub give :
        inside (pc i) ≡ some key
        → inside p' ≡ none
        → sorting p' ≡ sorting (pc i)
        → to_enter p' ≡ to_enter (pc i)
        → Inv db₀ (set_lock key unlocked db) (update pc i p') calls entered
    give before now e_sort e_enter = record {
      keys = λ id known. simp find?-assign (ground (arith, keys id known));
      threads = threads';
      locks =
          Locks-give locks i key (other_view inside pc i p') before
            (ap inside (update_at pc i p') ∙ now) (λ id. simp find?-assign (ground arith));
      stock = same_orders e_sort;
      told = told_same e_enter;
    }

    -- The orders of an instrument are sorted.
    pub sort :
        (sorter : Sorter)
        → inside p' ≡ inside (pc i)
        → sorting (pc i) ≡ some key
        → sorting p' ≡ none
        → to_enter p' ≡ to_enter (pc i)
        → Inv db₀
            (record db { orders = modify key sorter.sort [] db.orders })
            (update pc i p')
            calls
            entered
    sort sorter e_in before now e_enter = record {
      keys = keys_assign key (sorter.sort (stored key db));
      threads = threads';
      locks = same_holders e_in;
      stock =
          Stock-sort stock i (other_view sorting pc i p') sorter key before
            (ap sorting (update_at pc i p') ∙ now) (λ id. simp find?-assign (ground arith));
      told = told_same e_enter;
    }

  -- An order is appended to those of its instrument.
  pub put :
      (order : Order)
      → inside p' ≡ inside (pc i)
      → sorting (pc i) ≡ none
      → sorting p' ≡ some order.instrument_id
      → to_enter (pc i) ≡ order ∷ []
      → to_enter p' ≡ []
      → Inv db₀
          (record db { orders = modify order.instrument_id (λ v. v ++ order ∷ []) [] db.orders })
          (update pc i p')
          calls
          (entered ++ (i, order) ∷ [])
  put order e_in before now owed paid = record {
    keys = keys_assign order.instrument_id (stored order.instrument_id db ++ order ∷ []);
    threads = threads';
    locks = same_holders e_in;
    stock =
        Stock-append stock i (other_view sorting pc i p') order before
          (ap sorting (update_at pc i p') ∙ now) (λ id. simp find?-assign (ground arith));
    told =
        Paid-put told i (other_view to_enter pc i p') order owed
          (ap to_enter (update_at pc i p') ∙ paid);
  }

  -- A call, with the orders that it is to put in.
  pub begin_call :
      (orders : List Order)
      → pc i ≡ idle
      → inside p' ≡ none
      → sorting p' ≡ none
      → to_enter p' ≡ orders
      → Inv db₀ db (update pc i p') (calls ++ map (λ o. (i, o)) orders) entered
  begin_call orders at_idle e_in e_sort e_enter = record {
    keys = keys;
    threads = threads';
    locks =
        Locks-same locks (same_view inside pc i p' (e_in ∙ sym (ap inside at_idle))) (λ id. refl);
    stock = same_orders (e_sort ∙ sym (ap sorting at_idle));
    told =
        Paid-call told i (other_view to_enter pc i p') orders (ap to_enter at_idle)
          (ap to_enter (update_at pc i p') ∙ e_enter);
  }
