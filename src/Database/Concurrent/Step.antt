-- ===== src/Database/Concurrent/Step.antt =====
-- Every step of a call for a known instrument in src/sigmax/database.cpp keeps the invariant.
use sigmax.Base.{ℕ, ◌≡◌, List, [], ◌∷◌, none, some, refl, sym, ap, update, ◌∙◌, map}
use mathlib.Core.List.{append-nil}
use mathlib.Core.List.Perm
use sigmax.OrderType.{Order, InstrumentId}
use sigmax.SharedFifo.Told.{from}
use sigmax.Database.{DataBase, Mutex, locked, unlocked, Sorter}
use sigmax.Database.Valid.{IsValid, for_instrument}
use sigmax.Database.Concurrent.{
  Pc, idle, update_orders, update_locks, update_acquire, update_append, update_sort, update_release,
  update_assign, update_emplace, update_return, read_orders, read_locks, read_acquire, read_copy,
  read_release, read_return, lock_of, IsKnown, IsFamiliar, System, Action, call_update, call_read,
  call_save, save_check, save_return, step, act, call, turn, advance, acquire, note_entered, start,
  Reach, begin, next,
}
use sigmax.Database.Concurrent.Invariant.{Inv, inside, sorting, to_enter, Local}
use sigmax.Database.Concurrent.Moves.{stay, take, give, put, sort, begin_call}

abbrev pub Holds : DataBase → System → Type 0
Holds db₀ s = Inv db₀ s.db s.pc s.calls s.entered

module _ (sorter : Sorter) {db₀ : DataBase} where
  module _ (s : System) (inv : Holds db₀ s) (i : ℕ) where
    loc : (p : Pc) → s.pc i ≡ p → Local db₀ p
    loc p at = rw (← at) (inv.threads i)

    stay_at :
        (p p' : Pc)
        → s.pc i ≡ p
        → Local db₀ p'
        → inside p' ≡ inside p
        → sorting p' ≡ sorting p
        → to_enter p' ≡ to_enter p
        → Inv db₀ s.db (update s.pc i p') s.calls s.entered
    stay_at p p' at l a b c =
        stay inv i p' l (a ∙ ap inside (sym at)) (b ∙ ap sorting (sym at))
          (c ∙ ap to_enter (sym at))

    call-Holds :
        (p : Pc) (orders : List Order) (q : Pc)
        → s.pc i ≡ q
        → Local db₀ p
        → inside p ≡ none
        → sorting p ≡ none
        → to_enter p ≡ orders
        → Holds db₀ (call i p (map (λ o. (i, o)) orders) q s)
    unfolding call
    call-Holds p orders idle at l a b c = begin_call inv i p l orders at a b c
    call-Holds p orders q at l a b c = inv

    acquire-Holds :
        (id : InstrumentId) (waiting entered : Pc)
        → s.pc i ≡ waiting
        → IsKnown db₀ id
        → Local db₀ waiting
        → Local db₀ entered
        → inside waiting ≡ none
        → inside entered ≡ some id
        → sorting entered ≡ sorting waiting
        → to_enter entered ≡ to_enter waiting
        → (m : Mutex) → lock_of id s.db ≡ m
        → let (db', p') = acquire id waiting entered s.db in
          Inv db₀ db' (update s.pc i p') s.calls s.entered
    unfolding acquire
    acquire-Holds id waiting entered at k l l' a b c d locked e =
        rw (acquire, e) (stay_at waiting waiting at l refl refl refl)
    acquire-Holds id waiting entered at k l l' a b c d unlocked e =
        rw (acquire, e)
          (take inv i entered l' id k (ap inside at ∙ a) b e (c ∙ ap sorting (sym at))
            (d ∙ ap to_enter (sym at)))

    turn-Holds : (p : Pc) → s.pc i ≡ p → Holds db₀ (turn sorter i p s)
    unfolding turn advance note_entered
    turn-Holds idle at = stay_at idle idle at tt refl refl refl
    turn-Holds (update_orders order) at =
        let l = loc (update_orders order) at in
        rw (inv.keys order.instrument_id l).0
          (stay_at (update_orders order) (update_locks order) at l refl refl refl)
    turn-Holds (update_locks order) at =
        let l = loc (update_locks order) at in
        rw (inv.keys order.instrument_id l).1
          (stay_at (update_locks order) (update_acquire order) at l refl refl refl)
    turn-Holds (update_acquire order) at =
        let l = loc (update_acquire order) at in
        acquire-Holds order.instrument_id (update_acquire order) (update_append order) at l l l refl
          refl refl refl (lock_of order.instrument_id s.db) refl
    turn-Holds (update_append order) at =
        put inv i (update_sort order) (loc (update_append order) at) order (ap inside (sym at))
          (ap sorting at) refl (ap to_enter at) refl
    turn-Holds (update_sort order) at =
        sort inv i (update_release order) tt order.instrument_id sorter (ap inside (sym at))
          (ap sorting at) refl (ap to_enter (sym at))
    turn-Holds (update_release order) at =
        give inv i (update_return _) tt order.instrument_id (ap inside at) refl
          (ap sorting (sym at)) (ap to_enter (sym at))
    turn-Holds (update_assign order) at = absurd (cc (loc (update_assign order) at))
    turn-Holds (update_emplace order) at = absurd (cc (loc (update_emplace order) at))
    turn-Holds (update_return answer) at = stay_at (update_return answer) idle at tt refl refl refl
    turn-Holds (read_orders query id) at =
        let l = loc (read_orders query id) at in
        rw (inv.keys id l).0
          (stay_at (read_orders query id) (read_locks query id) at l refl refl refl)
    turn-Holds (read_locks query id) at =
        let l = loc (read_locks query id) at in
        rw (inv.keys id l).1
          (stay_at (read_locks query id) (read_acquire query id) at l refl refl refl)
    turn-Holds (read_acquire query id) at =
        acquire-Holds id (read_acquire query id) (read_copy query id) at
          (loc (read_acquire query id) at) (loc (read_acquire query id) at) tt refl refl refl refl
          (lock_of id s.db) refl
    turn-Holds (read_copy query id) at =
        stay_at (read_copy query id) (read_release id _) at tt refl refl refl
    turn-Holds (read_release id answer) at =
        give inv i (read_return answer) tt id (ap inside at) refl (ap sorting (sym at))
          (ap to_enter (sym at))
    turn-Holds (read_return answer) at = stay_at (read_return answer) idle at tt refl refl refl
    turn-Holds (save_check exists) at =
        stay_at (save_check exists) (save_return _) at tt refl refl refl
    turn-Holds (save_return answer) at = stay_at (save_return answer) idle at tt refl refl refl

  act-Holds :
      (s : System) (a : Action) → Holds db₀ s → IsFamiliar db₀ a → Holds db₀ (act sorter a s)
  unfolding act
  act-Holds s (call_update i order) inv k =
      call-Holds s inv i (update_orders order) (order ∷ []) (s.pc i) refl k refl refl refl
  act-Holds s (call_read i query id) inv k =
      call-Holds s inv i (read_orders query id) [] (s.pc i) refl k refl refl refl
  act-Holds s (call_save i exists) inv k =
      call-Holds s inv i (save_check exists) [] (s.pc i) refl tt refl refl refl
  act-Holds s (step i) inv k = turn-Holds s inv i (s.pc i) refl

  start-Holds : IsValid db₀ → Holds db₀ (start db₀)
  unfolding start for_instrument from
  start-Holds v = record {
    keys = λ id k. k;
    threads = λ i. tt;
    locks = record {
      excluded = λ i j k a b. absurd (cc a);
      held = λ i k a. absurd (cc a);
      holder = λ k l. absurd (cc (l, v.unheld k));
    };
    stock = record { sorted = λ k no. v.sorted k; content = λ k. rw append-nil (Perm.refl _) };
    told = record { by_thread = λ i. refl };
  }

  pub Reach-Holds : {s : System} → IsValid db₀ → Reach sorter db₀ s → Holds db₀ s
  Reach-Holds v begin = start-Holds v
  Reach-Holds v (next {s} a r k) = act-Holds s a (Reach-Holds v r) k
