-- ===== src/Database/Concurrent/Locks.antt =====
-- The table of locks of src/sigmax/database.cpp and the threads that hold them.
use Prim.Native.String.{String}
use native.Mathlib.Decide.{ℕ_discrete}
use text.Mathlib.Text.{◌==◌}
use text.Mathlib.TextEquality.{eq_iff}
use sigmax.Base.{
  ℕ, ◌≡◌, ◌≢◌, Option, none, some, arith, sym, ◌∙◌, Bool-cases, inl, inr, if◌then◌else◌,
}
use sigmax.Database.{Mutex, locked, unlocked}

-- A lock is held by one thread at most, and by one if it is locked. `holds i` is the key of the
-- lock that thread `i` holds.
pub record Locks (holds : ℕ → Option String) (lock : String → Mutex) : Type 0 where
  pub excluded : (i j : ℕ) (k : String) → holds i ≡ some k → holds j ≡ some k → i ≡ j
  pub held : (i : ℕ) (k : String) → holds i ≡ some k → lock k ≡ locked
  pub holder : (k : String) → lock k ≡ locked → (i : ℕ) × (holds i ≡ some k)

module _ {holds holds' : ℕ → Option String} {lock lock' : String → Mutex}
    (l : Locks holds lock) where
  pub Locks-same :
      ((i : ℕ) → holds' i ≡ holds i) → ((k : String) → lock' k ≡ lock k) → Locks holds' lock'
  Locks-same h e = record {
    excluded = λ i j k a b. l.excluded i j k (sym (h i) ∙ a) (sym (h j) ∙ b);
    held = λ i k a. e k ∙ l.held i k (sym (h i) ∙ a);
    holder = λ k a. let (i, w) = l.holder k (sym (e k) ∙ a) in (i, h i ∙ w);
  }

  module _ (i : ℕ) (key : String) (others : (j : ℕ) → i ≢ j → holds' j ≡ holds j) where
    -- Thread `i` takes a lock that no thread holds.
    pub Locks-take :
        holds i ≡ none
        → holds' i ≡ some key
        → lock key ≡ unlocked
        → ((k : String) → lock' k ≡ (if key == k then locked else lock k))
        → Locks holds' lock'
    Locks-take before now free e = record {
      excluded = λ j k x a b. grind (
        arith,
        ℕ_discrete i j,
        ℕ_discrete i k,
        others j,
        others k,
        l.excluded j k x,
        l.held j x,
        l.held k x,
      );
      held = λ j x a. ground (arith, ℕ_discrete i j, others j, l.held j x, e x, eq_iff key x);
      holder = λ x a. elim (Bool-cases (key == x)) [
        | inl same ↦ (i, ground (arith, eq_iff key x))
        | inr other ↦
            let (j, w) = l.holder x (ground (arith, e x)) in
            (j, grind (arith, ℕ_discrete i j, others j))
      ];
    }

    -- Thread `i` gives the lock back that it holds.
    pub Locks-give :
        holds i ≡ some key
        → holds' i ≡ none
        → ((k : String) → lock' k ≡ (if key == k then unlocked else lock k))
        → Locks holds' lock'
    Locks-give before now e = record {
      excluded = λ j k x a b.
          grind (arith, ℕ_discrete i j, ℕ_discrete i k, others j, others k, l.excluded j k x);
      held = λ j x a.
          grind (arith, ℕ_discrete i j, others j, l.held j x, e x, l.excluded i j x, eq_iff key x);
      holder = λ x a.
          let (j, w) = l.holder x (ground (arith, e x)) in
          (j, grind (arith, ℕ_discrete i j, others j, e x, eq_iff key x));
    }
