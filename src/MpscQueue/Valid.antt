-- ===== src/MpscQueue/Valid.antt =====
-- The representation of a queue between calls: what each cell's sequence number says, and the
-- elements that the queue holds.
use sigmax.Base.{
  ℕ, zero, suc, ◌+◌, ◌-◌, ◌^◌, ◌≤◌, ◌<◌, ◌≡◌, refl, ap₂, List, [], ◌∷◌, ◌++◌, arith, length, update,
}
use sigmax.MpscQueue.{MpscQueue, init, publish, release}
use sigmax.MpscQueue.Index.{index, index-add, index-inj, index_of_lt}

-- A cell that holds an element says one more than its position; a free one, its next position.
pub record IsValid {ℓ} {A : Type ℓ} (C : ℕ) (q : MpscQueue A) : Type 0 where
  pub several : 2 ≤ C
  pub ordered : q.tail ≤ q.head
  pub fits : q.head ≤ q.tail + C
  pub small : q.head + C < 2 ^ 64
  pub holding : (p : ℕ) → q.tail ≤ p → p < q.head → q.sequence (index C p) ≡ p + 1
  pub waiting : (p : ℕ) → q.head ≤ p → p < q.tail + C → q.sequence (index C p) ≡ p

module _ {ℓ} {A : Type ℓ} (C : ℕ) where
  -- The `n` elements from position `p` on.
  abbrev pub window : (ℕ → A) → ℕ → ℕ → List A
  window slots p zero = []
  window slots p (suc n) = slots (index C p) ∷ window slots (suc p) n

  -- What the queue holds, oldest first.
  unfoldable pub contents : MpscQueue A → List A
  contents q = window q.slots q.tail (q.head - q.tail)

  length-window : (slots : ℕ → A) (p n : ℕ) → length (window slots p n) ≡ n
  length-window slots p zero = refl
  length-window slots p (suc n) = omega (arith, length-window slots (suc p) n)

  pub length-contents : (q : MpscQueue A) → length (contents q) ≡ q.head - q.tail
  unfolding contents
  length-contents q = length-window q.slots q.tail (q.head - q.tail)

  -- Writing just past a window extends it.
  pub window-update :
      (slots : ℕ → A) (p n r : ℕ) (a : A)
      → n < C
      → r ≡ p + n
      → window (update slots (index C r) a) p (suc n) ≡ window slots p n ++ a ∷ []
  window-update slots p zero r a h e = let same : r ≡ p = omega arith in rw same (ground arith)
  window-update slots p (suc n) r a h e =
      ap₂ ◌∷◌ (ground (arith, index-inj C p r))
        (window-update slots (suc p) n r a (omega arith) (omega arith))

  pub window_of_pos :
      (slots : ℕ → A) (p n : ℕ)
      → 0 < n
      → window slots p n ≡ slots (index C p) ∷ window slots (p + 1) (n - 1)
  window_of_pos slots p zero h = elim h [ ]
  window_of_pos slots p (suc n) h =
      ap₂ (λ k m. slots (index C p) ∷ window slots k m) (omega arith) (omega arith)

pub init-IsValid {ℓ} :
    {A : Type ℓ} (C : ℕ) (blank : A) → 2 ≤ C → C < 2 ^ 64 → IsValid C (init blank)
unfolding init
init-IsValid C blank h k = record {
  several = h;
  ordered = omega arith;
  fits = omega arith;
  small = omega arith;
  holding = λ p lo hi. absurd (omega arith);
  waiting = λ p lo hi. index_of_lt C p (omega arith);
}

module _ {ℓ} {A : Type ℓ} {C : ℕ} {q : MpscQueue A} (v : IsValid C q)
    (room : q.head + C < 2 ^ 63) where
  open v use {several, ordered, fits, small, holding, waiting}

  pub publish-IsValid : (a : A) → q.head < q.tail + C → IsValid C (publish C a q.head q)
  unfolding publish
  publish-IsValid a h = record {
    several = several;
    ordered = omega arith;
    fits = omega arith;
    small = omega arith;
    holding = λ p lo hi. ground (arith, holding p lo, index-inj C p q.head);
    waiting = λ p lo hi. ground (arith, waiting p, index-inj C q.head p);
  }

  pub release-IsValid : q.tail < q.head → IsValid C (release C q.tail q)
  unfolding release
  release-IsValid h = record {
    several = several;
    ordered = omega arith;
    fits = omega arith;
    small = omega arith;
    holding = λ p lo hi. ground (arith, holding p, index-inj C q.tail p);
    waiting = λ p lo hi.
        ground
          (arith, waiting p, index-inj C q.tail p, index-inj C p (q.tail + C), index-add C q.tail);
  }
