-- ===== src/SharedFifo.antt =====
-- What a bounded queue promises to threads that share it: one list, and how far each call is. An
-- element enters the list, and leaves it, at one moment inside its call.
pub mod Told
pub mod Keep
pub mod Through
pub mod Callers
use sigmax.Base.{
  ℕ, ◌<◌, ◌≤◌, ◌≡◌, ◌≢◌, ◌⊎◌, List, [], ◌∷◌, ◌++◌, length, Option, none, some, Expected, value,
  unexpected, Bool, true,
}
use sigmax.QueueState.{QueueState, success, queue_is_empty, queue_is_full}

-- How far a thread's call is.
pub data Phase (A : Type 0) : Type 0 where
  resting : Phase A
  pushing : A → Phase A  -- the element is not in the list yet
  entered : Phase A  -- it is, and the call has no answer yet
  push_answered : QueueState → Phase A
  popping : Phase A
  holding : A → Phase A  -- an element has left the list, and the call has no answer yet
  pop_answered : Expected A QueueState → Phase A

-- What a caller sees.
pub data Event (A : Type 0) : Type 0 where
  called_push : ℕ → A → Event A
  called_pop : ℕ → Event A
  returned_push : ℕ → QueueState → Event A
  returned_pop : ℕ → Expected A QueueState → Event A

-- An event in front of those before it.
abbrev pub log : {A : Type 0} → Option (Event A) → List (Event A) → List (Event A)
log none es = es
log (some e) es = e ∷ es

pub record Shared (A : Type 0) : Type 0 where
  pub items : List A
  pub phase : ℕ → Phase A

abbrev pub at_rest : {A : Type 0} → Shared A
at_rest = record { items = []; phase = λ _. resting }

module _ {A : Type 0} where
  -- In `t` the call of thread `i` is at `p`, and those of the others are where they were.
  abbrev pub Advances : Shared A → ℕ → Phase A → Shared A → Type 0
  Advances s i p t = (t.phase i ≡ p) × ((j : ℕ) → i ≢ j → t.phase j ≡ s.phase j)

  abbrev pub SameItems : Shared A → Shared A → Type 0
  SameItems s t = t.items ≡ s.items

  -- With `late`, a call may also fail for a reason that has passed.
  module _ (late : Bool) (C : ℕ) where
    pub data Step (o : Option (Event A)) (s t : Shared A) : Type 0 where
      pause : o ≡ none → SameItems s t → ((j : ℕ) → t.phase j ≡ s.phase j) → Step o s t
      call_push :
          (i : ℕ) (a : A)
          → o ≡ some (called_push i a)
          → s.phase i ≡ resting
          → SameItems s t
          → Advances s i (pushing a) t
          → Step o s t
      call_pop :
          (i : ℕ)
          → o ≡ some (called_pop i)
          → s.phase i ≡ resting
          → SameItems s t
          → Advances s i popping t
          → Step o s t
      -- There is room, and the element goes to the end of the list.
      enter :
          (i : ℕ) (a : A)
          → o ≡ none
          → s.phase i ≡ pushing a
          → length s.items < C
          → t.items ≡ s.items ++ a ∷ []
          → Advances s i entered t
          → Step o s t
      accept :
          (i : ℕ)
          → o ≡ none
          → s.phase i ≡ entered
          → SameItems s t
          → Advances s i (push_answered success) t
          → Step o s t
      -- There is no room, or another call has not given up the place of its element yet.
      refuse :
          (i : ℕ) (a : A)
          → o ≡ none
          → s.phase i ≡ pushing a
          → (C ≤ length s.items) ⊎ ((j : ℕ) × (b : A) × (s.phase j ≡ holding b))
          → SameItems s t
          → Advances s i (push_answered queue_is_full) t
          → Step o s t
      refuse_late :
          (i : ℕ) (a : A)
          → late ≡ true
          → o ≡ none
          → s.phase i ≡ pushing a
          → SameItems s t
          → Advances s i (push_answered queue_is_full) t
          → Step o s t
      -- The first element of the list goes to the call.
      leave :
          (i : ℕ) (a : A)
          → o ≡ none
          → s.phase i ≡ popping
          → s.items ≡ a ∷ t.items
          → Advances s i (holding a) t
          → Step o s t
      deliver :
          (i : ℕ) (a : A)
          → o ≡ none
          → s.phase i ≡ holding a
          → SameItems s t
          → Advances s i (pop_answered (value a)) t
          → Step o s t
      -- There is no element, or another call has not finished putting the first one in yet.
      find_none :
          (i : ℕ)
          → o ≡ none
          → s.phase i ≡ popping
          → (s.items ≡ []) ⊎ ((j : ℕ) × (s.phase j ≡ entered))
          → SameItems s t
          → Advances s i (pop_answered (unexpected queue_is_empty)) t
          → Step o s t
      find_none_late :
          (i : ℕ)
          → late ≡ true
          → o ≡ none
          → s.phase i ≡ popping
          → SameItems s t
          → Advances s i (pop_answered (unexpected queue_is_empty)) t
          → Step o s t
      return_push :
          (i : ℕ) (status : QueueState)
          → o ≡ some (returned_push i status)
          → s.phase i ≡ push_answered status
          → SameItems s t
          → Advances s i resting t
          → Step o s t
      return_pop :
          (i : ℕ) (answer : Expected A QueueState)
          → o ≡ some (returned_pop i answer)
          → s.phase i ≡ pop_answered answer
          → SameItems s t
          → Advances s i resting t
          → Step o s t

    -- The states that some steps reach from the empty list with no call, with the events on the
    -- way, the last one first.
    pub data Runs : List (Event A) → Shared A → Type 0 where
      start : Runs [] at_rest
      step :
          {es : List (Event A)} {s t : Shared A} (o : Option (Event A))
          → Runs es s
          → Step o s t
          → Runs (log o es) t
