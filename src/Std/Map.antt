-- ===== src/Std/Map.antt =====
-- `std::map<std::string, V>`, as an association list. The order of the keys is not observed.
use Prim.Native.String.{String}
use text.Mathlib.Text.{◌==◌}
use text.Mathlib.TextEquality.{eq_iff}
use sigmax.Base.{
  ◌≡◌, refl, List, [], ◌∷◌, Option, none, some, Bool, true, false, arith, if◌then◌else◌,
}

module _ {ℓ} {V : Type ℓ} where
  unfoldable pub find? : String → List (String × V) → Option V
  find? k [] = none
  find? k ((j, v) ∷ m) = if j == k then some v else find? k m

  -- `m[k] = v`
  unfoldable pub assign : String → V → List (String × V) → List (String × V)
  assign k v [] = (k, v) ∷ []
  assign k v ((j, w) ∷ m) = if j == k then (k, v) ∷ m else (j, w) ∷ assign k v m

  abbrev pub is_some : Option V → Bool
  is_some none = false
  is_some (some v) = true

  abbrev pub get_or : Option V → V → V
  get_or none d = d
  get_or (some v) d = v

  -- `m.contains(k)`
  abbrev pub contains : String → List (String × V) → Bool
  contains k m = is_some (find? k m)

  -- A change of `m[k]` in place; `operator[]` enters `fresh` first, if there is no such key.
  abbrev pub modify : String → (V → V) → V → List (String × V) → List (String × V)
  modify k f fresh m = assign k (f (get_or (find? k m) fresh)) m

  -- `m.try_emplace(k)`
  abbrev pub try_emplace : String → V → List (String × V) → List (String × V)
  try_emplace k v m = if contains k m then m else assign k v m

  pub find?-assign :
      (k j : String) (v : V) (m : List (String × V))
      → find? j (assign k v m) ≡ (if k == j then some v else find? j m)
  unfolding find? assign
  find?-assign k j v [] = refl
  find?-assign k j v ((i, w) ∷ m) =
      ground (arith, eq_iff k j, eq_iff i k, eq_iff i j, find?-assign k j v m)

  -- Of two assignments to one key the second alone is left.
  pub assign-assign :
      (k : String) (v w : V) (m : List (String × V)) → assign k w (assign k v m) ≡ assign k w m
  unfolding assign
  assign-assign k v w [] = ground (arith, eq_iff k k)
  assign-assign k v w ((i, u) ∷ m) = ground (arith, eq_iff k k, eq_iff i k, assign-assign k v w m)

  pub find?-assign_self :
      (k : String) (v : V) (m : List (String × V)) → find? k (assign k v m) ≡ some v
  find?-assign_self k v m = rw (find?-assign k k v m) (ground (arith, eq_iff k k))
