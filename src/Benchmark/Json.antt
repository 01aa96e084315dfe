-- ===== src/Benchmark/Json.antt =====
-- What benchmarks/benchmark_utils.cpp and benchmarks/mpsc_queue_benchmark.cpp rely on of the JSON
-- library, and the values that stand under the keys of what they build.
use Prim.Native.String.{String}
use text.Mathlib.Text.{◌==◌}
use sigmax.Base.{◌≡◌, refl, List, [], ◌∷◌, Option, none, some, ◌∙◌, ◌>>=◌, true, if◌then◌else◌}
use sigmax.Std.Map.{find?}
use sigmax.Benchmark.CpuInfo.{JsonLibrary}

-- What the library documents: a null has no keys; an assignment by key to a null or an object makes
-- an object that has the value under that key and else what was there; an initializer list with the same key twice
-- keeps the first; what it has written it can read.
pub record IsJsonLibrary (lib : JsonLibrary) : Type 0 where
  pub null_lem : lib.takes_keys lib.null ≡ true
  pub get_null : (k : String) → lib.get lib.null k ≡ none
  pub set_lem :
      (j : lib.Json) (k : String) (v : lib.Json)
      → lib.takes_keys j ≡ true
      → lib.takes_keys (lib.set j k v) ≡ true
  pub get_set :
      (j : lib.Json) (k : String) (v : lib.Json) (k' : String)
      → lib.takes_keys j ≡ true
      → lib.get (lib.set j k v) k' ≡ (if k == k' then some v else lib.get j k')
  pub get_object :
      (fields : List (String × lib.Json)) (k : String)
      → lib.get (lib.object fields) k ≡ find? k fields
  pub reread : (j : lib.Json) → lib.parses (lib.dump j) ≡ true

module _ (lib : JsonLibrary) where
  -- The value at the end of a path of keys.
  unfoldable pub look : lib.Json → List String → Option lib.Json
  look j [] = some j
  look j (k ∷ ks) = do inner ← lib.get j k; look inner ks

  -- The object that is built of these fields, the last one first.
  unfoldable pub build : List (String × lib.Json) → lib.Json
  build [] = lib.null
  build ((k, v) ∷ fields) = lib.set (build fields) k v

  module _ (laws : IsJsonLibrary lib) where
    build_lem : (fields : List (String × lib.Json)) → lib.takes_keys (build fields) ≡ true
    unfolding build
    build_lem [] = laws.null_lem
    build_lem ((k, v) ∷ fields) = laws.set_lem (build fields) k v (build_lem fields)

    pub get-build :
        (fields : List (String × lib.Json)) (k : String) → lib.get (build fields) k ≡ find? k fields
    unfolding build find?
    get-build [] k = laws.get_null k
    get-build ((j, v) ∷ fields) k =
        laws.get_set (build fields) j v k (build_lem fields) ∙ rw (get-build fields k) refl
