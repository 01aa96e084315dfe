-- ===== src/Benchmark/CpuInfo.antt =====
-- The description of the processor in benchmarks/benchmark_utils.cpp. What the JSON library and the
-- processor library do is a parameter.
use Prim.Native.String.{String}
use sigmax.Base.{ℕ, List, [], ◌∷◌, ◌++◌, Option, some, ◌>>=◌, Bool, true, if◌then◌else◌}
use sigmax.Base.Int.{ℤ, pos}
use sigmax.Base.Text.{Text}
use sigmax.Logger.{Level, warn, error}
use sigmax.Benchmark.Names.{vendor_to_string, uarch_to_string}

-- `nlohmann::json`, with what the program uses of it: `set j key v` is `j[key] = v`, `object` is the
-- initializer list, and `parses` says that reading a text throws no exception. `get j key` is what
-- stands under a key, and `takes_keys` says that a value is null or an object.
pub record JsonLibrary : Type 1 where
  pub Json : Type 0
  pub null : Json
  pub number : ℤ → Json
  pub text : String → Json
  pub set : Json → String → Json → Json
  pub object : List (String × Json) → Json
  pub dump : Json → Text
  pub parses : Text → Bool
  pub get : Json → String → Option Json
  pub takes_keys : Json → Bool

-- `cpuinfo_cache`
pub record Cache : Type 0 where
  pub size : ℕ
  pub associativity : ℕ
  pub line_size : ℕ

-- What the library reports about the machine's first core and package; the library answers with a
-- null pointer for a cache that the machine does not have.
pub record Machine : Type 0 where
  pub vendor : String
  pub uarch : String
  pub core_count : ℕ
  pub l1i : Option Cache
  pub l1d : Option Cache
  pub l2 : Option Cache
  pub l3 : Option Cache
  pub page : ℕ

-- `struct CpuInfo`
pub record CpuInfo : Type 0 where
  pub core_vendor : String
  pub core_uarch : String
  pub package_cores : ℕ
  pub l1i_cache : Cache
  pub l1d_cache : Cache
  pub l2_cache : Cache
  pub l3_cache : Cache
  pub page_size : ℕ
  pub initialized : Bool

-- `QueryCpuInfo`: the log lines and the new state, or `none` where it dereferences a null pointer.
unfoldable pub query_cpu_info : Machine → CpuInfo → Option (List Level × CpuInfo)
query_cpu_info machine info = if info.initialized then some (warn ∷ [], info) else (do
  l1i ← machine.l1i
  l1d ← machine.l1d
  l2 ← machine.l2
  l3 ← machine.l3
  some (
    [],
    record {
      core_vendor = machine.vendor;
      core_uarch = machine.uarch;
      package_cores = machine.core_count;
      l1i_cache = l1i;
      l1d_cache = l1d;
      l2_cache = l2;
      l3_cache = l3;
      page_size = machine.page;
      initialized = true;
    },
  ))

module _ (lib : JsonLibrary) where
  -- `CacheToJson`
  unfoldable pub cache_to_json : Cache → lib.Json
  cache_to_json cache =
      lib.set
        (lib.set (lib.set lib.null "size" (lib.number (pos cache.size))) "associativity"
          (lib.number (pos cache.associativity)))
        "line_size" (lib.number (pos cache.line_size))

  -- `ToJson`
  unfoldable pub to_json : CpuInfo → List Level × lib.Json
  unfolding cache_to_json vendor_to_string uarch_to_string
  to_json info =
      if info.initialized
      then (let (vendor_log, vendor) = vendor_to_string info.core_vendor in
          let (uarch_log, uarch) = uarch_to_string info.core_uarch in
          (
            vendor_log ++ uarch_log,
            lib.object (
                ("vendor", lib.text vendor)
                ∷ ("uarch", lib.text uarch)
                ∷ ("l1iCache", cache_to_json info.l1i_cache)
                ∷ ("l1dCache", cache_to_json info.l1d_cache)
                ∷ ("l2Cache", cache_to_json info.l2_cache)
                ∷ ("l3Cache", cache_to_json info.l3_cache)
                ∷ ("coresPerSocket", lib.number (pos info.package_cores))
                ∷ ("pageSize", lib.number (pos info.page_size))
                ∷ []),
          ))
      else (error ∷ [], lib.null)
