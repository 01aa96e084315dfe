-- ===== src/Benchmark/Results.antt =====
-- What the results file of benchmarks/mpsc_queue_benchmark.cpp holds.
use Prim.Native.String.{String}
use sigmax.Base.{ℕ, ◌*◌, List, [], ◌∷◌, some, Bool, true, false, ◌≡◌, refl}
use sigmax.Base.Int.{ℤ, pos}
use sigmax.Logger.{Level}
use sigmax.Std.Map.{find?}
use sigmax.Benchmark.CpuInfo.{
  JsonLibrary, Cache, Machine, CpuInfo, query_cpu_info, to_json, cache_to_json,
}
use sigmax.Benchmark.Names.{vendor_to_string, uarch_to_string}
use sigmax.Benchmark.Json.{IsJsonLibrary, look, build, get-build}
use sigmax.Benchmark.Run.{report, single_result}
use sigmax.Benchmark.Report.{report_lem}

-- The machine has a cache of each kind.
pub record HasCaches (machine : Machine) : Type 0 where
  pub instruction_cache : Cache
  pub data_cache : Cache
  pub second_cache : Cache
  pub third_cache : Cache
  pub has_l1i : machine.l1i ≡ some instruction_cache
  pub has_l1d : machine.l1d ≡ some data_cache
  pub has_l2 : machine.l2 ≡ some second_cache
  pub has_l3 : machine.l3 ≡ some third_cache

-- The description of the processor after the first query.
abbrev pub queried : (machine : Machine) → HasCaches machine → CpuInfo
queried machine h = record {
  core_vendor = machine.vendor;
  core_uarch = machine.uarch;
  package_cores = machine.core_count;
  l1i_cache = h.instruction_cache;
  l1d_cache = h.data_cache;
  l2_cache = h.second_cache;
  l3_cache = h.third_cache;
  page_size = machine.page;
  initialized = true;
}

-- On a machine that has the caches, the first query describes the processor without a log line, and
-- a second query changes nothing and logs a warning.
pub query_twice :
    (machine other : Machine) (blank : CpuInfo) (h : HasCaches machine)
    → (query_cpu_info machine (record blank { initialized = false }) ≡ some ([], queried machine h))
      × (query_cpu_info other (queried machine h) ≡ some (Level.warn ∷ [], queried machine h))
unfolding query_cpu_info
query_twice machine other blank h = (rw (h.has_l1i, h.has_l1d, h.has_l2, h.has_l3) refl, refl)

module _ (lib : JsonLibrary) where
  pub record ShowsCache (j : lib.Json) (key : String) (cache : Cache) : Type 0 where
    pub size : look lib j ("cpuInfo" ∷ key ∷ "size" ∷ []) ≡ some (lib.number (pos cache.size))
    pub associativity :
        look lib j ("cpuInfo" ∷ key ∷ "associativity" ∷ [])
        ≡ some (lib.number (pos cache.associativity))
    pub line_size :
        look lib j ("cpuInfo" ∷ key ∷ "line_size" ∷ []) ≡ some (lib.number (pos cache.line_size))

  -- What stands under the keys of a result: the number of producers, the bytes of the queue, the
  -- counts of the reader, and the processor with its caches.
  pub record IsResult (machine : Machine) (h : HasCaches machine) (producer_count : ℤ)
      (bytes total successful : ℕ) (j : lib.Json) : Type 0 where
    pub producers :
        look lib j ("benchmarkResults" ∷ "producerCount" ∷ []) ≡ some (lib.number producer_count)
    pub queue : look lib j ("benchmarkResults" ∷ "queueSize" ∷ []) ≡ some (lib.number (pos bytes))
    pub total_pops :
        look lib j ("benchmarkResults" ∷ "totalPops" ∷ []) ≡ some (lib.number (pos total))
    pub successful_pops :
        look lib j ("benchmarkResults" ∷ "successfulPops" ∷ []) ≡ some (lib.number (pos successful))
    pub vendor :
        look lib j ("cpuInfo" ∷ "vendor" ∷ [])
        ≡ some (lib.text ((vendor_to_string machine.vendor).1))
    pub uarch :
        look lib j ("cpuInfo" ∷ "uarch" ∷ []) ≡ some (lib.text ((uarch_to_string machine.uarch).1))
    pub cores :
        look lib j ("cpuInfo" ∷ "coresPerSocket" ∷ []) ≡ some (lib.number (pos machine.core_count))
    pub page : look lib j ("cpuInfo" ∷ "pageSize" ∷ []) ≡ some (lib.number (pos machine.page))
    pub l1i : ShowsCache j "l1iCache" h.instruction_cache
    pub l1d : ShowsCache j "l1dCache" h.data_cache
    pub l2 : ShowsCache j "l2Cache" h.second_cache
    pub l3 : ShowsCache j "l3Cache" h.third_cache

  abbrev cpu_fields : (machine : Machine) → HasCaches machine → List (String × lib.Json)
  cpu_fields machine h =
      ("vendor", lib.text ((vendor_to_string machine.vendor).1))
      ∷ ("uarch", lib.text ((uarch_to_string machine.uarch).1))
      ∷ ("l1iCache", cache_to_json lib h.instruction_cache)
      ∷ ("l1dCache", cache_to_json lib h.data_cache)
      ∷ ("l2Cache", cache_to_json lib h.second_cache)
      ∷ ("l3Cache", cache_to_json lib h.third_cache)
      ∷ ("coresPerSocket", lib.number (pos machine.core_count))
      ∷ ("pageSize", lib.number (pos machine.page))
      ∷ []

  module _ (laws : IsJsonLibrary lib) (can_write : String → Bool) where
    single_result_lem :
        (order_size : ℕ) (producer_count : ℤ) (size total successful : ℕ)
        → let result =
            single_result lib can_write order_size producer_count size (total, successful) in
          (lib.get result "producerCount" ≡ some (lib.number producer_count))
          × (lib.get result "queueSize" ≡ some (lib.number (pos (size * order_size))))
          × (lib.get result "totalPops" ≡ some (lib.number (pos total)))
          × (lib.get result "successfulPops" ≡ some (lib.number (pos successful)))
    unfolding single_result build find?
    single_result_lem order_size producer_count size total successful =
        let fields : List (String × lib.Json) =
          ("successfulPops", lib.number (pos successful))
          ∷ ("totalPops", lib.number (pos total))
          ∷ ("queueSize", lib.number (pos (size * order_size)))
          ∷ ("producerCount", lib.number producer_count)
          ∷ [] in
        (
          get-build lib laws fields "producerCount",
          get-build lib laws fields "queueSize",
          get-build lib laws fields "totalPops",
          get-build lib laws fields "successfulPops",
        )

    cache_lem :
        (cache : Cache) (cpu j : lib.Json) (key : String)
        → lib.get j "cpuInfo" ≡ some cpu
        → lib.get cpu key ≡ some (cache_to_json lib cache)
        → ShowsCache j key cache
    unfolding look cache_to_json build find?
    cache_lem cache cpu j key e f =
        let fields : List (String × lib.Json) =
          ("line_size", lib.number (pos cache.line_size))
          ∷ ("associativity", lib.number (pos cache.associativity))
          ∷ ("size", lib.number (pos cache.size))
          ∷ [] in
        record {
          size = rw (e, f, get-build lib laws fields "size") refl;
          associativity = rw (e, f, get-build lib laws fields "associativity") refl;
          line_size = rw (e, f, get-build lib laws fields "line_size") refl;
        }

    -- The report of a run holds its result and the processor that was queried.
    pub report-IsResult :
        (machine : Machine) (h : HasCaches machine) (order_size : ℕ) (producer_count : ℤ)
        (size total successful : ℕ)
        → IsResult machine h producer_count (size * order_size) total successful (
            (report lib can_write
              (queried machine h)
              (single_result lib can_write order_size producer_count size (total, successful))).1)
    unfolding look to_json find?
    report-IsResult machine h order_size producer_count size total successful =
        let result =
          single_result lib can_write order_size producer_count size (total, successful) in
        let j = (report lib can_write (queried machine h) result).1 in
        let cpu = (to_json lib (queried machine h)).1 in
        let (held, described) = report_lem lib can_write laws (queried machine h) result in
        let (count, bytes, all, good) =
          single_result_lem order_size producer_count size total successful in
        let shown = laws.get_object (cpu_fields machine h) in
        record {
          producers = rw (held, count) refl;
          queue = rw (held, bytes) refl;
          total_pops = rw (held, all) refl;
          successful_pops = rw (held, good) refl;
          vendor = rw (described, shown "vendor") refl;
          uarch = rw (described, shown "uarch") refl;
          cores = rw (described, shown "coresPerSocket") refl;
          page = rw (described, shown "pageSize") refl;
          l1i = cache_lem h.instruction_cache cpu j "l1iCache" described (shown "l1iCache");
          l1d = cache_lem h.data_cache cpu j "l1dCache" described (shown "l1dCache");
          l2 = cache_lem h.second_cache cpu j "l2Cache" described (shown "l2Cache");
          l3 = cache_lem h.third_cache cpu j "l3Cache" described (shown "l3Cache");
        }
