-- ===== src/Benchmark/Tests.antt =====
-- The benchmark on a machine with four caches, and with a JSON library that keeps values as trees.
use Prim.Native.String.{String}
use text.Mathlib.Text.{◌==◌}
use sigmax.Base.{
  ℕ, ◌++◌, List, [], ◌∷◌, Option, none, some, Bool, true, false, Expected, value, unexpected, ◌≡◌,
  refl, if◌then◌else◌,
}
use sigmax.Base.Int.{ℤ, pos, negsuc}
use sigmax.Base.Text.{Text, codes, to_string}
use sigmax.QueueState.{QueueState, queue_is_empty}
use sigmax.MpscQueue
use sigmax.MpscQueue.Valid.{IsValid}
use sigmax.Std.Map.{find?}
use sigmax.Logger.{Level, LogLibrary, info, error, warn, prints, written_lines}
use sigmax.Benchmark.CpuInfo.{JsonLibrary, Cache, Machine, CpuInfo, query_cpu_info, to_json}
use sigmax.Benchmark.Names.{
  vendor_to_string, vendor_to_string-inj, uarch_to_string, uarch_to_string-inj,
}
use sigmax.Benchmark.Json.{IsJsonLibrary}
use sigmax.Benchmark.Run.{Arguments, Files, select, reader, main, save_benchmark_results}
use sigmax.Benchmark.Sizes.{select-IsValid}
use sigmax.Benchmark.Report.{reader_lem, save_twice}
use sigmax.Benchmark.Results.{HasCaches, queried, query_twice}
use sigmax.Benchmark.Main.{Ending, benchmark_main_lem}

unfoldable int_text : ℤ → Text
int_text (pos n) = to_string n
int_text (negsuc n) = codes "-"

-- Values as the program builds them.
data JsonTree : Type 0 where
  null_tree : JsonTree
  number_tree : ℤ → JsonTree
  text_tree : String → JsonTree
  field_tree : JsonTree → String → JsonTree → JsonTree

unfoldable get : JsonTree → String → Option JsonTree
get (field_tree j k v) k' = if k == k' then some v else get j k'
get null_tree k' = none
get (number_tree n) k' = none
get (text_tree t) k' = none

abbrev takes_keys : JsonTree → Bool
takes_keys null_tree = true
takes_keys (field_tree j k v) = true
takes_keys (number_tree n) = false
takes_keys (text_tree t) = false

unfoldable object : List (String × JsonTree) → JsonTree
object [] = null_tree
object ((k, v) ∷ fields) = field_tree (object fields) k v

unfoldable dump : JsonTree → Text
unfolding int_text
dump null_tree = codes "null"
dump (number_tree n) = int_text n
dump (text_tree t) = codes t
dump (field_tree j k v) = dump j ++ (codes k ++ dump v)

abbrev trees : JsonLibrary
trees = record {
  Json = JsonTree;
  null = null_tree;
  number = number_tree;
  text = text_tree;
  set = field_tree;
  object = object;
  dump = dump;
  parses = λ t. true;
  get = get;
  takes_keys = takes_keys;
}

get-object :
    (fields : List (String × JsonTree)) (k : String) → get (object fields) k ≡ find? k fields
unfolding get object find?
get-object [] k = refl
get-object ((j, v) ∷ fields) k = rw (get-object fields k) refl

laws : IsJsonLibrary trees
unfolding get
laws = record {
  null_lem = refl;
  get_null = λ k. refl;
  set_lem = λ j k v h. refl;
  get_set = λ j k v k' h. refl;
  get_object = get-object;
  reread = λ j. refl;
}

abbrev cache : Cache
cache = record { size = 32768; associativity = 8; line_size = 64 }

abbrev machine : Machine
machine = record {
  vendor = "amd";
  uarch = "zen4";
  core_count = 8;
  l1i = some cache;
  l1d = some cache;
  l2 = some cache;
  l3 = some cache;
  page = 4096;
}

abbrev caches : HasCaches machine
caches = record {
  instruction_cache = cache;
  data_cache = cache;
  second_cache = cache;
  third_cache = cache;
  has_l1i = refl;
  has_l1d = refl;
  has_l2 = refl;
  has_l3 = refl;
}

abbrev blank : CpuInfo
blank = record {
  core_vendor = "";
  core_uarch = "";
  package_cores = 0;
  l1i_cache = cache;
  l1d_cache = cache;
  l2_cache = cache;
  l3_cache = cache;
  page_size = 0;
  initialized = false;
}

abbrev args : Arguments
args = record { queue_size = pos 2048; producer_count = pos 4; results_path = "results.json" }

abbrev pops : List (Expected ℕ QueueState)
pops = value 7 ∷ unexpected queue_is_empty ∷ value 8 ∷ []

abbrev old : Files
old = ("results.json", codes "{}") ∷ []

abbrev anywhere : String → Bool
anywhere path = true

abbrev nowhere : String → Bool
nowhere path = false

unfoldable listed : List String → String → Bool
listed [] name = false
listed (first ∷ names) name = if first == name then true else listed names name

abbrev logs : LogLibrary
logs = record { writes = λ level line. true; throws = listed }

unknown_vendor : vendor_to_string "cyrix" ≡ (error ∷ [], "Unknown vendor")
unfolding vendor_to_string find?
unknown_vendor = refl

vendor_to_string-inj_test : ◌≡◌ {A = String} "amd" "amd"
unfolding vendor_to_string find?
vendor_to_string-inj_test = vendor_to_string-inj "amd" "amd" refl refl refl

uarch_to_string-inj_test : ◌≡◌ {A = String} "zen4" "zen4"
unfolding uarch_to_string find?
uarch_to_string-inj_test = uarch_to_string-inj "zen4" "zen4" refl refl refl

reader_lem_test : reader pops ≡ (3, 2)
reader_lem_test = reader_lem pops

select-IsValid_test : (pos 2048 ≡ pos 2048) × IsValid {A = ℕ} 2048 (MpscQueue.init 0)
unfolding select
select-IsValid_test = select-IsValid 0 (pos 2048) 2048 refl

save_twice_example :
    let save = save_benchmark_results trees anywhere blank "results.json" in
    let first = number_tree (pos 1) in
    let second = number_tree (pos 2) in
    (lines : List Level) × (middle after : Files) × (j : JsonTree) × (save first old
      ≡ some (lines, (true, middle)))
    × (save second middle ≡ some (lines, (true, after)))
    × (save second old ≡ some (lines, (true, after)))
    × (find? "results.json" after ≡ some (dump j))
    × (get j "benchmarkResults" ≡ some second)
    × (get j "cpuInfo" ≡ some ((to_json trees blank).1))
save_twice_example =
    save_twice trees anywhere laws blank "results.json" (number_tree (pos 1)) (number_tree (pos 2))
      old (λ t e. refl) refl

query_twice_test :
    (query_cpu_info machine (record blank { initialized = false })
      ≡ some ([], queried machine caches))
    × (query_cpu_info machine (queried machine caches) ≡ some (warn ∷ [], queried machine caches))
query_twice_test = query_twice machine machine blank caches

-- The file cannot be written: three errors are logged, and the files stay.
not_written :
    main trees nowhere 72 logs machine blank (some args) pops old
    ≡ some (info ∷ info ∷ error ∷ error ∷ error ∷ [], (1, old))
unfolding main find? listed
not_written = refl

benchmark_main_lem_example :
    (main trees anywhere 72 logs machine blank {A = ℕ} none pops old ≡ none)
    × ((lines : List Level) × (out : ℕ × Files) × (main trees anywhere 72 logs machine blank
            (some args)
            pops
            old
          ≡ some (written_lines logs (prints lines), out))
        × Ending trees anywhere 72 logs machine caches args 3 2 old lines out)
unfolding listed
benchmark_main_lem_example =
    benchmark_main_lem trees anywhere 72 logs machine caches laws blank args pops old refl
      (λ t e. refl)
