-- ===== src/Benchmark/Report.antt =====
-- How the program of benchmarks/mpsc_queue_benchmark.cpp ends, and what it leaves in its file.
use Prim.Native.String.{String}
use mathlib.Core.Option.{some-injective}
use mathlib.Core.List.{append_assoc, append-nil}
use sigmax.Base.{
  ℕ, ◌+◌, List, [], ◌∷◌, ◌++◌, length, some, Bool, true, false, Bool-cases, Option-cases, subst,
  Expected, value, unexpected, ◌≡◌, refl, ap₂, sym, ◌∙◌, inl, inr, if◌then◌else◌, arith,
}
use sigmax.Base.Text.{Text}
use sigmax.QueueState.{QueueState}
use sigmax.Std.Map.{find?, assign, assign-assign, find?-assign_self}
use sigmax.Logger.{Level, info, error}
use sigmax.Benchmark.CpuInfo.{JsonLibrary, CpuInfo, to_json}
use sigmax.Benchmark.Json.{IsJsonLibrary, build, get-build}
use sigmax.Benchmark.Run.{
  reader_loop, reader, Arguments, Files, report, write_results, save_benchmark_results,
  single_result, run_benchmark, finish,
}

-- The elements among the answers.
abbrev pub elements {ℓ} : {A : Type ℓ} → List (Expected A QueueState) → List A
elements [] = []
elements (value a ∷ rets) = a ∷ elements rets
elements (unexpected e ∷ rets) = elements rets

reader_loop_lem {ℓ} :
    {A : Type ℓ} (rets : List (Expected A QueueState)) (m n : ℕ)
    → reader_loop rets (m, n) ≡ (m + length rets, n + length (elements rets))
unfolding reader_loop
reader_loop_lem [] m n = ap₂ (λ (a b : ℕ). (a, b)) (omega arith) (omega arith)
reader_loop_lem (value a ∷ rets) m n =
    reader_loop_lem rets (m + 1) (n + 1) ∙ ap₂ (λ (a b : ℕ). (a, b)) (omega arith) (omega arith)
reader_loop_lem (unexpected e ∷ rets) m n =
    reader_loop_lem rets (m + 1) n ∙ ap₂ (λ (a b : ℕ). (a, b)) (omega arith) refl

-- The reader counts the answers of `Pop`, and those that are elements.
pub reader_lem {ℓ} :
    {A : Type ℓ} (rets : List (Expected A QueueState))
    → reader rets ≡ (length rets, length (elements rets))
unfolding reader
reader_lem rets = reader_loop_lem rets 0 0 ∙ ap₂ (λ (a b : ℕ). (a, b)) (omega arith) (omega arith)

module _ (lib : JsonLibrary) (can_write : String → Bool) where
  -- Nothing stands at the path, or what stands there is read without an exception.
  abbrev pub IsReadable : String → Files → Type 0
  IsReadable path files =
      (existing : Text) → find? path files ≡ some existing → lib.parses existing ≡ true

  -- The lines that are logged while the results are written.
  abbrev pub outcome_line : String → Level
  outcome_line path = if can_write path then info else error

  save_lem :
      (cpu : CpuInfo) (path : String) (result : lib.Json) (files : Files)
      → IsReadable path files
      → let (lines, results) = report lib can_write cpu result in
        save_benchmark_results lib can_write cpu path result files
        ≡ some (
          lines ++ outcome_line path ∷ [],
          if can_write path then (true, assign path (lib.dump results) files) else (false, files),
        )
  unfolding save_benchmark_results write_results
  save_lem cpu path result files readable = elim (Option-cases (find? path files)) [
    | inl e ↦ elim (Bool-cases (can_write path)) [
      | inl t ↦ rw (save_benchmark_results, write_results, e, t) refl
      | inr f ↦ rw (save_benchmark_results, write_results, e, f) refl
    ]
    | inr (existing, e) ↦ elim (Bool-cases (can_write path)) [
      | inl t ↦ rw (save_benchmark_results, write_results, e, t, readable existing e) refl
      | inr f ↦ rw (save_benchmark_results, write_results, e, f, readable existing e) refl
    ]
  ]

  assign-IsReadable :
      (path : String) (written : Text) (files : Files)
      → lib.parses written ≡ true
      → IsReadable path (assign path written files)
  assign-IsReadable path written files h existing e =
      let same : written ≡ existing =
        some-injective _ _ (sym (find?-assign_self path written files) ∙ e) in
      subst (λ t. lib.parses t ≡ true) same h

  module _ (laws : IsJsonLibrary lib) where
    -- The report holds the result and the description of the processor under their keys.
    pub report_lem :
        (cpu : CpuInfo) (result : lib.Json)
        → let j = (report lib can_write cpu result).1 in
          (lib.get j "benchmarkResults" ≡ some result)
          × (lib.get j "cpuInfo" ≡ some ((to_json lib cpu).1))
    unfolding report build find?
    report_lem cpu result =
        let fields : List (String × lib.Json) =
          ("cpuInfo", (to_json lib cpu).1) ∷ ("benchmarkResults", result) ∷ [] in
        (get-build lib laws fields "benchmarkResults", get-build lib laws fields "cpuInfo")

    -- Of two results that are saved to one path that can be written, the second alone is left: the
    -- files are those that saving it alone leaves, and the path holds the text of a value with the
    -- second result under "benchmarkResults" and the processor under "cpuInfo".
    pub save_twice :
        (cpu : CpuInfo) (path : String) (first second : lib.Json) (files : Files)
        → IsReadable path files
        → can_write path ≡ true
        → (lines : List Level) × (middle after : Files) × (j : lib.Json) × (save_benchmark_results
              lib can_write cpu path first files
            ≡ some (lines, (true, middle)))
          × (save_benchmark_results lib can_write cpu path second middle
              ≡ some (lines, (true, after)))
          × (save_benchmark_results lib can_write cpu path second files
              ≡ some (lines, (true, after)))
          × (find? path after ≡ some (lib.dump j))
          × (lib.get j "benchmarkResults" ≡ some second)
          × (lib.get j "cpuInfo" ≡ some ((to_json lib cpu).1))
    unfolding report
    save_twice cpu path first second files readable permitted =
        let written : lib.Json → Text = λ result. lib.dump ((report lib can_write cpu result).1) in
        let middle = assign path (written first) files in
        let after = assign path (written second) files in
        let again = assign-IsReadable path (written first) files (laws.reread _) in
        let twice = assign-assign path (written first) (written second) files in
        let (held, described) = report_lem cpu second in
        (
          (to_json lib cpu).0 ++ info ∷ [],
          middle,
          after,
          (report lib can_write cpu second).1,
          save_lem cpu path first files readable ∙ rw permitted refl,
          save_lem cpu path second middle again ∙ rw (permitted, twice) refl,
          save_lem cpu path second files readable ∙ rw permitted refl,
          find?-assign_self path (written second) files,
          held,
          described,
        )

  module _ (order_size : ℕ) where
    -- What `main` does after the switch, for an accepted size.
    pub finish_lem :
        {A : Type 0} (cpu : CpuInfo) (args : Arguments) (size : ℕ)
        (pops : List (Expected A QueueState)) (files : Files)
        → IsReadable args.results_path files
        → let result =
            single_result lib can_write order_size args.producer_count size
              (length pops, length (elements pops)) in
          let (lines, results) = report lib can_write cpu result in
          finish lib can_write order_size cpu args (some size) pops files
          ≡ some (
              if can_write args.results_path
              then (
                info ∷ info ∷ (lines ++ info ∷ []),
                (0, assign args.results_path (lib.dump results) files),
              )
              else (info ∷ info ∷ (lines ++ error ∷ error ∷ error ∷ []), (1, files)))
    unfolding finish run_benchmark
    finish_lem cpu args size pops files readable =
        let result =
          single_result lib can_write order_size args.producer_count size
            (length pops, length (elements pops)) in
        let (lines, results) = report lib can_write cpu result in
        rw (reader_lem pops, save_lem cpu args.results_path result files readable)
          (elim (Bool-cases (can_write args.results_path)) [
            | inl t ↦ simp (t, append_assoc, append-nil) refl
            | inr f ↦ simp (f, append_assoc) refl
          ])
