-- ===== src/Benchmark/Main.antt =====
-- The `main` of benchmarks/mpsc_queue_benchmark.cpp on every outcome of the parsing.
use Prim.Native.String.{String}
use sigmax.Base.{
  ℕ, ◌*◌, List, length, none, some, Option-cases, Bool, Bool-cases, true, false, Expected, ◌≡◌,
  refl, ◌∙◌, inl, inr, [], ◌∷◌, ◌++◌,
}
use sigmax.Base.Int.{pos}
use sigmax.QueueState.{QueueState}
use sigmax.Std.Map.{assign}
use sigmax.Logger.{
  Level, LogLibrary, info, error, init, prints, written_lines, log_line, log_all-started,
}
use sigmax.Benchmark.CpuInfo.{JsonLibrary, Machine, CpuInfo}
use sigmax.Benchmark.Names.{vendor_to_string, uarch_to_string}
use sigmax.Benchmark.Json.{IsJsonLibrary}
use sigmax.Benchmark.Run.{
  Arguments, Files, queue_sizes, select, single_result, report, finish, main,
}
use sigmax.Benchmark.Sizes.{IsQueueSize, select_listed, select-IsQueueSize}
use sigmax.Benchmark.Report.{elements, finish_lem, IsReadable}
use sigmax.Benchmark.Results.{HasCaches, queried, query_twice, IsResult, report-IsResult}

-- The error lines about names of the processor that the switches do not know.
abbrev pub name_lines : Machine → List Level
name_lines machine = (vendor_to_string machine.vendor).0 ++ (uarch_to_string machine.uarch).0

module _ (lib : JsonLibrary) (can_write : String → Bool) (order_size : ℕ) (logs : LogLibrary)
    (machine : Machine) (h : HasCaches machine) where
  module _ (args : Arguments) (total successful : ℕ) (files : Files) where
    -- How `main` ends once the command line is parsed: the lines that are logged, the exit code and
    -- the files. Either the queue size is listed and the file can be written, or the size is listed
    -- and the file cannot be written, or the size is not listed.
    pub data Ending : List Level → ℕ × Files → Type 0 where
      saved :
          (size : ℕ) (j : lib.Json)
          → args.queue_size ≡ pos size
          → IsQueueSize size
          → can_write args.results_path ≡ true
          → IsResult lib machine h args.producer_count (size * order_size) total successful j
          → Ending
              (info ∷ info ∷ (name_lines machine ++ info ∷ []))
              (0, assign args.results_path (lib.dump j) files)
      not_saved :
          (size : ℕ)
          → args.queue_size ≡ pos size
          → IsQueueSize size
          → can_write args.results_path ≡ false
          → Ending (info ∷ info ∷ (name_lines machine ++ error ∷ error ∷ error ∷ [])) (1, files)
      refused :
          ((size : ℕ) → args.queue_size ≡ pos size → ¬ IsQueueSize size)
          → Ending (error ∷ []) (1, files)

  module _ (laws : IsJsonLibrary lib) where
    finish-Ending :
        {A : Type 0} (args : Arguments) (pops : List (Expected A QueueState)) (files : Files)
        → IsReadable lib can_write args.results_path files
        → (lines : List Level) × (out : ℕ × Files) × (finish lib can_write order_size
              (queried machine h)
              args
              (select args.queue_size queue_sizes)
              pops
              files
            ≡ some (lines, out))
          × Ending args (length pops) (length (elements pops)) files lines out
    unfolding finish
    finish-Ending args pops files readable =
        elim (Option-cases (select args.queue_size queue_sizes)) [
          | inl e ↦ (
            error ∷ [],
            (1, files),
            rw e refl,
            refused (λ size same listed.
                let chosen : select args.queue_size queue_sizes ≡ some size =
                  rw same (select_listed size listed) in
                cc),
          )
          | inr (size, e) ↦
              let (same, listed) = select-IsQueueSize args.queue_size size e in
              let result =
                single_result lib can_write order_size args.producer_count size
                  (length pops, length (elements pops)) in
              let j = (report lib can_write (queried machine h) result).1 in
              let end =
                finish_lem lib can_write order_size (queried machine h) args size pops files
                  readable in
              elim (Bool-cases (can_write args.results_path)) [
                | inl t ↦ (
                  info ∷ info ∷ (name_lines machine ++ info ∷ []),
                  (0, assign args.results_path (lib.dump j) files),
                  rw e (end ∙ rw t refl),
                  saved size j same listed t (
                      report-IsResult lib laws can_write machine h order_size args.producer_count
                        size (length pops) (length (elements pops))),
                )
                | inr f ↦ (
                  info ∷ info ∷ (name_lines machine ++ error ∷ error ∷ error ∷ []),
                  (1, files),
                  rw e (end ∙ rw f refl),
                  not_saved size same listed f,
                )
              ]
        ]

    -- On a machine that has the caches, where the log library creates its first logger and the JSON
    -- library reads what stands at the results path: a command line that is not parsed ends in the
    -- dereference of the null logger. Else `main` ends in one of three ways. If the queue size is one
    -- of those that the help text lists, the powers of two from 32 to 8192 and 10240, and the file
    -- can be written, it returns 0 and the file holds the number of producers, the bytes of the
    -- queue, the number of the answers and of the elements that the reader got, and the processor
    -- with its caches. If the size is listed and the file cannot be written, or if the size is not
    -- listed, it returns 1 with the files as they were. Of the lines that it logs in each case, those
    -- are written that the level `info` lets through.
    pub benchmark_main_lem :
        {A : Type 0} (blank : CpuInfo) (args : Arguments) (pops : List (Expected A QueueState))
        (files : Files)
        → logs.throws [] "core" ≡ false
        → IsReadable lib can_write args.results_path files
        → (main lib can_write order_size logs machine blank {A = A} none pops files ≡ none)
          × ((lines : List Level) × (out : ℕ × Files) × (main lib can_write order_size logs machine
                  blank
                  (some args)
                  pops
                  files
                ≡ some (written_lines logs (prints lines), out))
              × Ending args (length pops) (length (elements pops)) files lines out)
    unfolding main log_line init
    benchmark_main_lem blank args pops files new readable =
        let (lines, out, end, how) = finish-Ending args pops files readable in
        let (query, _) = query_twice machine machine blank h in
        (refl, (lines, out, rw (new, query, end, log_all-started logs (prints lines)) refl, how))
