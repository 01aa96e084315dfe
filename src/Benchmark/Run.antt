-- ===== src/Benchmark/Run.antt =====
-- The program of benchmarks/mpsc_queue_benchmark.cpp. `none` stands for what ends it otherwise than
-- by a return of `main`: a null pointer that is dereferenced, or an exception that nothing catches.
-- The functions answer together with the levels of the lines that they log, in their order.
use Prim.Native.String.{String}
use sigmax.Base.{
  ℕ, ◌+◌, ◌*◌, List, [], ◌∷◌, ◌++◌, Option, none, some, ◌>>=◌, Bool, true, false, Expected, value,
  unexpected, ◌==◌, if◌then◌else◌,
}
use sigmax.Base.Int.{ℤ, pos, negsuc}
use sigmax.Base.Text.{Text}
use sigmax.QueueState.{QueueState}
use sigmax.Std.Map.{find?, assign}
use sigmax.Logger.{Level, LogLibrary, info, error, init, at_start, log_line, log_all, prints}
use sigmax.Benchmark.CpuInfo.{JsonLibrary, Machine, CpuInfo, query_cpu_info, to_json}

-- The loop of `reader` over the answers of `Pop` until it is told to stop: all of them, and those
-- that are elements.
unfoldable pub reader_loop {ℓ} : {A : Type ℓ} → List (Expected A QueueState) → ℕ × ℕ → ℕ × ℕ
reader_loop [] (counter, successful_pops) = (counter, successful_pops)
reader_loop (value a ∷ rets) (counter, successful_pops) =
    reader_loop rets (counter + 1, successful_pops + 1)
reader_loop (unexpected e ∷ rets) (counter, successful_pops) =
    reader_loop rets (counter + 1, successful_pops)

unfoldable pub reader {ℓ} : {A : Type ℓ} → List (Expected A QueueState) → ℕ × ℕ
unfolding reader_loop
reader rets = reader_loop rets (0, 0)

-- The template argument that the switch of `main` chooses.
abbrev pub queue_sizes : List ℕ
queue_sizes = 32 ∷ 64 ∷ 128 ∷ 256 ∷ 512 ∷ 1024 ∷ 1024 * 2 ∷ 1024 * 4 ∷ 1024 * 8 ∷ 1024 * 10 ∷ []

unfoldable pub select : ℤ → List ℕ → Option ℕ
select q [] = none
select (pos n) (size ∷ sizes) = if n == size then some size else select (pos n) sizes
select (negsuc n) (size ∷ sizes) = none

-- The command line, once it is parsed.
pub record Arguments : Type 0 where
  pub queue_size : ℤ
  pub producer_count : ℤ
  pub results_path : String

-- The files that exist, with their contents.
abbrev pub Files : Type 0
Files = List (String × Text)

module _ (lib : JsonLibrary) (can_write : String → Bool) where
  -- What is written: the results, and the processor.
  unfoldable pub report : CpuInfo → lib.Json → List Level × lib.Json
  unfolding to_json
  report cpu result =
      let (lines, description) = to_json lib cpu in
      (lines, lib.set (lib.set lib.null "benchmarkResults" result) "cpuInfo" description)

  -- `SaveBenchmarkResults` from the opening of the output file.
  unfoldable pub write_results : String → lib.Json → Files → List Level × (Bool × Files)
  write_results path results files =
      if can_write path
      then (info ∷ [], (true, assign path (lib.dump results) files))
      else (error ∷ [], (false, files))

  -- `SaveBenchmarkResults`: the file that exists is read, and what was read is not used.
  unfoldable pub save_benchmark_results :
      CpuInfo → String → lib.Json → Files → Option (List Level × (Bool × Files))
  unfolding report write_results
  save_benchmark_results cpu path result files =
      let (lines, results) = report cpu result in
      let (more, written) = write_results path results files in
      elim (find? path files) [
        | none ↦ some (lines ++ more, written)
        | some existing ↦ if lib.parses existing then some (lines ++ more, written) else none
      ]

  module _ (order_size : ℕ) where
    -- The result of `RunBenchmark` for what the reader has counted.
    unfoldable pub single_result : ℤ → ℕ → ℕ × ℕ → lib.Json
    single_result producer_count queue_size (total, successful) =
        lib.set
          (lib.set
            (lib.set (lib.set lib.null "producerCount" (lib.number producer_count)) "queueSize"
              (lib.number (pos (queue_size * order_size))))
            "totalPops" (lib.number (pos total)))
          "successfulPops" (lib.number (pos successful))

    -- `RunBenchmark`, where `pops` are the answers that the reader gets from the queue.
    unfoldable pub run_benchmark {ℓ} :
        {A : Type ℓ}
        → CpuInfo
        → String
        → ℕ
        → ℤ
        → List (Expected A QueueState)
        → Files
        → Option (List Level × (Bool × Files))
    unfolding save_benchmark_results single_result reader
    run_benchmark cpu path queue_size producer_count pops files = do
      saved ←
          save_benchmark_results cpu path (single_result producer_count queue_size (reader pops))
            files
      some (info ∷ info ∷ (saved.0 ++ (if saved.1.0 then [] else error ∷ [])), saved.1)

    -- `main` after the switch.
    unfoldable pub finish {ℓ} :
        {A : Type ℓ}
        → CpuInfo
        → Arguments
        → Option ℕ
        → List (Expected A QueueState)
        → Files
        → Option (List Level × (ℕ × Files))
    unfolding run_benchmark
    finish cpu args none pops files = some (error ∷ [], (1, files))
    finish cpu args (some size) pops files = do
      run ← run_benchmark cpu args.results_path size args.producer_count pops files
      let (lines, (result, after)) = run
      some (if result then (lines, (0, after)) else (lines ++ error ∷ [], (1, after)))

    module _ (logs : LogLibrary) (machine : Machine) (blank : CpuInfo) where
      -- `main`, from the outcome of the parsing, which is `none` if it throws: the lines that the
      -- logger writes, the exit code and the files. An error of the parsing is logged before the
      -- constructor of the benchmark starts the logger.
      unfoldable pub main {ℓ} :
          {A : Type ℓ}
          → Option Arguments
          → List (Expected A QueueState)
          → Files
          → Option (List Level × (ℕ × Files))
      unfolding finish select log_line log_all init query_cpu_info
      main none pops files = do
        written ← log_line logs at_start error
        some (if written then error ∷ [] else [], (1, files))
      main (some args) pops files = do
        logger ← init logs at_start
        queried ← query_cpu_info machine (record blank { initialized = false })
        run ← finish (queried.1) args (select args.queue_size queue_sizes) pops files
        written ← log_all logs logger (prints (queried.0 ++ run.0))
        some (written.0, run.1)
