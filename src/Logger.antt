-- ===== src/Logger.antt =====
-- The logger of src/sigmax/log.hpp and src/sigmax/log.cpp. What the log library does is a parameter.
use Prim.Native.String.{String}
use sigmax.Base.{
  arith, ◌>>=◌, List, [], ◌∷◌, Option, none, some, Bool, true, false, ◌≡◌, refl, if◌then◌else◌,
}

-- The library's levels that the macros use.
pub data Level : Type 0 where
  debug info warn error : Level

-- The log library: whether a logger writes a line, by its level and the line's, and whether the
-- creation of a logger throws, by the names that it has registered, the last one first, and the new
-- one. It throws at a name that is registered already.
pub record LogLibrary : Type 0 where
  pub writes : (level line : Level) → Bool
  pub throws : (registered : List String) → (name : String) → Bool

-- The static members of `Logger`, `s_initialized` and `s_logger`, which is null or has a level, and
-- the names that the log library has registered.
pub record Logger : Type 0 where
  pub initialized : Bool
  pub logger : Option Level
  pub registered : List String

-- Their initial values.
abbrev pub at_start : Logger
at_start = record { initialized = false; logger = none; registered = [] }

-- The state behind the first `Init`.
abbrev pub started : Logger
started = record { initialized = true; logger = some info; registered = "core" ∷ [] }

-- What a program does with the logger.
pub data LoggerUse : Type 0 where
  initialize : LoggerUse
  print : Level → LoggerUse

-- Log lines of these levels.
abbrev pub prints : List Level → List LoggerUse
prints [] = []
prints (l ∷ ls) = print l ∷ prints ls

module _ (lib : LogLibrary) where
  -- `Logger::Init`, or `none` where `stdout_color_mt` throws.
  unfoldable pub init : Logger → Option Logger
  init s =
      if s.initialized
      then some s
      else (if lib.throws s.registered "core"
          then none
          else some (record {
            initialized = true;
            logger = some info;
            registered = "core" ∷ s.registered;
          }))

  -- `LOG_DEBUG`, `LOG_INFO`, `LOG_WARN`, `LOG_ERROR`: whether a line of that level is written, or
  -- `none` where the macro dereferences a null pointer.
  unfoldable pub log_line : Logger → Level → Option Bool
  log_line s line = elim s.logger [ none ↦ none | some level ↦ some (lib.writes level line) ]

  -- A run of a program: the levels of the lines that were written and the state behind it, or `none`
  -- where it throws or is undefined.
  unfoldable pub log_all : Logger → List LoggerUse → Option (List Level × Logger)
  unfolding init log_line
  log_all s [] = some ([], s)
  log_all s (initialize ∷ us) = do s' ← init s; log_all s' us
  log_all s (print l ∷ us) = do
    written ← log_line s l
    run ← log_all s us
    some (if written then l ∷ run.0 else run.0, run.1)

  -- The lines of a program's logging, and those that a logger of level `info` writes.
  unfoldable pub written_lines : List LoggerUse → List Level
  written_lines [] = []
  written_lines (initialize ∷ us) = written_lines us
  written_lines (print l ∷ us) =
      if lib.writes info l then l ∷ written_lines us else written_lines us

  -- What logging promises: it is undefined exactly if a line comes before the first `Init`; else the
  -- lines are written that the level `info` lets through, and one logger is registered.
  unfoldable pub expected_log : List LoggerUse → Option (List Level × Logger)
  unfolding written_lines
  expected_log [] = some ([], at_start)
  expected_log (initialize ∷ us) = some (written_lines us, started)
  expected_log (print l ∷ us) = none

  pub log_all-started :
      (us : List LoggerUse) → log_all started us ≡ some (written_lines us, started)
  unfolding log_all init log_line written_lines
  log_all-started [] = refl
  log_all-started (initialize ∷ us) = log_all-started us
  log_all-started (print l ∷ us) = rw (log_all-started us) (ground arith)

  -- If the log library creates its first logger without an exception: from the program's start, a
  -- sequence of `Init`s and log lines throws nothing, is undefined exactly if a line comes first, and
  -- otherwise writes, in their order, the lines that a logger of level `info` lets through, and
  -- leaves one registered logger, however often `Init` is called.
  pub log_all_lem :
      lib.throws [] "core" ≡ false → (us : List LoggerUse) → log_all at_start us ≡ expected_log us
  unfolding log_all init log_line expected_log
  log_all_lem new [] = refl
  log_all_lem new (initialize ∷ us) = rw new (log_all-started us)
  log_all_lem new (print l ∷ us) = refl
