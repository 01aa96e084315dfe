-- ===== src/App/Tests.antt =====
-- The program run to its end: with a network on which all is well, on one where a handshake fails,
-- and with a name that is not resolved.
use Prim.Native.String.{String}
use text.Mathlib.Text.{◌==◌}
use sigmax.Base.{◌>>=◌, List, [], ◌∷◌, ◌≡◌, refl, Bool, true, false, some, if◌then◌else◌}
use sigmax.Base.Text.{codes}
use sigmax.Logger.{
  Level, debug, info, warn, error, initialize, print, at_start, started, LogLibrary, LoggerUse,
  log_all, log_all_lem, written_lines, expected_log,
}
use sigmax.BinanceApi.{Network, Step, tls_handshake, read}
use sigmax.BinanceApi.Connect.{calls, first_failure, until_failure}
use sigmax.App.{exited, main, main_lem, instruments, ending, visible}

-- A library that writes the lines of at least its logger's level.
unfoldable rank : Level → Level → Bool
rank info debug = false
rank warn debug = false
rank warn info = false
rank error error = true
rank error _ = false
rank _ _ = true

unfoldable listed : List String → String → Bool
listed [] name = false
listed (first ∷ names) name = if first == name then true else listed names name

abbrev logs_by_rank : LogLibrary
logs_by_rank = record { writes = rank; throws = listed }

never : Step → Bool
never _ = false

fails_handshake : Step → Bool
fails_handshake tls_handshake = true
fails_handshake _ = false

fails_read : Step → Bool
fails_read read = true
fails_read _ = false

abbrev good : Network
good = record {
  fails = never;
  endpoint_port = 9443;
  library_version = codes "Boost";
  frame = codes "{}";
}

abbrev no_tls : Network
no_tls = record good { fails = fails_handshake }

abbrev lost : Network
lost = record good { fails = fails_read }

abbrev uses : List LoggerUse
uses = initialize ∷ print debug ∷ print error ∷ initialize ∷ print info ∷ []

logs : log_all logs_by_rank at_start uses ≡ some (error ∷ info ∷ [], started)
unfolding log_all rank listed
logs = refl

-- A second logger of one name.
no_second : listed ("core" ∷ []) "core" ≡ true
unfolding listed
no_second = refl

main_lem_example :
    let cs = calls good instruments in
    let end = ending (first_failure good cs) (until_failure good cs) (good ∷ lost ∷ []) in
    main logs_by_rank good (good ∷ lost ∷ []) ≡ some (visible logs_by_rank end.0, end.1)
unfolding listed
main_lem_example = main_lem logs_by_rank good (good ∷ lost ∷ []) refl

log_all_lem_example : log_all logs_by_rank at_start uses ≡ some (error ∷ info ∷ [], started)
unfolding written_lines expected_log rank listed
log_all_lem_example = log_all_lem logs_by_rank refl uses

no_tls_exit : (main logs_by_rank no_tls (good ∷ []) >>= λ run. some (run.1)) ≡ some (exited 10)
unfolding main fails_handshake listed rank
no_tls_exit = refl
