-- ===== src/App.antt =====
-- The program of src/sigmax/sigmax_app.cpp with its exit codes: it starts the logger, connects to
-- the exchange and starts a thread that reads for ever.
mod Tests
use sigmax.Base.{
  ◌>>=◌, ℕ, List, [], ◌∷◌, ◌++◌, ◌≡◌, refl, arith, Bool, true, false, Option, some, if◌then◌else◌,
}
use sigmax.Base.Text.{Text, codes}
use sigmax.Logger.{Logger, LogLibrary, info, error, init, at_start, started, log_line}
use sigmax.BinanceApi.{
  BinanceApi, Network, Step, log, create_stream, set_verify_peer, resolve, connect_endpoint,
  set_sni_host, set_verify_callback, tls_handshake, set_user_agent, ws_handshake, write, read,
  close, create, connect, read_frame, ApiReturn, success, connection_error, subscription_error,
}
use sigmax.BinanceApi.Connect.{calls, first_failure, until_failure, connect_lem, spec}

-- `enum class SigmaxExitCodes`; `normal_exit` is its `SUCCESS`.
pub data SigmaxExitCodes : Type 0 where
  normal_exit binance_api_error : SigmaxExitCodes

abbrev pub to_int : SigmaxExitCodes → ℕ
to_int normal_exit = 0
to_int binance_api_error = 10

-- The end of the process: an exit code, or `std::terminate`.
pub data Outcome : Type 0 where
  exited : ℕ → Outcome
  terminated : Outcome

-- The return from `main`, which first destroys its local thread: the destructor of a thread that has
-- been neither joined nor detached calls `std::terminate`.
unfoldable pub return_from_main : (joinable : Bool) → (code : ℕ) → Outcome
return_from_main joinable code = if joinable then terminated else exited code

abbrev pub instruments : List Text
instruments = codes "bnbusdc" ∷ codes "tlmusdc" ∷ codes "ethusdc" ∷ []

-- The rounds of the reading thread's loop that are over before the process ends, with what the
-- network answers in each; `none` where one dereferences a null pointer.
unfoldable pub read_loop : BinanceApi → List Network → Option (List Step)
read_loop api [] = some []
read_loop api (net ∷ rounds) = do
  frame ← read_frame net api
  steps ← read_loop api rounds
  some (frame.0 ++ steps)

module _ (lib : LogLibrary) where
  -- What is seen of some steps: the calls of the network library, and the lines that the logger
  -- writes; `none` where a line is logged through the null logger.
  unfoldable pub seen : Logger → List Step → Option (List Step)
  unfolding log_line
  seen s [] = some []
  seen s (log l ∷ steps) = do
    written ← log_line lib s l
    rest ← seen s steps
    some (if written then log l ∷ rest else rest)
  seen s (step ∷ steps) = do rest ← seen s steps; some (step ∷ rest)

  -- `main` after the call of `Connect`.
  unfoldable pub after_connect :
      Logger → BinanceApi × (List Step × ApiReturn) → List Network → Option (List Step × Outcome)
  unfolding seen read_loop return_from_main
  after_connect s (api, (before, success)) rounds = do
    steps ← read_loop api rounds
    shown ← seen s (before ++ steps)
    some (shown, return_from_main true 0)
  after_connect s (api, (before, _)) rounds = do
    shown ← seen s before
    some (shown, exited (to_int binance_api_error))

  -- `main`: what is seen of it, and how it ends; `none` where it dereferences a null pointer or where
  -- the creation of the logger throws.
  unfoldable pub main : Network → List Network → Option (List Step × Outcome)
  unfolding after_connect connect init
  main net rounds = do
    s ← init lib at_start
    after_connect s (connect net (create instruments)) rounds

  -- The steps without the log lines that the level `info` holds back.
  unfoldable pub visible : List Step → List Step
  visible [] = []
  visible (log l ∷ steps) = if lib.writes info l then log l ∷ visible steps else visible steps
  visible (step ∷ steps) = step ∷ visible steps

  seen-started : (steps : List Step) → seen started steps ≡ some (visible steps)
  unfolding seen visible log_line
  seen-started [] = refl
  seen-started (log l ∷ steps) = rw (seen-started steps) (ground arith)
  seen-started (create_stream ∷ steps) = rw (seen-started steps) refl
  seen-started (set_verify_peer ∷ steps) = rw (seen-started steps) refl
  seen-started (resolve host port ∷ steps) = rw (seen-started steps) refl
  seen-started (connect_endpoint ∷ steps) = rw (seen-started steps) refl
  seen-started (set_sni_host host ∷ steps) = rw (seen-started steps) refl
  seen-started (set_verify_callback host ∷ steps) = rw (seen-started steps) refl
  seen-started (tls_handshake ∷ steps) = rw (seen-started steps) refl
  seen-started (set_user_agent agent ∷ steps) = rw (seen-started steps) refl
  seen-started (ws_handshake host target ∷ steps) = rw (seen-started steps) refl
  seen-started (write message ∷ steps) = rw (seen-started steps) refl
  seen-started (read ∷ steps) = rw (seen-started steps) refl
  seen-started (close ∷ steps) = rw (seen-started steps) refl

-- The reads of the reading thread: one for each round, with an error's line if it fails.
unfoldable pub reads : List Network → List Step
reads [] = []
reads (net ∷ rounds) = read ∷ (if net.fails read then log error ∷ reads rounds else reads rounds)

-- What `main` does after the logger is there, and how it ends, by the answer of the connection: only
-- a connection that succeeds is read from.
unfoldable pub ending : ApiReturn → List Step → List Network → List Step × Outcome
unfolding reads
ending success before rounds = (before ++ reads rounds, terminated)
ending connection_error before rounds = (before, exited 10)
ending subscription_error before rounds = (before, exited 10)

read_loop_lem :
    (api : BinanceApi) (rounds : List Network)
    → api.has_stream ≡ true
    → read_loop api rounds ≡ some (reads rounds)
unfolding read_loop read_frame reads
read_loop_lem api [] h = refl
read_loop_lem api (net ∷ rounds) h = rw (h, read_loop_lem api rounds h) (ground arith)

after_connect_lem :
    (lib : LogLibrary) (api : BinanceApi) (before : List Step) (answer : ApiReturn)
    (rounds : List Network)
    → api.has_stream ≡ true
    → let end = ending answer before rounds in
      after_connect lib started (api, (before, answer)) rounds ≡ some (visible lib end.0, end.1)
unfolding after_connect ending return_from_main
after_connect_lem lib api before success rounds h =
    rw (read_loop_lem api rounds h, seen-started lib (before ++ reads rounds)) refl
after_connect_lem lib api before connection_error rounds h = rw (seen-started lib before) refl
after_connect_lem lib api before subscription_error rounds h = rw (seen-started lib before) refl

-- If the log library creates its first logger without an exception: `main` dereferences no null
-- pointer, neither the logger's nor the stream's, however many rounds the reading thread gets done.
-- It makes the calls of the connection up to the first that fails. If one fails, it logs an error,
-- reads nothing more and exits with 10. Else every round reads once and logs an error if the read
-- fails, and the process ends in `std::terminate`, since the thread is never joined. Of the log lines
-- those are written that the level `info` lets through.
pub main_lem :
    (lib : LogLibrary) (net : Network) (rounds : List Network)
    → lib.throws [] "core" ≡ false
    → let cs = calls net instruments in
      let end = ending (first_failure net cs) (until_failure net cs) rounds in
      main lib net rounds ≡ some (visible lib end.0, end.1)
unfolding main init spec
main_lem lib net rounds new =
    rw (new, connect_lem net (create instruments))
      (after_connect_lem lib (record { instruments = instruments; has_stream = true })
        (until_failure net (calls net instruments)) (first_failure net (calls net instruments))
        rounds refl)
