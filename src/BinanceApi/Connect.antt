-- ===== src/BinanceApi/Connect.antt =====
-- What `BinanceApi::Connect` of src/sigmax/binance_api.cpp promises, as a table of its calls.
use sigmax.Base.{List, [], ◌∷◌, ◌++◌, ◌≡◌, refl, ap, true, Option, none, some, arith, if◌then◌else◌}
use sigmax.Base.Text.{Text, codes, to_string}
use sigmax.Logger.{info, error}
use sigmax.BinanceApi.{
  BinanceApi, Step, create_stream, set_verify_peer, resolve, connect_endpoint, set_sni_host,
  set_verify_callback, tls_handshake, set_user_agent, ws_handshake, write, read, log, Network,
  Traced, attempt, perform, connect_steps, connect, build_subscribe_message, binance_host,
  binance_port, ApiReturn, success, connection_error, subscription_error,
}

-- A call, and the answer if it fails; `none` for a call that reports no error.
abbrev pub Call : Type 0
Call = Step × Option ApiReturn

module _ (net : Network) where
  abbrev pub host_header : Text
  host_header = binance_host ++ (codes ":" ++ to_string net.endpoint_port)

  -- The calls of a connection, in their order.
  abbrev pub calls : List Text → List Call
  calls instruments =
      (create_stream, none)
      ∷ (set_verify_peer, some connection_error)
      ∷ (resolve binance_host (to_string binance_port), some connection_error)
      ∷ (connect_endpoint, some connection_error)
      ∷ (set_sni_host binance_host, some connection_error)
      ∷ (set_verify_callback binance_host, some connection_error)
      ∷ (tls_handshake, some connection_error)
      ∷ (set_user_agent (net.library_version ++ codes " sgmax-datafeed"), none)
      ∷ (ws_handshake host_header (codes "/ws"), some connection_error)
      ∷ (write (build_subscribe_message instruments), some subscription_error)
      ∷ (read, some subscription_error)
      ∷ []

  -- The answer to a call: that of its failure, if it fails.
  abbrev pub failure : Call → Option ApiReturn
  failure (c, none) = none
  failure (c, some answer) = if net.fails c then some answer else none

  -- The answer of the first call that fails.
  unfoldable pub first_failure : List Call → ApiReturn
  first_failure [] = success
  first_failure (c ∷ cs) = elim (failure c) [ none ↦ first_failure cs | some answer ↦ answer ]

  -- The calls up to the first that fails, and one line for the log at the end.
  unfoldable pub until_failure : List Call → List Step
  until_failure [] = log info ∷ []
  until_failure (c ∷ cs) =
      c.0 ∷ elim (failure c) [ none ↦ until_failure cs | some answer ↦ log error ∷ [] ]

  -- Both together.
  unfoldable pub spec : List Call → Traced
  unfolding until_failure first_failure
  spec cs = (until_failure cs, first_failure cs)

  spec-[] : (log info ∷ [], success) ≡ spec []
  unfolding until_failure first_failure spec
  spec-[] = refl

  attempt_lem :
      (c : Step) (answer : ApiReturn) (cs : List Call) (rest : Traced)
      → rest ≡ spec cs
      → attempt net c answer rest ≡ spec ((c, some answer) ∷ cs)
  unfolding attempt until_failure first_failure spec
  attempt_lem c answer cs rest e = rw (e) (ground arith)

  perform_lem :
      (c : Step) (cs : List Call) (rest : Traced)
      → rest ≡ spec cs
      → perform net c rest ≡ spec ((c, none) ∷ cs)
  unfolding perform until_failure first_failure spec
  perform_lem c cs rest e = rw (e) refl

  -- `Connect` gives `ws_` a stream whatever happens, makes the calls of the table up to the first
  -- that fails and no call after it, answers with that call's error, or with success if none fails,
  -- and ends with exactly one line for the log: an error's, or the one that tells of the success.
  pub connect_lem :
      (api : BinanceApi)
      → connect net api ≡ (
        record { instruments = api.instruments; has_stream = true },
        spec (calls api.instruments),
      )
  unfolding connect connect_steps
  connect_lem api =
      ap (λ (t : Traced). (record { instruments = api.instruments; has_stream = true }, t))
        (perform_lem _ _ _ (
          attempt_lem _ _ _ _ (
            attempt_lem _ _ _ _ (
              attempt_lem _ _ _ _ (
                attempt_lem _ _ _ _ (
                  attempt_lem _ _ _ _ (
                    attempt_lem _ _ _ _ (
                      perform_lem _ _ _ (
                        attempt_lem _ _ _ _ (
                          attempt_lem _ _ _ _
                            (attempt_lem _ _ [] (log info ∷ [], success) spec-[])))))))))))
