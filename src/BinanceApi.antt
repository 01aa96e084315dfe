-- ===== src/BinanceApi.antt =====
-- The exchange client of src/sigmax/binance_api.cpp. What the network library does is a parameter:
-- which of its calls fail, the port of the endpoint that it connects to, what a read yields. It is
-- given anew for every call of the client. An operation answers together with the steps that it
-- takes, in their order: calls of the library and lines for the log.
pub mod Message
pub mod Symbols
pub mod Connect
mod Tests
use sigmax.Base.{
  ℕ, List, [], ◌∷◌, ◌++◌, Option, none, some, Bool, true, false, Expected, value, unexpected,
  if◌then◌else◌,
}
use sigmax.Logger.{Level, info, error}
use sigmax.Base.Text.{Text, codes, to_string}

-- `enum class ApiReturn`
pub data ApiReturn : Type 0 where
  success connection_error subscription_error : ApiReturn

-- `kBinanceHost` and `kBinancePort`
abbrev pub binance_host : Text
binance_host = codes "stream.binance.com"

abbrev pub binance_port : ℕ
binance_port = 9443

-- The loop of `BuildSubscribeMessage` over the instruments that are left.
unfoldable pub add_instruments : Text → List Text → Text
add_instruments base_message [] = base_message
add_instruments base_message (instrument ∷ instruments) =
    add_instruments (base_message ++ (codes "\"" ++ (instrument ++ codes "@bookTicker\",")))
      instruments

-- The two raw string literals.
abbrev pub message_head : Text
message_head = codes "{\n        \"method\": \"SUBSCRIBE\",\n        \"params\": [\n        "

abbrev pub message_tail : Text
message_tail = codes "{\n        ],\n        \"id\": 1\n    }"

-- `BuildSubscribeMessage`
unfoldable pub build_subscribe_message : List Text → Text
build_subscribe_message instruments = add_instruments message_head instruments ++ message_tail

-- What the client does outside its own state: calls of the network library, and log lines.
pub data Step : Type 0 where
  create_stream : Step
  set_verify_peer : Step
  resolve : (host port : Text) → Step
  connect_endpoint : Step
  set_sni_host : Text → Step
  set_verify_callback : (host : Text) → Step
  tls_handshake : Step
  set_user_agent : Text → Step
  ws_handshake : (host target : Text) → Step
  write : Text → Step
  read : Step
  close : Step
  log : Level → Step

-- `fails c` says that the call reports an error; `create_stream` and `set_user_agent` report none.
pub record Network : Type 0 where
  pub fails : Step → Bool
  pub endpoint_port : ℕ
  pub library_version : Text
  pub frame : Text

-- `class BinanceApi`: the instruments, and whether `ws_` holds a stream.
pub record BinanceApi : Type 0 where
  pub instruments : List Text
  pub has_stream : Bool

-- The constructor, which leaves `ws_` null.
abbrev pub create : List Text → BinanceApi
create instruments = record { instruments = instruments; has_stream = false }

-- The steps taken, and the answer.
abbrev pub Traced : Type 0
Traced = List Step × ApiReturn

module _ (net : Network) where
  -- A call whose error is logged and ends the function, and the steps after it.
  unfoldable pub attempt : Step → ApiReturn → Traced → Traced
  attempt call answer rest =
      if net.fails call then (call ∷ log error ∷ [], answer) else (call ∷ rest.0, rest.1)

  -- A call that reports no error.
  unfoldable pub perform : Step → Traced → Traced
  perform call rest = (call ∷ rest.0, rest.1)

  -- The body of `Connect`.
  unfoldable pub connect_steps : List Text → Traced
  unfolding attempt perform
  connect_steps instruments = perform create_stream (
      attempt set_verify_peer connection_error (
        attempt (resolve binance_host (to_string binance_port)) connection_error (
          attempt connect_endpoint connection_error (
            attempt (set_sni_host binance_host) connection_error (
              attempt (set_verify_callback binance_host) connection_error (
                let host = binance_host ++ (codes ":" ++ to_string net.endpoint_port) in
                attempt tls_handshake connection_error (
                  perform (set_user_agent (net.library_version ++ codes " sgmax-datafeed")) (
                    attempt (ws_handshake host (codes "/ws")) connection_error (
                      let subscribe_msg = build_subscribe_message instruments in
                      attempt (write subscribe_msg) subscription_error
                        (attempt read subscription_error (log info ∷ [], success)))))))))))

  -- `Connect`, which gives `ws_` a stream before anything can fail.
  unfoldable pub connect : BinanceApi → BinanceApi × Traced
  unfolding connect_steps
  connect api = (record api { has_stream = true }, connect_steps api.instruments)

  -- `Read`; `none` where it dereferences the null `ws_`.
  unfoldable pub read_frame : BinanceApi → Option (List Step × Expected Text ApiReturn)
  read_frame api =
      if api.has_stream
      then some (
          if net.fails read
          then (read ∷ log error ∷ [], unexpected connection_error)
          else (read ∷ [], value net.frame))
      else none

-- `Close`: it closes the stream and then reaches its end with no `return`, which C++ leaves
-- undefined, as it does the dereferencing of a null `ws_`. `none` is the undefined answer.
unfoldable pub close_stream : BinanceApi → List Step × Option ApiReturn
close_stream api = if api.has_stream then (close ∷ [], none) else ([], none)
