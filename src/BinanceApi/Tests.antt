-- ===== src/BinanceApi/Tests.antt =====
-- The exchange client at the instruments of the program.
use sigmax.Base.{List, [], ◌∷◌, ◌≡◌, refl, Bool, true, false}
use sigmax.Base.Text.{Text, codes, to_string}
use sigmax.Logger.{error}
use sigmax.BinanceApi.{
  Network, Step, create_stream, set_verify_peer, resolve, log, create, connect, connection_error,
  build_subscribe_message,
}
use sigmax.BinanceApi.Connect.{calls, spec, connect_lem}
use sigmax.BinanceApi.Symbols.{
  subscribed, read_text, symbols_of, before_at, subscribed-build_subscribe_message,
}
use sigmax.BinanceApi.Message.{scan, read_char, brackets_match, subscribe_message_malformed}

abbrev instruments : List Text
instruments = codes "bnbusdc" ∷ codes "tlmusdc" ∷ codes "ethusdc" ∷ []

unfoldable fails_resolve : Step → Bool
fails_resolve (resolve _ _) = true
fails_resolve _ = false

abbrev offline : Network
offline = record {
  fails = fails_resolve;
  endpoint_port = 9443;
  library_version = codes "Boost";
  frame = [];
}

-- The balance of brackets on a well-formed message.
well_formed :
    brackets_match
      (codes "{ \"method\": \"SUB\\\"[\", \"params\": [ \"a@bookTicker\" ], \"id\": 1 }")
    ≡ true
unfolding brackets_match scan read_char
well_formed = refl

connect_lem_example : connect offline (create instruments) ≡ (
  record { instruments = instruments; has_stream = true },
  spec offline (calls offline instruments),
)
connect_lem_example = connect_lem offline (create instruments)

offline_connects : (connect offline (create [])).1 ≡ (
  create_stream
      ∷ set_verify_peer
      ∷ resolve (codes "stream.binance.com") (codes "9443")
      ∷ log error
      ∷ [],
  connection_error,
)
unfolding connect fails_resolve to_string
offline_connects = refl

subscribe_message_malformed_example : brackets_match (build_subscribe_message instruments) ≡ false
subscribe_message_malformed_example =
    subscribe_message_malformed instruments (refl, (refl, (refl, tt)))

subscribed-build_subscribe_message_example :
    subscribed (build_subscribe_message instruments) ≡ instruments
subscribed-build_subscribe_message_example =
    subscribed-build_subscribe_message instruments
      (((refl, refl), ((refl, refl), ((refl, refl), tt))))

-- The symbols of a message that a JSON library prints.
printed_symbols :
    subscribed
      (codes "{\"method\":\"SUBSCRIBE\",\"params\":[\"btcusdt@bookTicker\",\"x@y\"],\"id\":1}")
    ≡ codes "btcusdt" ∷ codes "x" ∷ []
unfolding subscribed read_text symbols_of before_at
printed_symbols = refl
