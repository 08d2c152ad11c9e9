-- ===== src/Examples.antt =====
-- examples/binance_trade_feed_mixin.cpp and examples/kraken_trade_feed.cpp: programs that print what
-- a trade feed delivers. What they print is what they write themselves; the lines of the logger,
-- which go to the same output, are in the log of the client.
pub mod Printing
pub mod Connecting
pub mod Waiting
pub mod Subscribed
pub mod Started
pub mod Finishes
pub mod Stuck
pub mod Uncaught
use crypto_con.Base.{
  ℕ, ◌+◌, ◌%◌, ◌^◌, Bytes, codes, List, [], ◌∷◌, ◌++◌, map, Option, none, some, ◌==◌, if◌then◌else◌,
}
use crypto_con.Types.{TokenPair, SpotParams}
use crypto_con.Utils.Double.{Double}
use crypto_con.Utils.Number.{decimal}
use crypto_con.World.{World, Env}
use crypto_con.Exec.{Exn, Outcome, ok, throw, continue}
use crypto_con.Websocket.Loop.{wait}
use crypto_con.Clients.{Policy, binance_spot, kraken, construct, connect_trade_feed}

-- The mixin `MessagePrinter`: its counter, of 64 bits, and what it has printed.
pub record MessagePrinter : Type 0 where
  pub message_count : ℕ
  pub printed : List Bytes

abbrev pub fresh_printer : MessagePrinter
fresh_printer = record { message_count = 0; printed = [] }

-- The callback of `connectAndPrint`.
abbrev pub print_message : Bytes → MessagePrinter → MessagePrinter
print_message msg p =
    let count = (p.message_count + 1) % 2 ^ 64 in
    record {
      message_count = count;
      printed = p.printed ++ (codes "[MSG #" ++ decimal count ++ codes "] " ++ msg) ∷ [];
    }

-- `printStats`
abbrev pub stats_line : MessagePrinter → Bytes
stats_line p = codes "Total messages received: " ++ decimal p.message_count

-- The printer after its calls, in the order of the texts.
abbrev pub print_messages : List Bytes → MessagePrinter → MessagePrinter
print_messages [] p = p
print_messages (msg ∷ msgs) p = print_messages msgs (print_message msg p)

-- The callback of the other program.
abbrev pub trade_line : Bytes → Bytes
trade_line msg = codes "[TRADE] " ++ msg

abbrev pub subscribing_line : Bytes
subscribing_line = codes "Subscribing to BTC and ETH trade feeds..."

-- The number that stands for the callback of the program.
abbrev pub feed_callback : ℕ
feed_callback = 1

-- The texts that a callback has received.
abbrev pub texts_for : ℕ → List (ℕ × Bytes) → List Bytes
texts_for callback [] = []
texts_for callback ((id, text) ∷ delivered) =
    if id == callback then text ∷ texts_for callback delivered else texts_for callback delivered

-- How a program ended: with an exception that nothing catches, not yet, or with these lines.
pub data Ending : Type 0 where
  uncaught : Exn → World → Ending
  waiting : Ending
  finished : List Bytes → World → Ending

-- What the programs print, from the texts of the feed.
abbrev pub mixin_lines : List Bytes → List Bytes
mixin_lines texts =
    let printer = print_messages texts fresh_printer in
    subscribing_line ∷ printer.printed ++ stats_line printer ∷ []

abbrev pub kraken_lines : List Bytes → List Bytes
kraken_lines texts = subscribing_line ∷ map trade_line texts

module _ (env : Env) where
  -- Construction without keys, and the subscription to the two trade feeds.
  abbrev pub subscribe_feeds : {P : Type 0} → Policy P → Outcome (Unit {0}) × World
  subscribe_feeds policy =
      let (r, w) = construct env policy [] [] in
      continue r
        (λ _. connect_trade_feed policy (TokenPair.btcusd ∷ TokenPair.ethusd ∷ []) feed_callback) w

  abbrev pub print_all : (List Bytes → List Bytes) → Option World → Ending
  print_all lines none = Ending.waiting
  print_all lines (some w) = Ending.finished (lines (texts_for feed_callback w.ws.delivered)) w

  -- `wait` and the end of the program.
  abbrev pub run_to_end :
      (List Bytes → List Bytes) → List (World → World) → Outcome (Unit {0}) × World → Ending
  run_to_end lines sleeps (throw e, w) = Ending.uncaught e w
  run_to_end lines sleeps (ok done, w) = print_all lines (wait env sleeps w)

  -- `main` of examples/binance_trade_feed_mixin.cpp. The list has what the sockets do during each
  -- sleep of `wait`.
  unfoldable pub binance_trade_feed_mixin :
      (W : Type 0) ⦃d : Double W⦄ → List (World → World) → Ending
  binance_trade_feed_mixin W sleeps =
      run_to_end mixin_lines sleeps (subscribe_feeds {P = SpotParams W} (binance_spot env))

  -- `main` of examples/kraken_trade_feed.cpp
  unfoldable pub kraken_trade_feed : (W : Type 0) → List (World → World) → Ending
  kraken_trade_feed W sleeps =
      run_to_end kraken_lines sleeps (subscribe_feeds {P = SpotParams W} (kraken env))
