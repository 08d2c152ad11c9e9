-- ===== src/Examples/Finishes.antt =====
-- The programs under examples/ from their subscription to their end.
use crypto_con.Base.{
  ℕ, ◌<◌, ◌^◌, Bytes, codes, List, [], ◌∷◌, ◌++◌, map, length, some, ◌≡◌, refl, sym, ap, ◌∙◌,
  if◌then◌else◌,
}
use crypto_con.Types.{SpotParams}
use crypto_con.Types.StdMap.{find, text_key}
use crypto_con.Utils.Double.{Double}
use crypto_con.Utils.Number.{decimal}
use crypto_con.World.{World, Env, Connection, ReadyState, closed}
use crypto_con.Exec.{Outcome, ok}
use crypto_con.Rest.Exchange.{Connects}
use crypto_con.Websocket.Loop.{wait_turn}
use crypto_con.Websocket.Changes.{Rehashes}
use crypto_con.Websocket.Wait.{SayFrom}
use crypto_con.Types.{TokenPair}
use crypto_con.Types.Tables.Kraken as KrakenTable
use crypto_con.Kraken.Receives.{receive_trades, receive_trades-message}
use crypto_con.Websocket.Events.{Message, on_message}
use crypto_con.Clients.{run_open}
use crypto_con.Examples.Subscribed.{no_op-outbox, kraken-outbox}
use crypto_con.Examples.Waiting.{IsConnected, told, wait_feed}
use crypto_con.Clients.{kraken}
use crypto_con.Examples.{trade_line, kraken_lines, kraken_trade_feed}
use crypto_con.Clients.{binance_spot}
use crypto_con.Examples.{
  subscribing_line, mixin_lines, subscribe_feeds, print_all, run_to_end, binance_trade_feed_mixin,
  Ending,
}
use crypto_con.Examples.Printing.{numbered, mixin_lines-numbered}
use crypto_con.Examples.Connecting.{tells, feed_session, received}
use crypto_con.Examples.Started.{
  mixin_feed, kraken_feed, kraken_message, mixin_started, kraken_started, mixin_subscribed,
  kraken_subscribed, mixin_started-IsConnected, kraken_started-IsConnected,
}

-- The program has its feed in the map, and then ends with these lines, with an empty map, and with
-- these texts sent on its socket.
abbrev pub Prints :
    Env → Connection → Outcome (Unit {0}) × World → Ending → List Bytes → List (ℕ × Bytes) → Type 0
Prints env feed (r, w) ending lines sent =
    (r ≡ ok tt)
    × (find feed.endpoint w.ws.connections ≡ some feed)
    × ((w' : World) × (ending ≡ Ending.finished lines w')
        × (w'.ws.connections ≡ [])
        × (w'.ws.outbox ≡ sent))

module _ (env : Env) (state : ℕ → ReadyState) (feed : Connection) (started : World)
    (texts : List Bytes) (code : ℕ) (reason : Bytes) (connected : IsConnected feed started) where
  run_to_end-Prints :
      (lines : List Bytes → List Bytes) (sleeps : List (World → World))
      → SayFrom env 0 state
      → state 0 ≡ closed
      → {sent : List (ℕ × Bytes)}
      → (on_message env (run_open env) feed Message.«open» started).1.ws.outbox ≡ sent
      → Prints env feed
          (ok tt, started)
          (run_to_end env lines
            (tells env feed (feed_session texts code reason) ∷ sleeps)
            (ok tt, started))
          (lines texts)
          sent
  run_to_end-Prints lines sleeps say down traffic =
      let w' = wait_turn env (told env state feed started texts code reason connected) in
      let (returned, cleared, received, sent) =
        wait_feed env state feed started texts code reason connected sleeps say down in
      (
        refl,
        connected.found,
        (
          w',
          ap (print_all env lines) returned ∙ ap (λ l. Ending.finished (lines l) w') received,
          cleared,
          sent ∙ traffic,
        ),
      )

-- Both programs, when their REST connection succeeds, have the feed of the two symbols in their
-- map. When its socket then opens, delivers texts, and closes, `wait` returns and the program ends
-- with an empty map. The one has printed every text once, in order, numbered from 1 on, and then
-- their total, if there are fewer than 2 ^ 64; the other every text once, in order. The one has
-- sent nothing, and the other, if its socket took it, its subscription alone, from which Kraken
-- reads the two symbols. The socket says that it is closed whenever it is asked, and an insertion
-- only reorders the map.
pub programs-Prints :
    (W : Type 0) ⦃d : Double W⦄ (env : Env) (state : ℕ → ReadyState) (texts : List Bytes) (code : ℕ)
    (reason : Bytes) (sleeps : List (World → World))
    → Rehashes env.sockets
    → Connects env.network 0
    → SayFrom env 0 state
    → state 0 ≡ closed
    → length texts < 2 ^ 64
    → Prints env mixin_feed
        (subscribe_feeds env {P = SpotParams W} (binance_spot env))
        (binance_trade_feed_mixin env W
          (tells env mixin_feed (feed_session texts code reason) ∷ sleeps))
        (subscribing_line ∷ numbered 0 texts
          ++ (codes "Total messages received: " ++ decimal (length texts)) ∷ [])
        []
      × Prints env kraken_feed
          (subscribe_feeds env {P = SpotParams W} (kraken env))
          (kraken_trade_feed env W
            (tells env kraken_feed (feed_session texts code reason) ∷ sleeps))
          (subscribing_line ∷ map trade_line texts)
          (if env.sockets.send 0 then (0, kraken_message) ∷ [] else [])
      × (receive_trades kraken_message ≡ some (TokenPair.btcusd ∷ TokenPair.ethusd ∷ []))
unfolding binance_trade_feed_mixin kraken_trade_feed
programs-Prints W env state texts code reason sleeps r c say down small =
    rw (mixin_subscribed W env c, kraken_subscribed W env c, sym (mixin_lines-numbered texts small))
      (
        run_to_end-Prints env state mixin_feed (mixin_started env) texts code reason
            (mixin_started-IsConnected env r) mixin_lines sleeps say down
            (no_op-outbox env mixin_feed (mixin_started env) (mixin_started-IsConnected env r)
              refl),
        run_to_end-Prints env state kraken_feed (kraken_started env) texts code reason
            (kraken_started-IsConnected env r) kraken_lines sleeps say down
            (kraken-outbox env kraken_feed (kraken_started env) (kraken_started-IsConnected env r)
              kraken_message refl),
        receive_trades-message KrakenTable.token_pair_to_string
            (TokenPair.btcusd ∷ TokenPair.ethusd ∷ []) (λ t. refl),
      )
