-- ===== src/Examples/Stuck.antt =====
-- The programs under examples/ when their feed never opens.
use crypto_con.Base.{List, map, ◌≡◌, refl, ap, All}
use crypto_con.Utils.Double.{Double}
use crypto_con.World.{Env, Connection}
use crypto_con.Rest.Exchange.{Connects}
use crypto_con.Websocket.Events.{Message}
use crypto_con.Websocket.Changes.{Rehashes}
use crypto_con.Clients.Blocking.{heard, IsSilent, wait_blocked}
use crypto_con.Examples.{
  Ending, binance_trade_feed_mixin, kraken_trade_feed, print_all, mixin_lines, kraken_lines,
}
use crypto_con.Examples.Started.{
  mixin_feed, kraken_feed, mixin_started, kraken_started, mixin_subscribed, kraken_subscribed,
  mixin_started-IsConnected, kraken_started-IsConnected,
}

-- Both programs, when their REST connection succeeds, are still waiting after any number of sleeps,
-- whatever messages their sockets give in the meantime, texts and errors among them, as long as none
-- says that the feed has opened. An insertion into the map of connections only reorders it.
pub programs_stuck :
    (W : Type 0) ⦃d : Double W⦄ (env : Env) (sleeps : List (List (Connection × Message)))
    → Rehashes env.sockets
    → Connects env.network 0
    → All (All (IsSilent 0)) sleeps
    → (binance_trade_feed_mixin env W (map (heard env) sleeps) ≡ Ending.waiting)
      × (kraken_trade_feed env W (map (heard env) sleeps) ≡ Ending.waiting)
unfolding binance_trade_feed_mixin kraken_trade_feed
programs_stuck W env sleeps r c silent =
    rw (mixin_subscribed W env c, kraken_subscribed W env c)
      (
        ap (print_all env mixin_lines) (
            wait_blocked env mixin_feed.endpoint mixin_feed sleeps (mixin_started env)
              (mixin_started-IsConnected env r).found refl refl silent),
        ap (print_all env kraken_lines) (
            wait_blocked env kraken_feed.endpoint kraken_feed sleeps (kraken_started env)
              (kraken_started-IsConnected env r).found refl refl silent),
      )
