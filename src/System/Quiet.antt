-- ===== src/System/Quiet.antt =====
-- The WebSocket client touches nothing but itself, the log and the clock.
use crypto_con.Base.{
  ℕ, ◌+◌, ◌%◌, ◌^◌, Bytes, codes, Bool, ◌||◌, is_empty, [], ◌∷◌, ◌++◌, Option, none, some, ◌≡◌,
  refl, ap, ◌∙◌, arith, Bool-cases, Option-cases, inl, inr,
}
use crypto_con.Types.StdMap.{text_key}
use crypto_con.World.{World, Env, Connection, OnOpen, no_op, binance_user_data, kraken_trades}
use crypto_con.Exec.{Exn, Outcome, ok, throw, logger, ◌>>=◌}
use crypto_con.Websocket.{
  Connections, send, send_first, is_connected, disconnect, disconnect_all, stop_each,
  insert_pending, log_line,
}
use crypto_con.Websocket.Loop.{dead, sweep, wait_turn}
use crypto_con.Websocket.Events.{Message, on_message, what, log_caught, catch_logged, set_was_open}
use crypto_con.Websocket.Steps.{Step}
use crypto_con.Binance.Feeds.{user_data_opened, subscription, subscribed_line}
use crypto_con.Kraken.{trades_opened}
use crypto_con.Clients.{run_open}

abbrev pub IsQuiet : World → World → Type 0
IsQuiet w w' = w' ≡ record w { log = w'.log; clock_reads = w'.clock_reads; ws = w'.ws }

IsQuiet-trans : (u v w : World) → IsQuiet u v → IsQuiet v w → IsQuiet u w
IsQuiet-trans u v w g h =
    h ∙ ap (λ (x : World). record x { log = w.log; clock_reads = w.clock_reads; ws = w.ws }) g

stop_each-IsQuiet : (m : Connections) (w : World) → IsQuiet w (stop_each m w)
stop_each-IsQuiet [] w = refl
stop_each-IsQuiet ((k, c) ∷ m) w = elim (Option-cases c.ws) [
  | inl none_there ↦ rw none_there (stop_each-IsQuiet m w)
  | inr (s, there) ↦ rw there (stop_each-IsQuiet m _)
]

disconnect-IsQuiet : (url : Bytes) (w : World) → IsQuiet w (disconnect url w)
unfolding disconnect
disconnect-IsQuiet url w = ground arith

disconnect_all-IsQuiet : (w : World) → IsQuiet w (disconnect_all w)
unfolding disconnect_all
disconnect_all-IsQuiet w =
    ap (λ (x : World). record x { ws = (disconnect_all w).ws })
      (stop_each-IsQuiet w.ws.connections w)

module _ (env : Env) where
  send-IsQuiet : (url text : Bytes) (w : World) → IsQuiet w (send env url text w).1
  unfolding send
  send-IsQuiet url text w = ground arith

  send_first-IsQuiet : (text : Bytes) (w : World) → IsQuiet w (send_first env text w).1
  unfolding send_first
  send_first-IsQuiet text w = ground arith

  is_connected-IsQuiet : (url : Bytes) (w : World) → IsQuiet w (is_connected env url w).1
  unfolding is_connected
  is_connected-IsQuiet url w = ground arith

  dead-IsQuiet : (c : Connection) (w : World) → IsQuiet w (dead env c w).1
  dead-IsQuiet c w = ground arith

  sweep-IsQuiet : (m : Connections) (w : World) → IsQuiet w (sweep env m w).1
  unfolding sweep
  sweep-IsQuiet [] w = refl
  sweep-IsQuiet ((k, c) ∷ m) w =
      let polled = (dead env c w).1 in
      let removed = log_line (codes "Removing closed connection: " ++ k) polled in
      let quiet = dead-IsQuiet c w in
      elim (Bool-cases (dead env c w).0) [
        | inl gone ↦ rw gone (
            IsQuiet-trans w removed _ (ap (λ (x : World). record x { log = removed.log }) quiet)
              (sweep-IsQuiet m removed))
        | inr stays ↦ rw stays (IsQuiet-trans w polled _ quiet (sweep-IsQuiet m polled))
      ]

  wait_turn-IsQuiet : (w : World) → IsQuiet w (wait_turn env w)
  unfolding wait_turn
  wait_turn-IsQuiet w =
      ap (λ (x : World). record x { ws = (wait_turn env w).ws }) (sweep-IsQuiet w.ws.connections w)

  send_and_log-IsQuiet :
      (url text : Bytes) (line : Bool → Bytes) (w : World)
      → IsQuiet w ((send env url text >>= λ sent. logger (line sent)) w).1
  unfolding send
  send_and_log-IsQuiet url text line w = ground arith

  user_data-IsQuiet :
      (id window : ℕ) (url : Bytes) (w : World) → IsQuiet w (user_data_opened env id window url w).1
  unfolding user_data_opened
  user_data-IsQuiet id window url w =
      elim (Bool-cases (is_empty w.api_key || is_empty w.secret_key)) [
        | inl missing ↦ rw missing refl
        | inr given ↦
            let ticked = record w { clock_reads = w.clock_reads + 1 } in
            rw given (
              IsQuiet-trans w ticked _ refl (
                send_and_log-IsQuiet url
                  (subscription env.digest id window w (env.clock w.clock_reads % 2 ^ 64))
                  (λ sent. subscribed_line sent url) ticked))
      ]

  run_open-IsQuiet : (o : OnOpen) (url : Bytes) (w : World) → IsQuiet w (run_open env o url w).1
  unfolding run_open trades_opened send_first
  run_open-IsQuiet no_op url w = refl
  run_open-IsQuiet (binance_user_data id window) url w = user_data-IsQuiet id window url w
  run_open-IsQuiet (kraken_trades message) url w = ground arith

  log_caught-IsQuiet :
      (prefix : Bytes) (e : Exn) (m : Option Bytes) (w : World)
      → IsQuiet w (log_caught env prefix e m w).1
  log_caught-IsQuiet prefix e none w = refl
  log_caught-IsQuiet prefix e (some m) w = refl

  caught-IsQuiet :
      (prefix : Bytes) (w : World) (r : Outcome (Unit {0}) × World)
      → IsQuiet w r.1
      → IsQuiet w (catch_logged env prefix r).1
  caught-IsQuiet prefix w (ok done, v) h = h
  caught-IsQuiet prefix w (throw e, v) h =
      IsQuiet-trans w v _ h (log_caught-IsQuiet prefix e (what env e) v)

  on_message-IsQuiet :
      (c : Connection) (m : Message) (w : World) → IsQuiet w (on_message env (run_open env) c m w).1
  unfolding on_message
  on_message-IsQuiet c (Message.message text) w = ground arith
  on_message-IsQuiet c Message.«open» w =
      let greeted =
        log_line (codes "Websocket connection to " ++ c.endpoint ++ codes " established.")
          (set_was_open c.id w) in
      caught-IsQuiet (codes "Error in on-open handler for " ++ c.endpoint ++ codes ": ") w
        (run_open env c.on_open c.endpoint greeted)
        (IsQuiet-trans w greeted _ refl (run_open-IsQuiet c.on_open c.endpoint greeted))
  on_message-IsQuiet c (Message.close code reason) w = refl
  on_message-IsQuiet c (Message.error reason) w = refl
  on_message-IsQuiet c Message.ping w = refl
  on_message-IsQuiet c Message.pong w = refl
  on_message-IsQuiet c Message.fragment w = refl

  insert-IsQuiet : (p : Option Connection) (w : World) → IsQuiet w (insert_pending env.sockets p w)
  insert-IsQuiet none w = refl
  insert-IsQuiet (some c) w = refl

  pub Step-IsQuiet : {w w' : World} → Step env (run_open env) w w' → IsQuiet w w'
  Step-IsQuiet {w} (Step.starting callback host path on_open idle) = refl
  Step-IsQuiet {w} Step.inserting = insert-IsQuiet w.ws.pending w
  Step-IsQuiet {w} (Step.message_of c m live) = on_message-IsQuiet c m w
  Step-IsQuiet {w} (Step.sending endpoint text) = send-IsQuiet endpoint text w
  Step-IsQuiet {w} (Step.sending_first text) = send_first-IsQuiet text w
  Step-IsQuiet {w} (Step.asking endpoint) = is_connected-IsQuiet endpoint w
  Step-IsQuiet {w} (Step.disconnecting endpoint) = disconnect-IsQuiet endpoint w
  Step-IsQuiet {w} Step.disconnecting_all = disconnect_all-IsQuiet w
  Step-IsQuiet {w} Step.waiting = wait_turn-IsQuiet w
