-- ===== src/Clients/Handlers.antt =====
-- The on-open handlers of the policies as the WebSocket client runs them.
use crypto_con.Base.{
  ℕ, ◌+◌, ◌%◌, ◌^◌, Bytes, Bool, ◌||◌, is_empty, ◌≡◌, refl, arith, Option-cases, Bool-cases, inl,
  inr,
}
use crypto_con.Types.StdMap.{find, text_key}
use crypto_con.World.{World, Env, OnOpen, no_op, binance_user_data, kraken_trades}
use crypto_con.Exec.{Outcome, ok, logger, ◌>>=◌, ◌>>◌}
use crypto_con.Websocket.{send, send_first}
use crypto_con.Websocket.Invariant.{SameConnections}
use crypto_con.Websocket.Steps.{LeaveConnections}
use crypto_con.Binance.Feeds.{user_data_opened, subscription, subscribed_line}
use crypto_con.Kraken.{trades_opened}
use crypto_con.Clients.{run_open}

-- The handlers return, leave the connections, and deliver and stop nothing.
abbrev pub Settles : World → Outcome (Unit {0}) × World → Type 0
Settles w (r, w') =
    (r ≡ ok tt)
    × SameConnections w w'
    × (w'.ws.delivered ≡ w.ws.delivered)
    × (w'.ws.stopped ≡ w.ws.stopped)

send_and_log :
    (env : Env) (url text : Bytes) (line : Bool → Bytes) (w : World)
    → Settles w ((send env url text >>= λ sent. logger (line sent)) w)
unfolding send
send_and_log env url text line w = elim (Option-cases (find url w.ws.connections)) [
  | inl missing ↦ rw (missing) (refl, (refl, refl, refl), refl, refl)
  | inr (c, found) ↦ elim (Option-cases c.ws) [
    | inl none_there ↦ rw (found, none_there) (refl, (refl, refl, refl), refl, refl)
    | inr (s, there) ↦ rw (found, there) (refl, (refl, refl, refl), refl, refl)
  ]
]

send_first_and_log :
    (env : Env) (text line : Bytes) (w : World) → Settles w ((send_first env text >> logger line) w)
unfolding send_first
send_first_and_log env text line w = ground arith

user_data-Settles :
    (env : Env) (id window : ℕ) (url : Bytes) (w : World)
    → Settles w (user_data_opened env id window url w)
unfolding user_data_opened
user_data-Settles env id window url w =
    elim (Bool-cases (is_empty w.api_key || is_empty w.secret_key)) [
      | inl missing ↦ rw (missing) (refl, (refl, refl, refl), refl, refl)
      | inr given ↦ rw (given) (
          send_and_log env url
            (subscription env.digest id window w (env.clock w.clock_reads % 2 ^ 64))
            (λ sent. subscribed_line sent url) (record w { clock_reads = w.clock_reads + 1 }))
    ]

-- The handlers of the policies return, and open and close no connection.
pub run_open-Settles :
    (env : Env) (o : OnOpen) (url : Bytes) (w : World) → Settles w (run_open env o url w)
unfolding run_open trades_opened
run_open-Settles env no_op url w = (refl, (refl, refl, refl), refl, refl)
run_open-Settles env (binance_user_data id window) url w = user_data-Settles env id window url w
run_open-Settles env (kraken_trades message) url w = send_first_and_log env message _ w

pub run_open-LeaveConnections : (env : Env) → LeaveConnections (run_open env)
run_open-LeaveConnections env o url w = (run_open-Settles env o url w).1
