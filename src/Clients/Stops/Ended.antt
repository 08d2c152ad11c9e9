-- ===== src/Clients/Stops/Ended.antt =====
-- The end of a client (src/clients/baseclient.h), whatever came before it.
use crypto_con.Base.{
  ap, ℕ, Bytes, codes, Option-cases, inl, inr, [], ◌++◌, map, ◌≡◌, refl, Apart, arith,
}
use crypto_con.World.{World, Env, WsState}
use crypto_con.Exec.{Outcome, ok}
use crypto_con.Rest.{close_client, connect, where_failed}
use crypto_con.Websocket.{disconnect_all, log_line}
use crypto_con.Websocket.Changes.{Rehashes, id_of}
use crypto_con.Websocket.Invariant.{IsWellFormed}
use crypto_con.Websocket.Operations.{disconnect_all-stopped}
use crypto_con.Websocket.Steps.{
  Reaches, Reaches-IsWellFormed, by_same, constructed, after, disconnecting_all,
}
use crypto_con.Clients.{Policy, run_open, construct, blank}
use crypto_con.Clients.Access.{destroy}
use crypto_con.Clients.Handlers.{run_open-LeaveConnections}
use crypto_con.Clients.Messages.{construct-IsWellFormed}
use crypto_con.Clients.Stops.{StopsOnce, kept-StopsOnce}
use crypto_con.Clients.Stops.Kept.{Step-StopsOnce}

connect-ws : (env : Env) (w : World) → (connect env w).1.ws ≡ w.ws
unfolding connect
connect-ws env w = ground arith

-- Every reachable state stops once, from a well-formed state that does.
Reaches-StopsOnce :
    (env : Env)
    → Rehashes env.sockets
    → {v w : World} → Reaches env (run_open env) v w
    → IsWellFormed v
    → StopsOnce v
    → StopsOnce w
Reaches-StopsOnce env r constructed i h = h
Reaches-StopsOnce env r (after {v = v} {v' = w} reached step) i h =
    Step-StopsOnce env v w r step
      (Reaches-IsWellFormed env (run_open env) r (run_open-LeaveConnections env) reached i)
      (Reaches-StopsOnce env r reached i h)

construct-StopsOnce :
    {P : Type 0} (env : Env) (policy : Policy P) (api_key secret_key : Bytes)
    → StopsOnce (construct env policy api_key secret_key).1
unfolding construct
construct-StopsOnce env policy api_key secret_key =
    let empty = blank policy.rest_host api_key secret_key in
    let same = connect-ws env empty in
    kept-StopsOnce empty _ (ap (λ (s : WsState). s.stopped) same)
      (ap (λ (s : WsState). s.next_id) same) (rw same tt) (rw same tt)
      (record { once = tt; given_out = tt; running = tt; pending = tt })

-- The destructor has returned; it has stopped the sockets of the map, and no socket has been stopped
-- twice.
abbrev pub Ended : World → Outcome (Unit {0}) × World → Type 0
Ended w (r, w') =
    (r ≡ ok tt)
    × (w'.ws.connections ≡ [])
    × (w'.ws.stopped ≡ w.ws.stopped ++ map id_of w.ws.connections)
    × Apart (λ (i : ℕ). i) w'.ws.stopped

disconnect_all-Ended :
    (env : Env) (w : World)
    → Rehashes env.sockets
    → IsWellFormed w
    → StopsOnce w
    → Ended w (ok tt, disconnect_all w)
unfolding disconnect_all
disconnect_all-Ended env w r i h = (
  refl,
  refl,
  (disconnect_all-stopped w i).0,
  (Step-StopsOnce env w _ r disconnecting_all i h).once,
)

destroy-Ended :
    (env : Env) (w : World)
    → Rehashes env.sockets
    → IsWellFormed w
    → StopsOnce w
    → Ended w (destroy env w)
unfolding destroy close_client
destroy-Ended env w r i h = elim (Option-cases env.network.shutdown) [
  | inl fine ↦ rw fine (disconnect_all-Ended env w r i h)
  | inr (ec, failed) ↦
      let logged =
        log_line (codes "Error during SSL shutdown: " ++ ec.message ++ where_failed ec) w in
      rw failed (
        disconnect_all-Ended env logged r (by_same w logged (refl, refl, refl) i)
          (kept-StopsOnce w logged refl refl h.running h.pending h))
]

-- Whatever a constructed client has done, with the messages of its sockets in any interleaving, `stop`
-- has been called on no socket twice. Its destructor then returns, also if the shutdown of the REST
-- connection fails; it stops the socket of every connection once, none of them a second time, and
-- leaves no connection. An insertion only reorders the map.
pub construct-destroy :
    {P : Type 0} (env : Env) (policy : Policy P) (api_key secret_key : Bytes) (w : World)
    → Rehashes env.sockets
    → Reaches env (run_open env) (construct env policy api_key secret_key).1 w
    → StopsOnce w × Ended w (destroy env w)
construct-destroy env policy api_key secret_key w r reached =
    let first = (construct env policy api_key secret_key).1 in
    let once =
      Reaches-StopsOnce env r reached
        (construct-IsWellFormed env policy api_key secret_key first r constructed)
        (construct-StopsOnce env policy api_key secret_key) in
    (
      once,
      destroy-Ended env w r (construct-IsWellFormed env policy api_key secret_key w r reached) once,
    )
