-- ===== src/Examples/Waiting.antt =====
-- `wait` in a program under examples/, while its socket opens, delivers texts, and closes.
use crypto_con.Base.{
  ℕ, Bytes, List, [], ◌∷◌, ◌++◌, some, ◌≡◌, refl, sym, ap, ◌∙◌, arith, All, All-imp, Bool-cases,
  inl, inr, ◌==◌, true,
}
use crypto_con.Types.StdMap.{find, text_key}
use crypto_con.World.{World, Env, Connection, ReadyState, closed}
use crypto_con.Websocket.{Connections}
use crypto_con.Websocket.Loop.{wait, sweep, wait_turn, dead}
use crypto_con.Websocket.Events.{Message, on_message, open_each, set_was_open}
use crypto_con.Clients.{run_open}
use crypto_con.Websocket.Invariant.{IsWellFormed}
use crypto_con.Websocket.Steps.{by_same, set_was_open-IsWellFormed}
use crypto_con.Websocket.Wait.{SayFrom, alive-All, wait_turn-alive, wait_empty, is_empty_map-find}
use crypto_con.Examples.{feed_callback, texts_for}
use crypto_con.Examples.Connecting.{
  tells, feed_session, received, Opened, session-Opened, session-outbox,
}

-- A connected program: the connection with id 0 is its feed.
pub record IsConnected (feed : Connection) (w : World) : Type 0 where
  pub id : feed.id ≡ 0
  pub callback : feed.callback ≡ feed_callback
  pub well_formed : IsWellFormed w
  pub found : find feed.endpoint w.ws.connections ≡ some feed
  pub alone : All (λ e. e.1.id ≡ 0) w.ws.connections
  pub quiet : w.ws.delivered ≡ []

-- Nothing is delivered and nothing is sent.
abbrev SameTraffic : World → World → Type 0
SameTraffic w w' = (w'.ws.delivered ≡ w.ws.delivered) × (w'.ws.outbox ≡ w.ws.outbox)

sweep-SameTraffic : (env : Env) (m : Connections) (w : World) → SameTraffic w (sweep env m w).1
unfolding sweep
sweep-SameTraffic env [] w = (refl, refl)
sweep-SameTraffic env ((k, c) ∷ m) w =
    let polled : SameTraffic w (dead env c w).1 = ground arith in
    elim (Bool-cases (dead env c w).0) [
      | inl gone ↦
          rw gone
            ((sweep-SameTraffic env m _).0 ∙ polled.0, (sweep-SameTraffic env m _).1 ∙ polled.1)
      | inr stays ↦
          rw stays
            ((sweep-SameTraffic env m _).0 ∙ polled.0, (sweep-SameTraffic env m _).1 ∙ polled.1)
    ]

wait_turn-SameTraffic : (env : Env) (w : World) → SameTraffic w (wait_turn env w)
unfolding wait_turn
wait_turn-SameTraffic env w = sweep-SameTraffic env w.ws.connections w

opened_each :
    (id : ℕ) (m : Connections)
    → All (λ e. e.1.id ≡ id) m
    → All (λ e. (e.1.was_open ≡ true) × (e.1.id ≡ id)) (open_each id m)
opened_each id [] h = tt
opened_each id ((k, c) ∷ m) (h, hs) = elim (Bool-cases (c.id == id)) [
  | inl same ↦ rw same ((refl, h), opened_each id m hs)
  | inr other ↦ absurd (ground arith)
]

texts-received :
    (callback : ℕ) (texts : List Bytes) → texts_for callback (received callback texts) ≡ texts
texts-received callback [] = refl
texts-received callback (text ∷ texts) =
    let same : (callback == callback) ≡ true = ground arith in
    rw same (ap (λ l. text ∷ l) (texts-received callback texts))

-- The printed texts, and the client at the end.
module _ (env : Env) (state : ℕ → ReadyState) (feed : Connection) (started : World)
    (texts : List Bytes) (code : ℕ) (reason : Bytes) (connected : IsConnected feed started) where
  abbrev pub told : World
  told = tells env feed (feed_session texts code reason) started

  told-Opened : Opened 0 started (received feed_callback texts) told
  told-Opened =
      rw (sym connected.id, sym connected.callback)
        (session-Opened env feed code reason texts started)

  told-IsWellFormed : IsWellFormed told
  told-IsWellFormed =
      by_same (set_was_open 0 started) told told-Opened.0
        (set_was_open-IsWellFormed 0 started connected.well_formed)

  told_opened : All (λ e. (e.1.was_open ≡ true) × (e.1.id ≡ 0)) told.ws.connections
  told_opened = rw (told-Opened.0.0) (opened_each 0 started.ws.connections connected.alone)

  pub wait_feed :
      (sleeps : List (World → World))
      → SayFrom env 0 state
      → state 0 ≡ closed
      → (wait env (tells env feed (feed_session texts code reason) ∷ sleeps) started
          ≡ some (wait_turn env told))
        × ((wait_turn env told).ws.connections ≡ [])
        × (texts_for feed_callback (wait_turn env told).ws.delivered ≡ texts)
        × ((wait_turn env told).ws.outbox
            ≡ (on_message env (run_open env) feed Message.«open» started).1.ws.outbox)
  unfolding wait
  wait_feed sleeps say down =
      let cleared : (wait_turn env told).ws.connections ≡ [] =
        wait_turn-alive env state told told-IsWellFormed (λ i id le. say i id (omega arith))
        ∙ alive-All state told.ws.connections (
            All-imp (λ e. (e.1.was_open ≡ true) × (e.1.id ≡ 0)) _
              (λ e (was, id). (was, ap state id ∙ down)) told.ws.connections told_opened) in
      (
        rw (is_empty_map-find feed.endpoint started.ws.connections feed connected.found)
            (wait_empty env sleeps (wait_turn env told) cleared),
        cleared,
        ap (texts_for feed_callback) (
              (wait_turn-SameTraffic env told).0
              ∙ told-Opened.1
              ∙ ap (λ l. l ++ received feed_callback texts) connected.quiet)
            ∙ texts-received feed_callback texts,
        (wait_turn-SameTraffic env told).1 ∙ session-outbox env feed code reason texts started,
      )
