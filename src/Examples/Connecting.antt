-- ===== src/Examples/Connecting.antt =====
-- The connection of a program under examples/, and what its socket does to it.
use crypto_con.Base.{
  ℕ, Bytes, codes, List, [], ◌∷◌, ◌++◌, append-nil, append_assoc, map, Option, none, some, ◌≡◌,
  refl, ap, ◌∙◌,
}
use crypto_con.World.{Thrown, std_exception, other_exception, World, Env, Connection}
use crypto_con.Websocket.Events.{Message, on_message, set_was_open, call_on, deliver}
use crypto_con.Websocket.{log_line}
use crypto_con.Exec.{Outcome}
use crypto_con.Websocket.Events.{catch_logged}
use crypto_con.Websocket.Invariant.{SameConnections}
use crypto_con.Clients.{run_open}
use crypto_con.Clients.Handlers.{Settles, run_open-Settles}

-- What the socket of a connection tells, in order.
abbrev pub tells : Env → Connection → List Message → World → World
tells env c [] w = w
tells env c (m ∷ ms) w = tells env c ms (on_message env (run_open env) c m w).1

-- Only the log, and what was delivered, has changed.
abbrev pub Delivers : World → List (ℕ × Bytes) → World → Type 0
Delivers w texts w' =
    w' ≡ record w { log = w'.log; ws = record w.ws { delivered = w.ws.delivered ++ texts } }

Delivers-trans :
    (u v w : World) (a b : List (ℕ × Bytes))
    → Delivers u a v
    → Delivers v b w
    → Delivers u (a ++ b) w
Delivers-trans u v w a b g h =
    h
    ∙ ap
        (λ (x : World). record x {
          log = w.log;
          ws = record x.ws { delivered = x.ws.delivered ++ b };
        })
        g
    ∙ ap (λ l. record u { log = w.log; ws = record u.ws { delivered = l } })
        (append_assoc u.ws.delivered a b)

call_on-Delivers :
    (env : Env) (c : Connection) (o : Option Thrown) (text : Bytes) (w : World)
    → Delivers w ((c.callback, text) ∷ []) (call_on env c o (deliver env c text w)).1
call_on-Delivers env c none text w = refl
call_on-Delivers env c (some (std_exception m)) text w = refl
call_on-Delivers env c (some other_exception) text w = refl

abbrev pub received : ℕ → List Bytes → List (ℕ × Bytes)
received callback = map (λ text. (callback, text))

-- Texts, and then the end of the connection.
tells-Delivers :
    (env : Env) (c : Connection) (code : ℕ) (reason : Bytes) (texts : List Bytes) (w : World)
    → Delivers w
        (received c.callback texts)
        (tells env c (map Message.message texts ++ Message.close code reason ∷ []) w)
unfolding on_message
tells-Delivers env c code reason [] w = rw (append-nil w.ws.delivered) refl
tells-Delivers env c code reason (text ∷ texts) w =
    let next = (on_message env (run_open env) c (Message.message text) w).1 in
    Delivers-trans w next _ ((c.callback, text) ∷ []) (received c.callback texts)
      (call_on-Delivers env c (env.sockets.callback c.callback text) text w)
      (tells-Delivers env c code reason texts next)

-- What the socket of a feed without an on-open handler tells: it opens, delivers the texts, and
-- closes.
abbrev pub feed_session : List Bytes → ℕ → Bytes → List Message
feed_session texts code reason =
    Message.«open» ∷ map Message.message texts ++ Message.close code reason ∷ []

-- The connection was opened, nothing else happened to the map, and the texts were delivered.
abbrev pub Opened : ℕ → World → List (ℕ × Bytes) → World → Type 0
Opened id w texts w' =
    SameConnections (set_was_open id w) w' × (w'.ws.delivered ≡ w.ws.delivered ++ texts)

caught-Opened :
    (env : Env) (prefix : Bytes) (w : World) (r : Outcome (Unit {0}) × World)
    → Settles w r
    → SameConnections w (catch_logged env prefix r).1
      × ((catch_logged env prefix r).1.ws.delivered ≡ w.ws.delivered)
caught-Opened env prefix w (r, w') (returned, same, delivered, _) = rw returned (same, delivered)

-- The texts and the close send nothing.
pub session-outbox :
    (env : Env) (c : Connection) (code : ℕ) (reason : Bytes) (texts : List Bytes) (w : World)
    → (tells env c (feed_session texts code reason) w).ws.outbox
      ≡ (on_message env (run_open env) c Message.«open» w).1.ws.outbox
session-outbox env c code reason texts w =
    ap (λ (x : World). x.ws.outbox)
      (tells-Delivers env c code reason texts (on_message env (run_open env) c Message.«open» w).1)

pub session-Opened :
    (env : Env) (c : Connection) (code : ℕ) (reason : Bytes) (texts : List Bytes) (w : World)
    → Opened c.id w (received c.callback texts) (tells env c (feed_session texts code reason) w)
unfolding on_message
session-Opened env c code reason texts w =
    let welcomed =
      log_line (codes "Websocket connection to " ++ c.endpoint ++ codes " established.")
        (set_was_open c.id w) in
    let ((connections, pending, next_id), before) =
      caught-Opened env (codes "Error in on-open handler for " ++ c.endpoint ++ codes ": ") welcomed
        (run_open env c.on_open c.endpoint welcomed)
        (run_open-Settles env c.on_open c.endpoint welcomed) in
    let rest =
      tells-Delivers env c code reason texts (on_message env (run_open env) c Message.«open» w).1 in
    (
      (
        ap (λ (x : World). x.ws.connections) rest ∙ connections,
        ap (λ (x : World). x.ws.pending) rest ∙ pending,
        ap (λ (x : World). x.ws.next_id) rest ∙ next_id,
      ),
      ap (λ (x : World). x.ws.delivered) rest ∙ ap (λ l. l ++ received c.callback texts) before,
    )
