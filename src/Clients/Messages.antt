-- ===== src/Clients/Messages.antt =====
-- What a message of a socket does to a client with the handlers of the policies.
use crypto_con.Base.{
  ℕ, Bytes, codes, List, [], ◌∷◌, ◌++◌, map, Option, none, some, ◌≡◌, refl, sym, append-nil, ap,
  ◌∙◌, arith,
}
use crypto_con.World.{World, Env, Connection, Thrown, std_exception, other_exception}
use crypto_con.Exec.{Outcome, ok}
use crypto_con.Rest.{connect}
use crypto_con.Websocket.{Connections, log_line}
use crypto_con.Websocket.Events.{
  Message, on_message, open_each, set_was_open, call_on, deliver, catch_logged, escapes,
}
use crypto_con.Websocket.Changes.{Rehashes, key_of}
use crypto_con.Websocket.Invariant.{IsWellFormed, SameConnections}
use crypto_con.Websocket.Steps.{Reaches, Reaches-IsWellFormed, by_same}
use crypto_con.Clients.{Policy, run_open, construct, blank}
use crypto_con.Clients.Handlers.{Settles, run_open-Settles, run_open-LeaveConnections}

open_each-keys : (id : ℕ) (m : Connections) → map key_of (open_each id m) ≡ map key_of m
open_each-keys id [] = refl
open_each-keys id ((k, c) ∷ m) = ap (λ l. k ∷ l) (open_each-keys id m)

-- The texts that a message delivers to the callback of its connection.
abbrev pub delivers : Connection → Message → List (ℕ × Bytes)
delivers c (Message.message text) = (c.callback, text) ∷ []
delivers c Message.«open» = []
delivers c (Message.close code reason) = []
delivers c (Message.error reason) = []
delivers c Message.ping = []
delivers c Message.pong = []
delivers c Message.fragment = []

-- The message callback has ended like this, the endpoints are as before, and these texts were
-- delivered.
abbrev pub Handled :
    World → Outcome (Unit {0}) → List (ℕ × Bytes) → Outcome (Unit {0}) × World → Type 0
Handled w ended texts (r, w') =
    (r ≡ ended)
    × (map key_of w'.ws.connections ≡ map key_of w.ws.connections)
    × (w'.ws.delivered ≡ w.ws.delivered ++ texts)

call_on-Handled :
    (env : Env) (c : Connection) (o : Option Thrown) (text : Bytes) (w : World)
    → env.sockets.callback c.callback text ≡ o
    → Handled w
        (escapes env.sockets.callback c.callback (Message.message text))
        ((c.callback, text) ∷ [])
        (call_on env c o (deliver env c text w))
call_on-Handled env c none text w e = rw e (refl, refl, refl)
call_on-Handled env c (some (std_exception m)) text w e = rw e (refl, refl, refl)
call_on-Handled env c (some other_exception) text w e = rw e (refl, refl, refl)

caught-Handled :
    (env : Env) (prefix : Bytes) (w v : World) (r : Outcome (Unit {0}) × World)
    → Settles v r
    → map key_of v.ws.connections ≡ map key_of w.ws.connections
    → v.ws.delivered ≡ w.ws.delivered
    → Handled w (ok tt) [] (catch_logged env prefix r)
caught-Handled env prefix w v (r, w') (returned, (same, _, _), delivered, _) keys before =
    rw (returned)
      (refl, ap (map key_of) same ∙ keys, delivered ∙ before ∙ sym (append-nil w.ws.delivered))

-- The message callback lets no exception out but one: what the user's callback throws, if that is not
-- derived from `std::exception`. Whatever the policies' on-open handler meets, it returns. A text goes to the callback of its own connection once, no
-- other message delivers anything, and the endpoints of the map are the same.
pub on_message-Handled :
    (env : Env) (c : Connection) (m : Message) (w : World)
    → Handled w
        (escapes env.sockets.callback c.callback m)
        (delivers c m)
        (on_message env (run_open env) c m w)
unfolding on_message
on_message-Handled env c (Message.message text) w =
    call_on-Handled env c (env.sockets.callback c.callback text) text w refl
on_message-Handled env c Message.«open» w =
    let greeted =
      log_line (codes "Websocket connection to " ++ c.endpoint ++ codes " established.")
        (set_was_open c.id w) in
    caught-Handled env (codes "Error in on-open handler for " ++ c.endpoint ++ codes ": ") w greeted
      (run_open env c.on_open c.endpoint greeted)
      (run_open-Settles env c.on_open c.endpoint greeted) (open_each-keys c.id w.ws.connections)
      refl
on_message-Handled env c (Message.close code reason) w =
    (refl, refl, sym (append-nil w.ws.delivered))
on_message-Handled env c (Message.error reason) w = (refl, refl, sym (append-nil w.ws.delivered))
on_message-Handled env c Message.ping w = (refl, refl, sym (append-nil w.ws.delivered))
on_message-Handled env c Message.pong w = (refl, refl, sym (append-nil w.ws.delivered))
on_message-Handled env c Message.fragment w = (refl, refl, sym (append-nil w.ws.delivered))

connect-SameConnections : (env : Env) (w : World) → SameConnections w (connect env w).1
unfolding connect
connect-SameConnections env w = ground arith

-- A constructed client, with the handlers of the policies, is well-formed in every state that its
-- own steps and the messages of its sockets lead to, in any interleaving. An insertion only reorders
-- the map.
pub construct-IsWellFormed :
    {P : Type 0} (env : Env) (policy : Policy P) (api_key secret_key : Bytes) (w : World)
    → Rehashes env.sockets
    → Reaches env (run_open env) (construct env policy api_key secret_key).1 w
    → IsWellFormed w
unfolding construct
construct-IsWellFormed env policy api_key secret_key w r reached =
    let empty = blank policy.rest_host api_key secret_key in
    Reaches-IsWellFormed env (run_open env) r (run_open-LeaveConnections env) reached (
      by_same empty _ (connect-SameConnections env empty)
        (record { entries = tt; keys = tt; ids = tt; pending = tt }))
