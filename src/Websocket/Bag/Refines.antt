-- ===== src/Websocket/Bag/Refines.antt =====
-- The operations of src/websocket/client.cpp do to the bag of connections what they should.
use mathlib.Core.Quot
use crypto_con.Base.{
  ℕ, ◌+◌, Bytes, List, [], ◌∷◌, Option, none, some, ◌≡◌, refl, sym, ap, ◌∙◌, keep, map,
  Option-cases, inl, inr,
}
use crypto_con.Types.StdMap.{find, text_key}
use crypto_con.World.{
  Thrown, std_exception, other_exception, World, Env, Connection, OnOpen, ReadyState, no_op,
}
use crypto_con.Clients.{run_open}
use crypto_con.Clients.Handlers.{run_open-Settles, run_open-LeaveConnections}
use crypto_con.Clients.Subscription.{opened_runs}
use crypto_con.Websocket.{new_connection, url_of, connect_endpoint, disconnect, disconnect_all}
use crypto_con.Websocket.Events.{Message, on_message, call_on, deliver}
use crypto_con.Websocket.Loop.{wait_turn}
use crypto_con.Websocket.Changes.{Rehashes}
use crypto_con.Websocket.Invariant.{
  IsWellFormed, disconnect-Shrinks, disconnect_all-Shrinks, wait_turn-Shrinks, Shrinks-IsWellFormed,
}
use crypto_con.Websocket.Steps.{on_message-IsWellFormed}
use crypto_con.Websocket.Operations.{find-IsEntry}
use crypto_con.Websocket.Wait.{wait_turn-alive}
use crypto_con.Websocket.Directory.Refines.{connect-Keeps}
use crypto_con.Websocket.Changes.{missing_keys}
use crypto_con.Websocket.Bag.{
  size, filter, put, mark_open, is_other, Change, Crowd, change, changes, standing, apply,
  apply_all, crowd_of, opened_entry,
}
use crypto_con.Websocket.Bag.Unordered.{
  keep_others, erase-keep, assign-Perm, open_each-map, alive-keep,
}

-- The change is that of the bag, and the client stays well-formed.
abbrev pub Follows : Env → Change → World → Type 0
Follows env c w = (crowd_of (apply env c w) ≡ change c (crowd_of w)) × IsWellFormed (apply env c w)

module _ (env : Env) (w : World) (h : IsWellFormed w) where
  connects-Follows :
      (callback : ℕ) (host path : Bytes) (on_open : OnOpen)
      → Rehashes env.sockets
      → Follows env (Change.connects callback host path on_open) w
  unfolding connect_endpoint put filter
  connects-Follows callback host path on_open r =
      let url = url_of host path in
      let entry = new_connection w.ws.next_id callback url on_open in
      (
        ap (λ b. record { bag = b; next_id = w.ws.next_id + 1 })
            (Quot.sound (assign-Perm url entry env.sockets w.ws.connections r h.keys)),
        (connect-Keeps env w h callback host path on_open r).2,
      )

  disconnect-keep :
      (url : Bytes) → (disconnect url w).ws.connections ≡ keep (is_other url) w.ws.connections
  unfolding disconnect
  disconnect-keep url = elim (Option-cases (find url w.ws.connections)) [
    | inl missing ↦ rw missing (
        sym (
          keep_others url w.ws.connections
            (missing_keys url (new_connection 0 0 url no_op) w.ws.connections missing)))
    | inr (c, found) ↦
        rw (found, (find-IsEntry w url c h found).socket) (erase-keep url w.ws.connections h.keys)
  ]

  opened_map :
      (c : Connection)
      → (on_message env (run_open env) c Message.«open» w).1.ws.connections
        ≡ map (opened_entry c.id) w.ws.connections
  opened_map c =
      ap (λ (v : World). v.ws.connections) (opened_runs env c w)
      ∙ (run_open-Settles env c.on_open c.endpoint _).1.0
      ∙ open_each-map c.id w.ws.connections

  opened_next :
      (c : Connection)
      → (on_message env (run_open env) c Message.«open» w).1.ws.next_id ≡ w.ws.next_id
  opened_next c =
      ap (λ (v : World). v.ws.next_id) (opened_runs env c w)
      ∙ (run_open-Settles env c.on_open c.endpoint _).1.2

  heard-crowd :
      (c : Connection) (o : Option Thrown) (text : Bytes)
      → crowd_of (call_on env c o (deliver env c text w)).1 ≡ crowd_of w
  heard-crowd c none text = refl
  heard-crowd c (some (std_exception m)) text = refl
  heard-crowd c (some other_exception) text = refl

  hears-crowd :
      (c : Connection) (m : Message)
      → crowd_of (on_message env (run_open env) c m w).1 ≡ change (Change.hears c m) (crowd_of w)
  unfolding on_message mark_open
  hears-crowd c (Message.message text) = heard-crowd c (env.sockets.callback c.callback text) text
  hears-crowd c Message.«open» = rw (opened_map c, opened_next c) refl
  hears-crowd c (Message.close code reason) = refl
  hears-crowd c (Message.error reason) = refl
  hears-crowd c Message.ping = refl
  hears-crowd c Message.pong = refl
  hears-crowd c Message.fragment = refl

  turns-crowd :
      (state : ℕ → ReadyState)
      → crowd_of (wait_turn (standing state env) w) ≡ change (Change.turns state) (crowd_of w)
  unfolding filter
  turns-crowd state =
      rw
        (
          wait_turn-alive (standing state env) state w h (λ i id le. refl)
              ∙ alive-keep state w.ws.connections,
          (wait_turn-Shrinks (standing state env) w).next_id,
        )
        refl

  apply-Follows : (c : Change) → Rehashes env.sockets → Follows env c w
  unfolding filter disconnect_all
  apply-Follows (Change.connects callback host path on_open) r =
      connects-Follows callback host path on_open r
  apply-Follows (Change.disconnects url) r = (
    rw (disconnect-keep url, (disconnect-Shrinks url w).next_id) refl,
    Shrinks-IsWellFormed w _ (disconnect-Shrinks url w) h,
  )
  apply-Follows Change.disconnects_all r = (
    rw ((disconnect_all-Shrinks w).next_id) refl,
    Shrinks-IsWellFormed w _ (disconnect_all-Shrinks w) h,
  )
  apply-Follows (Change.hears c m) r = (
    hears-crowd c m,
    on_message-IsWellFormed env (run_open env) (run_open-LeaveConnections env) c m w h,
  )
  apply-Follows (Change.turns state) r =
      (turns-crowd state, Shrinks-IsWellFormed w _ (wait_turn-Shrinks (standing state env) w) h)

-- The counts and the map at the end are those of the bag.
abbrev pub Counts : Env → List Change → World → Type 0
Counts env cs w =
    let (counts, w') = apply_all env cs w in
    let (sizes, d) = changes cs (crowd_of w) in
    (counts ≡ sizes) × (crowd_of w' ≡ d) × IsWellFormed w'

counted-Counts :
    (env : Env) (c : Change) (cs : List Change) (w : World)
    → crowd_of (apply env c w) ≡ change c (crowd_of w)
    → Counts env cs (apply env c w)
    → Counts env (c ∷ cs) w
unfolding size
counted-Counts env c cs w e (counts, shown, h) =
    (cc (ap (λ (d : Crowd). size d.bag) e, counts), shown ∙ ap (λ d. (changes cs d).1) e, h)

-- The map of the client is a bag: after any sequence of connections, disconnections, messages of
-- sockets with the on-open handlers of the policies, and turns of `wait`, it has the connections
-- that these changes leave of its bag, and `connectionCount` is the size of the bag after each of
-- them, in whatever order the map is. Connecting replaces the connection of the same URL, an opened
-- connection is marked, and a turn of `wait` takes those that have been open and are closed. The
-- client is well-formed at first, an insertion only reorders the map, and the sockets stay in their
-- states during a turn.
pub apply_all-Counts :
    (env : Env) (cs : List Change) (w : World)
    → Rehashes env.sockets
    → IsWellFormed w
    → Counts env cs w
apply_all-Counts env [] w r h = (refl, refl, h)
apply_all-Counts env (c ∷ cs) w r h =
    let (shown, h') = apply-Follows env w h c r in
    counted-Counts env c cs w shown (apply_all-Counts env cs (apply env c w) r h')
