-- ===== src/Websocket/Wait.antt =====
-- When `wait` of the WebSocket client returns.
use crypto_con.Base.{
  ℕ, ◌≤◌, Bytes, true, false, ◌&&◌, List, [], ◌∷◌, ◌++◌, none, some, ◌≡◌, refl, ap, ◌∙◌, arith, All,
  Bool-cases, inl, inr, ◌⊎◌, text_eq, if◌then◌else◌,
}
use crypto_con.Types.StdMap.{find, text_key}
use crypto_con.World.{World, Env, Connection, ReadyState, closed}
use crypto_con.Websocket.{Connections, is_state, new_socket}
use crypto_con.Websocket.Loop.{sweep, dead, wait_turn, wait, is_empty_map}
use crypto_con.Websocket.Lookup.{found_head}
use crypto_con.Websocket.Invariant.{IsEntry, IsWellFormed}

-- The connections that are not, at once, once open and now closed.
abbrev pub alive : (ℕ → ReadyState) → Connections → Connections
alive state [] = []
alive state ((k, c) ∷ m) =
    let rest = alive state m in
    if c.was_open && is_state (state c.id) closed then rest else (k, c) ∷ rest

-- From the n-th question on, the sockets say that they are in these states.
abbrev pub SayFrom : Env → ℕ → (ℕ → ReadyState) → Type 0
SayFrom env n state = (i id : ℕ) → n ≤ i → env.sockets.ready i id ≡ state id

module _ (env : Env) (state : ℕ → ReadyState) where
  sweep-alive :
      (next : ℕ) (m : Connections) (w : World)
      → SayFrom env w.ws.polls state
      → All (λ e. IsEntry next e.0 e.1) m
      → (sweep env m w).0 ≡ alive state m
  unfolding sweep
  sweep-alive next [] w say h = refl
  sweep-alive next ((k, c) ∷ m) w say (h, hs) = elim (Bool-cases c.was_open) [
    | inl was ↦ elim (Bool-cases (is_state (state c.id) closed)) [
      | inl gone ↦
          rw (h.socket, was, say w.ws.polls c.id (omega arith), gone)
            (sweep-alive next m _ (λ i id le. say i id (omega (arith, le))) hs)
      | inr stays ↦
          rw (h.socket, was, say w.ws.polls c.id (omega arith), stays)
            (ap
              (λ (l : Connections). (k, record c { was_open = true; ws = some (new_socket k) }) ∷ l)
              (sweep-alive next m _ (λ i id le. say i id (omega (arith, le))) hs))
    ]
    | inr not_yet ↦
        rw (h.socket, not_yet)
          (ap
            (λ (l : Connections). (k, record c { was_open = false; ws = some (new_socket k) }) ∷ l)
            (sweep-alive next m w say hs))
  ]

  -- One turn of `wait` removes exactly the connections that have been open and are now closed, and
  -- keeps the others in their order. The client is well-formed and the states of the sockets stay
  -- during the turn.
  pub wait_turn-alive :
      (w : World)
      → IsWellFormed w
      → SayFrom env w.ws.polls state
      → (wait_turn env w).ws.connections ≡ alive state w.ws.connections
  unfolding wait_turn
  wait_turn-alive w h say = sweep-alive w.ws.next_id w.ws.connections w say h.entries

pub alive-All :
    (state : ℕ → ReadyState) (m : Connections)
    → All (λ e. (e.1.was_open ≡ true) × (state e.1.id ≡ closed)) m
    → alive state m ≡ []
alive-All state [] h = refl
alive-All state ((k, c) ∷ m) (h, hs) = rw (h.0, h.1) (alive-All state m hs)

empty_or_not : (m : Connections) → (m ≡ []) ⊎ (is_empty_map m ≡ false)
empty_or_not [] = inl refl
empty_or_not (e ∷ m) = inr refl

pub wait_empty :
    (env : Env) (sleeps : List (World → World)) (w : World)
    → w.ws.connections ≡ []
    → wait env sleeps w ≡ some w
unfolding wait
wait_empty env [] w e = rw (e) refl
wait_empty env (during ∷ sleeps) w e = rw (e) refl

-- The last turn.
wait_returns :
    (env : Env) (state : ℕ → ReadyState) (during : World → World) (sleeps : List (World → World))
    (w : World)
    → IsWellFormed (during w)
    → SayFrom env (during w).ws.polls state
    → All (λ e. (e.1.was_open ≡ true) × (state e.1.id ≡ closed)) (during w).ws.connections
    → (w' : World) × (wait env (during ∷ sleeps) w ≡ some w') × (w'.ws.connections ≡ [])
unfolding wait
wait_returns env state during sleeps w h say gone =
    let turned = wait_turn env (during w) in
    let cleared : turned.ws.connections ≡ [] =
      wait_turn-alive env state (during w) h say ∙ alive-All state (during w).ws.connections gone in
    let returned = wait_empty env sleeps turned cleared in
    elim (empty_or_not w.ws.connections) [
      | inl empty ↦ (w, wait_empty env (during ∷ sleeps) w empty, empty)
      | inr full ↦ rw (full) (turned, returned, cleared)
    ]

-- The state after some turns of the loop, with what other threads did during each sleep.
unfoldable pub turns : Env → List (World → World) → World → World
turns env [] w = w
turns env (during ∷ sleeps) w = turns env sleeps (wait_turn env (during w))

-- However long it takes, and whatever the other threads have done until then: if, after some sleep,
-- every connection of the map has been open and is closed, `wait` has returned by the end of that
-- turn, and with no connection. The client is well-formed after that sleep, and the states of the
-- sockets stay during the turn.
pub wait_finishes :
    (env : Env) (state : ℕ → ReadyState) (earlier : List (World → World)) (during : World → World)
    (sleeps : List (World → World)) (w : World)
    → let v = during (turns env earlier w) in
      IsWellFormed v
      → SayFrom env v.ws.polls state
      → All (λ e. (e.1.was_open ≡ true) × (state e.1.id ≡ closed)) v.ws.connections
      → (w' : World) × (wait env (earlier ++ during ∷ sleeps) w ≡ some w')
        × (w'.ws.connections ≡ [])
unfolding turns wait
wait_finishes env state [] during sleeps w h say gone =
    wait_returns env state during sleeps w h say gone
wait_finishes env state (next ∷ earlier) during sleeps w h say gone =
    elim (empty_or_not w.ws.connections) [
      | inl empty ↦ (w, wait_empty env (next ∷ earlier ++ during ∷ sleeps) w empty, empty)
      | inr full ↦
          rw full
            (wait_finishes env state earlier during sleeps (wait_turn env (next w)) h say gone)
    ]

-- A connection under this URL that has not been open yet.
abbrev pub Unopened : Bytes → World → Type 0
Unopened url w =
    (c : Connection) × (find url w.ws.connections ≡ some c)
    × (c.was_open ≡ false)
    × (c.ws ≡ some (new_socket url))

pub sweep-find :
    (env : Env) (url : Bytes) (c : Connection) (m : Connections) (w : World)
    → find url m ≡ some c
    → c.was_open ≡ false
    → c.ws ≡ some (new_socket url)
    → find url (sweep env m w).0 ≡ some c
unfolding sweep
sweep-find env url c [] w found shut socket = absurd (ground arith)
sweep-find env url c ((k, d) ∷ m) w found shut socket =
    elim (found_head (text_eq url k) d c (find url m) found) [
      | inl (same, e) ↦ rw (e, shut, socket, same) refl
      | inr (other, rest) ↦ elim (Bool-cases (dead env d w).0) [
        | inl gone ↦ rw (gone) (sweep-find env url c m _ rest shut socket)
        | inr stays ↦ rw (stays, other) (sweep-find env url c m _ rest shut socket)
      ]
    ]

wait_turn-Unopened :
    (env : Env) (url : Bytes) (w : World) → Unopened url w → Unopened url (wait_turn env w)
unfolding wait_turn
wait_turn-Unopened env url w (c, found, shut, socket) =
    (c, sweep-find env url c w.ws.connections w found shut socket, shut, socket)

pub is_empty_map-find :
    (url : Bytes) (m : Connections) (c : Connection) → find url m ≡ some c → is_empty_map m ≡ false
is_empty_map-find url [] c found = absurd (ground arith)
is_empty_map-find url (e ∷ m) c found = refl

-- `wait` does not return, however long it sleeps, while a connection stays that has not been open
-- (so it blocks for good on a URL that never answers).
pub wait_blocks :
    (env : Env) (url : Bytes) (sleeps : List (World → World)) (w : World)
    → All (λ during. (v : World) → Unopened url v → Unopened url (during v)) sleeps
    → Unopened url w
    → wait env sleeps w ≡ none
unfolding wait
wait_blocks env url [] w kept (c, found, shut, socket) =
    rw (is_empty_map-find url w.ws.connections c found) refl
wait_blocks env url (during ∷ sleeps) w (kept, later) (c, found, shut, socket) =
    rw (is_empty_map-find url w.ws.connections c found) (
      wait_blocks env url sleeps _ later
        (wait_turn-Unopened env url (during w) (kept w (c, found, shut, socket))))
