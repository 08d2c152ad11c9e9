-- ===== src/Websocket/Bag.antt =====
-- The `unordered_map` of src/websocket/client.cpp as a bag: a list of connections up to its order, and
-- what each operation of the client does to the bag.
pub mod Unordered
pub mod Refines
use mathlib.Core.Quot
use mathlib.Core.Quot.{Quot, Quot-set}
use crypto_con.Base.{
  ℕ, ◌+◌, Bytes, ◌≡◌, Bool, not, ◌&&◌, List, [], ◌∷◌, map, Permᴰ, keep, keep-Perm, length,
  length-Perm, text_eq,
}
use mathlib.Core.List.Permᴰ
use crypto_con.World.{World, Env, Connection, OnOpen, ReadyState, closed}
use crypto_con.Exec.{Exec}
use crypto_con.Clients.{run_open}
use crypto_con.Websocket.{
  Connections, new_connection, url_of, connect_endpoint, disconnect, disconnect_all, is_state,
  connection_count,
}
use crypto_con.Websocket.Events.{Message, on_message, open_if}
use crypto_con.Websocket.Loop.{wait_turn}

abbrev pub Bag : Type 0
Bag = Quot (λ (m n : Connections). Permᴰ m n)

abbrev pub bag_of : Connections → Bag
bag_of m = Quot.mk m

-- The number of connections.
unfoldable pub size : Bag → ℕ
size = Quot.lift (hlevel) length (λ m n p. length-Perm p)

abbrev over :
    (f : Connections → Connections)
    → ((m n : Connections) → Permᴰ m n → Permᴰ (f m) (f n))
    → Bag
    → Bag
over f respects = Quot.lift Quot-set (λ m. bag_of (f m)) (λ m n p. Quot.sound (respects m n p))

-- The connections that pass a test.
unfoldable pub filter : (Bytes × Connection → Bool) → Bag → Bag
filter p = over (keep p) (λ m n h. keep-Perm p h)

-- One more connection.
unfoldable pub put : Bytes × Connection → Bag → Bag
put e = over (λ m. e ∷ m) (λ m n h. Permᴰ.cons (λ i. e) h)

abbrev pub opened_entry : ℕ → Bytes × Connection → Bytes × Connection
opened_entry id (k, c) = (k, open_if id c)

-- `was_open` of the connection with this id.
unfoldable pub mark_open : ℕ → Bag → Bag
mark_open id = over (map (opened_entry id)) (λ m n h. Permᴰ.map (opened_entry id) h)

abbrev pub is_other : Bytes → Bytes × Connection → Bool
is_other url e = not (text_eq url e.0)

-- Not at once once open and now closed.
abbrev pub is_alive : (ℕ → ReadyState) → Bytes × Connection → Bool
is_alive state e = not (e.1.was_open && is_state (state e.1.id) closed)

-- What changes the map: the operations, the messages of sockets with the handlers of the policies,
-- and a turn of `wait` during which the sockets are in these states.
pub data Change : Type 0 where
  connects : ℕ → Bytes → Bytes → OnOpen → Change
  disconnects : Bytes → Change
  disconnects_all : Change
  hears : Connection → Message → Change
  turns : (ℕ → ReadyState) → Change

-- The bag, and the id of the next connection.
pub record Crowd : Type 0 where
  pub bag : Bag
  pub next_id : ℕ

abbrev hear : ℕ → Message → Bag → Bag
hear id Message.«open» b = mark_open id b
hear id m b = b

abbrev pub change : Change → Crowd → Crowd
change (Change.connects callback host path on_open) d =
    let url = url_of host path in
    record {
      bag = put (url, new_connection d.next_id callback url on_open) (filter (is_other url) d.bag);
      next_id = d.next_id + 1;
    }
change (Change.disconnects url) d = record d { bag = filter (is_other url) d.bag }
change Change.disconnects_all d = record d { bag = bag_of [] }
change (Change.hears c m) d = record d { bag = hear c.id m d.bag }
change (Change.turns state) d = record d { bag = filter (is_alive state) d.bag }

-- The bag after the changes, and its size after each of them.
abbrev pub changes : List Change → Crowd → List ℕ × Crowd
changes [] d = ([], d)
changes (c ∷ cs) d =
    let next = change c d in let rest = changes cs next in (size next.bag ∷ rest.0, rest.1)

abbrev pub standing : (ℕ → ReadyState) → Env → Env
standing state env = record env { sockets = record env.sockets { ready = λ n. state } }

-- The change on the client.
abbrev pub apply : Env → Change → World → World
apply env (Change.connects callback host path on_open) w =
    (connect_endpoint env callback host path on_open w).1
apply env (Change.disconnects url) w = disconnect url w
apply env Change.disconnects_all w = disconnect_all w
apply env (Change.hears c m) w = (on_message env (run_open env) c m w).1
apply env (Change.turns state) w = wait_turn (standing state env) w

abbrev pub apply_all : Env → List Change → World → List ℕ × World
apply_all env [] w = ([], w)
apply_all env (c ∷ cs) w =
    let next = apply env c w in
    let rest = apply_all env cs next in (connection_count next ∷ rest.0, rest.1)

-- What is seen of a client: its map without an order, and its next id.
abbrev pub crowd_of : World → Crowd
crowd_of w = record { bag = bag_of w.ws.connections; next_id = w.ws.next_id }
