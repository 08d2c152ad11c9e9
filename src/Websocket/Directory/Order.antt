-- ===== src/Websocket/Directory/Order.antt =====
-- The order in which the `unordered_map` of src/websocket/client.cpp holds its connections.
use crypto_con.Base.{List, [], ◌∷◌, ◌≡◌, refl, Option-cases, inl, inr}
use crypto_con.World.{World, Env, Sockets}
use crypto_con.Websocket.{Connections}
use crypto_con.Websocket.Changes.{Rehashes}
use crypto_con.Websocket.Invariant.{IsWellFormed}
use crypto_con.Websocket.Directory.{Directory, SocketCall, promise, promises, call_sockets, view}
use crypto_con.Websocket.Directory.Refines.{call_sockets-promises}

-- The same surroundings with another order of iteration.
abbrev pub reorder : (Connections → Connections) → Sockets → Sockets
reorder rehash s = record s { rehash = rehash }

abbrev pub reordered : (Connections → Connections) → Env → Env
reordered rehash env = record env { sockets = reorder rehash env.sockets }

module _ (s : Sockets) (rehash : Connections → Connections) where
  promise-reorder :
      (c : SocketCall) (d : Directory) → promise (reorder rehash s) c d ≡ promise s c d
  promise-reorder (SocketCall.connect callback host path on_open) d = refl
  promise-reorder (SocketCall.send_to url text) d = elim (Option-cases (d.table url)) [
    | inl missing ↦ rw missing refl
    | inr (c, found) ↦ rw found refl
  ]
  promise-reorder (SocketCall.asks url) d = elim (Option-cases (d.table url)) [
    | inl missing ↦ rw missing refl
    | inr (c, found) ↦ rw found refl
  ]
  promise-reorder (SocketCall.disconnect_from url) d = refl
  promise-reorder SocketCall.disconnects_all d = refl
  promise-reorder (SocketCall.hears id callback url m) d = refl

  promises-reorder :
      (cs : List SocketCall) (d : Directory) → promises (reorder rehash s) cs d ≡ promises s cs d
  promises-reorder [] d = refl
  promises-reorder (c ∷ cs) d = rw (promise-reorder c d, promises-reorder cs (promise s c d).1) refl

-- Two clients that show the same directory, in surroundings that differ in the order of iteration
-- of the map alone, give the same answers to any list of connections, sends, questions and
-- disconnections by URL and of messages of feeds, and show the same directory after it. The clients
-- are well-formed and an insertion only reorders each map.
pub call_sockets-reordered :
    (env : Env) (rehash : Connections → Connections) (cs : List SocketCall) (v w : World)
    → Rehashes env.sockets
    → Rehashes (reorder rehash env.sockets)
    → IsWellFormed v
    → IsWellFormed w
    → view v ≡ view w
    → ((call_sockets env cs v).0 ≡ (call_sockets (reordered rehash env) cs w).0)
      × (view (call_sockets env cs v).1 ≡ view (call_sockets (reordered rehash env) cs w).1)
call_sockets-reordered env rehash cs v w r r' g h same =
    let (answers, shown, _) = call_sockets-promises env cs v r g in
    let (answers', shown', _) = call_sockets-promises (reordered rehash env) cs w r' h in
    let e = promises-reorder env.sockets rehash cs (view w) in
    (cc (answers, answers', same, e), cc (shown, shown', same, e))
