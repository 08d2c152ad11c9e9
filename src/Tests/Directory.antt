-- ===== src/Tests/Directory.antt =====
-- The WebSocket client against its directory, and in two orders of its map.
use mathlib.Core.List.Permᴰ
use crypto_con.Base.{Bytes, codes, true, false, List, [], ◌∷◌, none, some, ◌≡◌, refl, Permᴰ}
use crypto_con.World.{no_op}
use crypto_con.Exec.{ok}
use crypto_con.Websocket.{Connections}
use crypto_con.Websocket.Events.{Message}
use crypto_con.Websocket.Changes.{Rehashes}
use crypto_con.Websocket.Directory.{SocketCall, call_sockets, view}
use crypto_con.Websocket.Directory.Refines.{Serves, call_sockets-promises}
use crypto_con.Websocket.Directory.Order.{reorder, reordered, call_sockets-reordered}
use crypto_con.Tests.Fixtures.{env, sockets, start, rehashes, start-IsWellFormed}

-- The two newest connections the other way round.
abbrev newest_second : Connections → Connections
newest_second [] = []
newest_second (a ∷ []) = a ∷ []
newest_second (a ∷ b ∷ m) = b ∷ a ∷ m

newest_second-Rehashes : Rehashes (reorder newest_second sockets)
newest_second-Rehashes [] = Permᴰ.nil
newest_second-Rehashes (a ∷ []) = Permᴰ.refl (a ∷ [])
newest_second-Rehashes (a ∷ b ∷ m) = Permᴰ.swap refl refl

abbrev url : Bytes
url = codes "wss://a/b"

abbrev session : List SocketCall
session =
    SocketCall.connect 3 (codes "a") (codes "/b") no_op
    ∷ SocketCall.connect 4 (codes "c") (codes "/d") no_op
    ∷ SocketCall.hears 0 3 url Message.«open»
    ∷ SocketCall.send_to url (codes "hello")
    ∷ SocketCall.hears 1 4 (codes "wss://c/d") (Message.message (codes "tick"))
    ∷ SocketCall.disconnect_from url
    ∷ SocketCall.send_to url (codes "again")
    ∷ SocketCall.asks (codes "wss://c/d")
    ∷ []

call_sockets-promises_example : Serves env session start
call_sockets-promises_example = call_sockets-promises env session start rehashes start-IsWellFormed

call_sockets-reordered_example :
    ((call_sockets env session start).0
      ≡ (call_sockets (reordered newest_second env) session start).0)
    × (view (call_sockets env session start).1
        ≡ view (call_sockets (reordered newest_second env) session start).1)
call_sockets-reordered_example =
    call_sockets-reordered env newest_second session start start rehashes newest_second-Rehashes
      start-IsWellFormed start-IsWellFormed refl

answers :
    (call_sockets env session start).0
    ≡ ok (none ∷ none ∷ none ∷ some true ∷ none ∷ none ∷ some false ∷ some true ∷ [])
answers = call_sockets-promises_example.0
