-- ===== src/Tests/Http.antt =====
-- The REST client over a network whose first write fails.
use crypto_con.Base.{codes, [], ◌∷◌, ◌≡◌, refl, some, inr}
use crypto_con.World.{Env, Request, get}
use crypto_con.Exec.{throw, system_error, caller}
use crypto_con.Rest.{exchange, request_empty}
use crypto_con.Rest.Exchange.{Exchanged, exchange-Exchanged, exchange_throws}
use crypto_con.Tests.Fixtures.{connects, env, start, network}

abbrev request : Request
request = request_empty get (codes "/api/v3/ping") [] start

exchange-Exchanged_example :
    Exchanged caller request start
      (network.write 0)
      (inr (codes "{}"))
      (exchange env request caller start)
exchange-Exchanged_example = exchange-Exchanged env request caller start (connects 1) (connects 2)

-- The name no longer resolves.
abbrev unplugged : Env
unplugged = record env { network = record network { resolve = λ n. some (codes "Host not found") } }

exchange_throws_example :
    let (r, w') = exchange unplugged request caller start in
    (r ≡ throw (system_error (codes "Host not found")))
    × (w'.caller_error.code ≡ 2)
    × (w'.dummy_error ≡ start.dummy_error)
    × (w'.rest.requests ≡ request ∷ [])
    × (w'.rest.reads ≡ 0)
exchange_throws_example = exchange_throws unplugged request caller start refl refl
