-- ===== src/Examples/Uncaught.antt =====
-- The programs under examples/ when the host of their REST client cannot be reached.
use crypto_con.Base.{
  Bytes, codes, List, [], none, some, true, false, Option-cases, Bool-cases, ◌≡◌, refl, ◌⊎◌, inl,
  inr,
}
use crypto_con.Utils.Double.{Double}
use crypto_con.World.{World, Env, Network}
use crypto_con.Exec.{throw, system_error}
use crypto_con.Rest.{connect, connect_steps, count_connect}
use crypto_con.Rest.Exchange.{Connects}
use crypto_con.Kraken
use crypto_con.Clients.{blank, construct}
use crypto_con.Examples.{binance_trade_feed_mixin, kraken_trade_feed, Ending}

-- The first step of the first connection that fails, and the text of its error.
pub data FirstFailure (net : Network) : Bytes → Type 0 where
  unresolved : {m : Bytes} → net.resolve 0 ≡ some m → FirstFailure net m
  refused : {m : Bytes} → net.resolve 0 ≡ none → net.tcp 0 ≡ some m → FirstFailure net m
  unnamed :
      net.resolve 0 ≡ none
      → net.tcp 0 ≡ none
      → net.server_name 0 ≡ false
      → FirstFailure net (net.ssl_error 0)
  broken :
      {m : Bytes}
      → net.resolve 0 ≡ none
      → net.tcp 0 ≡ none
      → net.server_name 0 ≡ true
      → net.handshake 0 ≡ some m
      → FirstFailure net m

-- The exception of the connection, if one of its steps fails.
abbrev Fails : Network → Type 0
Fails net =
    (m : Bytes) × FirstFailure net m
    × ((w : World) → connect_steps net 0 w ≡ (throw (system_error m), w))

connection_outcome : (net : Network) → Connects net 0 ⊎ Fails net
connection_outcome net = elim (Option-cases (net.resolve 0)) [
  | inr (m, e) ↦ inr (m, unresolved e, λ w. rw e refl)
  | inl resolved ↦ elim (Option-cases (net.tcp 0)) [
    | inr (m, e) ↦ inr (m, refused resolved e, λ w. rw (resolved, e) refl)
    | inl connected ↦ elim (Bool-cases (net.server_name 0)) [
      | inr e ↦
          inr (net.ssl_error 0, unnamed resolved connected e, λ w. rw (resolved, connected, e) refl)
      | inl named ↦ elim (Option-cases (net.handshake 0)) [
        | inr (m, e) ↦
            inr (m, broken resolved connected named e, λ w. rw (resolved, connected, named, e) refl)
        | inl shaken ↦
            inl (record {
              resolved = resolved;
              connected = connected;
              named = named;
              shaken = shaken;
            })
      ]
    ]
  ]
]

-- The state in which a program without keys ends: a failed connection, and no socket or request.
abbrev pub unreached : Bytes → World
unreached host = count_connect (blank host [] [])

-- Whatever the network does, the REST client connects, or both programs end at once with the
-- exception of the first step that failed, with its text, which nothing catches: without a request, and without a socket
-- for the public feed that they are after.
pub programs_uncaught :
    (W : Type 0) ⦃d : Double W⦄ (env : Env) (sleeps : List (World → World))
    → Connects env.network 0
      ⊎ ((m : Bytes) × FirstFailure env.network m
          × (binance_trade_feed_mixin env W sleeps
              ≡ Ending.uncaught (system_error m) (unreached (codes "testnet.binance.vision")))
          × (kraken_trade_feed env W sleeps
              ≡ Ending.uncaught (system_error m) (unreached Kraken.rest_host)))
unfolding binance_trade_feed_mixin kraken_trade_feed construct connect
programs_uncaught W env sleeps = elim (connection_outcome env.network) [
  | inl connects ↦ inl connects
  | inr (m, first, fails) ↦ inr (
    m,
    first,
    rw (fails (unreached (codes "testnet.binance.vision"))) refl,
    rw (fails (unreached Kraken.rest_host)) refl,
  )
]
