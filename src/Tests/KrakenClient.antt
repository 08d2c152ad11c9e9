-- ===== src/Tests/KrakenClient.antt =====
-- A client of Kraken.
use crypto_con.Base.{ℕ, List, [], ◌∷◌, map, none, ◌≡◌, refl}
use crypto_con.Types.{TokenPair, SpotParams}
use crypto_con.Kraken
use crypto_con.Kraken.Trades.{quoted, trades_message}
use crypto_con.Kraken.Receives.{receive_trades, receive_trades-message}
use crypto_con.Clients.{Policy, kraken}
use crypto_con.Tests.Fixtures.{whole, env, start}

abbrev client : Policy (SpotParams ℕ)
client = kraken env

abbrev both : List TokenPair
both = TokenPair.btcusd ∷ TokenPair.ethusd ∷ []

unlisted_refused :
    receive_trades (trades_message (map (quoted start.kraken_pairs) (TokenPair.none ∷ both))) ≡ none
unlisted_refused = receive_trades-message start.kraken_pairs (TokenPair.none ∷ both) (λ t. refl)
