-- ===== src/System/Symbols.antt =====
-- What the feeds read of the symbol maps stays in them, though `operator[]` may insert.
use crypto_con.Base.{ap, Bytes, codes, List, [], ◌∷◌, ◌++◌, ◌≡◌, refl, ◌∙◌}
use crypto_con.Types.{TokenPair}
use crypto_con.Types.StdMap.{index, token_pair_key}
use crypto_con.Types.TableLaws.{index_stable}
use crypto_con.Binance.Endpoints.{binance_symbol}
use crypto_con.System.Grows.{SameSymbols}
use crypto_con.World.{World}
use crypto_con.Exec.{Outcome, ok, throw, pure, continue}
use crypto_con.Binance.Feeds.{feed_path, append_streams}
use crypto_con.Binance.Feeds.Paths.{stream_name}
use crypto_con.Kraken.{append_pairs, trade_subscription}
use crypto_con.Kraken.Trades.{start_text}

append_streams-symbols :
    (stream s slash : Bytes) (tokens : List TokenPair) (w : World)
    → SameSymbols w (append_streams stream s slash tokens w).1
unfolding append_streams binance_symbol
append_streams-symbols stream s slash [] w = λ p. refl
append_streams-symbols stream s slash (t ∷ tokens) w = λ p.
    append_streams-symbols stream (s ++ slash ++ stream_name stream w.binance_pairs t) (codes "/")
      tokens (record w { binance_pairs = (index t w.binance_pairs).1 }) p
    ∙ index_stable t p w.binance_pairs

pub feed_path-symbols :
    (stream : Bytes) (tokens : List TokenPair) (w : World)
    → SameSymbols w (feed_path stream tokens w).1
unfolding feed_path append_streams binance_symbol
feed_path-symbols stream [] w = λ p. refl
feed_path-symbols stream (t ∷ []) w = λ p. index_stable t p w.binance_pairs
feed_path-symbols stream (t ∷ s ∷ tokens) w =
    append_streams-symbols stream (codes "/stream?streams=") [] (t ∷ s ∷ tokens) w

-- The same for the map of Kraken.
abbrev pub SameKraken : World → World → Type 0
SameKraken w w' = (t : TokenPair) → (index t w'.kraken_pairs).0 ≡ (index t w.kraken_pairs).0

append_pairs-symbols :
    (s comma : Bytes) (tokens : List TokenPair) (w : World)
    → SameKraken w (append_pairs s comma tokens w).1
unfolding append_pairs
append_pairs-symbols s comma [] w = λ p. refl
append_pairs-symbols s comma (t ∷ tokens) w = λ p.
    append_pairs-symbols (s ++ comma ++ codes "\"" ++ (index t w.kraken_pairs).0 ++ codes "\"")
      (codes ",") tokens (record w { kraken_pairs = (index t w.kraken_pairs).1 }) p
    ∙ index_stable t p w.kraken_pairs

continue-pure :
    (r : Outcome Bytes) (f : Bytes → Bytes) (w : World) → (continue r (λ s. pure (f s)) w).1 ≡ w
continue-pure (ok s) f w = refl
continue-pure (throw e) f w = refl

pub trade_subscription-symbols :
    (tokens : List TokenPair) (w : World) → SameKraken w (trade_subscription tokens w).1
unfolding trade_subscription
trade_subscription-symbols tokens w = λ p.
    ap (λ (x : World). (index p x.kraken_pairs).0)
      (continue-pure (append_pairs start_text [] tokens w).0 _
        (append_pairs start_text [] tokens w).1)
    ∙ append_pairs-symbols start_text [] tokens w p
