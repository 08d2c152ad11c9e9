-- ===== src/Kraken/Trades.antt =====
-- The subscription to the trades of Kraken.
use crypto_con.Base.{
  ℕ, Bytes, codes, List, [], ◌∷◌, ◌++◌, append-nil, append_assoc, map, some, ◌≡◌, ◌≢◌, refl, sym,
  ap, subst, ◌∙◌,
}
use crypto_con.Types.{TokenPair}
use crypto_con.Types.StdMap.{find, index, token_pair_key, text_key}
use crypto_con.Types.TableLaws.{index_stable}
use crypto_con.World.{World, Env, kraken_trades}
use crypto_con.Exec.{Outcome, ok}
use crypto_con.Websocket.{connect_endpoint, new_connection}
use crypto_con.Websocket.Changes.{Rehashes}
use crypto_con.Websocket.Invariant.{IsWellFormed}
use crypto_con.Websocket.Steps.{by_same}
use crypto_con.Websocket.Operations.{connect_endpoint-find}
use crypto_con.Kraken.{ws_host, append_pairs, trade_subscription, connect_trade_feed}

abbrev pub Pairs : Type 0
Pairs = List (TokenPair × Bytes)

-- The name of a token in quotes.
abbrev pub quoted : Pairs → TokenPair → Bytes
quoted m token = codes "\"" ++ ((index token m).0 ++ codes "\"")

abbrev pub comma_list : List Bytes → Bytes
comma_list [] = []
comma_list (s ∷ l) = codes "," ++ (s ++ comma_list l)

-- The texts with commas between them.
abbrev pub listing : List Bytes → Bytes
listing [] = []
listing (s ∷ l) = s ++ comma_list l

-- The message that subscribes to the trades of the pairs.
abbrev pub trades_message : List Bytes → Bytes
trades_message names =
    codes "{\"event\":\"subscribe\",\"pair\":["
    ++ listing names
    ++ codes "],\"subscription\":{\"name\":\"trade\"}}"

stable_names :
    (t : TokenPair) (m : Pairs) (tokens : List TokenPair)
    → map (quoted (index t m).1) tokens ≡ map (quoted m) tokens
stable_names t m [] = refl
stable_names t m (s ∷ l) =
    cc
      (ap (λ (n : Bytes). codes "\"" ++ (n ++ codes "\"")) (index_stable t s m), stable_names t m l)

-- Only the symbol map may change.
abbrev pub OnlyPairs : World → World → Type 0
OnlyPairs w w' = w' ≡ record w { kraken_pairs = w'.kraken_pairs }

reassociate : (s c q n r : Bytes) → s ++ c ++ q ++ n ++ q ++ r ≡ s ++ (c ++ ((q ++ (n ++ q)) ++ r))
reassociate s c q n r = simp (append_assoc)

append_pairs_lem :
    (s : Bytes) (tokens : List TokenPair) (w : World)
    → let (r, w') = append_pairs s (codes ",") tokens w in
      (r ≡ ok (s ++ comma_list (map (quoted w.kraken_pairs) tokens))) × OnlyPairs w w'
unfolding append_pairs
append_pairs_lem s [] w = (ap ok (sym (append-nil s)), refl)
append_pairs_lem s (t ∷ tokens) w =
    let name = (index t w.kraken_pairs).0 in
    let rest = comma_list (map (quoted w.kraken_pairs) tokens) in
    let next = record w { kraken_pairs = (index t w.kraken_pairs).1 } in
    let (text, same) =
      append_pairs_lem (s ++ codes "," ++ codes "\"" ++ name ++ codes "\"") tokens next in
    (
      text
          ∙ ap (λ l. ok (s ++ codes "," ++ codes "\"" ++ name ++ codes "\"" ++ comma_list l))
              (stable_names t w.kraken_pairs tokens)
          ∙ ap ok (reassociate s (codes ",") (codes "\"") name rest),
      same,
    )

abbrev pub start_text : Bytes
start_text = codes "{\"event\":\"subscribe\",\"pair\":["

pub trade_subscription_lem :
    (tokens : List TokenPair) (w : World)
    → let (r, w') = trade_subscription tokens w in
      (r ≡ ok (trades_message (map (quoted w.kraken_pairs) tokens))) × OnlyPairs w w'
unfolding trade_subscription append_pairs
trade_subscription_lem [] w = (refl, refl)
trade_subscription_lem (t ∷ tokens) w =
    let next = record w { kraken_pairs = (index t w.kraken_pairs).1 } in
    let (text, same) = append_pairs_lem (start_text ++ quoted w.kraken_pairs t) tokens next in
    rw (text, stable_names t w.kraken_pairs tokens) (refl, same)

-- Kraken's host is connected, with a handler that holds the message for these names.
abbrev pub IsTraded : List Bytes → ℕ → World → Outcome (Unit {0}) × World → Type 0
IsTraded names callback w (r, w') =
    let url = codes "wss://ws.kraken.com" in
    (r ≡ ok tt)
    × (find url w'.ws.connections
        ≡ some (new_connection w.ws.next_id callback url (kraken_trades (trades_message names))))
    × ((k : Bytes) → k ≢ url → find k w'.ws.connections ≡ find k w.ws.connections)

module _ (env : Env) (r : Rehashes env.sockets) (callback : ℕ) (w : World)
    (h : IsWellFormed w) where
  connect_after :
      (names : List Bytes) (w' : World)
      → OnlyPairs w w'
      → IsTraded names callback w
          (connect_endpoint env callback ws_host [] (kraken_trades (trades_message names)) w')
  connect_after names w' same =
      let v = record w { kraken_pairs = w'.kraken_pairs } in
      let (done, found, others, _) =
        connect_endpoint-find env callback ws_host [] (kraken_trades (trades_message names)) v r
          (by_same w v (refl, refl, refl) h) in
      subst
        (λ x.
          IsTraded names callback w
            (connect_endpoint env callback ws_host [] (kraken_trades (trades_message names)) x))
        (sym same) (done, found, others)

  -- `connectTradeFeed` connects to Kraken's host, with no path, and its on-open handler holds the
  -- message that subscribes to the trades of the tokens, in their order. The connections to other URLs
  -- stay. The client is well-formed, and an insertion only reorders the map.
  pub connect_trade_feed-IsTraded :
      (tokens : List TokenPair)
      → IsTraded
          (map (quoted w.kraken_pairs) tokens)
          callback
          w
          (connect_trade_feed env tokens callback w)
  unfolding connect_trade_feed
  connect_trade_feed-IsTraded tokens =
      let (message, same) = trade_subscription_lem tokens w in
      rw (message) (connect_after (map (quoted w.kraken_pairs) tokens) _ same)
