-- ===== src/Binance/Feeds/Paths.antt =====
-- The paths of the market data feeds.
use crypto_con.Base.{
  ℕ, Bytes, codes, List, [], ◌∷◌, ◌++◌, append-nil, append_assoc, map, some, ◌≡◌, ◌≢◌, refl, sym,
  ap, ◌∙◌, subst,
}
use crypto_con.Types.{TokenPair}
use crypto_con.Types.StdMap.{find, index, token_pair_key, text_key}
use crypto_con.Types.TableLaws.{index_stable}
use crypto_con.Utils.Lower.{to_lower}
use crypto_con.World.{World, Env, no_op}
use crypto_con.Exec.{Outcome, ok}
use crypto_con.Websocket.{new_connection, url_of, connect_endpoint}
use crypto_con.Websocket.Changes.{Rehashes}
use crypto_con.Websocket.Invariant.{IsWellFormed}
use crypto_con.Websocket.Steps.{by_same}
use crypto_con.Websocket.Operations.{connect_endpoint-find}
use crypto_con.Binance.Endpoints.{binance_symbol}
use crypto_con.Binance.Feeds.{
  append_streams, feed_path, stream_host, connect_feed, connect_depth_feed, connect_trade_feed,
}

abbrev Pairs : Type 0
Pairs = List (TokenPair × Bytes)

-- The stream that the exchange has for a token.
abbrev pub stream_name : Bytes → Pairs → TokenPair → Bytes
stream_name stream m token = to_lower (index token m).0 ++ stream

abbrev slashed : List Bytes → Bytes
slashed [] = []
slashed (s ∷ l) = codes "/" ++ (s ++ slashed l)

-- Names with slashes between them.
abbrev pub joined : List Bytes → Bytes
joined [] = []
joined (s ∷ l) = s ++ slashed l

-- The path of one stream, and of several combined.
abbrev pub path_of : List Bytes → Bytes
path_of [] = codes "/stream?streams="
path_of (s ∷ []) = codes "/ws/" ++ s
path_of (s ∷ t ∷ l) = codes "/stream?streams=" ++ joined (s ∷ t ∷ l)

stable_names :
    (stream : Bytes) (t : TokenPair) (m : Pairs) (tokens : List TokenPair)
    → map (stream_name stream (index t m).1) tokens ≡ map (stream_name stream m) tokens
stable_names stream t m [] = refl
stable_names stream t m (s ∷ l) =
    cc (ap (λ (n : Bytes). to_lower n ++ stream) (index_stable t s m), stable_names stream t m l)

-- Only the symbol map may change.
abbrev pub OnlyPairs : World → World → Type 0
OnlyPairs w w' = w' ≡ record w { binance_pairs = w'.binance_pairs }

append_streams_lem :
    (stream s : Bytes) (tokens : List TokenPair) (w : World)
    → let (r, w') = append_streams stream s (codes "/") tokens w in
      (r ≡ ok (s ++ slashed (map (stream_name stream w.binance_pairs) tokens))) × OnlyPairs w w'
unfolding append_streams binance_symbol
append_streams_lem stream s [] w = (ap ok (sym (append-nil s)), refl)
append_streams_lem stream s (t ∷ tokens) w =
    let name = stream_name stream w.binance_pairs t in
    let rest = slashed (map (stream_name stream w.binance_pairs) tokens) in
    let next = record w { binance_pairs = (index t w.binance_pairs).1 } in
    let (text, same) = append_streams_lem stream (s ++ codes "/" ++ name) tokens next in
    (
      text
          ∙ ap (λ l. ok (s ++ codes "/" ++ name ++ slashed l))
              (stable_names stream t w.binance_pairs tokens)
          ∙ ap ok
              (append_assoc (s ++ codes "/") name rest ∙ append_assoc s (codes "/") (name ++ rest)),
      same,
    )

pub feed_path_lem :
    (stream : Bytes) (tokens : List TokenPair) (w : World)
    → let (r, w') = feed_path stream tokens w in
      (r ≡ ok (path_of (map (stream_name stream w.binance_pairs) tokens))) × OnlyPairs w w'
unfolding feed_path append_streams binance_symbol
feed_path_lem stream [] w = (refl, refl)
feed_path_lem stream (t ∷ []) w = (refl, refl)
feed_path_lem stream (t ∷ s ∷ tokens) w =
    let next = record w { binance_pairs = (index t w.binance_pairs).1 } in
    let (text, same) =
      append_streams_lem stream (codes "/stream?streams=" ++ stream_name stream w.binance_pairs t)
        (s ∷ tokens) next in
    (
      text
          ∙ ap
              (λ l.
                ok (codes "/stream?streams=" ++ stream_name stream w.binance_pairs t ++ slashed l))
              (stable_names stream t w.binance_pairs (s ∷ tokens)),
      same,
    )

-- A connection to this path of the stream host is made, with this callback.
abbrev pub IsFed : List Bytes → ℕ → World → Outcome (Unit {0}) × World → Type 0
IsFed streams callback w (r, w') =
    let url = url_of stream_host (path_of streams) in
    (r ≡ ok tt)
    × (find url w'.ws.connections ≡ some (new_connection w.ws.next_id callback url no_op))
    × ((k : Bytes) → k ≢ url → find k w'.ws.connections ≡ find k w.ws.connections)

module _ (env : Env) (r : Rehashes env.sockets) (callback : ℕ) (w : World)
    (h : IsWellFormed w) where
  connect_after :
      (streams : List Bytes) (w' : World)
      → OnlyPairs w w'
      → IsFed streams callback w
          (connect_endpoint env callback stream_host (path_of streams) no_op w')
  connect_after streams w' same =
      let v = record w { binance_pairs = w'.binance_pairs } in
      let (done, found, others, _) =
        connect_endpoint-find env callback stream_host (path_of streams) no_op v r
          (by_same w v (refl, refl, refl) h) in
      subst
        (λ x.
          IsFed streams callback w
            (connect_endpoint env callback stream_host (path_of streams) no_op x))
        (sym same) (done, found, others)

  connect_feed-IsFed :
      (stream : Bytes) (tokens : List TokenPair)
      → IsFed
          (map (stream_name stream w.binance_pairs) tokens)
          callback
          w
          (connect_feed env stream tokens callback w)
  connect_feed-IsFed stream tokens =
      let (path, same) = feed_path_lem stream tokens w in
      rw (path) (connect_after (map (stream_name stream w.binance_pairs) tokens) _ same)

  -- The depth and the trade feed connect the stream host at the path of the streams of the tokens,
  -- in their order and in lower case: one stream alone, or several separated by slashes. The
  -- connections to other URLs stay. The client is well-formed, and an insertion only reorders the
  -- map.
  pub feeds-IsFed :
      (tokens : List TokenPair)
      → IsFed
          (map (stream_name (codes "@depth") w.binance_pairs) tokens)
          callback
          w
          (connect_depth_feed env tokens callback w)
        × IsFed
            (map (stream_name (codes "@aggTrade") w.binance_pairs) tokens)
            callback
            w
            (connect_trade_feed env tokens callback w)
  unfolding connect_depth_feed connect_trade_feed
  feeds-IsFed tokens =
      (connect_feed-IsFed (codes "@depth") tokens, connect_feed-IsFed (codes "@aggTrade") tokens)
