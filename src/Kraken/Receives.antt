-- ===== src/Kraken/Receives.antt =====
-- The exchange's side of the subscription to the trades of Kraken: it reads the names in the
-- message, in their order, and looks up the pair of each.
use crypto_con.Base.{
  ℕ, Bytes, codes, List, [], ◌∷◌, ◌++◌, append-nil, append_assoc, map, All, Option, none, some, ◌≡◌,
  refl, ap, ◌∙◌, arith, text_eq, if◌then◌else◌, ◌==◌, Lacks,
}
use crypto_con.Types.{TokenPair}
use crypto_con.Types.StdMap.{find, index, text_key, token_pair_key}
use crypto_con.Types.Tables.Kraken
use crypto_con.World.{World, Env}
use crypto_con.Websocket.Changes.{Rehashes}
use crypto_con.Websocket.Invariant.{IsWellFormed}
use crypto_con.Kraken.{connect_trade_feed}
use crypto_con.Kraken.Trades.{
  Pairs, quoted, comma_list, trades_message, start_text, IsTraded, connect_trade_feed-IsTraded,
}

abbrev with_head : {A : Type 0} → A → Option (List A) → Option (List A)
with_head a none = none
with_head a (some l) = some (a ∷ l)

-- What follows the names.
abbrev finish : Bytes → Option (List Bytes)
finish s = if text_eq s (codes ",\"subscription\":{\"name\":\"trade\"}}") then some [] else none

-- `in_name n`: n of a name has been read; `after_name` and `next_name`: before a comma or the end,
-- and before the name behind a comma.
unfoldable mutual
  in_name : Bytes → Bytes → Option (List Bytes)
  in_name n [] = none
  in_name n (c ∷ s) =
      let after = after_name s in
      let more = in_name (n ++ c ∷ []) s in if c == b'"' then with_head n after else more

  after_name : Bytes → Option (List Bytes)
  after_name [] = none
  after_name (c ∷ s) =
      let next = next_name s in if c == b',' then next else if c == b']' then finish s else none

  next_name : Bytes → Option (List Bytes)
  next_name [] = none
  next_name (c ∷ s) = let name = in_name [] s in if c == b'"' then name else none

-- The names of a message without its opening.
abbrev first_name : Bytes → Option (List Bytes)
first_name [] = none
first_name (c ∷ s) = if c == b']' then finish s else if c == b'"' then in_name [] s else none

abbrev strip : Bytes → Bytes → Option Bytes
strip [] s = some s
strip (c ∷ p) [] = none
strip (c ∷ p) (d ∷ s) = if c == d then strip p s else none

abbrev names_of : Option Bytes → Option (List Bytes)
names_of none = none
names_of (some s) = first_name s

abbrev with_pair : Option TokenPair → Option (List TokenPair) → Option (List TokenPair)
with_pair none more = none
with_pair (some p) more = with_head p more

abbrev pairs_of : List Bytes → Option (List TokenPair)
pairs_of [] = some []
pairs_of (s ∷ names) = with_pair (find s Kraken.string_to_token_pair) (pairs_of names)

abbrev look_up : Option (List Bytes) → Option (List TokenPair)
look_up none = none
look_up (some names) = pairs_of names

-- The pairs of a subscription; none when it is malformed or a name is not a symbol of Kraken.
pub receive_trades : Bytes → Option (List TokenPair)
receive_trades message = look_up (names_of (strip start_text message))

-- The pairs, which a pair without a symbol spoils.
abbrev pub tradable : List TokenPair → Option (List TokenPair)
tradable [] = some []
tradable (TokenPair.none ∷ tokens) = none
tradable (TokenPair.btcusd ∷ tokens) = with_head TokenPair.btcusd (tradable tokens)
tradable (TokenPair.ethusd ∷ tokens) = with_head TokenPair.ethusd (tradable tokens)

in_name-append :
    (v n rest : Bytes)
    → Lacks b'"' v
    → in_name n (v ++ b'"' ∷ rest) ≡ with_head (n ++ v) (after_name rest)
unfolding in_name
in_name-append [] n rest h = rw append-nil refl
in_name-append (c ∷ v) n rest (h, hs) =
    ground (arith, in_name-append v (n ++ c ∷ []) rest hs, append_assoc n (c ∷ []) v)

abbrev in_quotes : Bytes → Bytes
in_quotes name = codes "\"" ++ (name ++ codes "\"")

abbrev closing : Bytes
closing = codes "],\"subscription\":{\"name\":\"trade\"}}"

unquote : (s l r : Bytes) → (in_quotes s ++ l) ++ r ≡ b'"' ∷ (s ++ b'"' ∷ (l ++ r))
unquote s l r = simp (append_assoc)

after_names :
    (names : List Bytes)
    → All (Lacks b'"') names
    → after_name (comma_list (map in_quotes names) ++ closing) ≡ some names
unfolding in_name
after_names [] h = refl
after_names (s ∷ names) (h, hs) =
    let more = comma_list (map in_quotes names) in
    ap next_name (unquote s more closing)
    ∙ in_name-append s [] (more ++ closing) h
    ∙ ap (with_head s) (after_names names hs)

listed_names :
    (names : List Bytes)
    → All (Lacks b'"') names
    → names_of (strip start_text (trades_message (map in_quotes names))) ≡ some names
unfolding in_name
listed_names [] h = refl
listed_names (s ∷ names) (h, hs) =
    let more = comma_list (map in_quotes names) in
    ap first_name (unquote s more closing)
    ∙ in_name-append s [] (more ++ closing) h
    ∙ ap (with_head s) (after_names names hs)

-- The symbol of a pair in the table as it is written.
abbrev symbol : TokenPair → Bytes
symbol t = (index t Kraken.token_pair_to_string).0

symbol_plain : (t : TokenPair) → Lacks b'"' (symbol t)
symbol_plain TokenPair.none = tt
symbol_plain TokenPair.btcusd = omega arith
symbol_plain TokenPair.ethusd = omega arith

symbols_plain : (tokens : List TokenPair) → All (Lacks b'"') (map symbol tokens)
symbols_plain [] = tt
symbols_plain (t ∷ tokens) = (symbol_plain t, symbols_plain tokens)

pairs_of-symbol : (tokens : List TokenPair) → pairs_of (map symbol tokens) ≡ tradable tokens
pairs_of-symbol [] = refl
pairs_of-symbol (TokenPair.none ∷ tokens) = refl
pairs_of-symbol (TokenPair.btcusd ∷ tokens) =
    ap (with_head TokenPair.btcusd) (pairs_of-symbol tokens)
pairs_of-symbol (TokenPair.ethusd ∷ tokens) =
    ap (with_head TokenPair.ethusd) (pairs_of-symbol tokens)

-- Each pair has the symbol that the table gives it.
abbrev pub HasSymbols : Pairs → Type 0
HasSymbols m = (t : TokenPair) → (index t m).0 ≡ symbol t

quoted_symbols :
    (m : Pairs) (tokens : List TokenPair)
    → HasSymbols m
    → map (quoted m) tokens ≡ map in_quotes (map symbol tokens)
quoted_symbols m [] h = refl
quoted_symbols m (t ∷ tokens) h = cc (ap in_quotes (h t), quoted_symbols m tokens h)

pub receive_trades-message :
    (m : Pairs) (tokens : List TokenPair)
    → HasSymbols m
    → receive_trades (trades_message (map (quoted m) tokens)) ≡ tradable tokens
unfolding receive_trades
receive_trades-message m tokens h =
    ap (λ names. receive_trades (trades_message names)) (quoted_symbols m tokens h)
    ∙ ap look_up (listed_names (map symbol tokens) (symbols_plain tokens))
    ∙ pairs_of-symbol tokens

-- `connectTradeFeed` connects to Kraken's host, with no path, and its on-open handler holds the
-- message from which the exchange reads the tokens, in their order; it refuses the message when one
-- of them is the pair that has no symbol. The connections to other URLs stay. The client is
-- well-formed, its map gives each pair the symbol of the table, and an insertion into the map of
-- connections only reorders it.
pub connect_trade_feed-receive_trades :
    (env : Env) (callback : ℕ) (w : World) (tokens : List TokenPair)
    → Rehashes env.sockets
    → IsWellFormed w
    → HasSymbols w.kraken_pairs
    → let names = map (quoted w.kraken_pairs) tokens in
      IsTraded names callback w (connect_trade_feed env tokens callback w)
      × (receive_trades (trades_message names) ≡ tradable tokens)
connect_trade_feed-receive_trades env callback w tokens r h symbols = (
  connect_trade_feed-IsTraded env r callback w h tokens,
  receive_trades-message w.kraken_pairs tokens symbols,
)
