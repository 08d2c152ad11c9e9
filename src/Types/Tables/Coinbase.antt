-- ===== src/Types/Tables/Coinbase.antt =====
-- namespace `Coinbase` of src/types.h
use crypto_con.Base.{Bytes, codes, List, [], ◌∷◌}
use crypto_con.Types.{TokenPair}

abbrev pub token_pair_to_string : List (TokenPair × Bytes)
token_pair_to_string =
    (TokenPair.btcusd, codes "BTC-USD") ∷ (TokenPair.ethusd, codes "ETH-USD") ∷ []

abbrev pub string_to_token_pair : List (Bytes × TokenPair)
string_to_token_pair =
    (codes "BTC-USD", TokenPair.btcusd) ∷ (codes "ETH-USD", TokenPair.ethusd) ∷ []

abbrev pub symbol_to_canonical : List (Bytes × Bytes)
symbol_to_canonical = (codes "BTC-USD", codes "BTCUSD") ∷ (codes "ETH-USD", codes "ETHUSD") ∷ []
