-- ===== src/Types/Tables/Binance.antt =====
-- namespace `Binance` of src/types.h
use crypto_con.Base.{Bytes, codes, List, [], ◌∷◌}
use crypto_con.Types.{TokenPair}

abbrev pub token_pair_to_string : List (TokenPair × Bytes)
token_pair_to_string =
    (TokenPair.btcusd, codes "BTCUSDT") ∷ (TokenPair.ethusd, codes "ETHUSDT") ∷ []

abbrev pub string_to_token_pair : List (Bytes × TokenPair)
string_to_token_pair =
    (codes "BTCUSDT", TokenPair.btcusd) ∷ (codes "ETHUSDT", TokenPair.ethusd) ∷ []

abbrev pub symbol_to_canonical : List (Bytes × Bytes)
symbol_to_canonical = (codes "BTCUSDT", codes "BTCUSD") ∷ (codes "ETHUSDT", codes "ETHUSD") ∷ []
