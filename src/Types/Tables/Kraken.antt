-- ===== src/Types/Tables/Kraken.antt =====
-- namespace `Kraken` of src/types.h
use crypto_con.Base.{Bytes, codes, List, [], ◌∷◌}
use crypto_con.Types.{TokenPair}

abbrev pub token_pair_to_string : List (TokenPair × Bytes)
token_pair_to_string =
    (TokenPair.btcusd, codes "XBT/USD") ∷ (TokenPair.ethusd, codes "ETH/USD") ∷ []

abbrev pub string_to_token_pair : List (Bytes × TokenPair)
string_to_token_pair =
    (codes "XBT/USD", TokenPair.btcusd) ∷ (codes "ETH/USD", TokenPair.ethusd) ∷ []

abbrev pub symbol_to_canonical : List (Bytes × Bytes)
symbol_to_canonical = (codes "XBT/USD", codes "BTCUSD") ∷ (codes "ETH/USD", codes "ETHUSD") ∷ []
