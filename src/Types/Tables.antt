-- ===== src/Types/Tables.antt =====
-- The maps of src/types.h at program start. Those of an exchange stand below.
pub mod Binance
pub mod Kraken
pub mod Coinbase
use crypto_con.Base.{Bytes, codes, List, [], ◌∷◌}
use crypto_con.Types.{Venue, TokenPair, Side, TimeInForce, OrderType}

abbrev pub venue_to_string : List (Venue × Bytes)
venue_to_string =
    (Venue.none, codes "NONE")
    ∷ (Venue.binance, codes "BINANCE")
    ∷ (Venue.coinbase, codes "COINBASE")
    ∷ (Venue.kraken, codes "KRAKEN")
    ∷ (Venue.bitfinex, codes "BITFINEX")
    ∷ (Venue.ftx, codes "FTX")
    ∷ (Venue.bybit, codes "BYBIT")
    ∷ (Venue.huobi, codes "HUOBI")
    ∷ (Venue.okex, codes "OKEX")
    ∷ (Venue.gateio, codes "GATEIO")
    ∷ (Venue.poloniex, codes "POLONIEX")
    ∷ []

abbrev pub token_pair_to_string : List (TokenPair × Bytes)
token_pair_to_string =
    (TokenPair.none, codes "NONE")
    ∷ (TokenPair.btcusd, codes "BTCUSD")
    ∷ (TokenPair.ethusd, codes "ETHUSD")
    ∷ []

abbrev pub side_to_string : List (Side × Bytes)
side_to_string =
    (Side.buy, codes "BUY")
    ∷ (Side.sell, codes "SELL")
    ∷ (Side.long, codes "LONG")
    ∷ (Side.short, codes "SHORT")
    ∷ (Side.both, codes "BOTH")
    ∷ (Side.flat, codes "FLAT")
    ∷ (Side.none, codes "NONE")
    ∷ []

abbrev pub time_in_force_to_string : List (TimeInForce × Bytes)
time_in_force_to_string =
    (TimeInForce.gtc, codes "GTC")
    ∷ (TimeInForce.ioc, codes "IOC")
    ∷ (TimeInForce.fok, codes "FOK")
    ∷ []

abbrev pub order_type_to_string : List (OrderType × Bytes)
order_type_to_string =
    (OrderType.market, codes "MARKET")
    ∷ (OrderType.limit, codes "LIMIT")
    ∷ (OrderType.stop_loss_limit, codes "STOP_LOSS_LIMIT")
    ∷ (OrderType.stop_loss, codes "STOP_LOSS")
    ∷ (OrderType.take_profit_limit, codes "TAKE_PROFIT_LIMIT")
    ∷ (OrderType.take_profit, codes "TAKE_PROFIT")
    ∷ (OrderType.limit_maker, codes "LIMIT_MAKER")
    ∷ (OrderType.cancel, codes "CANCEL")
    ∷ (OrderType.oco, codes "OCO")
    ∷ (OrderType.unknown, codes "UNKNOWN")
    ∷ []
