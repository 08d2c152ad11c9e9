-- ===== src/Types.antt =====
-- src/types.h: the enumerations, the error value and the order parameters. An enumerator is a
-- constructor, and `code` functions give the numbers by which `std::map` orders them.
pub mod StdMap
pub mod Tables
pub mod TableLaws
use crypto_con.Base.{ℕ, [], Bool, true, false, not, Bytes, codes, ◌==◌, if◌then◌else◌}

pub data MarketType : Type 0 where
  spot futures generic : MarketType

-- `concept IsFutures`
abbrev pub is_futures : MarketType → Bool
is_futures MarketType.futures = true
is_futures MarketType.generic = true
is_futures MarketType.spot = false

-- `concept IsSpot`
abbrev pub is_spot : MarketType → Bool
is_spot MarketType.spot = true
is_spot MarketType.generic = true
is_spot MarketType.futures = false

pub data ProtocolType : Type 0 where
  json sbe : ProtocolType

pub data Venue : Type 0 where
  none binance coinbase kraken bitfinex ftx bybit huobi okex gateio poloniex : Venue

abbrev pub venue_code : Venue → ℕ
venue_code Venue.none = 0
venue_code Venue.binance = 1
venue_code Venue.coinbase = 2
venue_code Venue.kraken = 3
venue_code Venue.bitfinex = 4
venue_code Venue.ftx = 5
venue_code Venue.bybit = 6
venue_code Venue.huobi = 7
venue_code Venue.okex = 8
venue_code Venue.gateio = 9
venue_code Venue.poloniex = 10

pub data TokenPair : Type 0 where
  none btcusd ethusd : TokenPair

abbrev pub token_pair_code : TokenPair → ℕ
token_pair_code TokenPair.none = 0
token_pair_code TokenPair.btcusd = 1
token_pair_code TokenPair.ethusd = 2

pub data Side : Type 0 where
  buy sell long short both flat none : Side

abbrev pub side_code : Side → ℕ
side_code Side.buy = 0
side_code Side.sell = 1
side_code Side.long = 2
side_code Side.short = 3
side_code Side.both = 4
side_code Side.flat = 5
side_code Side.none = 6

pub data TimeInForce : Type 0 where
  gtc ioc fok : TimeInForce

abbrev pub time_in_force_code : TimeInForce → ℕ
time_in_force_code TimeInForce.gtc = 0
time_in_force_code TimeInForce.ioc = 1
time_in_force_code TimeInForce.fok = 2

pub data OrderType : Type 0 where
  market limit stop_loss_limit stop_loss take_profit_limit take_profit : OrderType
  limit_maker cancel oco unknown : OrderType

abbrev pub order_type_code : OrderType → ℕ
order_type_code OrderType.market = 0
order_type_code OrderType.limit = 1
order_type_code OrderType.stop_loss_limit = 2
order_type_code OrderType.stop_loss = 3
order_type_code OrderType.take_profit_limit = 4
order_type_code OrderType.take_profit = 5
order_type_code OrderType.limit_maker = 6
order_type_code OrderType.cancel = 7
order_type_code OrderType.oco = 8
order_type_code OrderType.unknown = 9

-- `class Error`
pub record Error : Type 0 where
  pub code : ℕ
  pub message : Bytes

-- `Error()`
abbrev pub no_error : Error
no_error = record { code = 0; message = [] }

-- `Error(message, value)`: the code 0 means success and is replaced by 1
abbrev pub make_error : Bytes → ℕ → Error
make_error message value = record { code = if value == 0 then 1 else value; message = message }

-- `explicit operator bool`
abbrev pub is_error : Error → Bool
is_error e = not (e.code == 0)

-- `OrderParams<SPOT>`; `W` is the type `double`
pub record SpotParams (W : Type 0) : Type 0 where
  pub symbol : Bytes
  pub side : Side
  pub type : OrderType
  pub price : W
  pub stop_price : W
  pub stop_limit_price : W
  pub new_client_order_id : Bytes
  pub limit_client_order_id : Bytes
  pub stop_client_order_id : Bytes
  pub quantity : W
  pub quote_quantity : W
  pub time_in_force : TimeInForce
  pub stop_limit_time_in_force : TimeInForce
  pub timestamp : ℕ

-- `OrderParams<FUTURES>`
pub record FuturesParams (W : Type 0) : Type 0 where
  pub symbol : Bytes
  pub side : Side
  pub type : OrderType
  pub price : W
  pub quantity : W
  pub new_client_order_id : Bytes
  pub time_in_force : TimeInForce
  pub reduce_only : Bool
  pub position_side : Side
  pub timestamp : ℕ
