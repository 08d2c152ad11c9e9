-- ===== src/Tests/Fixtures.antt =====
-- A digest, a network that can fail, a clock, and a client before its first call.
use mathlib.Core.List.{foldl}
use mathlib.Core.List.Permᴰ
use crypto_con.Base.{
  ℕ, zero, suc, ◌+◌, ◌*◌, ◌%◌, ◌^◌, ◌<◌, ◌≤◌, Bytes, codes, [], ◌∷◌, refl, Option, none, some, true,
  inl, inr, ltb, arith, length, All,
}
use crypto_con.Types.{no_error, Side, TimeInForce, OrderType, SpotParams, FuturesParams}
use crypto_con.Types.Tables.Binance
use crypto_con.Types.Tables.Kraken
use crypto_con.Utils.Double.{Double, PrintsDoubles}
use crypto_con.Utils.Number.{decimal}
use crypto_con.Utils.Number.Decimal.{length-decimal, decimal-IsNumeral}
use crypto_con.Utils.Signing.{Digest}
use crypto_con.Rest.Exchange.{Connects}
use crypto_con.Websocket.Changes.{Rehashes}
use crypto_con.Websocket.Invariant.{IsWellFormed}
use crypto_con.World.{World, Env, Network, Sockets, Json, ErrorCode, OrderView, opened}

-- A number that stands for a text.
abbrev checksum : Bytes → ℕ
checksum s = foldl (λ a c. a * 31 + c) 7 s % 256

abbrev stamp : ℕ → Bytes
stamp x =
    x ∷ x ∷ x ∷ x ∷ x ∷ x ∷ x ∷ x ∷ x ∷ x ∷ x ∷ x ∷ x ∷ x ∷ x ∷ x ∷ x ∷ x ∷ x ∷ x ∷ x ∷ x ∷ x ∷ x
    ∷ x ∷ x ∷ x ∷ x ∷ x ∷ x ∷ x ∷ x ∷ []

stamp-IsByte : (x : ℕ) → x < 256 → All (λ b. b < 256) (stamp x)
stamp-IsByte x h = omega arith

byte_bound : (a b : Bytes) → (checksum a + checksum b) % 256 < 256
byte_bound a b = omega arith

pub toy_byte :
    (key message : Bytes) → All (λ b. b < 256) (stamp ((checksum key + checksum message) % 256))
toy_byte key message = stamp-IsByte _ (byte_bound key message)

abbrev pub toy_digest : Digest
toy_digest = record {
  hmac = λ key message. stamp ((checksum key + checksum message) % 256);
  size = λ key message. refl;
  byte = toy_byte;
}

-- Whole numbers below 2 ^ 53, which a `double` holds exactly.
instance abbrev pub whole : Double ℕ
whole = record { nought = 0; gt = λ a b. ltb b a; to_chars = λ n. decimal (n % 2 ^ 53) }

whole_short : (n : ℕ) → length (decimal (n % 2 ^ 53)) ≤ 24
whole_short n = omega (arith, length-decimal 15 (n % 2 ^ 53) (omega arith))

pub whole_prints : PrintsDoubles ℕ
whole_prints = record { short = whole_short; numeral = λ n. decimal-IsNumeral (n % 2 ^ 53) }

abbrev broken_pipe : ErrorCode
broken_pipe = record { message = codes "Broken pipe"; category = codes "system"; value = 32 }

-- The first write fails; every other step succeeds.
abbrev first_write : ℕ → Option ErrorCode
first_write zero = some broken_pipe
first_write (suc n) = none

abbrev pub network : Network
network = record {
  resolve = λ n. none;
  tcp = λ n. none;
  server_name = λ n. true;
  ssl_error = λ n. [];
  handshake = λ n. none;
  write = first_write;
  read = λ n. inr (codes "{}");
  shutdown = none;
}

pub connects : (n : ℕ) → Connects network n
connects n = record { resolved = refl; connected = refl; named = refl; shaken = refl }

abbrev pub sockets : Sockets
sockets = record {
  ready = λ n id. opened;
  send = λ n. true;
  rehash = λ m. m;
  callback = λ c s. none;
}

abbrev first_order : OrderView
first_order = record { symbol = inr (codes "BTCUSDT"); order_id = inr 17 }

abbrev second_order : OrderView
second_order = record { symbol = inr (codes "ETHUSDT"); order_id = inr 18 }

abbrev json : Json
json = record {
  string_field = λ text key. inl 1;
  array = λ text. inr (first_order ∷ second_order ∷ []);
  error_message =
      λ code. codes "INCORRECT_TYPE: The JSON element does not have the requested type.";
}

abbrev pub env : Env
env = record {
  clock = λ n. 1700000000000 + n;
  digest = toy_digest;
  network = network;
  sockets = sockets;
  json = json;
}

abbrev pub start : World
start = record {
  log = [];
  clock_reads = 0;
  dummy_error = no_error;
  caller_error = no_error;
  api_key = codes "key";
  secret_key = codes "secret";
  binance_pairs = Binance.token_pair_to_string;
  kraken_pairs = Kraken.token_pair_to_string;
  rest = record {
    host = codes "testnet.binance.vision";
    connects = 1;
    writes = 0;
    reads = 0;
    requests = [];
  };
  ws = record {
    connections = [];
    pending = none;
    next_id = 0;
    polls = 0;
    sends = 0;
    outbox = [];
    stopped = [];
    delivered = [];
  };
}

abbrev pub market_order : SpotParams ℕ
market_order = record {
  symbol = codes "BTCUSDT";
  side = Side.buy;
  type = OrderType.market;
  price = 0;
  stop_price = 0;
  stop_limit_price = 0;
  new_client_order_id = codes "mine";
  limit_client_order_id = [];
  stop_client_order_id = [];
  quantity = 0;
  quote_quantity = 250;
  time_in_force = TimeInForce.gtc;
  stop_limit_time_in_force = TimeInForce.gtc;
  timestamp = 0;
}

abbrev pub futures_order : FuturesParams ℕ
futures_order = record {
  symbol = codes "ETHUSDT";
  side = Side.sell;
  type = OrderType.limit;
  price = 3000;
  quantity = 2;
  new_client_order_id = codes "mine";
  time_in_force = TimeInForce.gtc;
  reduce_only = true;
  position_side = Side.short;
  timestamp = 0;
}

pub rehashes : Rehashes sockets
rehashes m = Permᴰ.refl m

pub start-IsWellFormed : IsWellFormed start
start-IsWellFormed = record { entries = tt; keys = tt; ids = tt; pending = tt }
