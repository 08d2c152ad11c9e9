-- ===== src/Tests/Query.antt =====
-- Query strings at concrete orders.
use crypto_con.Base.{Bytes, codes, map, ◌≡◌, refl, none, arith}
use crypto_con.Types.StdMap.{find, text_key}
use crypto_con.Utils.Number.{decimal, append_number, append_double}
use crypto_con.Exec.{ok}
use crypto_con.Binance.Query.{build_query_spot, build_query_futures}
use crypto_con.Binance.Query.Render.{render, parse_query}
use crypto_con.Binance.Query.Decode.{decode, decoded, read_query}
use crypto_con.Binance.Query.Spec.{order_parameters, futures_parameters}
use crypto_con.Binance.Query.Spot.{Says, build_query_spot-Says}
use crypto_con.Binance.Query.Futures.{build_query_futures-render}
use crypto_con.Binance.Query.Keys.{AreKeysDistinct, query_keys_distinct}
use crypto_con.Binance.Query.Omissions.{futures_omissions}
use crypto_con.Tests.Fixtures.{whole, whole_prints, env, start, market_order, futures_order}

abbrev market_text : Bytes
market_text =
    codes
      "symbol=BTCUSDT&side=BUY&newClientOrderId=mine&type=MARKET&quoteOrderQty=250&timestamp=1700000000000"

market_runs : (build_query_spot market_order env start).0 ≡ ok market_text
unfolding build_query_spot decimal append_number append_double
market_runs = refl

-- The shortest text of 100000.0 does not arrive, and an escaped space does.
decode_exponent : decode (codes "1e+05") ≡ codes "1e 05"
unfolding decode
decode_exponent = refl

decode_space : decode (codes "a%20b") ≡ codes "a b"
unfolding decode
decode_space = refl

build_query_spot-Says_example :
    Says market_order env start
      (order_parameters market_order market_order.type)
      (build_query_spot market_order env start)
build_query_spot-Says_example =
    build_query_spot-Says whole_prints market_order env start (omega arith) (omega arith)
      (omega arith)

build_query_futures-render_example :
    (build_query_futures futures_order ≡ render (futures_parameters futures_order))
    × (parse_query (build_query_futures futures_order) ≡ futures_parameters futures_order)
    × (read_query (build_query_futures futures_order)
        ≡ map decoded (futures_parameters futures_order))
build_query_futures-render_example =
    build_query_futures-render futures_order whole_prints (omega arith) (omega arith)

query_keys_distinct_example :
    AreKeysDistinct (parse_query market_text)
    × AreKeysDistinct (parse_query (build_query_futures futures_order))
query_keys_distinct_example =
    query_keys_distinct whole_prints env start market_order futures_order (omega arith)
      (omega arith) (omega arith) (omega arith) (omega arith) market_runs

futures_omissions_example :
    let sent = parse_query (build_query_futures futures_order) in
    (find (codes "timestamp") sent ≡ none)
    × (find (codes "timeInForce") sent ≡ none)
    × (find (codes "newClientOrderId") sent ≡ none)
futures_omissions_example = futures_omissions futures_order whole_prints (omega arith) (omega arith)
