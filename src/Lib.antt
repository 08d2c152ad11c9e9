-- ===== src/Lib.antt =====
-- Trade connector: a client for the REST and WebSocket interfaces of crypto exchanges.
--
-- A `BaseClient` (src/clients/baseclient.h) holds a REST client, a WebSocket client and a policy for
-- one exchange, and hands its operations to the policy, which uses the two clients. The development
-- follows these parts; paths are those of the repository.
--
--   Types, Types/StdMap, Types/Tables   src/types.h: enumerations, order parameters, symbol maps
--   Utils                               src/utils: printing of numbers, lower case, HMAC signatures
--   World, Exec                         the state of a client, the libraries, and calls that may throw
--   Rest                                src/rest/client.cpp and client.h
--   Websocket                           src/websocket/client.cpp and client.h
--   Websocket/Directory                 what it promises: a directory of connections by URL
--   Websocket/Bag                       its map without an order: a quotient of lists
--   Binance/Query                       `buildQuery` in src/policies/binancepolicy.h
--   Binance/Endpoints                   its REST operations
--   Binance/Templates                   its templates that name a function which is not there
--   Binance/Feeds                       its WebSocket feeds
--   Kraken                              src/policies/krakenpolicy.h
--   Clients                             src/clients/baseclient.h and syncclient.h
--   OrderBuilder                        src/orderbuilder.h
--   Configs                             src/configs.h
--   System                              the calls of a client and the steps of its sockets, in any order
--   Examples                            examples/binance_trade_feed_mixin.cpp and kraken_trade_feed.cpp
--   Tests                               concrete surroundings and the theorems at concrete inputs
--
-- Functions have the names of the source in snake case (`writeToStream` is `write_to_stream`). A
-- string is the list of its bytes. A call that changes the client is a function from `World` to an
-- outcome and a `World`: what was written before an exception stays written. `World` has the log, the
-- error objects, the keys, the symbol maps (which `operator[]` can change), the REST client with the
-- requests it has handed over, and the WebSocket client with its map of connections, what it sent on
-- which socket and what its callbacks received.
--
-- Boost.Beast, OpenSSL, IXWebSocket, simdjson and the system clock are not part of the repository.
-- Their answers are functions in `Env`, of the number of the call where it matters, so that each call
-- may succeed or fail. Assumed of them, where a theorem says so: the digest has 32 bytes; a `double`
-- is printed as a numeral that fits its buffer; an insertion into an unordered map only reorders it.
-- Undefined behaviour is an exception of its own, which ends the run.
--
-- What an exchange makes of a request or a message is specified by readers that do not use the code
-- under test: the URL-decoded query parameters and the signature of a target, the members of a
-- subscription to the user data, the names in a subscription to trades.
--
-- A user's callback may throw an exception derived from `std::exception`, which the message callback
-- catches, or another, which it does not: that one ends the process, so a statement about what follows
-- such a message says more than is needed. The callbacks of the programs under examples/ throw nothing.
--
-- A socket calls back on its own thread. `addConnection` is therefore two steps, the start of the
-- socket and the insertion into the map, and a message can come between any two steps; an operation
-- is one step, which says nothing of a data race within it. A replaced or erased connection is gone
-- with its socket; `stopped` records the calls of `stop` alone.
--
-- Integers are natural numbers, and a hypothesis gives the 64 bits of a time or an order id where
-- that matters. The loops run over lists. `wait` runs over the list of its sleeps, each with what the
-- other threads do in the meantime; when it returns, and that it may not, are theorems.
--
-- `createListenKey`, `setMarginType`, `getWebSocket` and Kraken's `connectDepthFeed` do not compile as
-- they stand. The first two are modelled over a parameter for the function that they name and the
-- repository does not have; the call of the last fits two overloads, which would do the same.
--
-- Not modelled: `OrderBuilder::leverage` and `AsyncClient`, which do not compile when they are used;
-- mixins, but for the one in examples.
mod Base
pub mod Types
pub mod Utils
pub mod World
pub mod Exec
pub mod Rest
pub mod Binance
pub mod Websocket
pub mod Kraken
pub mod Clients
pub mod OrderBuilder
pub mod Configs
pub mod System
pub mod Examples
mod Tests
