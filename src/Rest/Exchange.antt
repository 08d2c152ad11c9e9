-- ===== src/Rest/Exchange.antt =====
-- What a request and its response do to the error object, the connection and the log.
use crypto_con.Base.{
  ℕ, ◌+◌, Bytes, [], ◌∷◌, ◌++◌, ◌≡◌, Bool, true, false, Option, none, some, ◌⊎◌, inl, inr, arith,
}
use crypto_con.World.{World, Env, Network, ErrorCode, Request}
use crypto_con.Exec.{Exn, system_error, Outcome, ok, throw, ErrorRef, dummy, caller, get_error}
use crypto_con.Rest.{
  connect, count_connect, reconnect_stream, write_result, write_to_stream, read_result,
  read_from_stream, exchange,
}

-- The n-th connection succeeds.
pub record Connects (net : Network) (n : ℕ) : Type 0 where
  pub resolved : net.resolve n ≡ none
  pub connected : net.tcp n ≡ none
  pub named : net.server_name n ≡ true
  pub shaken : net.handshake n ≡ none

abbrev failures : Option ErrorCode → ℕ
failures none = 0
failures (some _) = 1

abbrev read_failures : ErrorCode ⊎ Bytes → ℕ
read_failures (inl _) = 1
read_failures (inr _) = 0

-- The code that the caller finds in its error object: the last failure's.
abbrev final_code : ℕ → Option ErrorCode → ErrorCode ⊎ Bytes → ℕ
final_code old none (inr _) = old
final_code old (some _) (inr _) = 2
final_code old _ (inl _) = 1

abbrev pub response : ErrorCode ⊎ Bytes → Bytes
response (inl _) = []
response (inr body) = body

abbrev other : ErrorRef → ErrorRef
other dummy = caller
other caller = dummy

-- What an exchange has done, by the answers of the network to its write and its read.
abbrev pub Exchanged :
    ErrorRef
    → Request
    → World
    → Option ErrorCode
    → ErrorCode ⊎ Bytes
    → Outcome Bytes × World
    → Type 0
Exchanged ref req w wr rd (r, w') =
    (r ≡ ok (response rd))
    × ((get_error ref w').code ≡ final_code (get_error ref w).code wr rd)
    × (get_error (other ref) w' ≡ get_error (other ref) w)
    × (w'.rest.requests ≡ w.rest.requests ++ req ∷ [])
    × (w'.rest.connects ≡ w.rest.connects + failures wr + read_failures rd)
    × (w'.rest.reads ≡ w.rest.reads + 1)

module _ (env : Env) where
  -- Whatever a connection attempt comes to, it has only been counted.
  pub connect_state : (w : World) → (connect env w).1 ≡ count_connect w
  unfolding connect
  connect_state w = ground arith

  connect_ok : (w : World) → Connects env.network w.rest.connects → (connect env w).0 ≡ ok tt
  unfolding connect
  connect_ok w c = ground arith

  pub connect_lem :
      (w : World) → Connects env.network w.rest.connects → connect env w ≡ (ok tt, count_connect w)
  connect_lem w c = cc (connect_ok w c, connect_state w)

  module _ (req : Request) where
    -- If the connections that it may make succeed, an exchange returns, whatever the network answers:
    -- the body that was read, or an empty text if the read failed. The caller's error object then
    -- has code 1 if the read failed, else 2 if the write failed, else the code from before; the
    -- other one is untouched. The request was handed over once (never again after a failed write),
    -- one read was made, and each failure made one new connection.
    pub exchange-Exchanged :
        (ref : ErrorRef) (w : World)
        → Connects env.network w.rest.connects
        → Connects env.network (w.rest.connects + 1)
        → Exchanged ref req w
            (env.network.write w.rest.writes)
            (env.network.read w.rest.reads)
            (exchange env req ref w)
    unfolding exchange write_to_stream write_result read_from_stream read_result reconnect_stream
    exchange-Exchanged dummy w c d = grind (arith, connect_lem)
    exchange-Exchanged caller w c d = grind (arith, connect_lem)

-- What the n-th connection attempt throws, if it throws: the first step that fails.
abbrev first_failure : Option Bytes → Option Bytes → Bool → Bytes → Option Bytes → Option Exn
first_failure (some m) tcp named ssl shaken = some (system_error m)
first_failure none (some m) named ssl shaken = some (system_error m)
first_failure none none false ssl shaken = some (system_error ssl)
first_failure none none true ssl (some m) = some (system_error m)
first_failure none none true ssl none = none

abbrev pub attempt : Network → ℕ → Option Exn
attempt net n =
    first_failure (net.resolve n) (net.tcp n) (net.server_name n) (net.ssl_error n)
      (net.handshake n)

module _ (env : Env) where
  -- If the reconnection behind a failed write fails, its exception leaves the call: the error object
  -- has the write's code 2, the request was handed over once, and nothing has been read.
  pub exchange_throws :
      (req : Request) (ref : ErrorRef) (w : World) {ec : ErrorCode} {e : Exn}
      → env.network.write w.rest.writes ≡ some ec
      → attempt env.network w.rest.connects ≡ some e
      → let (r, w') = exchange env req ref w in
        (r ≡ throw e)
        × ((get_error ref w').code ≡ 2)
        × (get_error (other ref) w' ≡ get_error (other ref) w)
        × (w'.rest.requests ≡ w.rest.requests ++ req ∷ [])
        × (w'.rest.reads ≡ w.rest.reads)
  unfolding exchange write_to_stream write_result reconnect_stream connect
  exchange_throws req dummy w h k = ground arith
  exchange_throws req caller w h k = ground arith

  -- Whether it returns or throws, an exchange hands over its request exactly once.
  pub exchange_requests :
      (req : Request) (ref : ErrorRef) (w : World)
      → (exchange env req ref w).1.rest.requests ≡ w.rest.requests ++ req ∷ []
  unfolding exchange write_to_stream write_result read_from_stream read_result reconnect_stream
  exchange_requests req dummy w = grind (arith, connect_state)
  exchange_requests req caller w = grind (arith, connect_state)

-- What no exchange touches.
pub record SameOutside (w w' : World) : Type 0 where
  pub clock_reads : w'.clock_reads ≡ w.clock_reads
  pub api_key : w'.api_key ≡ w.api_key
  pub secret_key : w'.secret_key ≡ w.secret_key
  pub binance_pairs : w'.binance_pairs ≡ w.binance_pairs
  pub kraken_pairs : w'.kraken_pairs ≡ w.kraken_pairs
  pub ws : w'.ws ≡ w.ws

pub exchange-SameOutside :
    (env : Env) (req : Request) (ref : ErrorRef) (w : World)
    → SameOutside w (exchange env req ref w).1
unfolding exchange write_to_stream write_result read_from_stream read_result reconnect_stream
exchange-SameOutside env req dummy w = grind (arith, connect_state)
exchange-SameOutside env req caller w = grind (arith, connect_state)
