-- ===== src/System/Safety.antt =====
-- What holds of a client however its program uses it.
use crypto_con.Base.{Bytes, ◌≡◌, refl, sym, ap, ◌∙◌, subst, All, All-append}
use crypto_con.Types.{TokenPair}
use crypto_con.Types.StdMap.{index, token_pair_key}
use crypto_con.Types.Tables.Binance
use crypto_con.Utils.Double.{Double}
use crypto_con.World.{World, Env}
use crypto_con.Rest.{connect}
use crypto_con.Rest.Exchange.{connect_state}
use crypto_con.Kraken.Receives.{HasSymbols}
use crypto_con.Websocket.Changes.{Rehashes}
use crypto_con.Websocket.Invariant.{IsWellFormed}
use crypto_con.Websocket.Steps.{Step-IsWellFormed, by_same}
use crypto_con.Clients.{Policy, blank, construct, run_open}
use crypto_con.Clients.Handlers.{run_open-LeaveConnections}
use crypto_con.System.{SystemStep, Runs}
use crypto_con.System.Authentic.{IsAuthentic}
use crypto_con.System.Grows.{Grows}
use crypto_con.System.Perform.{perform-Grows}
use crypto_con.System.Feeds.{Opens, open_feed-Opens}
use crypto_con.System.Quiet.{IsQuiet, Step-IsQuiet}

module _ (env : Env) where
  -- The client has its keys, all its requests were authentic, the pairs have the symbols of the tables,
  -- and its map of sockets is well-formed.
  pub record IsSafe (key secret : Bytes) (w : World) : Type 0 where
    pub api_key : w.api_key ≡ key
    pub secret_key : w.secret_key ≡ secret
    pub requests : All (IsAuthentic env.digest key secret) w.rest.requests
    pub symbols :
        (t : TokenPair) → (index t w.binance_pairs).0 ≡ (index t Binance.token_pair_to_string).0
    pub kraken_symbols : HasSymbols w.kraken_pairs
    pub sockets : IsWellFormed w

  Grows-IsSafe :
      (key secret : Bytes) (w w' : World)
      → Grows env w w'
      → IsSafe key secret w
      → IsSafe key secret w'
  Grows-IsSafe key secret w w' g h = record {
    api_key = g.api_key ∙ h.api_key;
    secret_key = g.secret_key ∙ h.secret_key;
    requests = subst (All (IsAuthentic env.digest key secret)) (sym g.requests) (
        All-append (IsAuthentic env.digest key secret) w.rest.requests g.added h.requests (
          subst (λ k. All (IsAuthentic env.digest k secret) g.added) h.api_key
            (subst (λ k. All (IsAuthentic env.digest w.api_key k) g.added) h.secret_key
              g.authentic)));
    symbols = λ t. g.symbols t ∙ h.symbols t;
    kraken_symbols = subst HasSymbols (sym g.kraken_pairs) h.kraken_symbols;
    sockets =
        by_same w w'
          (ap (λ s. s.connections) g.ws, ap (λ s. s.pending) g.ws, ap (λ s. s.next_id) g.ws)
          h.sockets;
  }

  Quiet-IsSafe :
      (key secret : Bytes) (w w' : World)
      → IsQuiet w w'
      → IsWellFormed w'
      → IsSafe key secret w
      → IsSafe key secret w'
  Quiet-IsSafe key secret w w' quiet sockets h = record {
    api_key = ap (λ (x : World). x.api_key) quiet ∙ h.api_key;
    secret_key = ap (λ (x : World). x.secret_key) quiet ∙ h.secret_key;
    requests =
        subst (All (IsAuthentic env.digest key secret))
          (sym (ap (λ (x : World). x.rest.requests) quiet)) h.requests;
    symbols = λ t. ap (λ (x : World). (index t x.binance_pairs).0) quiet ∙ h.symbols t;
    kraken_symbols =
        subst HasSymbols (sym (ap (λ (x : World). x.kraken_pairs) quiet)) h.kraken_symbols;
    sockets = sockets;
  }

  Opens-IsSafe :
      (key secret : Bytes) (w w' : World) → Opens w w' → IsSafe key secret w → IsSafe key secret w'
  Opens-IsSafe key secret w w' opens h = record {
    api_key = opens.api_key ∙ h.api_key;
    secret_key = opens.secret_key ∙ h.secret_key;
    requests = subst (All (IsAuthentic env.digest key secret)) (sym opens.requests) h.requests;
    symbols = λ t. opens.symbols t ∙ h.symbols t;
    kraken_symbols = λ t. opens.kraken_symbols t ∙ h.kraken_symbols t;
    sockets = opens.sockets;
  }

  module _ {W : Type 0} ⦃d : Double W⦄ (rehashes : Rehashes env.sockets) (key secret : Bytes) where
    SystemStep-IsSafe :
        {w w' : World} → SystemStep W env w w' → IsSafe key secret w → IsSafe key secret w'
    SystemStep-IsSafe {w} {w'} (SystemStep.call c) h =
        Grows-IsSafe key secret w w' (perform-Grows env c w) h
    SystemStep-IsSafe {w} {w'} (SystemStep.feed f) h =
        Opens-IsSafe key secret w w' (open_feed-Opens env rehashes W f w h.sockets) h
    SystemStep-IsSafe {w} {w'} (SystemStep.socket step) h =
        Quiet-IsSafe key secret w w' (Step-IsQuiet env step)
          (Step-IsWellFormed env (run_open env) rehashes (run_open-LeaveConnections env) step
            h.sockets)
          h

    pub Runs-IsSafe : {w w' : World} → Runs W env w w' → IsSafe key secret w → IsSafe key secret w'
    Runs-IsSafe Runs.start h = h
    Runs-IsSafe (Runs.next run step) h = SystemStep-IsSafe step (Runs-IsSafe run h)

  fresh-IsSafe :
      (host key secret : Bytes) → IsSafe key secret (connect env (blank host key secret)).1
  fresh-IsSafe host key secret = rw (connect_state env (blank host key secret)) record {
    api_key = refl;
    secret_key = refl;
    requests = tt;
    symbols = λ t. refl;
    kraken_symbols = λ t. refl;
    sockets = record { entries = tt; keys = tt; ids = tt; pending = tt };
  }

-- From its construction on, in any interleaving of its calls (those of a spot client, those of a
-- futures client, those of the policy alone, and the feeds of both exchanges) and the steps of its
-- WebSocket client and sockets, a client keeps its two keys, its symbol maps give each pair the
-- symbol of their tables, though `operator[]` may insert into them, and its map of sockets stays
-- well-formed; and of all the requests that it has sent, whether the calls returned or threw,
-- those for the account, the orders and the leverage carry a signature that the exchange accepts
-- for the secret key, they and those of the user data stream carry the API key, and no other
-- request carries it. An insertion into the map of sockets only reorders it.
pub construct-IsSafe :
    {P W : Type 0} ⦃d : Double W⦄ (env : Env) (policy : Policy P) (key secret : Bytes) (w : World)
    → Rehashes env.sockets
    → Runs W env (construct env policy key secret).1 w
    → IsSafe env key secret w
unfolding construct
construct-IsSafe env policy key secret w rehashes run =
    Runs-IsSafe env rehashes key secret run (fresh-IsSafe env policy.rest_host key secret)
