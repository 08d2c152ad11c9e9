-- ===== src/System/Authentic.antt =====
-- What the exchange asks of a request, by its path.
use crypto_con.Base.{
  Bytes, codes, Bool, true, false, ◌||◌, List, [], none, some, ◌≡◌, ap, ◌∙◌, text_eq, arith,
  if◌then◌else◌, Lacks,
}
use crypto_con.World.{Request}
use crypto_con.Utils.Signing.{Digest}
use crypto_con.Rest.Requests.{header}
use crypto_con.Binance.Query.Render.{Parameter}
use crypto_con.Binance.Endpoints.{signed_target}
use crypto_con.Binance.Endpoints.Server.{receive, split_path, split_path-append, target-eq}

-- The path of a target, before the first `?`.
unfoldable pub path_of : Bytes → Bytes
unfolding split_path
path_of target = (split_path [] target).0

-- The paths of the account, of orders and of positions want a signature.
abbrev pub wants_signature : Bytes → Bool
wants_signature path =
    text_eq path (codes "/api/v3/account")
    || text_eq path (codes "/api/v3/openOrders")
    || text_eq path (codes "/api/v3/order")
    || text_eq path (codes "/api/v3/order/oco")
    || text_eq path (codes "/fapi/v1/leverage")

-- Those want the API key, and so does the user data stream.
abbrev pub wants_key : Bytes → Bool
wants_key path = wants_signature path || text_eq path (codes "/api/v3/userDataStream")

-- The API key is sent exactly where it is wanted, and where a signature is wanted the exchange
-- accepts the one of the request.
pub record IsAuthentic (d : Digest) (key secret : Bytes) (req : Request) : Type 0 where
  pub keyed :
      header (codes "X-MBX-APIKEY") none req.calls
      ≡ (if wants_key (path_of req.target) then some key else none)
  pub signed :
      wants_signature (path_of req.target) ≡ true
      → (ps : List Parameter) × (receive d secret req.target ≡ some (path_of req.target, ps))

pub path_of-signed_target :
    (d : Digest) (secret endpoint query : Bytes)
    → Lacks b'?' endpoint
    → path_of (signed_target d secret endpoint query) ≡ endpoint
unfolding path_of
path_of-signed_target d secret endpoint query h =
    ap path_of (target-eq d secret endpoint query)
    ∙ ap (λ (p : Bytes × Bytes). p.0) (split_path-append endpoint [] _ h)

module _ (d : Digest) (key secret : Bytes) (req : Request) where
  pub signed-IsAuthentic :
      (endpoint : Bytes) (ps : List Parameter)
      → path_of req.target ≡ endpoint
      → wants_signature endpoint ≡ true
      → header (codes "X-MBX-APIKEY") none req.calls ≡ some key
      → receive d secret req.target ≡ some (endpoint, ps)
      → IsAuthentic d key secret req
  signed-IsAuthentic endpoint ps path wanted keyed received = record {
    keyed = rw (path, wanted) keyed;
    signed = λ _. rw (path) (ps, received);
  }

  pub unsigned-IsAuthentic :
      (path : Bytes)
      → path_of req.target ≡ path
      → wants_signature path ≡ false
      → header (codes "X-MBX-APIKEY") none req.calls ≡ (if wants_key path then some key else none)
      → IsAuthentic d key secret req
  unsigned-IsAuthentic path e unwanted keyed = record {
    keyed = rw (e) keyed;
    signed = λ wanted. absurd (cc (e, wanted, unwanted));
  }

or_left : (a b : Bool) → (a || b) ≡ false → a ≡ false
or_left a b h = ground arith

pub wants_nothing : (path : Bytes) → wants_key path ≡ false → wants_signature path ≡ false
wants_nothing path h = or_left (wants_signature path) _ h
