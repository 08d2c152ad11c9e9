-- ===== src/Binance/Endpoints/Server.antt =====
-- The exchange's side of a signed request: it takes the last parameter for the signature, computes
-- the HMAC of the text before it, and answers with the endpoint and the decoded parameters if they
-- agree.
use crypto_con.Base.{
  ℕ, ◌-◌, Bytes, codes, List, [], ◌∷◌, ◌++◌, append-nil, append_assoc, ◌≡◌, ap, ◌∙◌, Option, none,
  some, arith, ◌==◌, if◌then◌else◌, ◌&&◌, text_eq, text_eq_refl, length, length-append, take, drop,
  take-append, drop-append, Lacks,
}
use crypto_con.Utils.Signing.{Digest, sign_hmac, sign_hmac_lem, read_hex}
use crypto_con.Binance.Query.Render.{Parameter}
use crypto_con.Binance.Query.Decode.{read_query}
use crypto_con.Binance.Endpoints.{signed_target}

-- The path before the first `?`, and the text behind it.
unfoldable pub split_path : Bytes → Bytes → Bytes × Bytes
split_path path [] = (path, [])
split_path path (c ∷ s) =
    let more = split_path (path ++ c ∷ []) s in if c == b'?' then (path, s) else more

-- `&signature=` and 64 digits
abbrev pub mark_length : ℕ
mark_length = 75

abbrev accept : Digest → Bytes → Bytes → Bytes → Bytes → Option (Bytes × List Parameter)
accept d secret path query mark =
    if text_eq (take 11 mark) (codes "&signature=")
      && text_eq (read_hex (drop 11 mark)) (d.hmac secret query)
    then some (path, read_query query)
    else none

check : Digest → Bytes → Bytes × Bytes → Option (Bytes × List Parameter)
check d secret (path, s) =
    let n = length s - mark_length in accept d secret path (take n s) (drop n s)

pub receive : Digest → Bytes → Bytes → Option (Bytes × List Parameter)
receive d secret target = check d secret (split_path [] target)

pub split_path-append :
    (path done rest : Bytes)
    → Lacks b'?' path
    → split_path done (path ++ b'?' ∷ rest) ≡ (done ++ path, rest)
unfolding split_path
split_path-append [] done rest h = ground (arith, append-nil done)
split_path-append (c ∷ path) done rest (h, hs) =
    ground (arith, split_path-append path (done ++ c ∷ []) rest hs, append_assoc done (c ∷ []) path)

length-mark :
    (d : Digest) (secret query : Bytes)
    → length (codes "&signature=" ++ sign_hmac d secret query) ≡ mark_length
length-mark d secret query = omega (arith, (sign_hmac_lem d secret query).0)

accept-mark :
    (d : Digest) (secret path query : Bytes)
    → check d secret (path, query ++ (codes "&signature=" ++ sign_hmac d secret query))
      ≡ some (path, read_query query)
unfolding check
accept-mark d secret path query =
    let mark = codes "&signature=" ++ sign_hmac d secret query in
    let n : length (query ++ mark) - mark_length ≡ length query =
      omega (arith, length-append query mark, length-mark d secret query) in
    rw (n, take-append, drop-append, (sign_hmac_lem d secret query).2, text_eq_refl)

pub target-eq :
    (d : Digest) (secret endpoint query : Bytes)
    → signed_target d secret endpoint query
      ≡ endpoint ++ b'?' ∷ (query ++ (codes "&signature=" ++ sign_hmac d secret query))
target-eq d secret endpoint query = simp append_assoc

receive-text :
    (d : Digest) (secret endpoint query : Bytes)
    → Lacks b'?' endpoint
    → receive d secret
        (endpoint ++ b'?' ∷ (query ++ (codes "&signature=" ++ sign_hmac d secret query)))
      ≡ some (endpoint, read_query query)
unfolding receive
receive-text d secret endpoint query h =
    let mark = codes "&signature=" ++ sign_hmac d secret query in
    ap (check d secret) (split_path-append endpoint [] (query ++ mark) h)
    ∙ accept-mark d secret endpoint query

-- The exchange accepts the signed target of every query at an endpoint without `?`: the signature's
-- digits are those of the HMAC that it computes itself, and it finds the endpoint and the query's
-- parameters, decoded.
pub receive-signed_target :
    (d : Digest) (secret endpoint query : Bytes)
    → Lacks b'?' endpoint
    → receive d secret (signed_target d secret endpoint query) ≡ some (endpoint, read_query query)
receive-signed_target d secret endpoint query h =
    ap (receive d secret) (target-eq d secret endpoint query)
    ∙ receive-text d secret endpoint query h
