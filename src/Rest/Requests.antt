-- ===== src/Rest/Requests.antt =====
-- What each verb sends, and the value that a header has in the request.
use crypto_con.Base.{Bytes, List, [], ◌∷◌, ◌++◌, ◌≡◌, Option, some, text_eq, if◌then◌else◌}
use crypto_con.World.{
  World, Env, Build, get, post, put, delete, set_field, set_body, prepare_payload,
}
use crypto_con.Exec.{ErrorRef}
use crypto_con.Rest.{
  Headers, request_string, request_empty, http_get, http_post, http_put, http_delete,
}
use crypto_con.Rest.Exchange.{exchange_requests}

-- Beast's `set` replaces the fields of that name, so the last value set for a name stands.
abbrev pub header : Bytes → Option Bytes → List Build → Option Bytes
header name value [] = value
header name value (set_field n v ∷ calls) =
    header name (if text_eq n name then some v else value) calls
header name value (set_body b ∷ calls) = header name value calls
header name value (prepare_payload ∷ calls) = header name value calls

-- Each verb hands over exactly one request, whatever the network does: that verb and target, HTTP
-- version 1.1, the standard fields, then (for POST and PUT) the body, then the caller's headers.
verbs_requests :
    (env : Env) (target : Bytes) (headers : Headers) (body : Bytes) (ref : ErrorRef) (w : World)
    → let old = w.rest.requests in
      ((http_get env target headers ref w).1.rest.requests
        ≡ old ++ request_empty get target headers w ∷ [])
      × ((http_delete env target headers ref w).1.rest.requests
          ≡ old ++ request_empty delete target headers w ∷ [])
      × ((http_post env target headers body ref w).1.rest.requests
          ≡ old ++ request_string post target headers body w ∷ [])
      × ((http_put env target headers body ref w).1.rest.requests
          ≡ old ++ request_string put target headers body w ∷ [])
unfolding http_get http_delete http_post http_put
verbs_requests env target headers body ref w = (
  exchange_requests env _ ref w,
  exchange_requests env _ ref w,
  exchange_requests env _ ref _,
  exchange_requests env _ ref w,
)
