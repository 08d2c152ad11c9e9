-- ===== src/Binance/Feeds/Subscribes.antt =====
-- The exchange's side of a subscription to the user data feed: it lists the members of the message,
-- takes the last one for the signature, and computes the HMAC of the other parameters as a query.
use crypto_con.Base.{
  ℕ, Bytes, codes, Bool, true, false, Bool-cases, ◌&&◌, List, [], ◌∷◌, ◌++◌, append_assoc,
  append-nil, Option, none, some, inl, inr, ◌≡◌, ◌≢◌, refl, sym, ap, ◌∙◌, arith, All-imp, text_eq,
  text_eq_refl, if◌then◌else◌, ltb, Lacks,
}
use crypto_con.Utils.Number.{decimal}
use crypto_con.Utils.Number.Decimal.{decimal-IsDigit, decimal_not_nil}
use crypto_con.Utils.Signing.{Digest, IsHex, sign_hmac, sign_hmac_lem}
use crypto_con.Binance.Query.Render.{Parameter, render}
use crypto_con.Binance.Feeds.{signature_payload, subscribe_message}
use crypto_con.Binance.Feeds.Members.{
  read_members, open_key, open_value, open_value-append, in_string-append,
}

abbrev with_first : Parameter → Option (List Parameter × Bytes) → Option (List Parameter × Bytes)
with_first p none = none
with_first p (some (ps, signature)) = some (p ∷ ps, signature)

-- The parameters before the last one, which must be the signature.
abbrev split_signature : List Parameter → Option (List Parameter × Bytes)
split_signature [] = none
split_signature ((k, v) ∷ []) = if text_eq k (codes "signature") then some ([], v) else none
split_signature (p ∷ q ∷ ps) = with_first p (split_signature (q ∷ ps))

abbrev verify :
    Digest → Bytes → Bytes → Option (List Parameter × Bytes) → Option (Bytes × List Parameter)
verify d secret id none = none
verify d secret id (some (ps, signature)) =
    if text_eq signature (sign_hmac d secret (render ps)) then some (id, ps) else none

abbrev is_subscription : Bytes → Bytes → Bytes → Bool
is_subscription k j method =
    text_eq k (codes "id")
    && text_eq j (codes "method")
    && text_eq method (codes "userDataStream.subscribe.signature")

abbrev check : Digest → Bytes → List Parameter → Option (Bytes × List Parameter)
check d secret ((k, id) ∷ (j, method) ∷ ps) =
    if is_subscription k j method then verify d secret id (split_signature ps) else none
check d secret ps = none

-- The id of the request, and the parameters of a subscription whose signature is right.
pub receive_subscription : Digest → Bytes → Bytes → Option (Bytes × List Parameter)
receive_subscription d secret message = check d secret (read_members message)

abbrev window_parameter : Bool → ℕ → List Parameter
window_parameter true recv_window = (codes "recvWindow", decimal recv_window) ∷ []
window_parameter false recv_window = []

-- The parameters that are signed.
abbrev pub signed_parameters : Bytes → ℕ → ℕ → List Parameter
signed_parameters api_key recv_window now =
    (codes "apiKey", api_key) ∷ window_parameter (ltb 0 recv_window) recv_window
    ++ (codes "timestamp", decimal now) ∷ []

payload-render :
    (api_key : Bytes) (recv_window now : ℕ)
    → signature_payload api_key recv_window now ≡ render (signed_parameters api_key recv_window now)
payload-render api_key recv_window now = elim (Bool-cases (ltb 0 recv_window)) [
  | inl given ↦ rw given simp (append_assoc, append-nil)
  | inr none_given ↦ rw none_given simp (append_assoc, append-nil)
]

-- The message in pieces that end where the reader ends a member.
abbrev ending : ℕ → Bytes → Bytes
ending now signature =
    codes "\"timestamp\":"
    ++ (decimal now ++ b',' ∷ (codes "\"signature\":\"" ++ (signature ++ b'"' ∷ codes "}}")))

abbrev windowed : Bool → ℕ → Bytes → Bytes
windowed true recv_window rest = codes ",\"recvWindow\":" ++ (decimal recv_window ++ b',' ∷ rest)
windowed false recv_window rest = b',' ∷ rest

abbrev opening : Bytes
opening = codes "\"method\":\"userDataStream.subscribe.signature\",\"params\":{\"apiKey\":\""

subscribe_message_pieces :
    (request_id : ℕ) (api_key : Bytes) (recv_window now : ℕ) (signature : Bytes)
    → subscribe_message request_id api_key recv_window now signature
      ≡ codes "{\"id\":"
        ++ (decimal request_id
            ++ b','
              ∷ (opening
                  ++ (api_key
                      ++ b'"' ∷ windowed (ltb 0 recv_window) recv_window (ending now signature))))
subscribe_message_pieces request_id api_key recv_window now signature =
    elim (Bool-cases (ltb 0 recv_window)) [
      | inl given ↦ rw given (simp append_assoc)
      | inr none_given ↦ rw none_given (simp append_assoc)
    ]

decimal_value :
    (k : Bytes) (n : ℕ) (rest : Bytes)
    → open_value k (decimal n ++ b',' ∷ rest) ≡ (k, decimal n) ∷ open_key rest
decimal_value k n rest =
    open_value-append (decimal n) k rest (decimal_not_nil n) (decimal-IsDigit n)

abbrev last_members : ℕ → Bytes → List Parameter
last_members now signature = (codes "timestamp", decimal now) ∷ (codes "signature", signature) ∷ []

ending_members :
    (now : ℕ) (signature : Bytes)
    → Lacks b'"' signature
    → open_key (ending now signature) ≡ last_members now signature
unfolding open_key
ending_members now signature h =
    decimal_value (codes "timestamp") now _
    ∙ ap (λ l. (codes "timestamp", decimal now) ∷ l)
        (in_string-append signature (codes "signature") [] _ h)

windowed_members :
    (b : Bool) (recv_window now : ℕ) (signature : Bytes)
    → Lacks b'"' signature
    → open_key (windowed b recv_window (ending now signature))
      ≡ window_parameter b recv_window ++ last_members now signature
unfolding open_key
windowed_members true recv_window now signature h =
    decimal_value (codes "recvWindow") recv_window (ending now signature)
    ∙ ap (λ l. (codes "recvWindow", decimal recv_window) ∷ l) (ending_members now signature h)
windowed_members false recv_window now signature h = ending_members now signature h

message_members :
    (request_id : ℕ) (api_key : Bytes) (recv_window now : ℕ) (signature : Bytes)
    → Lacks b'"' api_key
    → Lacks b'"' signature
    → read_members (subscribe_message request_id api_key recv_window now signature)
      ≡ (codes "id", decimal request_id)
        ∷ (codes "method", codes "userDataStream.subscribe.signature")
        ∷ (codes "apiKey", api_key)
        ∷ (window_parameter (ltb 0 recv_window) recv_window ++ last_members now signature)
unfolding read_members open_key
message_members request_id api_key recv_window now signature plain hex =
    let tail = windowed (ltb 0 recv_window) recv_window (ending now signature) in
    ap read_members (subscribe_message_pieces request_id api_key recv_window now signature)
    ∙ decimal_value (codes "id") request_id (opening ++ (api_key ++ b'"' ∷ tail))
    ∙ ap
        (λ l.
          (codes "id", decimal request_id)
          ∷ (codes "method", codes "userDataStream.subscribe.signature")
          ∷ l)
        (in_string-append api_key (codes "apiKey") [] tail plain)
    ∙ ap
        (λ l.
          (codes "id", decimal request_id)
          ∷ (codes "method", codes "userDataStream.subscribe.signature")
          ∷ (codes "apiKey", api_key)
          ∷ l)
        (windowed_members (ltb 0 recv_window) recv_window now signature hex)

split_members :
    (b : Bool) (api_key : Bytes) (recv_window now : ℕ) (signature : Bytes)
    → split_signature
        ((codes "apiKey", api_key) ∷ (window_parameter b recv_window ++ last_members now signature))
      ≡ some (
        (codes "apiKey", api_key) ∷ window_parameter b recv_window
            ++ (codes "timestamp", decimal now) ∷ [],
        signature,
      )
split_members true api_key recv_window now signature = refl
split_members false api_key recv_window now signature = refl

hex_plain : (c : ℕ) → IsHex c → c ≢ b'"'
hex_plain c h = ground arith

-- The exchange accepts every subscription: it finds the id of the request, the API key, the window
-- if it is positive, and the time. The API key holds no quotation mark.
pub receive_subscription-subscribe_message :
    (d : Digest) (secret : Bytes) (request_id : ℕ) (api_key : Bytes) (recv_window now : ℕ)
    → Lacks b'"' api_key
    → receive_subscription d secret (
        subscribe_message request_id api_key recv_window now
          (sign_hmac d secret (signature_payload api_key recv_window now)))
      ≡ some (decimal request_id, signed_parameters api_key recv_window now)
unfolding receive_subscription
receive_subscription-subscribe_message d secret request_id api_key recv_window now plain =
    let signature = sign_hmac d secret (signature_payload api_key recv_window now) in
    let hex =
      All-imp IsHex _ hex_plain signature
        (sign_hmac_lem d secret (signature_payload api_key recv_window now)).1 in
    let signed : text_eq signature
          (sign_hmac d secret (render (signed_parameters api_key recv_window now)))
        ≡ true =
      rw (sym (payload-render api_key recv_window now)) (text_eq_refl signature) in
    ap (check d secret) (message_members request_id api_key recv_window now signature plain hex)
    ∙ ap (verify d secret (decimal request_id))
        (split_members (ltb 0 recv_window) api_key recv_window now signature)
    ∙ rw signed refl
