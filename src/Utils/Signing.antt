-- ===== src/Utils/Signing.antt =====
-- `signHMAC` of src/utils/signing.cpp. The digest is OpenSSL's `HMAC` with SHA-256, a parameter.
use crypto_con.Base.{
  ℕ, ◌+◌, ◌-◌, ◌*◌, ◌/◌, ◌%◌, ◌<◌, ◌≤◌, ◌⊎◌, ◌≡◌, refl, Bytes, [], ◌∷◌, ◌++◌, arith, ltb,
  if◌then◌else◌, length, length-append, All, All-append, All-imp,
}
use crypto_con.Utils.Double.{IsNumeral}

-- One digit under `std::hex`.
abbrev hex_digit : ℕ → ℕ
hex_digit d = if ltb d 10 then b'0' + d else b'a' + (d - 10)

-- A number below 256 under `std::hex`: one digit or two.
abbrev hex_text : ℕ → Bytes
hex_text b = if ltb b 16 then hex_digit b ∷ [] else hex_digit (b / 16) ∷ hex_digit (b % 16) ∷ []

-- `std::setw(2)` with `std::setfill('0')`
abbrev set_width_two : Bytes → Bytes
set_width_two (c ∷ []) = b'0' ∷ c ∷ []
set_width_two [] = b'0' ∷ b'0' ∷ []
set_width_two (c ∷ d ∷ s) = c ∷ d ∷ s

-- The loop that streams the digest.
unfoldable pub hex_stream : Bytes → Bytes
hex_stream [] = []
hex_stream (b ∷ hash) = set_width_two (hex_text b) ++ hex_stream hash

-- What the code relies on of `HMAC(EVP_sha256(), …)`: it writes 32 bytes.
pub record Digest : Type 0 where
  pub hmac : Bytes → Bytes → Bytes
  pub size : (key message : Bytes) → length (hmac key message) ≡ 32
  pub byte : (key message : Bytes) → All (λ b. b < 256) (hmac key message)

unfoldable pub sign_hmac : Digest → Bytes → Bytes → Bytes
sign_hmac d key message = hex_stream (d.hmac key message)

-- An independent reader of hexadecimal text.
abbrev hex_value : ℕ → ℕ
hex_value c = if ltb c b'a' then c - b'0' else c - b'a' + 10

abbrev pub read_hex : Bytes → Bytes
read_hex (c ∷ d ∷ s) = (hex_value c * 16 + hex_value d) ∷ read_hex s
read_hex _ = []

abbrev IsByte : ℕ → Type 0
IsByte b = b < 256

abbrev pub IsHex : ℕ → Type 0
IsHex c = ((b'0' ≤ c) × (c ≤ b'9')) ⊎ ((b'a' ≤ c) × (c ≤ b'f'))

read_hex-byte :
    (b : ℕ) (s : Bytes) → b < 256 → read_hex (set_width_two (hex_text b) ++ s) ≡ b ∷ read_hex s
read_hex-byte b s h = ground arith

byte-IsHex :
    (b : ℕ)
    → b < 256
    → All IsHex (set_width_two (hex_text b)) × (length (set_width_two (hex_text b)) ≡ 2)
byte-IsHex b h = ground arith

read_hex-hex_stream : (hash : Bytes) → All IsByte hash → read_hex (hex_stream hash) ≡ hash
unfolding hex_stream
read_hex-hex_stream [] h = refl
read_hex-hex_stream (b ∷ hash) (h, hs) =
    rw (read_hex-byte b (hex_stream hash) h, read_hex-hex_stream hash hs)

hex_stream-IsHex : (hash : Bytes) → All IsByte hash → All IsHex (hex_stream hash)
unfolding hex_stream
hex_stream-IsHex [] h = tt
hex_stream-IsHex (b ∷ hash) (h, hs) =
    All-append IsHex _ _ (byte-IsHex b h).0 (hex_stream-IsHex hash hs)

length-hex_stream : (hash : Bytes) → All IsByte hash → length (hex_stream hash) ≡ 2 * length hash
unfolding hex_stream
length-hex_stream [] h = refl
length-hex_stream (b ∷ hash) (h, hs) =
    rw length-append (omega (arith, (byte-IsHex b h).1, length-hex_stream hash hs))

-- A signature has 64 lower-case hexadecimal digits, and they read back as the digest.
pub sign_hmac_lem :
    (d : Digest) (key message : Bytes)
    → (length (sign_hmac d key message) ≡ 64)
      × All IsHex (sign_hmac d key message)
      × (read_hex (sign_hmac d key message) ≡ d.hmac key message)
unfolding sign_hmac
sign_hmac_lem d key message =
    let bytes = d.byte key message in
    (
      rw (length-hex_stream _ bytes, d.size key message),
      hex_stream-IsHex _ bytes,
      read_hex-hex_stream _ bytes,
    )

hex-IsNumeral : (c : ℕ) → IsHex c → IsNumeral c
hex-IsNumeral c h = ground arith

pub sign_hmac-IsNumeral :
    (d : Digest) (key message : Bytes) → All IsNumeral (sign_hmac d key message)
sign_hmac-IsNumeral d key message =
    All-imp IsHex IsNumeral hex-IsNumeral _ (sign_hmac_lem d key message).1
