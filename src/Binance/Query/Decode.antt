-- ===== src/Binance/Query/Decode.antt =====
-- A URL-encoded text as a server decodes it, against which the query strings are read.
use crypto_con.Base.{
  ℕ, ◌+◌, ◌-◌, ◌*◌, ◌≢◌, Bytes, Bool, List, [], ◌∷◌, map, ◌≡◌, refl, ap, arith, ◌==◌, ◌&&◌, ◌||◌,
  leb, if◌then◌else◌, All, All-imp,
}
use crypto_con.Utils.Number.{decimal}
use crypto_con.Utils.Number.Decimal.{IsDigit, decimal-IsDigit}
use crypto_con.Binance.Query.Render.{Parameter, render, parse_query, parse_query-render, IsPlain}

abbrev is_hex : ℕ → Bool
is_hex c = (leb 48 c && leb c 57) || (leb 65 c && leb c 70) || (leb 97 c && leb c 102)

abbrev hex_value : ℕ → ℕ
hex_value c = if leb c 57 then c - 48 else if leb c 70 then c - 55 else c - 87

abbrev percent : ℕ
percent = 37

-- `+` is a space, and `%` with two hexadecimal digits is the byte with that number.
unfoldable mutual
  pub decode : Bytes → Bytes
  decode [] = []
  decode (c ∷ s) =
      let rest = decode s in
      let escaped = escape_high s in
      if c == b'+' then b' ' ∷ rest else if c == percent then escaped else c ∷ rest

  escape_high : Bytes → Bytes
  escape_high [] = percent ∷ []
  escape_high (a ∷ s) = escape_low a s

  escape_low : ℕ → Bytes → Bytes
  escape_low a [] = percent ∷ a ∷ []
  escape_low a (b ∷ s) =
      let rest = decode s in
      if is_hex a && is_hex b
      then (hex_value a * 16 + hex_value b) ∷ rest
      else percent ∷ a ∷ b ∷ rest

abbrev pub decoded : Parameter → Parameter
decoded (k, v) = (decode k, decode v)

-- The parameters of a URL-encoded query string.
abbrev pub read_query : Bytes → List Parameter
read_query s = map decoded (parse_query s)

-- Decoding leaves the text as it is.
abbrev pub IsLiteral : Bytes → Type 0
IsLiteral = All (λ c. (c ≢ b'+') × (c ≢ percent))

abbrev pub AreLiteral : List Parameter → Type 0
AreLiteral = All (λ p. IsLiteral p.0 × IsLiteral p.1)

pub decimal-IsLiteral : (n : ℕ) → IsLiteral (decimal n)
decimal-IsLiteral n =
    All-imp IsDigit (λ c. (c ≢ b'+') × (c ≢ percent)) (λ c h. omega (arith, h)) (decimal n)
      (decimal-IsDigit n)

pub decode_literal : (s : Bytes) → IsLiteral s → decode s ≡ s
unfolding decode
decode_literal [] h = refl
decode_literal (c ∷ s) (h, hs) = ground (arith, decode_literal s hs)

pub decoded_literal : (ps : List Parameter) → AreLiteral ps → map decoded ps ≡ ps
decoded_literal [] h = refl
decoded_literal ((k, v) ∷ ps) ((hk, hv), hs) =
    rw (decode_literal k hk, decode_literal v hv, decoded_literal ps hs) refl

-- A query without separators in its values is read as its parameters, each one decoded.
pub read_query-render :
    (ps : List Parameter) → All IsPlain ps → read_query (render ps) ≡ map decoded ps
read_query-render ps h = ap (map decoded) (parse_query-render ps h)
