-- ===== src/Binance/Feeds/Members.antt =====
-- The members of a JSON object and of the objects in it, as a reader lists them: strings without
-- escapes, and numbers by their text.
use crypto_con.Base.{
  ◌≢◌, All, Bytes, List, [], ◌∷◌, ◌++◌, append-nil, append_assoc, ◌≡◌, refl, arith, ◌==◌, ◌||◌,
  if◌then◌else◌, Lacks,
}
use crypto_con.Binance.Query.Render.{Parameter}
use crypto_con.Utils.Number.Decimal.{IsDigit}

-- `open_key`: before a key; `in_key k`: k of a key has been read; `open_value k`: before its value;
-- `in_string k v` and `in_number k v`: v of its value has been read.
unfoldable mutual
  pub open_key : Bytes → List Parameter
  open_key [] = []
  open_key (c ∷ s) =
      let key = in_key [] s in let more = open_key s in if c == b'"' then key else more

  in_key : Bytes → Bytes → List Parameter
  in_key k [] = []
  in_key k (c ∷ s) =
      let value = open_value k s in
      let more = in_key (k ++ c ∷ []) s in if c == b'"' then value else more

  pub open_value : Bytes → Bytes → List Parameter
  open_value k [] = []
  open_value k (c ∷ s) =
      let later = open_value k s in
      let string = in_string k [] s in
      let object = open_key s in
      let number = in_number k (c ∷ []) s in
      if c == b':'
      then later
      else if c == b'"'
      then string
      else if c == b'{'
      then object
      else number

  pub in_string : Bytes → Bytes → Bytes → List Parameter
  in_string k v [] = []
  in_string k v (c ∷ s) =
      let next = open_key s in
      let more = in_string k (v ++ c ∷ []) s in if c == b'"' then (k, v) ∷ next else more

  in_number : Bytes → Bytes → Bytes → List Parameter
  in_number k v [] = (k, v) ∷ []
  in_number k v (c ∷ s) =
      let next = open_key s in
      let more = in_number k (v ++ c ∷ []) s in
      if c == b',' || c == b'}' then (k, v) ∷ next else more

unfoldable pub read_members : Bytes → List Parameter
read_members s = open_key s

pub in_string-append :
    (v k done rest : Bytes)
    → Lacks b'"' v
    → in_string k done (v ++ b'"' ∷ rest) ≡ (k, done ++ v) ∷ open_key rest
unfolding open_key
in_string-append [] k done rest h = rw append-nil refl
in_string-append (c ∷ v) k done rest (h, hs) =
    ground (arith, in_string-append v k (done ++ c ∷ []) rest hs, append_assoc done (c ∷ []) v)

in_number-append :
    (v k done rest : Bytes)
    → All IsDigit v
    → in_number k done (v ++ b',' ∷ rest) ≡ (k, done ++ v) ∷ open_key rest
unfolding open_key
in_number-append [] k done rest h = rw append-nil refl
in_number-append (c ∷ v) k done rest (h, hs) =
    ground (arith, in_number-append v k (done ++ c ∷ []) rest hs, append_assoc done (c ∷ []) v)

pub open_value-append :
    (v k rest : Bytes)
    → v ≢ []
    → All IsDigit v
    → open_value k (v ++ b',' ∷ rest) ≡ (k, v) ∷ open_key rest
unfolding open_key
open_value-append [] k rest some_digit h = absurd (some_digit refl)
open_value-append (c ∷ v) k rest some_digit (h, hs) =
    ground (arith, in_number-append v k (c ∷ []) rest hs)
