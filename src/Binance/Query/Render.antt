-- ===== src/Binance/Query/Render.antt =====
-- Query strings as lists of parameters: how they are written, and a reader that takes them apart.
use crypto_con.Base.{
  Bytes, List, [], ◌∷◌, ◌++◌, append-nil, append_assoc, ◌≡◌, refl, ◌∙◌, arith, ◌==◌, if◌then◌else◌,
  All, Lacks,
}

abbrev pub Parameter : Type 0
Parameter = Bytes × Bytes

-- One parameter behind another.
abbrev pub segment : Parameter → Bytes
segment (k, v) = b'&' ∷ (k ++ b'=' ∷ v)

abbrev pub segments : List Parameter → Bytes
segments [] = []
segments (p ∷ ps) = segment p ++ segments ps

-- key=value&key=value…
abbrev pub render : List Parameter → Bytes
render [] = []
render ((k, v) ∷ ps) = k ++ b'=' ∷ (v ++ segments ps)

pub segments-append : (ps qs : List Parameter) → segments (ps ++ qs) ≡ segments ps ++ segments qs
segments-append [] qs = refl
segments-append (p ∷ ps) qs = simp (segments-append ps qs, append_assoc)

pub render-append :
    (p : Parameter) (ps qs : List Parameter)
    → render (p ∷ (ps ++ qs)) ≡ render (p ∷ ps) ++ segments qs
render-append p ps qs = simp (segments-append ps qs, append_assoc)

-- `read_value k v s`: the key k has been read, and v of its value; `read_key k s`: k of a key.
mutual
  read_key : Bytes → Bytes → List Parameter
  read_key k [] = []
  read_key k (c ∷ s) =
      let value = read_value k [] s in
      let more = read_key (k ++ c ∷ []) s in if c == b'=' then value else more

  read_value : Bytes → Bytes → Bytes → List Parameter
  read_value k v [] = (k, v) ∷ []
  read_value k v (c ∷ s) =
      let next = read_key [] s in
      let more = read_value k (v ++ c ∷ []) s in if c == b'&' then (k, v) ∷ next else more

-- The parameters of a query string, as a server takes it apart.
pub parse_query : Bytes → List Parameter
parse_query s = read_key [] s

abbrev pub IsPlain : Parameter → Type 0
IsPlain (k, v) = Lacks b'=' k × Lacks b'&' v

read_key-append :
    (k done rest : Bytes)
    → Lacks b'=' k
    → read_key done (k ++ b'=' ∷ rest) ≡ read_value (done ++ k) [] rest
unfolding read_key
read_key-append [] done rest h = ground (arith, append-nil done)
read_key-append (c ∷ k) done rest (h, hs) =
    ground (arith, read_key-append k (done ++ c ∷ []) rest hs, append_assoc done (c ∷ []) k)

read_value-append :
    (v k done rest : Bytes)
    → Lacks b'&' v
    → read_value k done (v ++ rest) ≡ read_value k (done ++ v) rest
unfolding read_key
read_value-append [] k done rest h = rw append-nil
read_value-append (c ∷ v) k done rest (h, hs) =
    ground (arith, read_value-append v k (done ++ c ∷ []) rest hs, append_assoc done (c ∷ []) v)

read_key_parameter :
    (k v rest : Bytes)
    → IsPlain (k, v)
    → read_key [] (k ++ b'=' ∷ (v ++ rest)) ≡ read_value k v rest
read_key_parameter k v rest (hk, hv) =
    read_key-append k [] (v ++ rest) hk ∙ read_value-append v k [] rest hv

read_value-segments :
    (k v : Bytes) (ps : List Parameter)
    → All IsPlain ps
    → read_value k v (segments ps) ≡ (k, v) ∷ ps
unfolding read_key
read_value-segments k v [] h = refl
read_value-segments k v ((j, u) ∷ ps) (h, hs) =
    rw (append_assoc, read_key_parameter j u (segments ps) h, read_value-segments j u ps hs)

-- A list of parameters whose keys have no `=` and whose values have no `&` is read back.
pub parse_query-render : (ps : List Parameter) → All IsPlain ps → parse_query (render ps) ≡ ps
unfolding parse_query
parse_query-render [] h = unfold read_key in refl
parse_query-render ((k, v) ∷ ps) (h, hs) =
    rw (read_key_parameter k v (segments ps) h) (read_value-segments k v ps hs)
