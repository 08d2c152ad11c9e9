-- ===== src/Types/TableLaws.antt =====
-- What the maps of src/types.h agree on, and what reading them by `operator[]` changes.
use crypto_con.Base.{
  Bytes, codes, List, refl, ◌==◌, some, ◌≡◌, ◌↔◌, arith, text_eq_iff, if◌then◌else◌, Option-cases,
  Bool-cases, inl, inr,
}
use crypto_con.Types.{token_pair_code, TokenPair, Side, TimeInForce, OrderType}
use crypto_con.Types.StdMap.{
  Key, find, index, token_pair_same_iff, venue_key, token_pair_key, side_key, time_in_force_key,
  order_type_key, text_key,
}
use crypto_con.Types.Tables.{
  token_pair_to_string, side_to_string, time_in_force_to_string, order_type_to_string,
}
use crypto_con.Types.Tables.Binance
use crypto_con.Types.Tables.Kraken
use crypto_con.Types.Tables.Coinbase

-- The two maps of an exchange are inverse, and its symbols have the canonical names of their pairs.
abbrev pub AreConsistent :
    List (TokenPair × Bytes) → List (Bytes × TokenPair) → List (Bytes × Bytes) → Type 0
AreConsistent out back canonical =
    ((p : TokenPair) (s : Bytes) → (find p out ≡ some s) ↔ (find s back ≡ some p))
    × ((p : TokenPair) (s : Bytes)
        → find p out ≡ some s
        → find s canonical ≡ find p token_pair_to_string)

module _ (p : TokenPair) (s : Bytes) where
  binance_inverse :
      (find p Binance.token_pair_to_string ≡ some s)
      ↔ (find s Binance.string_to_token_pair ≡ some p)
  binance_inverse = (
    λ h. ground (arith, text_eq_iff s (codes "BTCUSDT"), text_eq_iff s (codes "ETHUSDT")),
    λ h. ground (arith, text_eq_iff s (codes "BTCUSDT"), text_eq_iff s (codes "ETHUSDT")),
  )

  kraken_inverse :
      (find p Kraken.token_pair_to_string ≡ some s) ↔ (find s Kraken.string_to_token_pair ≡ some p)
  kraken_inverse = (
    λ h. ground (arith, text_eq_iff s (codes "XBT/USD"), text_eq_iff s (codes "ETH/USD")),
    λ h. ground (arith, text_eq_iff s (codes "XBT/USD"), text_eq_iff s (codes "ETH/USD")),
  )

  coinbase_inverse :
      (find p Coinbase.token_pair_to_string ≡ some s)
      ↔ (find s Coinbase.string_to_token_pair ≡ some p)
  coinbase_inverse = (
    λ h. ground (arith, text_eq_iff s (codes "BTC-USD"), text_eq_iff s (codes "ETH-USD")),
    λ h. ground (arith, text_eq_iff s (codes "BTC-USD"), text_eq_iff s (codes "ETH-USD")),
  )

-- For each of the three exchanges, a pair has the symbol s exactly when s is read back as that
-- pair, and the canonical name of a pair's symbol is the exchange-independent name of the pair.
pub symbol_tables-AreConsistent :
    AreConsistent Binance.token_pair_to_string Binance.string_to_token_pair
      Binance.symbol_to_canonical
    × AreConsistent Kraken.token_pair_to_string Kraken.string_to_token_pair
        Kraken.symbol_to_canonical
    × AreConsistent Coinbase.token_pair_to_string Coinbase.string_to_token_pair
        Coinbase.symbol_to_canonical
symbol_tables-AreConsistent = (
  (binance_inverse, λ p s h. ground arith),
  (kraken_inverse, λ p s h. ground arith),
  (coinbase_inverse, λ p s h. ground arith),
)

module _ {K : Type 0} ⦃key : Key K⦄ where
  -- What a map holds after `m[k]`.
  pub find-index :
      (k j : K) (m : List (K × Bytes))
      → find j (index k m).1 ≡ (if key.same j k then some (index k m).0 else find j m)
  find-index k j m = elim (Option-cases (find k m)) [
    | inl missing ↦ rw missing
    | inr (v, found) ↦ elim (Bool-cases (key.same j k)) [
      | inl equal ↦ rw (equal, found, (key.same_iff j k).0 equal) found
      | inr other ↦ rw (found, other)
    ]
  ]

-- Each enumerator has a name, so reading its map by `operator[]` never changes it; and no two
-- enumerators share a name.
enum_names_complete :
    (a b : OrderType) (s t : Side) (u v : TimeInForce)
    → ((index a order_type_to_string).1 ≡ order_type_to_string)
      × ((index s side_to_string).1 ≡ side_to_string)
      × ((index u time_in_force_to_string).1 ≡ time_in_force_to_string)
      × (((index a order_type_to_string).0 ≡ (index b order_type_to_string).0) → a ≡ b)
      × (((index s side_to_string).0 ≡ (index t side_to_string).0) → s ≡ t)
      × (((index u time_in_force_to_string).0 ≡ (index v time_in_force_to_string).0) → u ≡ v)
enum_names_complete a b s t u v = (
  ground arith,
  ground arith,
  ground arith,
  λ h. ground arith,
  λ h. ground arith,
  λ h. ground arith,
)

-- Reading the map once does not change what it gives.
pub index_stable :
    (s t : TokenPair) (m : List (TokenPair × Bytes)) → (index t (index s m).1).0 ≡ (index t m).0
index_stable s t m = elim (Option-cases (find s m)) [
  | inr (v, found) ↦ rw (found) refl
  | inl missing ↦ elim (Bool-cases (token_pair_code t == token_pair_code s)) [
    | inl equal ↦ rw (missing, equal, (token_pair_same_iff t s).0 equal, missing) refl
    | inr other ↦ elim (Option-cases (find t m)) [
      | inl absent ↦ rw (missing, other, absent) refl
      | inr (u, there) ↦ rw (missing, other, there) refl
    ]
  ]
]
