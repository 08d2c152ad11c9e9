-- ===== src/Types/StdMap.antt =====
-- What the program uses of `std::map`: `find`, and `operator[]`, which inserts an empty value
-- under a key that is missing and so changes the map that it reads.
use crypto_con.Base.{
  Bytes, Bool, true, List, [], ◌∷◌, Option, none, some, ◌≡◌, ◌↔◌, arith, ◌==◌, text_eq, text_eq_iff,
  if◌then◌else◌,
}
use crypto_con.Types.{
  Venue, TokenPair, Side, TimeInForce, OrderType, venue_code, token_pair_code, side_code,
  time_in_force_code, order_type_code,
}

-- Two keys are the same when neither is less than the other.
pub record Key (K : Type 0) : Type 0 where
  pub same : K → K → Bool
  pub same_iff : (a b : K) → (same a b ≡ true) ↔ (a ≡ b)

pub venue_same_iff : (a b : Venue) → ((venue_code a == venue_code b) ≡ true) ↔ (a ≡ b)
venue_same_iff a b = ground arith

pub token_pair_same_iff :
    (a b : TokenPair) → ((token_pair_code a == token_pair_code b) ≡ true) ↔ (a ≡ b)
token_pair_same_iff a b = ground arith

pub side_same_iff : (a b : Side) → ((side_code a == side_code b) ≡ true) ↔ (a ≡ b)
side_same_iff a b = ground arith

pub time_in_force_same_iff :
    (a b : TimeInForce) → ((time_in_force_code a == time_in_force_code b) ≡ true) ↔ (a ≡ b)
time_in_force_same_iff a b = ground arith

pub order_type_same_iff :
    (a b : OrderType) → ((order_type_code a == order_type_code b) ≡ true) ↔ (a ≡ b)
order_type_same_iff a b = ground arith

instance abbrev pub venue_key : Key Venue
venue_key = record { same = λ a b. venue_code a == venue_code b; same_iff = venue_same_iff }

instance abbrev pub token_pair_key : Key TokenPair
token_pair_key = record {
  same = λ a b. token_pair_code a == token_pair_code b;
  same_iff = token_pair_same_iff;
}

instance abbrev pub side_key : Key Side
side_key = record { same = λ a b. side_code a == side_code b; same_iff = side_same_iff }

instance abbrev pub time_in_force_key : Key TimeInForce
time_in_force_key = record {
  same = λ a b. time_in_force_code a == time_in_force_code b;
  same_iff = time_in_force_same_iff;
}

instance abbrev pub order_type_key : Key OrderType
order_type_key = record {
  same = λ a b. order_type_code a == order_type_code b;
  same_iff = order_type_same_iff;
}

instance abbrev pub text_key : Key Bytes
text_key = record { same = text_eq; same_iff = text_eq_iff }

module _ {K V : Type 0} ⦃key : Key K⦄ where
  -- `map.find(k)`; `none` is `map.end()`
  abbrev pub find : K → List (K × V) → Option V
  find k [] = none
  find k ((j, v) ∷ m) = if key.same k j then some v else find k m

module _ {K : Type 0} ⦃key : Key K⦄ where
  abbrev settle : K → Option Bytes → List (K × Bytes) → Bytes × List (K × Bytes)
  settle k (some v) m = (v, m)
  settle k none m = ([], (k, []) ∷ m)

  -- `map[k]` read as a value: the value, and the map afterwards
  abbrev pub index : K → List (K × Bytes) → Bytes × List (K × Bytes)
  index k m = settle k (find k m) m
