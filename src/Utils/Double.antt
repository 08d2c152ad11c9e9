-- ===== src/Utils/Double.antt =====
-- All that the code does with a `double`: the constant 0.0, the test `>`, and printing by
-- `std::to_chars`, which without a format writes the shortest text that reads back as the number.
use crypto_con.Base.{ℕ, ◌≤◌, ◌≢◌, Bytes, Bool, All, length}

pub record Double (W : Type 0) : Type 0 where
  pub nought : W
  pub gt : W → W → Bool
  pub to_chars : W → Bytes

-- A character that `std::to_chars` can write for a `double`: a digit, a sign, the point, the `e` of
-- an exponent, or a letter of `inf` and `nan`. None of them separates the parameters of a query.
abbrev pub IsNumeral : ℕ → Type 0
IsNumeral c = (c ≢ b'&') × (c ≢ b'=')

-- The longest shortest text of a `double` has 24 characters, as in -2.2250738585072014e-308.
pub record PrintsDoubles (W : Type 0) ⦃d : Double W⦄ : Type 0 where
  pub short : (x : W) → length (d.to_chars x) ≤ 24
  pub numeral : (x : W) → All IsNumeral (d.to_chars x)
