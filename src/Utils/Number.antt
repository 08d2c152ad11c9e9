-- ===== src/Utils/Number.antt =====
-- `std::to_chars` and `std::to_string` on integers, and `appendNumber` of src/utils/utils.h.
pub mod Decimal
use mathlib.Core.Logic.{dite}
use mathlib.Core.WellFounded.{Acc, WellFounded}
use native.Mathlib.Decide.{dec_lt}
use crypto_con.Base.{
  ℕ, zero, suc, ◌+◌, ◌/◌, ◌%◌, ◌<◌, ◌≡◌, refl, Bytes, codes, Option, none, some, [], ◌∷◌, ◌++◌,
  arith, leb, if◌then◌else◌, length,
}
use crypto_con.Base.Int.{ℤ, pos, negsuc}
use crypto_con.Utils.Double.{Double}

Acc-below : (k n : ℕ) → n < k → Acc ◌<◌ n
Acc-below zero n h = absurd (omega arith)
Acc-below (suc k) n h = Acc.intro n λ m lt. Acc-below k m (omega arith)

lt_wf : WellFounded ◌<◌
unfolding Acc-below
lt_wf = record { apply = λ n. Acc-below (suc n) n (omega arith) }

pub tenth_lt : (n : ℕ) → 9 < n → n / 10 < n
tenth_lt n h = omega arith

-- The decimal digits of a number, the last one written last.
decimal_acc : (n : ℕ) → Acc ◌<◌ n → Bytes
decimal_acc n (Acc.intro _ smaller) =
    dite (dec_lt 9 n)
      (λ h. decimal_acc (n / 10) (smaller (n / 10) (tenth_lt n h)) ++ (b'0' + n % 10) ∷ [])
      (λ _. (b'0' + n) ∷ [])

-- `std::to_string` of an unsigned number, and the characters that `std::to_chars` writes for it
unfoldable pub decimal : ℕ → Bytes
unfolding decimal_acc lt_wf dec_lt
decimal n = decimal_acc n (lt_wf.apply n)

-- the same for an `int`
unfoldable pub signed_decimal : ℤ → Bytes
signed_decimal (pos n) = decimal n
signed_decimal (negsuc n) = b'-' ∷ decimal (suc n)

-- `sizeof(buffer)` in `appendNumber`
abbrev pub buffer_size : ℕ
buffer_size = 32

-- `std::to_chars` into the buffer: `none` is `std::errc::value_too_large`
abbrev pub fit : Bytes → Option Bytes
fit text = if leb (length text) buffer_size then some text else none

abbrev append_fit : Bytes → Option Bytes → Bytes
append_fit str (some text) = str ++ text
append_fit str none = str

-- `appendNumber(str, value)` at an unsigned integer: nothing is appended on an error
unfoldable pub append_number : Bytes → ℕ → Bytes
append_number str value = append_fit str (fit (decimal value))

-- `appendNumber(str, value)` at a `double`
unfoldable pub append_double : {W : Type 0} ⦃d : Double W⦄ → Bytes → W → Bytes
append_double ⦃d⦄ str value = append_fit str (fit (d.to_chars value))

decimal_tests : (decimal 0 ≡ codes "0") × (decimal 1700000000123 ≡ codes "1700000000123")
unfolding decimal
decimal_tests = (refl, refl)
