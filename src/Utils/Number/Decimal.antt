-- ===== src/Utils/Number/Decimal.antt =====
-- What the decimal text of a number holds: digits only, as many as its size allows, and the number.
use mathlib.Core.Logic.{ite, dite, if_pos, if_neg}
use mathlib.Core.List.{foldl, foldl-append}
use mathlib.Core.WellFounded
use mathlib.Core.WellFounded.{Acc, Acc-prop}
use native.Mathlib.Decide.{dec_lt}
use native.Mathlib.Nat.{pow-suc}
use crypto_con.Base.{
  ◌≢◌, ℕ, zero, suc, ◌+◌, ◌-◌, ◌*◌, ◌/◌, ◌%◌, ◌^◌, ◌<◌, ◌≤◌, ◌≡◌, Bytes, [], ◌∷◌, ◌++◌, arith,
  length, length-append, All, All-append, All-imp,
}
use crypto_con.Utils.Double.{Double, PrintsDoubles, IsNumeral}
use crypto_con.Utils.Number.{decimal_acc, tenth_lt, lt_wf, decimal, append_number, append_double}

-- any two proofs of `Acc` are equal
decimal_acc_step :
    (n : ℕ) (w : Acc ◌<◌ n) (w' : Acc ◌<◌ (n / 10))
    → decimal_acc n w
      ≡ ite (dec_lt 9 n) (decimal_acc (n / 10) w' ++ (b'0' + n % 10) ∷ []) ((b'0' + n) ∷ [])
unfolding decimal_acc
decimal_acc_step n (Acc.intro _ smaller) w' = λ i.
    dite (dec_lt 9 n)
      (λ h.
        decimal_acc (n / 10) (Acc-prop (smaller (n / 10) (tenth_lt n h)) w' i)
        ++ (b'0' + n % 10) ∷ [])
      (λ _. (b'0' + n) ∷ [])

pub decimal_step :
    (n : ℕ)
    → decimal n ≡ ite (dec_lt 9 n) (decimal (n / 10) ++ (b'0' + n % 10) ∷ []) ((b'0' + n) ∷ [])
unfolding decimal
decimal_step n = decimal_acc_step n (lt_wf.apply n) (lt_wf.apply (n / 10))

abbrev pub IsDigit : ℕ → Type 0
IsDigit c = (b'0' ≤ c) × (c ≤ b'9')

-- the number that digits spell, read from the left
abbrev pub value : Bytes → ℕ
value = foldl (λ n c. n * 10 + (c - b'0')) 0

pub decimal-IsDigit : (n : ℕ) → All IsDigit (decimal n)
decimal-IsDigit n = WellFounded.induction lt_wf {C = λ m. All IsDigit (decimal m)} n λ m ih.
    elim (dec_lt 9 m) [
      | yes h ↦
          rw (decimal_step m, if_pos _ h)
            (All-append IsDigit _ _ (ih (m / 10) (omega arith)) (omega arith))
      | no h ↦ rw (decimal_step m, if_neg _ h) (omega arith)
    ]

snoc_not_nil : (s : Bytes) (d : ℕ) → s ++ d ∷ [] ≢ []
snoc_not_nil [] d e = absurd (ground arith)
snoc_not_nil (c ∷ s) d e = absurd (ground arith)

pub decimal_not_nil : (n : ℕ) → decimal n ≢ []
decimal_not_nil n = elim (dec_lt 9 n) [
  | yes h ↦ rw (decimal_step n, if_pos _ h) (snoc_not_nil (decimal (n / 10)) _)
  | no h ↦ rw (decimal_step n, if_neg _ h) (snoc_not_nil [] _)
]

pub value-decimal : (n : ℕ) → value (decimal n) ≡ n
value-decimal n = WellFounded.induction lt_wf {C = λ m. value (decimal m) ≡ m} n λ m ih.
    elim (dec_lt 9 m) [
      | yes h ↦
          rw (decimal_step m, if_pos _ h, foldl-append, ih (m / 10) (omega arith)) (omega arith)
      | no h ↦ rw (decimal_step m, if_neg _ h) (omega arith)
    ]

shorter : (k n : ℕ) → n < 10 ^ suc (suc k) → n / 10 < 10 ^ suc k
shorter k n h = omega (arith, pow-suc 10 (suc k))

-- a number below 10 ^ k has at most k digits, if k is positive
pub length-decimal : (k n : ℕ) → n < 10 ^ suc k → length (decimal n) ≤ suc k
length-decimal zero n h =
    let small : ¬ (9 < n) = omega arith in rw (decimal_step n, if_neg _ small) (omega arith)
length-decimal (suc k) n h = elim (dec_lt 9 n) [
  | yes big ↦
      rw (decimal_step n, if_pos _ big, length-append)
        (omega (arith, length-decimal k (n / 10) (shorter k n h)))
  | no small ↦ rw (decimal_step n, if_neg _ small) (omega arith)
]

digit-IsNumeral : (c : ℕ) → IsDigit c → IsNumeral c
digit-IsNumeral c h = omega arith

pub decimal-IsNumeral : (n : ℕ) → All IsNumeral (decimal n)
decimal-IsNumeral n = All-imp IsDigit IsNumeral digit-IsNumeral (decimal n) (decimal-IsDigit n)

length-decimal_word : (n : ℕ) → n < 2 ^ 64 → length (decimal n) ≤ 20
length-decimal_word n h = length-decimal 19 n (omega arith)

-- The buffer of `appendNumber` holds every 64-bit number: its decimal text is appended, at most 20
-- characters, all of them digits, and that text spells the number.
pub append_number-decimal :
    (str : Bytes) (n : ℕ)
    → n < 2 ^ 64
    → (text : Bytes) × (append_number str n ≡ str ++ text)
      × (length text ≤ 20)
      × All IsDigit text
      × (value text ≡ n)
unfolding append_number
append_number-decimal str n h = (
  decimal n,
  ground (arith, length-decimal_word n h),
  length-decimal_word n h,
  decimal-IsDigit n,
  value-decimal n,
)

pub append_number-eq : (str : Bytes) (n : ℕ) → n < 2 ^ 64 → append_number str n ≡ str ++ decimal n
unfolding append_number
append_number-eq str n h = ground (arith, length-decimal_word n h)

pub append_double-eq :
    {W : Type 0} ⦃d : Double W⦄
    → PrintsDoubles W
    → (str : Bytes) (x : W) → append_double str x ≡ str ++ d.to_chars x
unfolding append_double
append_double-eq prints str x = ground (arith, prints.short x)
