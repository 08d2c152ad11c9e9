-- ===== src/Utils/Lower.antt =====
-- `toLower` of src/utils/utils.h, with `std::tolower` of the "C" locale.
use crypto_con.Base.{
  ℕ, ◌+◌, ◌≤◌, suc, ◌≡◌, refl, ap, Bytes, codes, ◌&&◌, [], ◌∷◌, map, arith, leb, if◌then◌else◌,
  length, All,
}

-- `std::tolower`
abbrev pub lower_char : ℕ → ℕ
lower_char c = if leb b'A' c && leb c b'Z' then c + 32 else c

-- `toLower`
unfoldable pub to_lower : Bytes → Bytes
to_lower s = map lower_char s

abbrev pub IsNotUpper : ℕ → Type 0
IsNotUpper c = ¬ ((b'A' ≤ c) × (c ≤ b'Z'))

lower_char-IsNotUpper : (c : ℕ) → IsNotUpper (lower_char c)
lower_char-IsNotUpper c (h, k) = ground arith

lower_char_fixed : (c : ℕ) → IsNotUpper c → lower_char c ≡ c
lower_char_fixed c h = ground arith

-- The lower-case text is as long as the text, holds no upper-case letter, and is the text itself if
-- that holds none.
pub to_lower_lem :
    (s : Bytes)
    → (length (to_lower s) ≡ length s)
      × All IsNotUpper (to_lower s)
      × (All IsNotUpper s → to_lower s ≡ s)
unfolding to_lower
to_lower_lem [] = (refl, tt, λ _. refl)
to_lower_lem (c ∷ s) =
    let (len, low, fixed) = to_lower_lem s in
    (ap suc len, (lower_char-IsNotUpper c, low), λ h. cc (lower_char_fixed c h.0, fixed h.1))

pub to_lower_idem : (s : Bytes) → to_lower (to_lower s) ≡ to_lower s
to_lower_idem s = (to_lower_lem (to_lower s)).2 (to_lower_lem s).1

to_lower_test : to_lower (codes "BTCUSDT") ≡ codes "btcusdt"
unfolding to_lower
to_lower_test = refl
