-- ===== src/Base/Keep.antt =====
-- The elements of a list that pass a test, and the length of a list, under permutations.
use mathlib.Core.Path.{◌≡◌, refl, sym, ap, ◌∙◌}
use mathlib.Core.Logic.{inl, inr}
use mathlib.Core.Bool.{Bool, true}
use mathlib.Core.List.{List, [], ◌∷◌, Permᴰ}
use mathlib.Core.List.Permᴰ
use Prim.Native.Nat.{suc}
use crypto_con.Base.Tests.{if◌then◌else◌, Bool-cases}
use crypto_con.Base.Lists.{length, All}

module _ {A : Type 0} where
  pub length-Perm : {xs ys : List A} → Permᴰ xs ys → length xs ≡ length ys
  length-Perm Permᴰ.nil = refl
  length-Perm (Permᴰ.cons e p) = ap suc (length-Perm p)
  length-Perm (Permᴰ.swap e d) = refl
  length-Perm (Permᴰ.trans p q) = length-Perm p ∙ length-Perm q

  abbrev pub keep : (A → Bool) → List A → List A
  keep p [] = []
  keep p (x ∷ xs) = let rest = keep p xs in if p x then x ∷ rest else rest

  pub keep_all : (p : A → Bool) (xs : List A) → All (λ x. p x ≡ true) xs → keep p xs ≡ xs
  keep_all p [] h = refl
  keep_all p (x ∷ xs) (h, hs) = rw h (ap (λ l. x ∷ l) (keep_all p xs hs))

  module _ (p : A → Bool) where
    keep-cons :
        {a b : A} (xs ys : List A)
        → a ≡ b
        → Permᴰ xs ys
        → Permᴰ (if p a then a ∷ xs else xs) (if p b then b ∷ ys else ys)
    keep-cons {a} {b} xs ys e h = elim (Bool-cases (p a)) [
      | inl kept ↦ rw (kept, sym (ap p e) ∙ kept) (Permᴰ.cons e h)
      | inr gone ↦ rw (gone, sym (ap p e) ∙ gone) h
    ]

    keep-swap :
        {a b a' b' : A} (xs : List A)
        → a ≡ b'
        → b ≡ a'
        → Permᴰ
            (if p a then a ∷ (if p b then b ∷ xs else xs) else (if p b then b ∷ xs else xs))
            (if p a' then a' ∷ (if p b' then b' ∷ xs else xs) else (if p b' then b' ∷ xs else xs))
    keep-swap {a} {b} {a'} {b'} xs e d = elim (Bool-cases (p a)) [
      | inl kept ↦ elim (Bool-cases (p b)) [
        | inl too ↦ rw (kept, too, sym (ap p e) ∙ kept, sym (ap p d) ∙ too) (Permᴰ.swap e d)
        | inr gone ↦
            rw (kept, gone, sym (ap p e) ∙ kept, sym (ap p d) ∙ gone) (Permᴰ.cons e (Permᴰ.refl xs))
      ]
      | inr gone ↦ elim (Bool-cases (p b)) [
        | inl kept ↦
            rw (gone, kept, sym (ap p e) ∙ gone, sym (ap p d) ∙ kept) (Permᴰ.cons d (Permᴰ.refl xs))
        | inr too ↦ rw (gone, too, sym (ap p e) ∙ gone, sym (ap p d) ∙ too) (Permᴰ.refl xs)
      ]
    ]

    pub keep-Perm : {xs ys : List A} → Permᴰ xs ys → Permᴰ (keep p xs) (keep p ys)
    keep-Perm Permᴰ.nil = Permᴰ.nil
    keep-Perm (Permᴰ.cons {l₁ = xs} {l₂ = ys} e h) =
        keep-cons (keep p xs) (keep p ys) e (keep-Perm h)
    keep-Perm (Permᴰ.swap {l = l} e d) = keep-swap (keep p l) e d
    keep-Perm (Permᴰ.trans h k) = Permᴰ.trans (keep-Perm h) (keep-Perm k)
