-- ===== src/Base/Distinct.antt =====
-- Lists whose elements differ in what a function gives for them, under permutations and sublists.
use mathlib.Core.Path.{◌≡◌, sym, ◌∙◌, subst, ap}
use mathlib.Core.Logic.{◌≢◌}
use mathlib.Core.List.{List, [], ◌∷◌, Permᴰ, Sublistᴰ}
use crypto_con.Base.Lists.{All}

module _ {A B : Type 0} (f : A → B) where
  abbrev pub Apart : List A → Type 0
  Apart [] = Unit
  Apart (x ∷ xs) = All (λ y. f y ≢ f x) xs × Apart xs

pub All-Perm : {A : Type 0} (P : A → Type 0) {xs ys : List A} → Permᴰ xs ys → All P ys → All P xs
All-Perm P Permᴰ.nil h = tt
All-Perm P (Permᴰ.cons e p) (h, hs) = (subst P (sym e) h, All-Perm P p hs)
All-Perm P (Permᴰ.swap e d) (h, (k, hs)) = (subst P (sym e) k, (subst P (sym d) h, hs))
All-Perm P (Permᴰ.trans p q) h = All-Perm P p (All-Perm P q h)

pub All-Sublist :
    {A : Type 0} (P : A → Type 0) {xs ys : List A} → Sublistᴰ xs ys → All P ys → All P xs
All-Sublist P Sublistᴰ.slnil h = tt
All-Sublist P (Sublistᴰ.cons s) (h, hs) = All-Sublist P s hs
All-Sublist P (Sublistᴰ.cons-cons e s) (h, hs) = (subst P (sym e) h, All-Sublist P s hs)

module _ {A B : Type 0} (f : A → B) where
  differ : {a b : A} (xs : List A) → a ≡ b → All (λ y. f y ≢ f b) xs → All (λ y. f y ≢ f a) xs
  differ xs e h = subst (λ c. All (λ y. f y ≢ f c) xs) (sym e) h

  pub Apart-Perm : {xs ys : List A} → Permᴰ xs ys → Apart f ys → Apart f xs
  Apart-Perm Permᴰ.nil h = tt
  Apart-Perm (Permᴰ.cons {a = a} e p) (h, hs) =
      (All-Perm (λ y. f y ≢ f a) p (differ _ e h), Apart-Perm p hs)
  Apart-Perm (Permᴰ.swap {l = l} e d) ((n, h), (k, hs)) =
      ((λ q. n (sym (ap f e) ∙ sym q ∙ ap f d), differ l e k), (differ l d h, hs))
  Apart-Perm (Permᴰ.trans p q) h = Apart-Perm p (Apart-Perm q h)

  pub Apart-Sublist : {xs ys : List A} → Sublistᴰ xs ys → Apart f ys → Apart f xs
  Apart-Sublist Sublistᴰ.slnil h = tt
  Apart-Sublist (Sublistᴰ.cons s) (h, hs) = Apart-Sublist s hs
  Apart-Sublist (Sublistᴰ.cons-cons {a = a} e s) (h, hs) =
      (All-Sublist (λ y. f y ≢ f a) s (differ _ e h), Apart-Sublist s hs)
