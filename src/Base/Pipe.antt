-- ===== src/Base/Pipe.antt =====
-- `x ▷ f ▷ g`: the steps that a function makes on one buffer, in the order of the source.
infixl 20 ◌▷◌
abbrev pub ◌▷◌ {ℓ} : {A B : Type ℓ} → A → (A → B) → B
x ▷ f = f x
