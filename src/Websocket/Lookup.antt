-- ===== src/Websocket/Lookup.antt =====
-- What the map of connections holds under a key, after each change of the map.
use crypto_con.Base.{
  ℕ, Bytes, Bool, [], ◌∷◌, Option, none, some, ◌≡◌, ◌≢◌, refl, sym, ◌∙◌, arith, All, Apart,
  Apart-Perm, Option-cases, if◌then◌else◌, subst, ◌⊎◌, some-injective, Bool-cases, inl, inr,
  text_eq, text_eq_iff, text_eq_refl, Permᴰ, true, false,
}
use crypto_con.Types.StdMap.{find, text_key}
use crypto_con.World.{Sockets, Connection}
use crypto_con.Websocket.{Connections, replace, assign, erase}
use crypto_con.Websocket.Events.{open_each, open_pending}
use crypto_con.Websocket.Changes.{Rehashes, key_of, missing_keys}

pub differs_text : (a b : Bytes) → a ≢ b → text_eq a b ≡ false
differs_text a b n = ground (arith, text_eq_iff a b)

pub found_head :
    (b : Bool) (d c : Connection) (o : Option Connection)
    → (if b then some d else o) ≡ some c
    → ((b ≡ true) × (d ≡ c)) ⊎ ((b ≡ false) × (o ≡ some c))
found_head true d c o h = inl (refl, some-injective d c h)
found_head false d c o h = inr (refl, h)

if_swap :
    (p q : Bool) (x y z : Option Connection)
    → ¬ ((p ≡ true) × (q ≡ true))
    → (if p then x else if q then y else z) ≡ (if q then y else if p then x else z)
if_swap true true x y z n = absurd (n (refl, refl))
if_swap true false x y z n = refl
if_swap false true x y z n = refl
if_swap false false x y z n = refl

pub same_text : (a b : Bytes) → text_eq a b ≡ true → a ≡ b
same_text a b h = (text_eq_iff a b).0 h

pub All-find :
    (P : Bytes → Connection → Type 0) (k : Bytes) (c : Connection) (m : Connections)
    → All (λ e. P e.0 e.1) m
    → find k m ≡ some c
    → P k c
All-find P k c [] h found = absurd (ground arith)
All-find P k c ((j, d) ∷ m) (h, hs) found = elim (found_head (text_eq k j) d c (find k m) found) [
  | inl (same, e) ↦ subst (P k) e (subst (λ x. P x d) (sym (same_text k j same)) h)
  | inr (other, rest) ↦ All-find P k c m hs rest
]

pub find-Perm :
    (k : Bytes) {m m' : Connections} → Permᴰ m m' → Apart key_of m' → find k m ≡ find k m'
find-Perm k Permᴰ.nil h = refl
find-Perm k (Permᴰ.cons e p) (h, hs) = rw (e, find-Perm k p hs) refl
find-Perm k (Permᴰ.swap {a' = a'} {b' = b'} e d) ((n, h), hs) =
    rw (e, d)
      (if_swap (text_eq k b'.0) (text_eq k a'.0) (some b'.1) (some a'.1) _
        (λ (p, q). n (sym (same_text k b'.0 p) ∙ same_text k a'.0 q)))
find-Perm k (Permᴰ.trans p q) h = find-Perm k p (Apart-Perm key_of q h) ∙ find-Perm k q h

module _ (url : Bytes) (c : Connection) where
  find-replace :
      (m : Connections) (old : Connection)
      → find url m ≡ some old
      → find url (replace url c m) ≡ some c
  find-replace [] old found = absurd (ground arith)
  find-replace ((k, d) ∷ m) old found = elim (found_head (text_eq url k) d old (find url m) found) [
    | inl (same, e) ↦ rw (same, same) refl
    | inr (other, rest) ↦ rw (other, other) (find-replace m old rest)
  ]

  find-replace_other : (m : Connections) (k : Bytes) → k ≢ url → find k (replace url c m) ≡ find k m
  find-replace_other [] k n = refl
  find-replace_other ((j, d) ∷ m) k n = elim (Bool-cases (text_eq url j)) [
    | inl same ↦ rw (same, differs_text k j (λ e. n (e ∙ sym (same_text url j same)))) refl
    | inr other ↦ rw (other, find-replace_other m k n) refl
  ]

  module _ (s : Sockets) (r : Rehashes s) (m : Connections)
      (keys : Apart key_of ((url, c) ∷ m)) where
    find-rehash : (k : Bytes) → find k (s.rehash ((url, c) ∷ m)) ≡ find k ((url, c) ∷ m)
    find-rehash k = find-Perm k (r ((url, c) ∷ m)) keys

  -- `connections[url] = c`
  pub find-assign :
      (s : Sockets)
      → Rehashes s
      → (m : Connections) → Apart key_of m
      → (find url (assign s url c m) ≡ some c)
        × ((k : Bytes) → k ≢ url → find k (assign s url c m) ≡ find k m)
  find-assign s r m keys = elim (Option-cases (find url m)) [
    | inl missing ↦
        let found = find-rehash s r m (missing_keys url c m missing, keys) in
        rw (missing)
          (found url ∙ rw (text_eq_refl url) refl, λ k n. found k ∙ rw (differs_text k url n) refl)
    | inr (old, found) ↦ rw (found) (find-replace m old found, find-replace_other m)
  ]

absent : (url : Bytes) (m : Connections) → All (λ e. e.0 ≢ url) m → find url m ≡ none
absent url [] h = refl
absent url ((k, c) ∷ m) (n, h) = rw (differs_text url k (λ e. n (sym e))) (absent url m h)

-- What is left after `connections.erase`.
pub find-erase :
    (url : Bytes) (m : Connections)
    → Apart key_of m
    → (find url (erase url m) ≡ none) × ((k : Bytes) → k ≢ url → find k (erase url m) ≡ find k m)
find-erase url [] keys = (refl, λ k n. refl)
find-erase url ((j, c) ∷ m) (new, keys) = elim (Bool-cases (text_eq url j)) [
  | inl same ↦ rw (same) (
    absent url m (subst (λ x. All (λ y. y.0 ≢ x) m) (sym (same_text url j same)) new),
    λ k n. rw (differs_text k j (λ e. n (e ∙ sym (same_text url j same)))) refl,
  )
  | inr other ↦
      let (gone, rest) = find-erase url m keys in
      rw (other) (rw (other) gone, λ k n. rw (rest k n) refl)
]

-- A connection that has been opened, wherever it is in the map.
pub find-open_each :
    (id : ℕ) (k : Bytes) (m : Connections) → find k (open_each id m) ≡ open_pending id (find k m)
find-open_each id k [] = refl
find-open_each id k ((j, c) ∷ m) = elim (Bool-cases (text_eq k j)) [
  | inl same ↦ rw same refl
  | inr other ↦ rw other (find-open_each id k m)
]
