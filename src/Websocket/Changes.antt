-- ===== src/Websocket/Changes.antt =====
-- What the changes of the map of connections keep.
use crypto_con.Base.{
  ℕ, Bytes, Bool, Bool-cases, [], ◌∷◌, Option, none, some, Option-cases, inl, inr, ◌≡◌, ◌≢◌, refl,
  sym, arith, All, Apart, differs, ◌∙◌, if◌then◌else◌, All-Perm, Apart-Perm, text_eq, text_eq_iff,
  ◌==◌, Permᴰ, Sublistᴰ, true, false,
}
use crypto_con.Types.StdMap.{find, text_key}
use crypto_con.World.{World, Env, Sockets, Connection}
use crypto_con.Websocket.{Connections, replace, assign, erase}
use crypto_con.Websocket.Loop.{sweep, dead}
use crypto_con.Websocket.Events.{open_each}

-- An insertion into the map may change the order of iteration and nothing else.
abbrev pub Rehashes : Sockets → Type 0
Rehashes s = (m : Connections) → Permᴰ (s.rehash m) m

abbrev pub key_of : Bytes × Connection → Bytes
key_of e = e.0

abbrev pub id_of : Bytes × Connection → ℕ
id_of e = e.1.id

pub Sublist-refl : (m : Connections) → Sublistᴰ m m
Sublist-refl [] = Sublistᴰ.slnil
Sublist-refl (e ∷ m) = Sublistᴰ.cons-cons refl (Sublist-refl m)

pub Sublist-nil : (m : Connections) → Sublistᴰ [] m
Sublist-nil [] = Sublistᴰ.slnil
Sublist-nil (e ∷ m) = Sublistᴰ.cons (Sublist-nil m)

pub erase-Sublist : (url : Bytes) (m : Connections) → Sublistᴰ (erase url m) m
erase-Sublist url [] = Sublistᴰ.slnil
erase-Sublist url ((k, c) ∷ m) = elim (Bool-cases (text_eq url k)) [
  | inl same ↦ rw same (Sublistᴰ.cons (Sublist-refl m))
  | inr other ↦ rw other (Sublistᴰ.cons-cons refl (erase-Sublist url m))
]

pub sweep-Sublist : (env : Env) (m : Connections) (w : World) → Sublistᴰ (sweep env m w).0 m
unfolding sweep
sweep-Sublist env [] w = Sublistᴰ.slnil
sweep-Sublist env ((k, c) ∷ m) w = elim (Bool-cases (dead env c w).0) [
  | inl gone ↦ rw gone (Sublistᴰ.cons (sweep-Sublist env m _))
  | inr stays ↦ rw stays (Sublistᴰ.cons-cons refl (sweep-Sublist env m _))
]

-- A predicate on the key, the id and the socket is kept by `open_each`.
pub open_each-All :
    (id : ℕ) (P : Bytes × Connection → Type 0)
    → ((k : Bytes) (c : Connection) → P (k, c) → P (k, record c { was_open = true }))
    → (m : Connections) → All P m
    → All P (open_each id m)
open_each-All id P f [] h = tt
open_each-All id P f ((k, c) ∷ m) (h, hs) = elim (Bool-cases (c.id == id)) [
  | inl same ↦ rw same (f k c h, open_each-All id P f m hs)
  | inr other ↦ rw other (h, open_each-All id P f m hs)
]

module _ (url : Bytes) (c : Connection) where
  pub replace-All :
      (P : Bytes × Connection → Type 0)
      → P (url, c)
      → (m : Connections) → All P m
      → All P (replace url c m)
  replace-All P new [] h = tt
  replace-All P new ((k, old) ∷ m) (h, hs) = elim (Bool-cases (text_eq url k)) [
    | inl same ↦ rw (same, sym ((text_eq_iff url k).0 same)) (new, hs)
    | inr other ↦ rw other (h, replace-All P new m hs)
  ]

  pub assign-All :
      (s : Sockets)
      → Rehashes s
      → (P : Bytes × Connection → Type 0) → P (url, c)
      → (m : Connections) → All P m
      → All P (assign s url c m)
  assign-All s r P new m h = elim (Option-cases (find url m)) [
    | inl missing ↦ rw missing (All-Perm P (r _) (new, h))
    | inr (old, found) ↦ rw found (replace-All P new m h)
  ]

pub open_each-Apart :
    {A : Type 0} (id : ℕ) (f : Bytes × Connection → A)
    → ((k : Bytes) (c : Connection) → f (k, record c { was_open = true }) ≡ f (k, c))
    → (m : Connections) → Apart f m
    → Apart f (open_each id m)
open_each-Apart id f e [] h = tt
open_each-Apart id f e ((k, c) ∷ m) (h, hs) =
    let rest = open_each-All id (λ y. f y ≢ f (k, c)) (λ j d n q. n (sym (e j d) ∙ q)) m h in
    let distinct = open_each-Apart id f e m hs in
    elim (Bool-cases (c.id == id)) [
      | inl same ↦ rw (same, e k c) (rest, distinct)
      | inr other ↦ rw other (rest, distinct)
    ]

missing_head :
    (b : Bool) (d : Connection) (o : Option Connection)
    → (if b then some d else o) ≡ none
    → (b ≡ false) × (o ≡ none)
missing_head true d o h = absurd (ground arith)
missing_head false d o h = (refl, h)

module _ (url : Bytes) (c : Connection) where
  pub missing_keys : (m : Connections) → find url m ≡ none → All (λ e. e.0 ≢ url) m
  missing_keys [] h = tt
  missing_keys ((k, d) ∷ m) h =
      let (other, rest) = missing_head (text_eq url k) d (find url m) h in
      (λ q. differs url k other (sym q), missing_keys m rest)

  replace_keys : (m : Connections) → Apart key_of m → Apart key_of (replace url c m)
  replace_keys [] h = tt
  replace_keys ((k, old) ∷ m) (h, hs) = elim (Bool-cases (text_eq url k)) [
    | inl same ↦ rw same (h, hs)
    | inr other ↦
        rw other (replace-All url c (λ y. y.0 ≢ k) (differs url k other) m h, replace_keys m hs)
  ]

  replace_ids :
      (m : Connections) → All (λ e. e.1.id ≢ c.id) m → Apart id_of m → Apart id_of (replace url c m)
  replace_ids [] n h = tt
  replace_ids ((k, old) ∷ m) (n, ns) (h, hs) = elim (Bool-cases (text_eq url k)) [
    | inl same ↦ rw same (ns, hs)
    | inr other ↦
        rw other
          (replace-All url c (λ y. y.1.id ≢ old.id) (λ q. n (sym q)) m h, replace_ids m ns hs)
  ]

  pub assign-Apart :
      (s : Sockets)
      → Rehashes s
      → (m : Connections) → All (λ e. e.1.id ≢ c.id) m
      → Apart key_of m × Apart id_of m
      → Apart key_of (assign s url c m) × Apart id_of (assign s url c m)
  assign-Apart s r m new (keys, ids) = elim (Option-cases (find url m)) [
    | inl missing ↦
        rw missing (
          Apart-Perm key_of (r _) (missing_keys m missing, keys),
          Apart-Perm id_of (r _) (new, ids),
        )
    | inr (old, found) ↦ rw found (replace_keys m keys, replace_ids m new ids)
  ]
