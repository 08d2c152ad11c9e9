-- ===== src/Websocket/Bag/Unordered.antt =====
-- The changes of the map of src/websocket/client.cpp, up to the order of its connections.
use mathlib.Core.List.Permᴰ
use crypto_con.Base.{
  ℕ, Bytes, true, ◌&&◌, [], ◌∷◌, map, some, ◌≡◌, ◌≢◌, refl, sym, ap, All, All-imp, Apart, Permᴰ,
  keep, keep_all, Bool-cases, Option-cases, inl, inr, text_eq, arith,
}
use crypto_con.Types.StdMap.{find, text_key}
use crypto_con.World.{Connection, Sockets, ReadyState, closed}
use crypto_con.Websocket.{Connections, replace, assign, erase, is_state}
use crypto_con.Websocket.Events.{open_each}
use crypto_con.Websocket.Changes.{Rehashes, key_of, missing_keys}
use crypto_con.Websocket.Lookup.{same_text, differs_text}
use crypto_con.Websocket.Wait.{alive}
use crypto_con.Websocket.Bag.{is_other, is_alive, opened_entry}

other_key : (url : Bytes) (e : Bytes × Connection) → e.0 ≢ url → is_other url e ≡ true
other_key url e n = rw (differs_text url e.0 (λ q. n (sym q))) refl

pub keep_others :
    (url : Bytes) (m : Connections) → All (λ e. e.0 ≢ url) m → keep (is_other url) m ≡ m
keep_others url m h =
    keep_all (is_other url) m
      (All-imp (λ e. e.0 ≢ url) (λ e. is_other url e ≡ true) (other_key url) m h)

-- The rest of a map whose first key is the one that goes.
keep_rest :
    (url k : Bytes) (m : Connections)
    → text_eq url k ≡ true
    → All (λ e. e.0 ≢ k) m
    → keep (is_other url) m ≡ m
keep_rest url k m same h = keep_others url m (rw (same_text url k same) h)

pub erase-keep :
    (url : Bytes) (m : Connections) → Apart key_of m → erase url m ≡ keep (is_other url) m
erase-keep url [] h = refl
erase-keep url ((k, c) ∷ m) (new, h) = elim (Bool-cases (text_eq url k)) [
  | inl same ↦ rw same (sym (keep_rest url k m same new))
  | inr other ↦ rw other (ap (λ (l : Connections). (k, c) ∷ l) (erase-keep url m h))
]

module _ (url : Bytes) (c : Connection) where
  pub replace-Perm :
      (m : Connections) (old : Connection)
      → Apart key_of m
      → find url m ≡ some old
      → Permᴰ (replace url c m) ((url, c) ∷ keep (is_other url) m)
  replace-Perm [] old h found = absurd (ground arith)
  replace-Perm ((k, d) ∷ m) old (new, h) found = elim (Bool-cases (text_eq url k)) [
    | inl same ↦ rw (same, keep_rest url k m same new, same_text url k same) (Permᴰ.refl _)
    | inr other ↦
        rw other (
          Permᴰ.trans (Permᴰ.cons refl (replace-Perm m old h (ground arith)))
            (Permᴰ.swap refl refl))
  ]

  -- Whatever order an insertion leads to.
  pub assign-Perm :
      (s : Sockets) (m : Connections)
      → Rehashes s
      → Apart key_of m
      → Permᴰ (assign s url c m) ((url, c) ∷ keep (is_other url) m)
  assign-Perm s m r h = elim (Option-cases (find url m)) [
    | inl missing ↦ rw (missing, keep_others url m (missing_keys url c m missing)) (r _)
    | inr (old, found) ↦ rw found (replace-Perm m old h found)
  ]

pub open_each-map : (id : ℕ) (m : Connections) → open_each id m ≡ map (opened_entry id) m
open_each-map id [] = refl
open_each-map id ((k, c) ∷ m) = ap (λ l. opened_entry id (k, c) ∷ l) (open_each-map id m)

pub alive-keep :
    (state : ℕ → ReadyState) (m : Connections) → alive state m ≡ keep (is_alive state) m
alive-keep state [] = refl
alive-keep state ((k, c) ∷ m) = elim (Bool-cases (c.was_open && is_state (state c.id) closed)) [
  | inl gone ↦ rw gone (alive-keep state m)
  | inr stays ↦ rw stays (ap (λ (l : Connections). (k, c) ∷ l) (alive-keep state m))
]
