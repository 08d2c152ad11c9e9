-- ===== src/Clients/Stops.antt =====
-- No socket of a client is stopped twice: `stop` in src/websocket/client.cpp and the end of a client.
pub mod Stopping
pub mod Kept
pub mod Ended
use crypto_con.Base.{
  ℕ, ◌+◌, ◌<◌, Bytes, Bool, ◌||◌, is_empty, List, [], ◌∷◌, ◌++◌, Option, none, some, ◌≡◌, ◌≢◌, refl,
  sym, ap, ◌∙◌, subst, arith, All, All-append, All-imp, All-Sublist, Apart, Bool-cases,
  Option-cases, inl, inr, text_eq,
}
use crypto_con.Types.StdMap.{find, text_key}
use crypto_con.World.{World, Env, Connection, OnOpen, no_op, binance_user_data, kraken_trades}
use crypto_con.Websocket.{Connections, erase, stop_each, socket_of}
use crypto_con.Websocket.Changes.{id_of}
use crypto_con.Websocket.Lookup.{All-find, found_head}

-- This id is none of the stopped ones.
abbrev pub IsRunning : List ℕ → ℕ → Type 0
IsRunning stopped id = All (λ i. i ≢ id) stopped

abbrev pub IsRunningPending : List ℕ → Option Connection → Type 0
IsRunningPending stopped none = Unit
IsRunningPending stopped (some c) = IsRunning stopped c.id

-- The stopped sockets are distinct and have been given out, and none of them is in the map, or about
-- to be.
pub record StopsOnce (w : World) : Type 0 where
  pub once : Apart (λ (i : ℕ). i) w.ws.stopped
  pub given_out : All (λ i. i < w.ws.next_id) w.ws.stopped
  pub running : All (λ e. IsRunning w.ws.stopped e.1.id) w.ws.connections
  pub pending : IsRunningPending w.ws.stopped w.ws.pending

append-Apart :
    (l l' : List ℕ)
    → Apart (λ (i : ℕ). i) l
    → Apart (λ (i : ℕ). i) l'
    → All (IsRunning l) l'
    → Apart (λ (i : ℕ). i) (l ++ l')
append-Apart [] l' h h' new = h'
append-Apart (y ∷ l) l' (h, hs) h' new = (
  All-append (λ i. i ≢ y) l l' h
      (All-imp (IsRunning (y ∷ l)) (λ i. i ≢ y) (λ i n q. n.0 (sym q)) l' new),
  append-Apart l l' hs h' (All-imp (IsRunning (y ∷ l)) (IsRunning l) (λ i n. n.1) l' new),
)

-- What is left of the map after `erase` has other ids.
pub erase_others :
    (url : Bytes) (c : Connection) (m : Connections)
    → find url m ≡ some c
    → Apart id_of m
    → All (λ e. c.id ≢ e.1.id) (erase url m)
erase_others url c [] found h = absurd (ground arith)
erase_others url c ((k, d) ∷ m) found (new, h) =
    elim (found_head (text_eq url k) d c (find url m) found) [
      | inl (same, e) ↦
          rw (same, sym e)
            (All-imp (λ x. x.1.id ≢ d.id) (λ x. d.id ≢ x.1.id) (λ x n q. n (sym q)) m new)
      | inr (other, rest) ↦
          rw other (All-find (λ key x. x.id ≢ d.id) url c m new rest, erase_others url c m rest h)
    ]

append-IsRunningPending :
    (l l' : List ℕ) (p : Option Connection)
    → IsRunningPending l p
    → IsRunningPending l' p
    → IsRunningPending (l ++ l') p
append-IsRunningPending l l' none h h' = tt
append-IsRunningPending l l' (some c) h h' = All-append (λ i. i ≢ c.id) l l' h h'

-- These running sockets are stopped, and what is left in the map is none of them.
pub stops-StopsOnce :
    (l : List ℕ) (w w' : World)
    → (w'.ws.stopped ≡ w.ws.stopped ++ l)
      × (w'.ws.next_id ≡ w.ws.next_id)
      × (w'.ws.pending ≡ w.ws.pending)
    → Apart (λ (i : ℕ). i) l
    → All (IsRunning w.ws.stopped) l
    → All (λ i. i < w.ws.next_id) l
    → All (λ e. IsRunning (w.ws.stopped ++ l) e.1.id) w'.ws.connections
    → IsRunningPending l w.ws.pending
    → StopsOnce w
    → StopsOnce w'
stops-StopsOnce l w w' (stopped, next, same) apart new given running pending h = record {
  once = subst (Apart (λ (i : ℕ). i)) (sym stopped) (append-Apart w.ws.stopped l h.once apart new);
  given_out =
      rw (stopped, next) (All-append (λ i. i < w.ws.next_id) w.ws.stopped l h.given_out given);
  running = subst (λ s. All (λ e. IsRunning s e.1.id) w'.ws.connections) (sym stopped) running;
  pending =
      rw (stopped, same) (append-IsRunningPending w.ws.stopped l w.ws.pending h.pending pending);
}

-- The same sockets are stopped, and the map has no new ids.
pub kept-StopsOnce :
    (w w' : World)
    → w'.ws.stopped ≡ w.ws.stopped
    → w'.ws.next_id ≡ w.ws.next_id
    → All (λ e. IsRunning w.ws.stopped e.1.id) w'.ws.connections
    → IsRunningPending w.ws.stopped w'.ws.pending
    → StopsOnce w
    → StopsOnce w'
kept-StopsOnce w w' stopped next running pending h = record {
  once = subst (Apart (λ (i : ℕ). i)) (sym stopped) h.once;
  given_out = rw (stopped, next) h.given_out;
  running = subst (λ l. All (λ e. IsRunning l e.1.id) w'.ws.connections) (sym stopped) running;
  pending = subst (λ l. IsRunningPending l w'.ws.pending) (sym stopped) pending;
}
