-- ===== src/System/Placed.antt =====
-- The orders among the requests of a client, and actions that place a given number of them.
pub mod Requests
pub mod Calls
pub mod Once
use crypto_con.Base.{
  ℕ, ◌+◌, Bytes, codes, Bool, true, false, ◌||◌, List, [], ◌∷◌, ◌++◌, ◌≡◌, refl, sym, ap, ◌∙◌,
  arith, text_eq, if◌then◌else◌,
}
use crypto_con.World.{World, Env, Request, Verb, get, post, put, delete}
use crypto_con.Exec.{Exec, Exn, Outcome, ok, throw, pure, raise, continue, ErrorRef, ◌>>=◌}
use crypto_con.Rest.{exchange}
use crypto_con.Rest.Exchange.{exchange_requests}
use crypto_con.System.Authentic.{path_of}

abbrev pub is_order_path : Bytes → Bool
is_order_path path =
    text_eq path (codes "/api/v3/order") || text_eq path (codes "/api/v3/order/oco")

abbrev is_order_of : Verb → Bytes → Bool
is_order_of post path = is_order_path path
is_order_of get path = false
is_order_of put path = false
is_order_of delete path = false

-- A new order: a POST to one of the paths for orders.
abbrev pub is_order : Request → Bool
is_order req = is_order_of req.verb (path_of req.target)

abbrev pub one_if : Bool → ℕ
one_if b = if b then 1 else 0

abbrev pub orders : List Request → ℕ
orders [] = 0
orders (req ∷ reqs) = one_if (is_order req) + orders reqs

pub orders_snoc :
    (reqs : List Request) (req : Request)
    → orders (reqs ++ req ∷ []) ≡ orders reqs + one_if (is_order req)
orders_snoc [] req = omega arith
orders_snoc (r ∷ reqs) req = omega (arith, orders_snoc reqs req)

-- So many orders are new.
abbrev pub Adds : ℕ → World → World → Type 0
Adds n w w' = orders w'.rest.requests ≡ orders w.rest.requests + n

-- An action that adds so many orders in every state, whether it returns or throws.
pub record Places {A : Type 0} (n : ℕ) (m : Exec A) : Type 0 where
  pub at : (w : World) → Adds n w (m w).1

pub same-Adds : (w w' : World) → w'.rest.requests ≡ w.rest.requests → Adds 0 w w'
same-Adds w w' e = omega (arith, ap orders e)

pub exchange-Adds :
    (env : Env) (req : Request) (ref : ErrorRef) (w v : World)
    → v.rest.requests ≡ w.rest.requests
    → Adds (one_if (is_order req)) w (exchange env req ref v).1
exchange-Adds env req ref w v same =
    ap orders (exchange_requests env req ref v)
    ∙ orders_snoc v.rest.requests req
    ∙ ap (λ l. orders l + one_if (is_order req)) same

pub Places-pure : {A : Type 0} (a : A) → Places 0 (pure a)
Places-pure a = record { at = λ w. same-Adds w w refl }

pub Places-raise : {A : Type 0} (e : Exn) → Places 0 (raise {A = A} e)
Places-raise e = record { at = λ w. same-Adds w w refl }

continue-Adds :
    {A B : Type 0} (u v : World) (r : Outcome A) (f : A → Exec B)
    → Adds 0 u v
    → ((a : A) → Places 0 (f a))
    → Adds 0 u (continue r f v).1
continue-Adds u v (ok a) f g k = omega (arith, g, (k a).at v)
continue-Adds u v (throw e) f g k = g

-- Of two actions without an order, the one after the other has none.
pub Places-bind :
    {A B : Type 0} (m : Exec A) (f : A → Exec B)
    → Places 0 m
    → ((a : A) → Places 0 (f a))
    → Places 0 (m >>= f)
Places-bind m f km kf = record { at = λ w. continue-Adds w (m w).1 (m w).0 f (km.at w) kf }
