-- ===== src/Exec.antt =====
-- C++ functions that change the state of the client and may throw. What was written before a throw
-- stays written, so the state comes back with the exception too.
use crypto_con.Base.{ℕ, Bytes, [], ◌∷◌, ◌++◌, ◌+◌, ◌%◌, ◌^◌}
use crypto_con.Types.{Error}
use crypto_con.World.{World, Env}

-- `undefined` is undefined behaviour, such as a read through `end()`; `foreign` is an exception that
-- is not derived from `std::exception`.
pub data Exn : Type 0 where
  logic_error : Bytes → Exn
  simdjson_error : ℕ → Exn
  system_error : Bytes → Exn
  undefined foreign : Exn

pub data Outcome (A : Type 0) : Type 0 where
  ok : A → Outcome A
  throw : Exn → Outcome A

abbrev pub Exec : Type 0 → Type 0
Exec A = World → Outcome A × World

module _ {A : Type 0} where
  abbrev pub pure : A → Exec A
  pure a w = (ok a, w)

  abbrev pub raise : Exn → Exec A
  raise e w = (throw e, w)

  abbrev pub gets : (World → A) → Exec A
  gets f w = (ok (f w), w)

module _ {A B : Type 0} where
  abbrev pub continue : Outcome A → (A → Exec B) → Exec B
  continue (ok a) f w = f a w
  continue (throw e) f w = (throw e, w)

  infixl 5 ◌>>=◌ ◌>>◌
  abbrev pub ◌>>=◌ : Exec A → (A → Exec B) → Exec B
  ◌>>=◌ m f w = let (r, w') = m w in continue r f w'

  abbrev pub ◌>>◌ : Exec A → Exec B → Exec B
  m >> n = m >>= λ _. n

abbrev pub modify : (World → World) → Exec (Unit {0})
modify f w = (ok tt, f w)

-- `logger(message)`
abbrev pub logger : Bytes → Exec (Unit {0})
logger message = modify (λ w. record w { log = w.log ++ message ∷ [] })

-- An `Error&` parameter: the global `dummy_error`, or an object of the caller.
pub data ErrorRef : Type 0 where
  dummy caller : ErrorRef

abbrev pub get_error : ErrorRef → World → Error
get_error dummy w = w.dummy_error
get_error caller w = w.caller_error

abbrev pub set_error : ErrorRef → Error → World → World
set_error dummy e w = record w { dummy_error = e }
set_error caller e w = record w { caller_error = e }

-- `currentTimeMillis()`: a reading of the system clock, as a `uint64_t`
abbrev pub current_time_millis : Env → Exec ℕ
current_time_millis env w =
    (ok (env.clock w.clock_reads % 2 ^ 64), record w { clock_reads = w.clock_reads + 1 })
