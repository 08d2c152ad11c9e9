-- ===== src/Clients/Dispatch.antt =====
-- What a client does with an operation that its policy has, and with one that it lacks.
use crypto_con.Base.{Bytes, codes, [], ◌∷◌, ◌++◌, Option, none, some, ◌≡◌}
use crypto_con.World.{World}
use crypto_con.Exec.{Exec, Outcome, ok}

-- The call gives this, and leaves one line in the log that names the operation.
abbrev pub Refused : {A : Type 0} → Bytes → A → World → Outcome A × World → Type 0
Refused name a w r = r ≡ (
  ok a,
  record w {
    log = w.log ++ (name ++ codes " is not implemented for this client configuration") ∷ [];
  },
)

-- The policy's own operation, or the refusal if it has none.
abbrev pub Dispatched :
    {A : Type 0} → Bytes → A → Option (Exec A) → World → Outcome A × World → Type 0
Dispatched name a none w r = Refused name a w r
Dispatched name a (some run) w r = r ≡ run w
