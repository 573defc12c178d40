-- ===== src/Base/Outcome.antt =====
-- How a Go function ends: it returns, returns an error, or panics.
use Prim.Native.String.{String}

-- `err` carries the text of the error.
pub data Outcome (A : Type 0) : Type 0 where
  ok : A → Outcome A
  err : String → Outcome A
  panic : Outcome A

-- if err != nil { return err }
infixl 5 ◌>>=◌
abbrev pub ◌>>=◌ : {A B : Type 0} → Outcome A → (A → Outcome B) → Outcome B
ok a >>= f = f a
err e >>= f = err e
panic >>= f = panic
