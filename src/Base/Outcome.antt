-- ===== src/Base/Outcome.antt =====
-- The result of code that may fail: `failed` is a `return false`, `thrown` is an exception that
-- leaves the function, `undefined` is undefined behaviour of C++, and `stuck` is no outcome of the
-- program: a loop of the model ran out of fuel.
use mathlib.Core.Bool.{Bool, true, false}

pub data Fault : Type 0 where
  failed thrown undefined stuck : Fault

pub data Result {ℓ} (A : Type ℓ) : Type ℓ where
  ok : A → Result A
  err : Fault → Result A

infixl 5 ◌>>=◌ ◌>>◌
module _ {ℓ κ} {A : Type ℓ} {B : Type κ} where
  abbrev pub ◌>>=◌ : Result A → (A → Result B) → Result B
  ◌>>=◌ (err fault) next = err fault
  ◌>>=◌ (ok x) next = next x

-- `if (!test) return false;`
abbrev pub guard : Bool → Result (Unit {0})
guard false = err failed
guard true = ok tt

abbrev pub ◌>>◌ {ℓ} : {B : Type ℓ} → Result (Unit {0}) → Result B → Result B
first >> second = first >>= λ _. second
