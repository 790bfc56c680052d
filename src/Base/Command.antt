-- ===== src/Base/Command.antt =====
-- Commands: C code that reads and writes a state, and may do what C leaves undefined.
use Prim.Native.Nat.{ℕ}
use mathlib.Core.Option.{Option, none, some}

-- `fault` is undefined behaviour: a dangling or null pointer, or an access outside an array.
-- `out_of_fuel` is a loop that was cut off, `exited` a call of exit(3) with its status.
pub data Run (S A : Type 0) : Type 0 where
  ok : A → S → Run S A
  fault : Run S A
  out_of_fuel : Run S A
  exited : ℕ → S → Run S A

abbrev pub Cmd : Type 0 → Type 0 → Type 0
Cmd S A = S → Run S A

abbrev pub pure : {S A : Type 0} → A → Cmd S A
pure = ok

module _ {S A B : Type 0} where
  abbrev pub and_then : Run S A → (A → Cmd S B) → Run S B
  and_then (ok a s) k = k a s
  and_then fault k = fault
  and_then out_of_fuel k = out_of_fuel
  and_then (exited n s) k = exited n s

  infixl 5 ◌>>=◌ ◌>>◌
  abbrev pub ◌>>=◌ : Cmd S A → (A → Cmd S B) → Cmd S B
  m >>= k = λ s. and_then (m s) k

  abbrev pub ◌>>◌ : Cmd S A → Cmd S B → Cmd S B
  m >> n = m >>= λ _. n

-- A computation on values that faults where there is none.
abbrev pub or_fault : {S A : Type 0} → Option A → Cmd S A
or_fault none s = fault
or_fault (some a) s = ok a s
