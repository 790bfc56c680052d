-- ===== src/Base/Outcome.antt =====
-- What holds of a command's result and state wherever it returns, and what it keeps.
use mathlib.Core.Path.{◌≡◌}
use mathlib.Core.Bool.{Bool, true, false}
use mathlib.Core.Option.{Option, none, some}
use tour.Base.Tests.{if◌then◌else◌}
use tour.Base.Command.{Run, ok, fault, out_of_fuel, exited, Cmd, and_then, pure, or_fault, ◌>>=◌}

abbrev pub Returns : {S A : Type 0} → (A → S → Type 0) → Run S A → Type 0
Returns Q (ok a s) = Q a s
Returns Q fault = Unit {0}
Returns Q out_of_fuel = Unit {0}
Returns Q (exited n s) = Unit {0}

-- From a state where P holds, the command returns in such a state.
pub record Keeps {S A : Type 0} (P : S → Type 0) (m : Cmd S A) : Type 0 where
  pub kept : (s : S) → P s → Returns (λ _. P) (m s)

pub Returns-weaken :
    {S A : Type 0} (P Q : A → S → Type 0) (r : Run S A)
    → Returns P r
    → ((a : A) (s : S) → P a s → Q a s)
    → Returns Q r
Returns-weaken P Q (ok a s) p q = q a s p
Returns-weaken P Q fault p q = tt
Returns-weaken P Q out_of_fuel p q = tt
Returns-weaken P Q (exited n s) p q = tt

module _ {S A B : Type 0} where
  pub Returns-and_then :
      (P : A → S → Type 0) (Q : B → S → Type 0) (m : Run S A) (k : A → Cmd S B)
      → Returns P m
      → ((a : A) (s : S) → P a s → Returns Q (k a s))
      → Returns Q (and_then m k)
  Returns-and_then P Q (ok a s) k p q = q a s p
  Returns-and_then P Q fault k p q = tt
  Returns-and_then P Q out_of_fuel k p q = tt
  Returns-and_then P Q (exited n s) k p q = tt

  pub Returns-and_then_any :
      (Q : B → S → Type 0) (m : Run S A) (k : A → Cmd S B)
      → ((a : A) (s : S) → Returns Q (k a s))
      → Returns Q (and_then m k)
  Returns-and_then_any Q (ok a s) k q = q a s
  Returns-and_then_any Q fault k q = tt
  Returns-and_then_any Q out_of_fuel k q = tt
  Returns-and_then_any Q (exited n s) k q = tt

  pub Keeps-bind :
      {P : S → Type 0} {m : Cmd S A} {k : A → Cmd S B}
      → Keeps P m
      → ((a : A) → Keeps P (k a))
      → Keeps P (m >>= k)
  Keeps-bind {P} {m} {k} p q = record {
    kept = λ s v. Returns-and_then (λ _. P) (λ _. P) (m s) k (p.kept s v) (λ a t w. (q a).kept t w);
  }

module _ {S A : Type 0} {P : S → Type 0} where
  pub Keeps-pure : {a : A} → Keeps P (pure a)
  Keeps-pure = record { kept = λ s v. v }

  pub Keeps-or_fault : (r : Option A) → Keeps P (or_fault r)
  Keeps-or_fault r = record { kept = keep r }
    where
      keep : (r : Option A) (s : S) → P s → Returns (λ _. P) (or_fault r s)
      keep none s v = tt
      keep (some a) s v = v

  pub Keeps-if : (b : Bool) {m n : Cmd S A} → Keeps P m → Keeps P n → Keeps P (if b then m else n)
  Keeps-if true p q = p
  Keeps-if false p q = q

-- The command returns, and in such a state.
abbrev pub Ends : {S A : Type 0} → (A → S → Type 0) → Run S A → Type 0
Ends Q (ok a s) = Q a s
Ends Q fault = ⊥
Ends Q out_of_fuel = ⊥
Ends Q (exited n s) = ⊥

pub record Ensures {S A : Type 0} (P : S → Type 0) (m : Cmd S A) : Type 0 where
  pub ended : (s : S) → P s → Ends (λ _. P) (m s)

module _ {S A B : Type 0} where
  pub Ends-and_then :
      (P : A → S → Type 0) (Q : B → S → Type 0) (m : Run S A) (k : A → Cmd S B)
      → Ends P m
      → ((a : A) (s : S) → P a s → Ends Q (k a s))
      → Ends Q (and_then m k)
  Ends-and_then P Q (ok a s) k p q = q a s p
  Ends-and_then P Q fault k p q = p
  Ends-and_then P Q out_of_fuel k p q = p
  Ends-and_then P Q (exited n s) k p q = p

  pub Ensures-bind :
      {P : S → Type 0} {m : Cmd S A} {k : A → Cmd S B}
      → Ensures P m
      → ((a : A) → Ensures P (k a))
      → Ensures P (m >>= k)
  Ensures-bind {P} {m} {k} p q = record {
    ended = λ s v. Ends-and_then (λ _. P) (λ _. P) (m s) k (p.ended s v) (λ a t w. (q a).ended t w);
  }

module _ {S A : Type 0} {P : S → Type 0} where
  pub Ensures-pure : {a : A} → Ensures P (pure a)
  Ensures-pure = record { ended = λ s v. v }

  pub Ensures-some : (r : Option A) (a : A) → r ≡ some a → Ensures P (or_fault r)
  Ensures-some r a e = record { ended = λ s v. rw e v }

  pub Ensures-if :
      (b : Bool) {m n : Cmd S A} → Ensures P m → Ensures P n → Ensures P (if b then m else n)
  Ensures-if true p q = p
  Ensures-if false p q = q

-- From a state where P holds, the command returns with Q of its result and state.
pub record Leads {S A : Type 0} (P : S → Type 0) (Q : A → S → Type 0) (m : Cmd S A) : Type 0 where
  pub led : (s : S) → P s → Returns Q (m s)

module _ {S A B : Type 0} {P : S → Type 0} {Q : B → S → Type 0} where
  pub Leads-then :
      {R : A → S → Type 0} {m : Cmd S A} {k : A → Cmd S B}
      → Leads P R m
      → ((a : A) → Leads (R a) Q (k a))
      → Leads P Q (m >>= k)
  Leads-then {R} {m} {k} p q = record {
    led = λ s v. Returns-and_then R Q (m s) k (p.led s v) (λ a t w. (q a).led t w);
  }

  pub Leads-bind :
      {m : Cmd S A} {k : A → Cmd S B}
      → Keeps P m
      → ((a : A) → Leads P Q (k a))
      → Leads P Q (m >>= k)
  Leads-bind {m} {k} p q = record {
    led = λ s v. Returns-and_then (λ _. P) Q (m s) k (p.kept s v) (λ a t w. (q a).led t w);
  }

module _ {S A : Type 0} {P : S → Type 0} {Q : A → S → Type 0} where
  pub Leads-Keeps : {m : Cmd S A} → Keeps P m → ((a : A) (s : S) → P s → Q a s) → Leads P Q m
  Leads-Keeps {m} p w = record { led = λ s v. Returns-weaken (λ _. P) Q (m s) (p.kept s v) w }

  pub Leads-pure : (a : A) → ((s : S) → P s → Q a s) → Leads P Q (pure a)
  Leads-pure a w = record { led = w }

  pub Leads-if :
      (b : Bool) {m n : Cmd S A} → Leads P Q m → Leads P Q n → Leads P Q (if b then m else n)
  Leads-if true p q = p
  Leads-if false p q = q

pub Keeps-Leads : {S A : Type 0} {P : S → Type 0} {m : Cmd S A} → Leads P (λ _. P) m → Keeps P m
Keeps-Leads l = record { kept = l.led }
