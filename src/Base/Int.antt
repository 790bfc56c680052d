-- ===== src/Base/Int.antt =====
-- C's `int` where a value may be negative: descriptors, interface indices and return values.
use Prim.Native.Nat.{ℕ, zero, suc, ◌+◌}
use mathlib.Core.Path.{◌≡◌}
use mathlib.Core.Logic.{◌↔◌}
use mathlib.Core.Bool.{Bool, true, false, ◌||◌}
use mathlib.Core.List.{List, [], ◌∷◌}
use native.Mathlib.Omega.{arith}
use tour.Base.Tests.{ltb, ◌==◌}

-- `negsuc n` is -(n + 1).
pub data ℤ : Type 0 where
  pos : ℕ → ℤ
  negsuc : ℕ → ℤ

abbrev pub eqb_ℤ : ℤ → ℤ → Bool
eqb_ℤ (pos a) (pos b) = a == b
eqb_ℤ (pos a) (negsuc b) = false
eqb_ℤ (negsuc a) (pos b) = false
eqb_ℤ (negsuc a) (negsuc b) = a == b

abbrev pub is_negative : ℤ → Bool
is_negative (pos n) = false
is_negative (negsuc n) = true

abbrev pub ltb_ℤ : ℤ → ℤ → Bool
ltb_ℤ (pos a) (pos b) = ltb a b
ltb_ℤ (pos a) (negsuc b) = false
ltb_ℤ (negsuc a) (pos b) = true
ltb_ℤ (negsuc a) (negsuc b) = ltb b a

-- -1, the descriptor that is none and the result of a call that failed.
abbrev pub minus_one : ℤ
minus_one = negsuc 0

pub eqb_ℤ_iff : (a b : ℤ) → (eqb_ℤ a b ≡ true) ↔ (a ≡ b)
eqb_ℤ_iff a b = ground arith

-- Whether a descriptor is in a set.
abbrev pub is_member : ℤ → List ℤ → Bool
is_member fd [] = false
is_member fd (x ∷ rset) = eqb_ℤ fd x || is_member fd rset

-- `n + 1`.
abbrev pub plus_one : ℤ → ℤ
plus_one (pos n) = pos (n + 1)
plus_one (negsuc zero) = pos 0
plus_one (negsuc (suc n)) = negsuc n
