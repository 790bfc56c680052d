-- ===== src/Base/Text.antt =====
-- What printf makes of numbers, as the codes of the characters.
use Prim.Native.Nat.{ℕ, zero, suc, ◌+◌, ◌/◌, ◌%◌}
use mathlib.Core.List.{[], ◌∷◌, ◌++◌}
use tour.Base.Tests.{ltb, if◌then◌else◌}
use tour.Base.Memory.{Bytes}

-- "%.2x" of a byte.
abbrev pub hex_digit : ℕ → ℕ
hex_digit n = if ltb n 10 then 48 + n else 87 + n

abbrev pub hex_byte : ℕ → Bytes
hex_byte b = hex_digit (b / 16 % 16) ∷ hex_digit (b % 16) ∷ []

-- The decimal digits of a number below ten to the power of ten, in front of a text.
abbrev pub digits : ℕ → ℕ → Bytes → Bytes
digits zero n behind = behind
digits (suc k) n behind =
    let more = digits k (n / 10) ((48 + n % 10) ∷ behind) in
    if ltb n 10 then (48 + n) ∷ behind else more

-- "%02hhX" of a byte, and "%04hX" of a word.
abbrev pub upper_digit : ℕ → ℕ
upper_digit n = if ltb n 10 then 48 + n else 55 + n

abbrev pub upper_byte : ℕ → Bytes
upper_byte b = upper_digit (b / 16 % 16) ∷ upper_digit (b % 16) ∷ []

abbrev pub upper_word : ℕ → Bytes
upper_word w = upper_byte (w / 256 % 256) ++ upper_byte (w % 256)
