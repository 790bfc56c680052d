-- ===== src/Prhwaddrs/Text.antt =====
-- The hardware address as prhwaddrs.c prints it.
use tour.Base.{
  hex_digit, hex_byte, ℕ, zero, suc, ◌+◌, ◌-◌, ◌*◌, ◌/◌, ◌%◌, ◌<◌, ◌≡◌, refl, some, [], ◌∷◌, ◌++◌,
  ◌==◌, ltb, if◌then◌else◌, arith, Bytes, IsByte, length, All,
}
use tour.Prhwaddrs.{hw_loop}

-- The number of a digit, and the bytes that are written with two digits and a separator each.
abbrev pub digit_value : ℕ → ℕ
digit_value c = if ltb c 58 then c - 48 else c - 87

abbrev pub read_hw : ℕ → Bytes → Bytes
read_hw (suc n) (hi ∷ lo ∷ separator ∷ rest) =
    (16 * digit_value hi + digit_value lo) ∷ read_hw n rest
read_hw _ _ = []

digit_value-hex_digit : (n : ℕ) → n < 16 → digit_value (hex_digit n) ≡ n
digit_value-hex_digit n small = ground arith

byte-hex :
    (b : ℕ)
    → b < 256
    → 16 * digit_value (hex_digit (b / 16 % 16)) + digit_value (hex_digit (b % 16)) ≡ b
byte-hex b small =
    rw
      (
        digit_value-hex_digit (b / 16 % 16) (omega arith),
        digit_value-hex_digit (b % 16) (omega arith),
      )
      (omega arith)

-- As many bytes as the loop is to print are printed, and can be read from its text again.
pub hw_loop-read_hw :
    (i : ℕ) (bytes : Bytes)
    → length bytes ≡ i
    → All IsByte bytes
    → (text : Bytes) × (hw_loop i bytes ≡ some text) × (read_hw i text ≡ bytes)
unfolding hw_loop
hw_loop-read_hw zero [] len v = ([], refl, refl)
hw_loop-read_hw zero (b ∷ rest) len v = absurd (omega arith)
hw_loop-read_hw (suc i) [] len v = absurd (omega arith)
hw_loop-read_hw (suc i) (b ∷ rest) len (small, v) =
    let (text, ran, back) = hw_loop-read_hw i rest (omega arith) v in
    (
      hex_byte b ++ ((if i == 0 then 32 else 58) ∷ text),
      rw ran refl,
      rw (byte-hex b small, back) refl,
    )
