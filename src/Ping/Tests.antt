-- ===== src/Ping/Tests.antt =====
-- Checksums of short packets.
use tour.Base.{◌+◌, ◌≡◌, refl, [], ◌∷◌, arith, Bytes}
use tour.Ping.Checksum.{in_cksum, word_sum, ones_sum, with_field, in_cksum-ones, in_cksum_verifies}

-- An echo request up to its checksum, and behind it.
abbrev type_code : Bytes
type_code = 8 ∷ 0 ∷ []

abbrev echo : Bytes
echo = 0x1F ∷ 0xF3 ∷ 0 ∷ 1 ∷ 7 ∷ []

in_cksum_filled : in_cksum (with_field type_code 0 echo) ≡ 3025
unfolding in_cksum
in_cksum_filled = refl

in_cksum_right : in_cksum (with_field type_code 3025 echo) ≡ 0
unfolding in_cksum
in_cksum_right = refl

in_cksum-ones_example : in_cksum echo + ones_sum (word_sum echo) ≡ 65535
in_cksum-ones_example =
    in_cksum-ones echo (omega arith, (omega arith, (omega arith, (omega arith, (omega arith, tt)))))
      (omega arith)

in_cksum_verifies_example :
    in_cksum (with_field type_code (in_cksum (with_field type_code 0 echo)) echo) ≡ 0
in_cksum_verifies_example =
    in_cksum_verifies 1 type_code echo refl (omega arith, (omega arith, tt))
      (omega arith, (omega arith, (omega arith, (omega arith, (omega arith, tt))))) (omega arith)
