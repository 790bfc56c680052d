-- ===== src/Ping/Checksum.antt =====
-- in_cksum of ping.c: the Internet checksum over bytes, summed as little-endian host words in a
-- 32-bit accumulator.
use tour.Base.{
  ℕ, zero, suc, ◌+◌, ◌-◌, ◌*◌, ◌/◌, ◌%◌, ◌^◌, ◌≤◌, ◌<◌, ◌≡◌, ◌≢◌, refl, sym, ap, ◌∙◌, [], ◌∷◌, ◌++◌,
  arith, Bytes, length, All, IsByte, word_bytes, length-append,
}

-- The loop over whole words, and the odd byte at the end: it is stored into the low-addressed byte
-- of a zero word.
sum_loop : ℕ → Bytes → ℕ
sum_loop sum [] = sum
sum_loop sum (b ∷ []) = (sum + b) % 2 ^ 32
sum_loop sum (lo ∷ hi ∷ w) = sum_loop ((sum + (lo + 256 * hi)) % 2 ^ 32) w

-- `sum = (sum >> 16) + (sum & 0xffff); sum += (sum >> 16); answer = (uint16_t) ~sum;`
fold_sum : ℕ → ℕ
fold_sum sum =
    let once = (sum / 65536 + sum % 65536) % 2 ^ 32 in
    let twice = (once + once / 65536) % 2 ^ 32 in (2 ^ 32 - 1 - twice) % 65536

-- The checksum of the `len` bytes at `addr`, which are the argument.
unfoldable pub in_cksum : Bytes → ℕ
unfolding sum_loop fold_sum
in_cksum w = fold_sum (sum_loop 0 w)

-- The sum of the words, with no bound.
unfoldable pub word_sum : Bytes → ℕ
word_sum [] = 0
word_sum (b ∷ []) = b
word_sum (lo ∷ hi ∷ w) = lo + 256 * hi + word_sum w

-- The one's complement sum: below 2 ^ 16, congruent to the number modulo 2 ^ 16 - 1, and 0 only
-- for 0.
unfoldable pub ones_sum : ℕ → ℕ
ones_sum zero = 0
ones_sum (suc n) = n % 65535 + 1

abbrev pub AreBytes : Bytes → Type 0
AreBytes = All IsByte

word_sum-le : (w : Bytes) → AreBytes w → word_sum w ≤ 65535 * length w
unfolding word_sum
word_sum-le [] h = omega arith
word_sum-le (b ∷ []) (h, _) = omega arith
word_sum-le (lo ∷ hi ∷ w) (h, (k, r)) = omega (arith, word_sum-le w r)

-- A sharper bound: two bytes make one word.
pub word_sum-bound : (w : Bytes) → AreBytes w → 2 * word_sum w ≤ 65535 * (length w + 1)
unfolding word_sum
word_sum-bound [] h = omega arith
word_sum-bound (b ∷ []) (h, _) = omega arith
word_sum-bound (lo ∷ hi ∷ w) (h, (k, r)) = omega (arith, word_sum-bound w r)

sum_loop-word_sum :
    (sum : ℕ) (w : Bytes) → sum + word_sum w < 2 ^ 32 → sum_loop sum w ≡ sum + word_sum w
unfolding sum_loop word_sum
sum_loop-word_sum sum [] h = omega arith
sum_loop-word_sum sum (b ∷ []) h = omega arith
sum_loop-word_sum sum (lo ∷ hi ∷ w) h =
    ap (λ s. sum_loop s w) e
    ∙ sum_loop-word_sum (sum + (lo + 256 * hi)) w (omega arith)
    ∙ omega arith
  where
    e : (sum + (lo + 256 * hi)) % 2 ^ 32 ≡ sum + (lo + 256 * hi)
    e = omega arith

fold_sum-ones : (s : ℕ) → s < 2 ^ 32 → fold_sum s + ones_sum s ≡ 65535
unfolding fold_sum ones_sum
fold_sum-ones zero h = refl
fold_sum-ones (suc n) h = omega arith

-- Of at most 131071 bytes, in_cksum is the complement of the one's complement sum of the words: no
-- carry is lost in the accumulator.
pub in_cksum-ones :
    (w : Bytes) → AreBytes w → length w < 131072 → in_cksum w + ones_sum (word_sum w) ≡ 65535
unfolding in_cksum
in_cksum-ones w h len =
    let small : 0 + word_sum w < 2 ^ 32 = omega (arith, word_sum-bound w h) in
    let plain : 0 + word_sum w ≡ word_sum w = omega arith in
    rw (sum_loop-word_sum 0 w small, plain) (fold_sum-ones (word_sum w) (omega arith))

word_sum-append :
    (k : ℕ) (pre post : Bytes)
    → length pre ≡ 2 * k
    → word_sum (pre ++ post) ≡ word_sum pre + word_sum post
unfolding word_sum
word_sum-append zero [] post h = omega arith
word_sum-append zero (a ∷ pre) post h = absurd (omega arith)
word_sum-append (suc k) [] post h = omega arith
word_sum-append (suc k) (a ∷ []) post h = absurd (omega arith)
word_sum-append (suc k) (a ∷ b ∷ pre) post h =
    omega (arith, word_sum-append k pre post (omega arith))

ones_sum_fill : (s : ℕ) → ones_sum (s + (65535 - ones_sum s)) ≡ 65535
unfolding ones_sum
ones_sum_fill zero = refl
ones_sum_fill (suc n) = ap ones_sum e ∙ last
  where
    e : suc n + (65535 - (n % 65535 + 1)) ≡ suc (n + (65534 - n % 65535))
    e = omega arith

    last : (n + (65534 - n % 65535)) % 65535 + 1 ≡ 65535
    last = omega arith

-- All ones: what the sum of a packet with a right checksum is.
ones_sum-full : (s : ℕ) → ones_sum s ≡ 65535 → s % 65535 ≡ 0
unfolding ones_sum
ones_sum-full zero h = refl
ones_sum-full (suc n) h = omega arith

AreBytes-append : (v w : Bytes) → AreBytes v → AreBytes w → AreBytes (v ++ w)
AreBytes-append [] w a b = b
AreBytes-append (x ∷ v) w (a, as') b = (a, AreBytes-append v w as' b)

word_bytes-AreBytes : (c : ℕ) → AreBytes (word_bytes c)
word_bytes-AreBytes c = (omega arith, (omega arith, tt))

-- A packet: bytes before its checksum field, the field, and the bytes behind it.
abbrev pub with_field : Bytes → ℕ → Bytes → Bytes
with_field pre c post = pre ++ (word_bytes c ++ post)

module _ (k : ℕ) (pre post : Bytes) (even : length pre ≡ 2 * k) (pb : AreBytes pre)
    (qb : AreBytes post) (fits : length pre + length post < 131070) where
  word_sum-with_field :
      (c : ℕ) → c < 65536 → word_sum (with_field pre c post) ≡ word_sum pre + word_sum post + c
  unfolding word_sum
  word_sum-with_field c h = omega (arith, word_sum-append k pre (word_bytes c ++ post) even)

  cksum-with_field :
      (c : ℕ)
      → c < 65536
      → in_cksum (with_field pre c post) + ones_sum (word_sum pre + word_sum post + c) ≡ 65535
  cksum-with_field c h =
      ap (λ s. in_cksum (with_field pre c post) + ones_sum s) (sym (word_sum-with_field c h))
      ∙ in_cksum-ones (with_field pre c post)
          (AreBytes-append pre (word_bytes c ++ post) pb
            (AreBytes-append (word_bytes c) post (word_bytes-AreBytes c) qb))
          (omega (arith, length-append pre (word_bytes c ++ post)))

  -- A packet of bytes, of even length before the field and short enough, whose checksum field was
  -- filled with the checksum taken over a zero field has the checksum 0, which is what the receiver
  -- tests for.
  pub in_cksum_verifies : in_cksum (with_field pre (in_cksum (with_field pre 0 post)) post) ≡ 0
  in_cksum_verifies = omega (
    arith,
    cksum-with_field (in_cksum (with_field pre 0 post)) (omega (arith, zeroed)),
    ones_sum_fill (word_sum pre + word_sum post),
    ap (λ (c : ℕ). ones_sum (word_sum pre + word_sum post + c)) filled,
  )
    where
      zeroed : in_cksum (with_field pre 0 post) + ones_sum (word_sum pre + word_sum post) ≡ 65535
      zeroed =
          ap (λ (s : ℕ). in_cksum (with_field pre 0 post) + ones_sum s) (omega arith)
          ∙ cksum-with_field 0 (omega arith)

      filled : in_cksum (with_field pre 0 post) ≡ 65535 - ones_sum (word_sum pre + word_sum post)
      filled = omega (arith, zeroed)

  -- The receiver's test notices a change of one word, unless the two words are 0 and 0xffff: of two
  -- packets that differ in the word behind `pre` by other values, at most one has the checksum 0.
  pub in_cksum_detects :
      (c d : ℕ)
      → c < 65536
      → d < 65536
      → c % 65535 ≢ d % 65535
      → in_cksum (with_field pre c post) ≡ 0
      → in_cksum (with_field pre d post) ≢ 0
  in_cksum_detects c d hc hd differ zero_c zero_d = absurd (
      omega (
        arith,
        ones_sum-full (word_sum pre + word_sum post + c) (omega (arith, cksum-with_field c hc)),
        ones_sum-full (word_sum pre + word_sum post + d) (omega (arith, cksum-with_field d hd)),
      ))
