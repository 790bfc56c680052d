-- ===== src/Tour/Print.antt =====
-- print_tour and print_ip of tour.c, and print_mac of ping.c: the text that each prints.
use tour.Base.{
  ℕ, zero, suc, ◌+◌, ◌*◌, ◌≤◌, ◌<◌, ◌≡◌, ◌↔◌, refl, inl, inr, Option, none, some, [], ◌∷◌, ◌++◌,
  arith, Bytes, length, read_at, read_within, read_beyond, take, drop, leb, leb→le, Bool-cases,
  htons, word_of, digits, upper_byte, upper_word,
}
use tour.Base.Maybe.{◌>>=◌}
use tour.Tour.Message.{TourHdr}

-- "%hu".
abbrev short_text : ℕ → Bytes
short_text w = digits 5 w []

-- "0x".
abbrev zero_x : Bytes → Bytes
zero_x text = 48 ∷ 120 ∷ text

-- inet_ntoa of arpa/inet.h: the text of an IPv4 address.
module _ (inet_ntoa : Bytes → Bytes) where
  -- The loop of print_tour, with `k` rounds left. An address outside `ips` is `none`.
  unfoldable pub ips_loop : ℕ → ℕ → Bytes → Option Bytes
  ips_loop zero i ips = some []
  ips_loop (suc k) i ips = do
    addr ← read_at ips (4 * i) 4
    more ← ips_loop k (i + 1) ips
    some (32 ∷ 60 ∷ 45 ∷ (inet_ntoa addr ++ more))

  -- "TOUR: mcastaddr:%s mcastport:%hu len:%hu ips:", the addresses and "\n".
  unfoldable pub print_tour : TourHdr → Option Bytes
  print_tour hdr = do
    ips ← ips_loop (htons hdr.len) 0 hdr.ips
    some (
        (84 ∷ 79 ∷ 85 ∷ 82 ∷ 58 ∷ 32 ∷ 109 ∷ 99 ∷ 97 ∷ 115 ∷ 116 ∷ 97 ∷ 100 ∷ 100 ∷ 114 ∷ 58 ∷ [])
        ++ (inet_ntoa hdr.mcastip
            ++ ((32 ∷ 109 ∷ 99 ∷ 97 ∷ 115 ∷ 116 ∷ 112 ∷ 111 ∷ 114 ∷ 116 ∷ 58 ∷ [])
                ++ (short_text (htons hdr.mcastport)
                    ++ ((32 ∷ 108 ∷ 101 ∷ 110 ∷ 58 ∷ [])
                        ++ (short_text (htons hdr.len)
                            ++ ((32 ∷ 105 ∷ 112 ∷ 115 ∷ 58 ∷ []) ++ (ips ++ (10 ∷ [])))))))))

  -- The IP header as its bytes. The words are printed as they are loaded, not converted.
  unfoldable pub print_ip : Bytes → Option Bytes
  print_ip (vhl ∷ tos ∷ l0 ∷ l1 ∷ i0 ∷ i1 ∷ o0 ∷ o1 ∷ ttl ∷ p ∷ s0 ∷ s1 ∷ addresses) = do
    src ← read_at addresses 0 4
    dst ← read_at addresses 4 4
    some (
        (73 ∷ 80 ∷ 58 ∷ 32 ∷ 116 ∷ 111 ∷ 115 ∷ 58 ∷ [])
        ++ (zero_x (upper_byte tos)
            ++ ((32 ∷ 108 ∷ 101 ∷ 110 ∷ 58 ∷ zero_x (upper_word (word_of l0 l1)))
                ++ ((32 ∷ 105 ∷ 100 ∷ 58 ∷ zero_x (upper_word (word_of i0 i1)))
                    ++ ((32 ∷ 111 ∷ 102 ∷ 102 ∷ 58 ∷ zero_x (upper_word (word_of o0 o1)))
                        ++ ((32 ∷ 116 ∷ 116 ∷ 108 ∷ 58 ∷ zero_x (upper_byte ttl))
                            ++ ((32 ∷ 112 ∷ 58 ∷ zero_x (upper_byte p))
                                ++ ((32
                                      ∷ 115
                                      ∷ 117
                                      ∷ 109
                                      ∷ 58
                                      ∷ zero_x (upper_word (word_of s0 s1)))
                                    ++ ((32 ∷ 115 ∷ 114 ∷ 99 ∷ 58 ∷ inet_ntoa src)
                                        ++ ((32 ∷ 100 ∷ 115 ∷ 116 ∷ 58 ∷ inet_ntoa dst)
                                            ++ (10 ∷ [])))))))))))
  print_ip _ = none

  ips_loop-within :
      (k i : ℕ) (ips : Bytes)
      → 4 * (i + k) ≤ length ips
      → (text : Bytes) × (ips_loop k i ips ≡ some text)
  unfolding ips_loop
  ips_loop-within zero i ips fits = ([], refl)
  ips_loop-within (suc k) i ips fits =
      let (more, ran) = ips_loop-within k (i + 1) ips (omega arith) in
      (
        32 ∷ 60 ∷ 45 ∷ (inet_ntoa (take 4 (drop (4 * i) ips)) ++ more),
        rw (read_within ips (4 * i) 4 (omega arith), ran) refl,
      )

  ips_loop-beyond :
      (k i : ℕ) (ips : Bytes)
      → 4 * i ≤ length ips
      → length ips < 4 * (i + k)
      → ips_loop k i ips ≡ none
  unfolding ips_loop
  ips_loop-beyond zero i ips start past = absurd (omega arith)
  ips_loop-beyond (suc k) i ips start past = elim (Bool-cases (leb (4 * i + 4) (length ips))) [
    | inl inside ↦
        let within : 4 * i + 4 ≤ length ips = leb→le (4 * i + 4) (length ips) inside in
        rw
          (
            read_within ips (4 * i) 4 within,
            ips_loop-beyond k (i + 1) ips (omega arith) (omega arith),
          )
          refl
    | inr outside ↦ rw (read_beyond ips (4 * i) 4 (ground (arith, outside))) refl
  ]

  -- print_tour reads outside the message exactly if the count in network order is larger than the
  -- number of whole addresses in its memory.
  pub print_tour-overreads :
      (hdr : TourHdr) → (print_tour hdr ≡ none) ↔ (length hdr.ips < 4 * htons hdr.len)
  unfolding print_tour
  print_tour-overreads hdr = (
    (λ e. elim (Bool-cases (leb (4 * htons hdr.len) (length hdr.ips))) [
      | inl fits ↦
          let (text, ran) =
            ips_loop-within (htons hdr.len) 0 hdr.ips
              (omega (arith, leb→le (4 * htons hdr.len) (length hdr.ips) fits)) in
          absurd (ground (arith, e, ran))
      | inr past ↦ ground (arith, past)
    ]),
    λ past. rw (ips_loop-beyond (htons hdr.len) 0 hdr.ips (omega arith) (omega arith)) refl,
  )

-- "%02hhX" of the six bytes, with a colon between them.
unfoldable pub print_mac : Bytes → Option Bytes
print_mac (m0 ∷ m1 ∷ m2 ∷ m3 ∷ m4 ∷ m5 ∷ rest) = some (
    upper_byte m0
    ++ (58
        ∷ (upper_byte m1
            ++ (58
                ∷ (upper_byte m2
                    ++ (58 ∷ (upper_byte m3 ++ (58 ∷ (upper_byte m4 ++ (58 ∷ upper_byte m5))))))))))
print_mac _ = none
