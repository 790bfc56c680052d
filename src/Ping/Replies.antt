-- ===== src/Ping/Replies.antt =====
-- Echo messages of ping.c on their way: what one thread sends and the other reads.
use tour.Base.{
  ℕ, ◌/◌, ◌%◌, ◌≡◌, refl, sym, ap, ◌∙◌, some, [], ◌∷◌, ◌++◌, arith, Bytes, IsByte, length, drop,
  take, replicate, length-replicate, length-append, append_assoc, read_at, read_at-append, write_at,
  write_next, network_bytes, ok, drop-append_left, drop-append_add, take-append_left,
}
use tour.Unix.{Calls}
use tour.Ping.Checksum.{in_cksum, AreBytes, with_field, in_cksum_verifies}
use tour.Ping.Echo.{
  icmp_echo, icmp_echoreply, icmp_echo_data, ip_front, icmp_rest, echo_header, icmp_message,
  echo_packet, reply, hear_icmp, hear,
}

icmp_rest-AreBytes : (seq : ℕ) → AreBytes (icmp_rest seq)
icmp_rest-AreBytes seq = (
  omega arith,
  (
    omega arith,
    (
      omega arith,
      (
        omega arith,
        (
          omega arith,
          (
            omega arith,
            (
              omega arith,
              (omega arith, (omega arith, (omega arith, (omega arith, (omega arith, tt))))),
            ),
          ),
        ),
      ),
    ),
  ),
)

icmp_message-verifies : (kind seq : ℕ) → IsByte kind → in_cksum (icmp_message kind seq) ≡ 0
unfolding icmp_message
icmp_message-verifies kind seq small =
    in_cksum_verifies 1 (kind ∷ 0 ∷ []) (icmp_rest seq) refl (small, (omega arith, tt))
      (icmp_rest-AreBytes seq) (omega arith)

ip_front-AreBytes : (self : ℕ) → AreBytes (ip_front self)
ip_front-AreBytes self = (
  omega arith,
  (
    omega arith,
    (
      omega arith,
      (
        omega arith,
        (
          omega arith,
          (omega arith, (omega arith, (omega arith, (omega arith, (omega arith, tt))))),
        ),
      ),
    ),
  ),
)

-- With two addresses of four bytes, both checksums of a packet that run_ping_send sends are right:
-- the one of the IP header over the header, and the one of the ICMP message over the message.
pub echo_packet-verifies :
    (self seq : ℕ) (hostip tgtip : Bytes)
    → length hostip ≡ 4
    → length tgtip ≡ 4
    → AreBytes (hostip ++ tgtip)
    → (in_cksum (take 20 (echo_packet self hostip tgtip seq)) ≡ 0)
      × (in_cksum (drop 20 (echo_packet self hostip tgtip seq)) ≡ 0)
unfolding echo_packet echo_header
echo_packet-verifies self seq hostip tgtip host4 tgt4 bytes =
    rw
      (
        take-append_left 20 header (icmp_message icmp_echo seq) size,
        drop-append_left 20 header (icmp_message icmp_echo seq) size,
      )
      (
        in_cksum_verifies 5 (ip_front self) (hostip ++ tgtip) refl (ip_front-AreBytes self) bytes
            (omega (arith, length-append hostip tgtip)),
        icmp_message-verifies icmp_echo seq (omega arith),
      )
  where
    header : Bytes
    header = echo_header self hostip tgtip

    size : length header ≡ 20
    size = omega (arith, length-append hostip tgtip, host4, tgt4)

-- The bytes of a message behind its IP header, and what the buffer holds behind it.
module _ (front src dst : Bytes) (front11 : length front ≡ 11) (src4 : length src ≡ 4)
    (dst4 : length dst ≡ 4) (seq : ℕ) (t : Calls) where
  abbrev header : Bytes
  header = (0x45 ∷ front) ++ (src ++ dst)

  header20 : length header ≡ 20
  header20 =
      omega (arith, length-append front (src ++ dst), length-append src dst, front11, src4, dst4)

  abbrev zeros : Bytes
  zeros = drop 36 (replicate 1514 0)

  stored :
      (icmp : Bytes)
      → length icmp ≡ 16
      → write_at (replicate 1514 0) 0 (header ++ icmp) ≡ some (header ++ (icmp ++ zeros))
  stored icmp len16 =
      write_next (replicate 1514 0) [] (header ++ icmp) 0 refl
        (omega (arith, size, length-replicate {A = ℕ} 1514 0))
      ∙ ap (λ n. some ((header ++ icmp) ++ drop n (replicate 1514 0))) size
      ∙ ap some (append_assoc header icmp zeros)
    where
      size : length (header ++ icmp) ≡ 36
      size = omega (arith, length-append header icmp, header20, len16)

  source : (behind : Bytes) → read_at (header ++ behind) 12 4 ≡ some src
  source behind =
      ap (λ w. read_at w 12 4) regroup
      ∙ read_at-append (0x45 ∷ front) src (dst ++ behind) 12 4 (omega (arith, front11)) src4
    where
      regroup : header ++ behind ≡ (0x45 ∷ front) ++ (src ++ (dst ++ behind))
      regroup = simp append_assoc

  id_of :
      (a b c d e f : ℕ) (behind : Bytes)
      → read_at (header ++ (a ∷ b ∷ c ∷ d ∷ e ∷ f ∷ behind)) 24 2 ≡ some (e ∷ f ∷ [])
  id_of a b c d e f behind =
      ap (λ w. read_at w 24 2) (sym (append_assoc header (a ∷ b ∷ c ∷ d ∷ []) (e ∷ f ∷ behind)))
      ∙ read_at-append (header ++ (a ∷ b ∷ c ∷ d ∷ [])) (e ∷ f ∷ []) behind 24 2
          (omega (arith, length-append header (a ∷ b ∷ c ∷ d ∷ []), header20)) refl

  hear_icmp-reply :
      (c : ℕ)
      → in_cksum (with_field (0 ∷ 0 ∷ []) c (icmp_rest seq)) ≡ 0
      → hear_icmp (header ++ (with_field (0 ∷ 0 ∷ []) c (icmp_rest seq) ++ zeros)) 36 20 t
        ≡ ok (reply src (icmp_echo_data ++ zeros)) t
  unfolding hear_icmp
  hear_icmp-reply c right =
      let icmp = with_field (0 ∷ 0 ∷ []) c (icmp_rest seq) in
      rw
        (
          read_at-append header (0 ∷ []) (drop 1 icmp ++ zeros) 20 1 header20 refl,
          id_of 0 0 (c % 256) (c / 256 % 256) 222 172
              (network_bytes seq ++ (icmp_echo_data ++ zeros)),
          read_at-append header icmp zeros 20 16 header20 refl,
          source (icmp ++ zeros),
          right,
          drop-append_add 20 8 header (icmp ++ zeros) header20,
        )
        refl

  -- A message with an IP header of 20 bytes in front: the echo reply with the data and the id that
  -- run_ping_send uses and any sequence number is read as a reply from its source, and what is
  -- printed begins with that data.
  pub hear-reply :
      hear (header ++ icmp_message icmp_echoreply seq) t
      ≡ ok (reply src (icmp_echo_data ++ zeros)) t
  unfolding hear icmp_message
  hear-reply =
      let icmp = icmp_message icmp_echoreply seq in
      let size : length (header ++ icmp) ≡ 36 =
        omega (arith, length-append header icmp, header20) in
      rw (stored icmp refl, size)
        (hear_icmp-reply _ (icmp_message-verifies icmp_echoreply seq (omega arith)))
