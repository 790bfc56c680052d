-- ===== src/Tour/Relay.antt =====
-- One hop of a tour, and a whole tour: forward_tour and the checks of run_tour of tour.c.
use tour.Base.{
  ℕ, suc, ◌+◌, ◌-◌, ◌*◌, ◌/◌, ◌%◌, ◌≤◌, ◌<◌, ◌≡◌, refl, ap, ◌∙◌, some, List, [], ◌∷◌, ◌++◌, arith,
  le→ltb, lt→ltb, Bytes, length, drop, read_at, write_at, write_next, read_at-append, word_bytes,
  word_of, htons, network_bytes, word_bytes-htons, htons-word_of, drop-append_add, drop-append_left,
  length-append, append_assoc,
}
use tour.Tour.Message.{
  tour_bytes, tour_size, send_ip, forward_tour, load_tour, accepted, ip_len_of, ip_id_of,
  accept_tour,
}
use tour.Tour.Travel.{packed, AreAddrs, length-packed, follow, travel, message, ip_packet}

module _ (m0 m1 m2 m3 port : ℕ) (hostip : Bytes) (host4 : length hostip ≡ 4) where
  -- The bytes of a message with `n` addresses, as they are sent.
  abbrev sent_message : ℕ → Bytes → Bytes
  sent_message n front = m0 ∷ m1 ∷ m2 ∷ m3 ∷ (word_bytes port ++ (network_bytes n ++ front))

  tour_bytes_lem :
      (n : ℕ) (front behind : Bytes)
      → tour_bytes (message m0 m1 m2 m3 port (htons n) (front ++ behind))
        ≡ sent_message n front ++ behind
  unfolding tour_bytes
  tour_bytes_lem n front behind =
      ap (λ w. m0 ∷ m1 ∷ m2 ∷ m3 ∷ (word_bytes port ++ (w ++ (front ++ behind))))
        (word_bytes-htons n)

  send_ip_lem :
      (payload dstip body : Bytes) (len : ℕ)
      → read_at payload 0 len ≡ some body
      → send_ip hostip payload len dstip ≡ some (ip_packet hostip dstip len body)
  unfolding send_ip
  send_ip_lem payload dstip body len e = rw e (
      ap
        (λ w. some (
          (0x45 ∷ 0 ∷ w)
          ++ (network_bytes 0xF31F
              ++ (network_bytes 0x4000 ++ (10 ∷ 237 ∷ 0 ∷ 0 ∷ (hostip ++ (dstip ++ body)))))))
        (word_bytes-htons (20 + len)))

  forward_lem :
      (n : ℕ) (front a junk : Bytes)
      → n < 32767
      → length front ≡ 4 * n
      → length a ≡ 4
      → forward_tour hostip (message m0 m1 m2 m3 port (suc n) (front ++ (a ++ junk)))
        ≡ some (a, ip_packet hostip a (8 + n * 4) (sent_message n front))
  unfolding forward_tour tour_size
  forward_lem n front a junk small len a4 =
      rw
        (
          lt→ltb 0 (suc n) (omega arith),
          lt→ltb (suc n) 32768 (omega arith),
          minus,
          read_at-append front a junk (4 * n) 4 len a4,
          tour_bytes_lem n front (a ++ junk),
          send_ip_lem (sent_message n front ++ (a ++ junk)) a (sent_message n front) (8 + n * 4) (
              read_at-append [] (sent_message n front) (a ++ junk) 0 (8 + n * 4) refl
                (omega (arith, len))),
        )
        refl
    where
      minus : suc n - 1 ≡ n
      minus = omega arith

  -- A node accepts the packet and has the message with one address less.
  accept_lem :
      (buffer : Bytes) (n : ℕ) (front a : Bytes)
      → length buffer ≡ 65535
      → port < 65536
      → n < 16377
      → length front ≡ 4 * n
      → length a ≡ 4
      → accept_tour buffer (ip_packet hostip a (8 + n * 4) (sent_message n front))
        ≡ some (accepted (message m0 m1 m2 m3 port n (front ++ drop (28 + 4 * n) buffer)))
  unfolding accept_tour ip_len_of ip_id_of load_tour
  accept_lem buffer n front a room small count len a4 =
      rw
        (
          stored,
          le→ltb (length packet) 28 (omega (arith, size)),
          le→ltb (htons (word_of ((20 + (8 + n * 4)) / 256 % 256) ((20 + (8 + n * 4)) % 256))) 28
              (omega (arith, htons-word_of (20 + (8 + n * 4)))),
          dropped,
        )
        (λ i. some (accepted (message m0 m1 m2 m3 (same_port i) (same_count i) (front ++ behind))))
    where
      packet : Bytes
      packet = ip_packet hostip a (8 + n * 4) (sent_message n front)

      behind : Bytes
      behind = drop (28 + 4 * n) buffer

      size : length packet ≡ 28 + 4 * n
      size = omega (
        arith,
        length-append hostip (a ++ sent_message n front),
        length-append a (sent_message n front),
      )

      stored : write_at buffer 0 packet ≡ some (packet ++ behind)
      stored =
          write_next buffer [] packet 0 refl (omega (arith, size))
          ∙ ap (λ k. some (packet ++ drop k buffer)) size

      regroup :
          (hostip ++ (a ++ sent_message n front)) ++ behind
          ≡ hostip ++ (a ++ (sent_message n front ++ behind))
      regroup = simp append_assoc

      dropped : drop 20 (packet ++ behind) ≡ sent_message n front ++ behind
      dropped =
          ap (λ w. drop 8 w) regroup
          ∙ drop-append_add 4 4 hostip (a ++ (sent_message n front ++ behind)) host4
          ∙ drop-append_left 4 a (sent_message n front ++ behind) a4

      same_port : word_of (port % 256) (port / 256 % 256) ≡ port
      same_port = omega arith

      same_count : htons (word_of (n / 256 % 256) (n % 256)) ≡ n
      same_count = htons-word_of n (omega arith)

  -- One hop: a node with a message of `n + 1` addresses sends it to the last of them, and the node
  -- there accepts it with the same group, port and other addresses, and the count `n`. What the
  -- sender had behind the addresses is not sent.
  pub forward_tour-accept :
      (buffer : Bytes) (n : ℕ) (front a junk : Bytes)
      → length buffer ≡ 65535
      → port < 65536
      → n < 16377
      → length front ≡ 4 * n
      → length a ≡ 4
      → (packet : Bytes) × (forward_tour hostip
            (message m0 m1 m2 m3 port (suc n) (front ++ (a ++ junk)))
          ≡ some (a, packet))
        × (accept_tour buffer packet
            ≡ some (accepted (message m0 m1 m2 m3 port n (front ++ drop (28 + 4 * n) buffer))))
  forward_tour-accept buffer n front a junk room small count len a4 = (
    ip_packet hostip a (8 + n * 4) (sent_message n front),
    forward_lem n front a junk (omega arith) len a4,
    accept_lem buffer n front a room small count len a4,
  )

-- A message with at most 16377 packed addresses visits each of them once, in order, and then ends
-- its tour; one round of fuel for each address and one more are enough.
pub travel-visits :
    (m0 m1 m2 m3 port : ℕ) (hostip buffer junk : Bytes) (addrs : List Bytes)
    → length hostip ≡ 4
    → length buffer ≡ 65535
    → port < 65536
    → length addrs ≤ 16377
    → AreAddrs addrs
    → travel
        (suc (length addrs))
        buffer
        hostip
        (message m0 m1 m2 m3 port (length addrs) (packed addrs ++ junk))
      ≡ some addrs
unfolding travel follow
travel-visits m0 m1 m2 m3 port hostip buffer junk [] host4 room small count v = refl
travel-visits m0 m1 m2 m3 port hostip buffer junk (a ∷ rest) host4 room small count (a4, v) =
    let n = length rest in
    let behind = drop (28 + 4 * n) buffer in
    let front4 = length-packed rest v in
    rw
      (
        lt→ltb 0 (suc n) (omega arith),
        lt→ltb (suc n) 32768 (omega arith),
        append_assoc (packed rest) a junk,
        forward_lem m0 m1 m2 m3 port hostip host4 n (packed rest) a junk (omega arith) front4 a4,
        accept_lem m0 m1 m2 m3 port hostip host4 buffer n (packed rest) a room small (omega arith)
            front4 a4,
        travel-visits m0 m1 m2 m3 port a buffer behind rest a4 room small (omega arith) v,
      )
      refl
