-- ===== src/Ping/Echo.antt =====
-- The threads of ping.c: run_ping_send and run_ping_recv, with the echo messages that they exchange
-- with other hosts.
use tour.Base.{
  ℕ, zero, suc, ◌+◌, ◌-◌, ◌*◌, ◌/◌, ◌%◌, ◌^◌, Bool, false, not, Option, none, some, [], ◌∷◌, ◌++◌,
  ◌==◌, ltb, if◌then◌else◌, ℤ, pos, negsuc, is_negative, Bytes, length, drop, replicate, read_at,
  write_at, word_bytes, htons, network_bytes, out_of_fuel, Cmd, pure, or_fault, ◌>>=◌, ◌>>◌,
}
use tour.Unix.{
  int_of, Calls, Kernel, socket, sendto, recvfrom, sleep, gethostbyaddr, close, af_inet, af_packet,
  sock_raw, sockaddr_in, call, call_from,
}
use tour.World.{SockaddrLl}
use tour.Frame.Make.{eth_data_len, eth_frame_len, eth_p_ip, make_frame}
use tour.Areq.{areq}
use tour.Ping.Checksum.{in_cksum, with_field}
use tour.Tour.Sockets.{word_at, text_of}

-- ICMP_ID, and "PINGPONG" for ICMP_ECHO_DATA.
abbrev pub icmp_id : ℕ
icmp_id = 0xDEAC

abbrev pub icmp_echo_data : Bytes
icmp_echo_data = 80 ∷ 73 ∷ 78 ∷ 71 ∷ 80 ∷ 79 ∷ 78 ∷ 71 ∷ []

-- Of netinet/ip_icmp.h.
abbrev pub icmp_echo : ℕ
icmp_echo = 8

abbrev pub icmp_echoreply : ℕ
icmp_echoreply = 0

abbrev pub icmp_minlen : ℕ
icmp_minlen = 8

-- The IP header before and behind its checksum; `self` is the thread's id.
abbrev pub ip_front : ℕ → Bytes
ip_front self =
    0x45
    ∷ 0
    ∷ (network_bytes 36
        ++ (network_bytes (self % 65536) ++ (network_bytes 0x4000 ++ (10 ∷ 1 ∷ []))))

-- The header with its checksum over the header with a zero field.
unfoldable pub echo_header : ℕ → Bytes → Bytes → Bytes
echo_header self hostip tgtip =
    with_field (ip_front self) (in_cksum (with_field (ip_front self) 0 (hostip ++ tgtip)))
      (hostip ++ tgtip)

-- What stands behind the checksum of an ICMP message of the program.
abbrev pub icmp_rest : ℕ → Bytes
icmp_rest seq = network_bytes icmp_id ++ (network_bytes seq ++ icmp_echo_data)

-- The ICMP message of a type, with its checksum over the message with a zero field.
unfoldable pub icmp_message : ℕ → ℕ → Bytes
icmp_message kind seq =
    with_field (kind ∷ 0 ∷ []) (in_cksum (with_field (kind ∷ 0 ∷ []) 0 (icmp_rest seq)))
      (icmp_rest seq)

-- The packet of the round with the sequence number `seq`.
unfoldable pub echo_packet : ℕ → Bytes → Bytes → ℕ → Bytes
echo_packet self hostip tgtip seq = echo_header self hostip tgtip ++ icmp_message icmp_echo seq

-- The bytes of an int.
abbrev pub int_bytes : ℤ → Bytes
int_bytes (pos n) = word_bytes (n % 65536) ++ word_bytes (n / 65536)
int_bytes (negsuc n) = let m = 2 ^ 32 - 1 - n in word_bytes (m % 65536) ++ word_bytes (m / 65536)

-- A struct sockaddr_ll in memory.
abbrev pub sockaddr_ll : SockaddrLl → Bytes
sockaddr_ll d =
    word_bytes d.sll_family
    ++ (word_bytes d.sll_protocol
        ++ (int_bytes d.sll_ifindex ++ (word_bytes d.sll_hatype ++ (0 ∷ d.sll_halen ∷ d.sll_addr))))

-- What run_ping_recv makes of a message that it read; a reply with its source and its data.
pub data Heard : Type 0 where
  too_small not_reply other_process corrupt : Heard
  reply : Bytes → Bytes → Heard

abbrev pub first_byte : Bytes → ℕ
first_byte [] = 0
first_byte (b ∷ rest) = b

-- The guards on the ICMP message, given the length of the IP header; the buffer holds `nread` bytes
-- of the message.
unfoldable pub hear_icmp : Bytes → ℕ → ℕ → Cmd Calls Heard
hear_icmp packet nread iplen = if ltb nread (iplen + icmp_minlen) then pure too_small else do
  icmp_type ← or_fault (read_at packet iplen 1)
  id ← or_fault (read_at packet (iplen + 4) 2)
  icmp ← or_fault (read_at packet iplen (nread - iplen))
  ip_src ← or_fault (read_at packet 12 4)
  pure (
      if not (first_byte icmp_type == icmp_echoreply)
      then not_reply
      else if not (word_at id == htons icmp_id)
      then other_process
      else if not (in_cksum icmp == 0)
      then corrupt
      else reply ip_src (drop (iplen + 8) packet))

-- The header's length is in the low four bits of its first byte.
unfoldable pub hear : Bytes → Cmd Calls Heard
hear got = do
  packet ← or_fault (write_at (replicate eth_frame_len 0) 0 got)
  hear_icmp packet (length got) (first_byte packet % 16 * 4)

module _ (os : Kernel) where
  -- send_frame on the log of the thread's calls.
  unfoldable pub send_echo : ℤ → Bytes → Bytes → Cmd Calls Bool
  send_echo sock packet hwa = do
    sll_addr ← or_fault (read_at hwa 19 8)
    sll_ifaddr ← or_fault (read_at hwa 7 8)
    if ltb eth_data_len (length packet) then pure false else do
      (frame, dest) ← or_fault (
          make_frame eth_p_ip packet (length packet) (some sll_addr) (some sll_ifaddr) (int_of hwa))
      nsent ← call os (sendto sock frame (sockaddr_ll dest))
      pure (not (is_negative nsent))

  -- The rounds of run_ping_send, up to the `break`. `seq` is an unsigned short.
  unfoldable pub ping_rounds : ℤ → ℕ → Bytes → Bytes → ℕ → ℕ → Cmd Calls (Unit {0})
  ping_rounds sock self hostip tgtip zero seq = λ _. out_of_fuel
  ping_rounds sock self hostip tgtip (suc k) seq =
      let rest = ping_rounds sock self hostip tgtip k ((seq + 1) % 65536) in
      do found ← areq os (sockaddr_in 0 tgtip) 16; go_on rest found
    where
      go_on : Cmd Calls (Unit {0}) → Option Bytes → Cmd Calls (Unit {0})
      go_on rest none = pure tt
      go_on rest (some hwa) = do
        sent ← send_echo sock (echo_packet self hostip tgtip seq) hwa
        if sent then call os (sleep 1) >> rest else pure tt

  -- close_sock runs at the end of the thread.
  unfoldable pub close_sock : ℤ → Cmd Calls (Unit {0})
  close_sock sock = if is_negative sock then pure tt else call os (close sock) >> pure tt

  unfoldable pub run_ping_send : ℕ → Bytes → Bytes → ℕ → Cmd Calls (Unit {0})
  run_ping_send self hostip tgtip fuel = do
    sock ← call os (socket af_packet sock_raw (htons eth_p_ip))
    if is_negative sock
        then close_sock sock
        else ping_rounds sock self hostip tgtip fuel 0 >> close_sock sock

  -- A reply is printed with its sender's name and its data up to a NUL.
  unfoldable pub announce : Heard → Cmd Calls (Unit {0})
  announce (reply ip_src icmp_data) = do
    call os (gethostbyaddr ip_src)
    or_fault (text_of icmp_data)
    pure tt
  announce too_small = pure tt
  announce not_reply = pure tt
  announce other_process = pure tt
  announce corrupt = pure tt

  unfoldable pub hear_rounds : ℤ → ℕ → Cmd Calls (Unit {0})
  hear_rounds pg_sock zero = λ _. out_of_fuel
  hear_rounds pg_sock (suc k) =
      let rest = hear_rounds pg_sock k in
      do
        (nread, got, src) ← call_from os (recvfrom pg_sock eth_frame_len)
        if is_negative nread then pure tt else do heard ← hear got; announce heard; rest

  unfoldable pub run_ping_recv : ℕ → Cmd Calls (Unit {0})
  run_ping_recv fuel = do
    pg_sock ← call os (socket af_inet sock_raw 1)
    if is_negative pg_sock
        then close_sock pg_sock
        else hear_rounds pg_sock fuel >> close_sock pg_sock
