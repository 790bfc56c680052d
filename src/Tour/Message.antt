-- ===== src/Tour/Message.antt =====
-- struct tourhdr of tour.h, forward_tour and send_ip of tour.c, and the guards of run_tour on a
-- packet that it received. An in_addr is its four bytes, in network order.
use tour.Base.{
  ℕ, ◌+◌, ◌-◌, ◌*◌, Bool, not, ◌&&◌, Option, none, some, [], ◌∷◌, ◌++◌, ◌==◌, ltb, if◌then◌else◌,
  Bytes, length, drop, read_at, write_at, word_bytes, word_of, htons,
}
use tour.Base.Maybe.{◌>>=◌}

abbrev pub ipproto_tour : ℕ
ipproto_tour = 237

abbrev pub ipid_tour : ℕ
ipid_tour = 0xF31F

-- sizeof(struct ip) and sizeof(struct tourhdr).
abbrev pub ip_size : ℕ
ip_size = 20

abbrev pub tourhdr_size : ℕ
tourhdr_size = 8

-- Of netinet/ip.h.
abbrev pub ip_df : ℕ
ip_df = 0x4000

-- `len` is the bit pattern of a short, in host or in network order as the code has it at the time.
-- `ips` is the memory from the flexible member on.
pub record TourHdr : Type 0 where
  pub mcastip : Bytes
  pub mcastport : ℕ
  pub len : ℕ
  pub ips : Bytes

-- The bytes of the structure in memory.
unfoldable pub tour_bytes : TourHdr → Bytes
tour_bytes t = t.mcastip ++ (word_bytes t.mcastport ++ (word_bytes t.len ++ t.ips))

-- Whether a short is greater than 0.
abbrev pub is_positive : ℕ → Bool
is_positive w = ltb 0 w && ltb w 32768

-- TOUR_SIZE.
unfoldable pub tour_size : ℕ → ℕ
tour_size len = tourhdr_size + len * 4

-- The packet that send_ip hands to sendto: the IP header with no checksum, and `len` bytes of data.
unfoldable pub send_ip : Bytes → Bytes → ℕ → Bytes → Option Bytes
send_ip hostip payload len dstip = do
  body ← read_at payload 0 len
  some (
      (0x45 ∷ 0 ∷ word_bytes (htons (ip_size + len)))
      ++ (word_bytes (htons ipid_tour)
          ++ (word_bytes (htons ip_df)
              ++ (10 ∷ ipproto_tour ∷ 0 ∷ 0 ∷ (hostip ++ (dstip ++ body))))))

-- The next address and the packet for it. A length that is not positive, or one beyond the memory,
-- is an access outside `ips`.
unfoldable pub forward_tour : Bytes → TourHdr → Option (Bytes × Bytes)
forward_tour hostip tour =
    if is_positive tour.len
    then (do
      nextip ← read_at tour.ips (4 * (tour.len - 1)) 4
      packet ←
          send_ip hostip (tour_bytes (record tour { len = htons (tour.len - 1) }))
            (tour_size (tour.len - 1)) nextip
      some (nextip, packet))
    else none

-- The structure behind the IP header in the receive buffer.
unfoldable pub load_tour : Bytes → Option TourHdr
load_tour (m0 ∷ m1 ∷ m2 ∷ m3 ∷ p0 ∷ p1 ∷ l0 ∷ l1 ∷ ips) = some (record {
  mcastip = m0 ∷ m1 ∷ m2 ∷ m3 ∷ [];
  mcastport = word_of p0 p1;
  len = word_of l0 l1;
  ips = ips;
})
load_tour _ = none

pub data Receipt : Type 0 where
  too_short wrong_id : Receipt
  accepted : TourHdr → Receipt

-- The words ip_len and ip_id of the header at the front of the buffer.
unfoldable pub ip_len_of : Bytes → Option ℕ
ip_len_of (b0 ∷ b1 ∷ l0 ∷ l1 ∷ rest) = some (word_of l0 l1)
ip_len_of _ = none

unfoldable pub ip_id_of : Bytes → Option ℕ
ip_id_of (b0 ∷ b1 ∷ l0 ∷ l1 ∷ i0 ∷ i1 ∷ rest) = some (word_of i0 i1)
ip_id_of _ = none

-- What run_tour makes of the `nread` bytes that recvfrom stored into its zeroed buffer; an accepted
-- message has its length in host order.
unfoldable pub accept_tour : Bytes → Bytes → Option Receipt
accept_tour buffer got = do
  packet ← write_at buffer 0 got
  ip_len ← ip_len_of packet
  ip_id ← ip_id_of packet
  if ltb (length got) (ip_size + tourhdr_size)
      then some too_short
      else if ltb (htons ip_len) (ip_size + tourhdr_size)
      then some too_short
      else if not (ip_id == htons ipid_tour)
      then some wrong_id
      else do
        tour ← load_tour (drop ip_size packet)
        some (accepted (record tour { len = htons tour.len }))
