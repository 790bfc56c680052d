-- ===== src/Arp/Receive.antt =====
-- recv_frame of arp.c with the printing of the addresses, and what run_arp makes of a frame.
use tour.Base.{
  ℕ, ◌+◌, ◌-◌, Option, none, some, ◌++◌, ◌==◌, ltb, if◌then◌else◌, ℤ, pos, minus_one, Bytes, length,
  replicate, read_at, write_at, ◌||◌,
}
use tour.Base.Maybe.{◌>>=◌}
use tour.Frame.Make.{eth_hlen, eth_frame_len}
use tour.Arp.Packet.{
  ArpHdr, load_arp, ntoh_arp, valid_arp, sha_offset, spa_offset, tha_offset, tpa_offset,
  arp_datalen, arp_hdrlen, arpop_request, arpop_reply,
}

-- A loop to `hard_len - 1` and one byte behind it: at least one byte is read.
abbrev printed_len : ℕ → ℕ
printed_len hard_len = if hard_len == 0 then 1 else hard_len

-- The bytes of `data` that print_addresses reads, in its order.
unfoldable pub print_addresses : ArpHdr → Option Bytes
print_addresses arp = do
  sha ← read_at arp.payload (sha_offset arp) (printed_len arp.hard_len)
  spa ← read_at arp.payload (spa_offset arp) arp.prot_len
  tha ← read_at arp.payload (tha_offset arp) (printed_len arp.hard_len)
  tpa ← read_at arp.payload (tpa_offset arp) arp.prot_len
  some (sha ++ (spa ++ (tha ++ tpa)))

-- The result, and the two buffers afterwards.
pub record Recv : Type 0 where
  pub nread : ℤ
  pub eh : Bytes
  pub arp : ArpHdr

-- `frame` is the zeroed local buffer; `got` is what recvfrom stored, `none` for -1.
unfoldable pub recv_into : Bytes → Option Bytes → Bytes → Bytes → Option Recv
recv_into frame none eh arp = do
  hdr ← load_arp arp
  some (record { nread = minus_one; eh = eh; arp = hdr })
recv_into frame (some got) eh arp = do
  frame ← write_at frame 0 got
  if ltb (eth_hlen + arp_hdrlen) (length got)
      then (do
        head ← read_at frame 0 eth_hlen
        eh' ← write_at eh 0 head
        body ← read_at frame eth_hlen (length got - eth_hlen)
        arp' ← write_at arp 0 body
        hdr ← load_arp arp'
        shown ← print_addresses (ntoh_arp hdr)
        some (record { nread = pos (length got); eh = eh'; arp = ntoh_arp hdr }))
      else (do hdr ← load_arp arp; some (record { nread = pos (length got); eh = eh; arp = hdr }))

unfoldable pub recv_frame : Option Bytes → Bytes → Bytes → Option Recv
unfolding recv_into
recv_frame got eh arp = recv_into (replicate eth_frame_len 0) got eh arp

-- The branches of run_arp behind a call of recv_frame on zeroed buffers.
pub data Verdict : Type 0 where
  read_failed : Verdict
  too_short : Verdict
  request : Recv → Verdict
  reply : Recv → Verdict
  unsupported : Verdict
  invalid : Verdict

unfoldable pub classify : Recv → ℕ → Verdict
classify r nread =
    if ltb nread (eth_hlen + arp_hdrlen) || ltb nread (eth_hlen + arp_hdrlen + arp_datalen r.arp)
    then too_short
    else if valid_arp r.arp
    then (if r.arp.op == arpop_request
        then request r
        else if r.arp.op == arpop_reply
        then reply r
        else unsupported)
    else invalid

unfoldable pub receive : Option Bytes → Option Verdict
unfolding recv_frame classify
receive none = some read_failed
receive (some got) = do
  r ← recv_frame (some got) (replicate 14 0) (replicate 58 0)
  some (classify r (length got))

-- PRINT_ARP on a packet in memory.
unfoldable pub print_arp : Bytes → Option Bytes
print_arp packet = load_arp packet >>= print_addresses
