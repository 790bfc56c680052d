-- ===== src/Arp/Fields.antt =====
-- The addresses of a whole packet of arp.c, and a frame with one as run_arp reads it.
use tour.Base.{
  ℕ, ◌≤◌, ◌≡◌, sym, ap, ◌∙◌, ◌⊎◌, some, ◌++◌, arith, ◌==◌, if◌then◌else◌, pos, Bytes, length, take,
  drop, replicate, append_assoc, drop-drop, drop-append_left, take-append_left, length-append,
  length-take, network_bytes,
}
use tour.Frame.Layout.{wire_frame}
use tour.Arp.Packet.{Addresses, ArpHdr}
use tour.Arp.Build.{wire_data, length-wire_data, packet, Covers}
use tour.Arp.Parse.{received_arp}
use tour.Arp.Receive.{Recv, receive, request, reply}
use tour.Arp.Dispatch.{receive-wire}

-- Four addresses, one behind the other.
module _ (a i z t rest : Bytes) (la : length a ≡ 6) (li : length i ≡ 4) (lz : length z ≡ 6)
    (lt : length t ≡ 4) where
  abbrev pub four : Bytes
  four = (a ++ (i ++ (z ++ t))) ++ rest

  behind_a : drop 6 four ≡ i ++ (z ++ (t ++ rest))
  behind_a =
      rw (append_assoc a (i ++ (z ++ t)) rest, append_assoc i (z ++ t) rest, append_assoc z t rest)
        (drop-append_left 6 a (i ++ (z ++ (t ++ rest))) la)

  behind_i : drop 10 four ≡ z ++ (t ++ rest)
  behind_i = sym (drop-drop 4 6 four) ∙ rw behind_a (drop-append_left 4 i (z ++ (t ++ rest)) li)

  behind_z : drop 16 four ≡ t ++ rest
  behind_z = sym (drop-drop 6 10 four) ∙ rw behind_i (drop-append_left 6 z (t ++ rest) lz)

  pub second_field : take 4 (drop 6 four) ≡ i
  second_field = rw behind_a (take-append_left 4 i (z ++ (t ++ rest)) li)

  pub third_field : take 6 (drop 10 four) ≡ z
  third_field = rw behind_i (take-append_left 6 z (t ++ rest) lz)

  pub fourth_field : take 4 (drop 16 four) ≡ t
  fourth_field = rw behind_z (take-append_left 4 t rest lt)

-- The header of the link layer.
abbrev pub link_head : Bytes → Bytes → Bytes
link_head dst src = take 6 dst ++ (take 6 src ++ network_bytes 0xF31F)

-- The packet that is read from a frame with the addresses.
abbrev pub heard : ℕ → Addresses → ArpHdr
heard op addrs = received_arp 1 2 6 4 op (wire_data 6 4 addrs ++ drop 30 (replicate 58 0))

module _ (dst src : Bytes) (op : ℕ) (addrs : Addresses) (dst_long : 6 ≤ length dst)
    (src_long : 6 ≤ length src) (c1 : Covers 6 addrs.send_hwa) (c2 : Covers 4 addrs.send_pro)
    (c3 : Covers 6 addrs.target_hwa) (c4 : Covers 4 addrs.target_pro) where
  pub length-data : length (wire_data 6 4 addrs) ≡ 20
  length-data = length-wire_data 6 4 addrs c1 c2 c3 c4

  pub length-link_head : length (link_head dst src) ≡ 14
  length-link_head = omega (
    arith,
    length-append (take 6 dst) (take 6 src ++ network_bytes 0xF31F),
    length-append (take 6 src) (network_bytes 0xF31F),
    length-take 6 dst,
    length-take 6 src,
  )

  pub wire_frame-head :
      wire_frame 0xF31F dst src (packet 1 2 op addrs) ≡ link_head dst src ++ packet 1 2 op addrs
  wire_frame-head = simp append_assoc

  -- Such a frame reaches the handler of its operation.
  pub receive-packet :
      (op ≡ 1) ⊎ (op ≡ 2)
      → let r : Recv = record { nread = pos 44; eh = link_head dst src; arp = heard op addrs } in
        receive (some (wire_frame 0xF31F dst src (packet 1 2 op addrs)))
        ≡ some (if op == 1 then request r else reply r)
  receive-packet ops =
      ap (λ (w : Bytes). receive (some w)) wire_frame-head
      ∙ (rw length-data at (
          receive-wire (link_head dst src) (wire_data 6 4 addrs) 6 4 op length-link_head
            (omega arith) (omega arith) (omega arith) ops (omega (arith, length-data))
            (omega (arith, length-data))))

  pub length-heard : length ((heard op addrs).payload) ≡ 48
  length-heard =
      omega (arith, length-data, length-append (wire_data 6 4 addrs) (drop 30 (replicate 58 0)))
