-- ===== src/Arp/Tests.antt =====
-- Packets and frames of the ARP daemon, by their bytes.
use tour.Base.{
  ℕ, ◌+◌, ◌≡◌, refl, inr, none, some, [], ◌∷◌, ◌++◌, arith, pos, Bytes, drop, replicate, length,
  if◌then◌else◌, ◌==◌,
}
use tour.Arp.Packet.{Addresses, build_arp, build_len}
use tour.Arp.Build.{wire_header, wire_data, build_arp-wire}
use tour.Arp.Receive.{Recv, recv_frame, request, reply, receive}
use tour.Arp.Parse.{received_arp, recv_frame-overflow}
use tour.Arp.Dispatch.{receive-wire}

abbrev addresses : Addresses
addresses = record {
  send_hwa = some (2 ∷ 0 ∷ 0 ∷ 0 ∷ 0 ∷ 1 ∷ []);
  send_pro = some (10 ∷ 0 ∷ 0 ∷ 1 ∷ []);
  target_hwa = none;
  target_pro = some (10 ∷ 0 ∷ 0 ∷ 2 ∷ []);
}

build_arp-wire_example :
    build_arp (some (replicate 68 0)) 68 1 2 6 4 1 addresses
    ≡ some (
      build_len 6 4,
      some (
          wire_header 1 2 6 4 1
          ++ (wire_data 6 4 addresses ++ drop (build_len 6 4) (replicate 68 0))),
    )
unfolding build_len
build_arp-wire_example =
    build_arp-wire (replicate 68 0) 68 1 2 6 4 1 addresses (omega arith) (omega arith) (omega arith)
      (omega arith) tt (omega arith)

abbrev link_header : Bytes
link_header = replicate 14 0xFF

recv_frame-overflow_example :
    recv_frame (some (link_header ++ replicate 59 1)) (replicate 14 0) (replicate 58 0) ≡ none
recv_frame-overflow_example =
    recv_frame-overflow link_header (replicate 59 1) (replicate 14 0) (replicate 58 0) refl
      (omega arith) (omega arith) refl refl

-- A whole reply, as received.
abbrev whole_reply : Recv
whole_reply = record {
  nread = pos 44;
  eh = link_header;
  arp =
      received_arp 1 2 6 4 2
        (replicate 20 7 ++ drop (10 + length (replicate {A = ℕ} 20 7)) (replicate 58 0));
}

receive-wire_example :
    receive (some (link_header ++ (wire_header 1 2 6 4 2 ++ replicate 20 7)))
    ≡ some (if 2 == 1 then request whole_reply else reply whole_reply)
receive-wire_example =
    receive-wire link_header (replicate 20 7) 6 4 2 refl (omega arith) (omega arith) (omega arith)
      (inr refl) (omega arith) (omega arith)
