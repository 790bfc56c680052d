-- ===== src/Arp/ReplyFrame.antt =====
-- handle_req of arp.c: the reply that is sent.
use tour.Base.{
  ℕ, ◌/◌, ◌%◌, word_of, ◌≤◌, ◌≡◌, refl, some, List, ◌∷◌, ◌++◌, arith, ℤ, Bytes, length, take, drop,
  replicate, ok, length-append, length-drop, length-take, read_within,
}
use tour.World.{System, Daemon, SockaddrLl, Call, sendto_ll}
use tour.Frame.Layout.{wire_frame, link_address, send_frame-front}
use tour.Arp.Device.{HwaInfo, mac_by_ifindex}
use tour.Arp.Packet.{ArpHdr, Addresses, load_arp}
use tour.Arp.Build.{wire_header, wire_data, packet, length-packet, build_arp-packet}
use tour.Arp.Parse.{print_addresses-within}
use tour.Arp.Receive.{print_arp}
use tour.Arp.Answer.{send_reply}
use tour.Arp.Refusals.{HasInetAddress}

-- The addresses of a reply: the sender's are those of the node that asked and of the interface, the
-- target's those that were asked for.
abbrev pub reply_addresses : Bytes → ArpHdr → HwaInfo → Addresses
reply_addresses eh arp this = record {
  send_hwa = some (take 6 (drop 6 eh));
  send_pro = some (drop 4 this.ip_addr);
  target_hwa = some this.if_haddr;
  target_pro = some (drop 16 arp.payload);
}

abbrev pub reply_packet : Bytes → ArpHdr → HwaInfo → Bytes
reply_packet eh arp this = packet arp.hard_type arp.prot_type 2 (reply_addresses eh arp this)

-- A packet in a longer buffer can be printed.
print_arp-packet :
    (ht pt op : ℕ) (addrs : Addresses) (rest : Bytes)
    → length (packet ht pt op addrs) ≡ 30
    → (out : Bytes) × (print_arp (packet ht pt op addrs ++ rest) ≡ some out)
unfolding print_arp load_arp
print_arp-packet ht pt op addrs rest len =
    let behind : Bytes = wire_data 6 4 addrs ++ rest in
    let hdr : ArpHdr = record {
      id = word_of 0xDE 0xAD;
      hard_type = word_of (ht / 256 % 256) (ht % 256);
      prot_type = word_of (pt / 256 % 256) (pt % 256);
      hard_len = 6;
      prot_len = 4;
      op = word_of (op / 256 % 256) (op % 256);
      payload = behind;
    } in
    print_addresses-within hdr (omega arith) (
      omega (
        arith,
        len,
        length-append (wire_header ht pt 6 4 op) (wire_data 6 4 addrs),
        length-append (wire_data 6 4 addrs) rest,
      ))

-- The frame of the reply, to the node that asked.
abbrev pub sent_reply : ℤ → Bytes → ArpHdr → SockaddrLl → HwaInfo → Bytes → Call
sent_reply pack_fd eh arp src this mac =
    let asker_mac : Bytes = take 6 (drop 6 eh) in
    sendto_ll pack_fd (wire_frame 0xF31F asker_mac mac (reply_packet eh arp this))
      (link_address 0xF31F asker_mac src.sll_ifindex)

module _ (sys : System) (fuel : ℕ) (devices : List HwaInfo) (pack_fd : ℤ) (eh : Bytes)
    (arp : ArpHdr) (src : SockaddrLl) (this : HwaInfo) (mac : Bytes) (link : 12 ≤ length eh)
    (hl : arp.hard_len ≡ 6) (pl : arp.prot_len ≡ 4) (size : length arp.payload ≡ 48)
    (this_mac : 6 ≤ length this.if_haddr) (this_inet : HasInetAddress this)
    (ours : mac_by_ifindex devices src.sll_ifindex ≡ some mac) (mac_long : 6 ≤ length mac) where
  pub send_reply-sends :
      (s : Daemon)
      → send_reply sys fuel devices pack_fd eh arp src this s
        ≡ ok tt (record s { trace = sent_reply pack_fd eh arp src this mac ∷ s.trace })
  unfolding send_reply
  send_reply-sends s =
      let addrs = reply_addresses eh arp this in
      let c1 : 6 ≤ length (take 6 (drop 6 eh)) =
        omega (arith, length-take 6 (drop 6 eh), length-drop 6 eh) in
      let c2 : 4 ≤ length (drop 4 this.ip_addr) = omega (arith, length-drop 4 this.ip_addr) in
      let c4 : 4 ≤ length (drop 16 arp.payload) = omega (arith, length-drop 16 arp.payload) in
      let len = length-packet arp.hard_type arp.prot_type 2 addrs c1 c2 this_mac c4 in
      let rest : Bytes = drop 30 (replicate 58 0) in
      let shown = print_arp-packet arp.hard_type arp.prot_type 2 addrs rest len in
      rw
        (
          hl,
          pl,
          read_within eh 6 6 link,
          build_arp-packet arp.hard_type arp.prot_type 2 addrs c1 c2 this_mac c4 (replicate 58 0) 58
              (omega arith) (omega arith),
          shown.1,
          ours,
          send_frame-front sys pack_fd (reply_packet eh arp this) rest (take 6 (drop 6 eh)) mac 30
              src.sll_ifindex s len (omega arith) c1 mac_long,
        )
        refl
