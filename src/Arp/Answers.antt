-- ===== src/Arp/Answers.antt =====
-- The request of one ARP daemon and the reply of another, as each reads the other's.
use tour.Base.{
  ◌≤◌, ◌≡◌, refl, inl, inr, some, arith, ℤ, pos, Bytes, length, take, drop, replicate,
  take-append_left, length-drop, length-take, network_bytes,
}
use tour.World.{SockaddrLl, sendto_ll}
use tour.Frame.Layout.{wire_frame, link_address}
use tour.Arp.Packet.{Addresses, ArpHdr}
use tour.Arp.Device.{HwaInfo}
use tour.Arp.Build.{packet}
use tour.Arp.Fields.{
  link_head, heard, receive-packet, length-link_head, length-heard, second_field, third_field,
  fourth_field,
}
use tour.Arp.Request.{request_addresses, request_frame, IsDevice}
use tour.Arp.Refusals.{inet_of}
use tour.Arp.ReplyFrame.{sent_reply}
use tour.Arp.Reverse.{sender_ip}
use tour.Arp.Receive.{request, reply, receive}
use tour.Arp.Resolve.{target_ip, target_mac}

-- The frame with which the node of interface `this` answers the request of `d` for an address, from
-- the MAC address `mac`.
abbrev pub answer_addresses : Bytes → HwaInfo → HwaInfo → Addresses
answer_addresses addr d this = record {
  send_hwa = some (take 6 d.if_haddr);
  send_pro = some (drop 4 this.ip_addr);
  target_hwa = some this.if_haddr;
  target_pro = some (drop 4 addr);
}

abbrev pub answer_frame : Bytes → HwaInfo → HwaInfo → Bytes → Bytes
answer_frame addr d this mac =
    wire_frame 0xF31F (take 6 d.if_haddr) mac (packet 1 2 2 (answer_addresses addr d this))

-- The request as the other node reads it.
abbrev pub asked : Bytes → HwaInfo → ArpHdr
asked addr d = heard 1 (request_addresses addr d)

abbrev pub asked_head : HwaInfo → Bytes
asked_head d = link_head (replicate 8 0xFF) d.if_haddr

module _ (addr : Bytes) (size : 8 ≤ length addr) (d : HwaInfo) (dev : IsDevice d) where
  len_a : length (take 6 d.if_haddr) ≡ 6
  len_a = omega (arith, dev.0, length-take 6 d.if_haddr)

  len_i : length (inet_of d) ≡ 4
  len_i = omega (arith, dev.1, length-take 4 (drop 4 d.ip_addr), length-drop 4 d.ip_addr)

  len_t : length (take 4 (drop 4 addr)) ≡ 4
  len_t = omega (arith, length-take 4 (drop 4 addr), length-drop 4 addr)

  pub asks_for : target_ip (asked addr d) ≡ take 4 (drop 4 addr)
  asks_for =
      fourth_field (take 6 d.if_haddr) (inet_of d) (replicate 6 0) (take 4 (drop 4 addr))
        (drop 30 (replicate 58 0)) len_a len_i refl len_t

  pub asks_from : sender_ip (asked addr d) ≡ inet_of d
  asks_from =
      second_field (take 6 d.if_haddr) (inet_of d) (replicate 6 0) (take 4 (drop 4 addr))
        (drop 30 (replicate 58 0)) len_a len_i refl len_t

  asks_mac : take 6 (drop 6 (asked_head d)) ≡ take 6 d.if_haddr
  asks_mac = take-append_left 6 (take 6 d.if_haddr) (network_bytes 0xF31F) len_a

  pub replies_with :
      (pack_fd : ℤ) (src : SockaddrLl) (this : HwaInfo) (mac : Bytes)
      → sent_reply pack_fd (asked_head d) (asked addr d) src this mac
        ≡ sendto_ll pack_fd
            (answer_frame addr d this mac)
            (link_address 0xF31F (take 6 d.if_haddr) src.sll_ifindex)
  replies_with pack_fd src this mac = rw (asks_mac, asks_for) refl

-- The answer as the first node reads it.
abbrev pub answered : Bytes → HwaInfo → HwaInfo → ArpHdr
answered addr d this = heard 2 (answer_addresses addr d this)

module _ (addr : Bytes) (size : 8 ≤ length addr) (d this : HwaInfo) (dev : IsDevice d)
    (this_dev : IsDevice this) where
  len_m : length (take 6 (take 6 d.if_haddr)) ≡ 6
  len_m = omega (arith, dev.0, length-take 6 d.if_haddr, length-take 6 (take 6 d.if_haddr))

  pub answers_for : target_ip (answered addr d this) ≡ take 4 (drop 4 addr)
  answers_for =
      fourth_field (take 6 (take 6 d.if_haddr)) (inet_of this) (take 6 this.if_haddr)
        (take 4 (drop 4 addr)) (drop 30 (replicate 58 0)) len_m (len_i addr size this this_dev)
        (len_a addr size this this_dev) (len_t addr size this this_dev)

  pub answers_with : target_mac (answered addr d this) ≡ take 6 this.if_haddr
  answers_with =
      third_field (take 6 (take 6 d.if_haddr)) (inet_of this) (take 6 this.if_haddr)
        (take 4 (drop 4 addr)) (drop 30 (replicate 58 0)) len_m (len_i addr size this this_dev)
        (len_a addr size this this_dev) (len_t addr size this this_dev)

module _ (addr : Bytes) (size : 8 ≤ length addr) (d this : HwaInfo) (dev : IsDevice d)
    (this_dev : IsDevice this) where
  asked_target : 4 ≤ length (drop 4 addr)
  asked_target = omega (arith, length-drop 4 addr)

  sender_of : (e : HwaInfo) → IsDevice e → 4 ≤ length (drop 4 e.ip_addr)
  sender_of e v = omega (arith, v.1, length-drop 4 e.ip_addr)

  sent_to : 6 ≤ length (take 6 d.if_haddr)
  sent_to = omega (arith, dev.0, length-take 6 d.if_haddr)

  pub length-asked_head : length (asked_head d) ≡ 14
  length-asked_head =
      length-link_head (replicate 8 0xFF) d.if_haddr 1 (request_addresses addr d) (omega arith)
        (dev.0) (dev.0) (sender_of d dev) tt asked_target

  pub length-asked : length ((asked addr d).payload) ≡ 48
  length-asked =
      length-heard (replicate 8 0xFF) d.if_haddr 1 (request_addresses addr d) (omega arith) (dev.0)
        (dev.0) (sender_of d dev) tt asked_target

  pub hears_request :
      receive (some (request_frame addr d))
      ≡ some (request (record { nread = pos 44; eh = asked_head d; arp = asked addr d }))
  hears_request =
      receive-packet (replicate 8 0xFF) d.if_haddr 1 (request_addresses addr d) (omega arith)
        (dev.0) (dev.0) (sender_of d dev) tt asked_target (inl refl)

  module _ (mac : Bytes) (mac_long : 6 ≤ length mac) where
    pub length-answered : length ((answered addr d this).payload) ≡ 48
    length-answered =
        length-heard (take 6 d.if_haddr) mac 2 (answer_addresses addr d this) sent_to mac_long
          sent_to (sender_of this this_dev) (this_dev.0) asked_target

    pub hears_answer :
        receive (some (answer_frame addr d this mac))
        ≡ some (
            reply (record {
              nread = pos 44;
              eh = link_head (take 6 d.if_haddr) mac;
              arp = answered addr d this;
            }))
    hears_answer =
        receive-packet (take 6 d.if_haddr) mac 2 (answer_addresses addr d this) sent_to mac_long
          sent_to (sender_of this this_dev) (this_dev.0) asked_target (inr refl)
