-- ===== src/Arp/Resolve.antt =====
-- handle_reply of arp.c as a whole.
use tour.Base.{
  ℕ, ◌+◌, ◌*◌, ◌≤◌, ◌<◌, ◌≡◌, refl, ap, ◌∙◌, false, some, [], ◌∷◌, ◌++◌, map, arith, Bytes, length,
  take, drop, replicate, read_at, write_at, read_within, read_front, length-append, write_next,
  word_bytes, length-take, length-drop, ok, List,
}
use tour.Cache.Store.{Ptr, Hwaddr, Heap}
use tour.Cache.Chain.{Cells, first, Chain, SameOutside}
use tour.Cache.Entries.{AreEntries}
use tour.World.{System, Daemon, SockaddrLl}
use tour.Arp.Device.{HwaInfo, mac_by_ifindex}
use tour.Arp.Packet.{ArpHdr}
use tour.Arp.Answer.{sockaddr_of, reply_hwaddr, reply_loop, handle_reply}
use tour.Arp.Reply.{complete_cell, told, reply_loop-Completes}

-- The target addresses in the data of an Ethernet and IPv4 packet.
abbrev pub target_mac : ArpHdr → Bytes
target_mac arp = take 6 (drop 10 arp.payload)

abbrev pub target_ip : ArpHdr → Bytes
target_ip arp = take 4 (drop 16 arp.payload)

-- The bytes of an IPv4 socket address with port 0.
abbrev pub inet_address : ℕ → Bytes → Bytes
inet_address family addr = word_bytes family ++ (0 ∷ 0 ∷ (addr ++ replicate 8 0))

-- The answer for the clients: the target's hardware address, and the address of the interface.
abbrev pub answer : ArpHdr → SockaddrLl → Bytes → Hwaddr
answer arp src mac = record {
  sll_ifindex = src.sll_ifindex;
  sll_ifhatype = 0;
  sll_ifhalen = 6;
  sll_ifaddr = take 6 mac ++ (0 ∷ 0 ∷ []);
  sll_hatype = 256;
  sll_halen = 6;
  sll_addr = target_mac arp ++ (0 ∷ 0 ∷ []);
}

pub eight :
    (mac : Bytes) → length mac ≡ 6 → write_at (replicate 8 0) 0 mac ≡ some (mac ++ (0 ∷ 0 ∷ []))
eight mac e =
    write_next (replicate 8 0) [] mac 0 refl (omega arith)
    ∙ ap (λ k. some (mac ++ drop k (replicate 8 0))) e

-- sockaddr_of on four address bytes.
pub sockaddr_of-inet :
    (family : ℕ) (addr : Bytes)
    → length addr ≡ 4
    → sockaddr_of family addr ≡ some (inet_address family addr)
unfolding sockaddr_of
sockaddr_of-inet family addr e =
    let zeros : Bytes = replicate 16 0 in
    let pre = word_bytes family ++ (0 ∷ 0 ∷ []) in
    let fit : 0 + length (word_bytes family) ≤ 16 = omega arith in
    let opened : write_at zeros 0 (word_bytes family) ≡ some (word_bytes family ++ replicate 14 0) =
      write_next zeros [] (word_bytes family) 0 refl fit in
    rw (opened, sockaddr_of)
      (write_next zeros pre addr 4 refl (omega arith)
        ∙ ap (λ k. some (pre ++ (addr ++ drop k (replicate 12 0)))) e)

pub length-target_ip : (arp : ArpHdr) → length arp.payload ≡ 48 → length (target_ip arp) ≡ 4
length-target_ip arp size =
    omega (arith, length-take 4 (drop 16 arp.payload), length-drop 16 arp.payload)

module _ (sys : System) (fuel : ℕ) (devices : List HwaInfo) (arp : ArpHdr) (src : SockaddrLl)
    (mac : Bytes) (size : length arp.payload ≡ 48) (hl : arp.hard_len ≡ 6) (pl : arp.prot_len ≡ 4)
    (ours : mac_by_ifindex devices src.sll_ifindex ≡ some mac) (mac_long : 6 ≤ length mac) where
  reply_hwaddr_lem :
      (s : Daemon) → reply_hwaddr sys fuel devices arp src s ≡ ok (answer arp src mac) s
  unfolding reply_hwaddr
  reply_hwaddr_lem s =
      rw
        (
          hl,
          pl,
          read_within arp.payload 10 6 (omega arith),
          eight (target_mac arp)
              (omega (arith, length-take 6 (drop 10 arp.payload), length-drop 10 arp.payload)),
          ours,
          read_front mac 6 mac_long,
          eight (take 6 mac) (omega (arith, length-take 6 mac)),
        )
        refl

  read_tpa :
      read_at arp.payload (2 * arp.hard_len + arp.prot_len) arp.prot_len ≡ some (target_ip arp)
  read_tpa = rw (hl, pl) (read_within arp.payload 16 4 (omega arith))

  -- A reply with Ethernet and IPv4 addresses that came in on one of the daemon's interfaces, with a
  -- well-formed cache, and a round for each of its nodes and one more, completes exactly the entries
  -- that wait for its target address: each gets the target's hardware address, its client is sent the
  -- answer and closed, in the order of the list, whether the sends succeed or not. The other entries,
  -- the order and every other node stay.
  pub handle_reply-completes :
      (b : Ptr) (xs : Cells) (s : Daemon)
      → s.cache ≡ first xs
      → Chain s.heap b xs
      → AreEntries xs
      → length xs < fuel
      → let new = answer arp src mac in
        let repip : Bytes = inet_address arp.prot_type (target_ip arp) in
        (g : Heap) × (handle_reply sys fuel devices arp src s
          ≡ ok false (record s { heap = g; trace = told new repip xs s.trace }))
        × Chain g b (map (complete_cell new repip) xs)
        × SameOutside xs s.heap g
  unfolding handle_reply
  handle_reply-completes b xs s head c v enough =
      let new = answer arp src mac in
      let repip = inet_address arp.prot_type (target_ip arp) in
      let len : length repip ≡ 16 =
        omega (arith, length-append (target_ip arp) (replicate 8 0), length-target_ip arp size) in
      let loop = reply_loop-Completes sys new repip len fuel b xs s c v enough in
      (
        loop.0,
        rw
            (
              reply_hwaddr_lem s,
              read_tpa,
              sockaddr_of-inet arp.prot_type (target_ip arp) (length-target_ip arp size),
              ap (λ p. reply_loop sys new repip fuel p s) head ∙ loop.1,
            )
            refl,
        loop.2,
        loop.3,
      )
