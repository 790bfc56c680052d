-- ===== src/Arp/Responds.antt =====
-- handle_req of arp.c on requests that it serves.
use tour.Base.{
  ℕ, ◌+◌, ◌*◌, ◌≤◌, ◌<◌, ◌≡◌, ◌≢◌, ◌⊎◌, inl, inr, refl, ◌∙◌, true, false, none, some, List, [], ◌∷◌,
  arith, ℤ, Bytes, bytes_eq, bytes_eq_iff, length, ok, read_within, read_at,
}
use tour.Cache.Store.{Ptr, null, Heap}
use tour.Cache.Chain.{Cells, first, Chain}
use tour.Cache.Entries.{AreEntries}
use tour.Cache.Lookup.{NoneOf, Found}
use tour.World.{System, Daemon, SockaddrLl, Trace, calloc}
use tour.Arp.Device.{HwaInfo, is_destination, is_destination_loop, sin_addr, mac_by_ifindex}
use tour.Arp.Packet.{ArpHdr}
use tour.Arp.Answer.{add_reverse, handle_req}
use tour.Arp.Refusals.{HasInetAddress, inet_of, fills}
use tour.Arp.Resolve.{target_ip, length-target_ip, inet_address}
use tour.Arp.ReplyFrame.{sent_reply, send_reply-sends}
use tour.Arp.Reverse.{has_address, sender_ip, reverse_of, add_reverse-adds, add_reverse-known}

-- The first interface with the IPv4 address is `this`, and those before it have others.
abbrev pub IsFirst : Bytes → HwaInfo → List HwaInfo → Type 0
IsFirst addr this [] = ⊥
IsFirst addr this (d ∷ rest) =
    ((d ≡ this) × (addr ≡ inet_of this))
    ⊎ (HasInetAddress d × (addr ≢ inet_of d) × IsFirst addr this rest)

is_destination-first :
    (devices : List HwaInfo) (this : HwaInfo) (addr : Bytes)
    → HasInetAddress this
    → IsFirst addr this devices
    → is_destination_loop devices addr ≡ some (some this)
unfolding is_destination_loop sin_addr
is_destination-first [] this addr long first = absurd first
is_destination-first (d ∷ rest) this addr long (inl (same, ours)) =
    let found : bytes_eq addr (inet_of this) ≡ true = (bytes_eq_iff addr (inet_of this)).1 ours in
    rw (same, read_within this.ip_addr 4 4 (omega arith), found) refl
is_destination-first (d ∷ rest) this addr long (inr (inet, other, later)) =
    let differs : bytes_eq addr (inet_of d) ≡ false =
      ground (arith, bytes_eq_iff addr (inet_of d)) in
    rw (read_within d.ip_addr 4 4 (omega arith), differs)
      (is_destination-first rest this addr long later)

-- A request that is served: what the packet, the interfaces and the sender's address are.
module _ (sys : System) (fuel : ℕ) (devices : List HwaInfo) (this : HwaInfo) (stack : Bytes)
    (pack_fd : ℤ) (eh : Bytes) (arp : ArpHdr) (src : SockaddrLl) (mac : Bytes)
    (local : length stack ≡ 4) (link : 12 ≤ length eh) (hl : arp.hard_len ≡ 6)
    (pl : arp.prot_len ≡ 4) (size : length arp.payload ≡ 48)
    (served : IsFirst (target_ip arp) this devices) (inet : HasInetAddress this)
    (this_mac : 6 ≤ length this.if_haddr) (ours : mac_by_ifindex devices src.sll_ifindex ≡ some mac)
    (mac_long : 6 ≤ length mac) (halen : src.sll_halen ≤ 8)
    (addr_size : length src.sll_addr ≡ 8) where
  -- The reply is sent first.
  handle_req-sends :
      (s : Daemon)
      → handle_req sys fuel devices stack pack_fd eh arp src s
        ≡ add_reverse sys fuel devices arp src
            (record s { trace = sent_reply pack_fd eh arp src this mac ∷ s.trace })
  unfolding handle_req is_destination
  handle_req-sends s =
      let tpa : read_at arp.payload (2 * arp.hard_len + arp.prot_len) arp.prot_len
          ≡ some (target_ip arp) =
        rw (hl, pl) (read_within arp.payload 16 4 (omega arith)) in
      rw
        (
          tpa,
          fills stack (target_ip arp) local (length-target_ip arp size),
          is_destination-first devices this (target_ip arp) inet served,
          send_reply-sends sys fuel devices pack_fd eh arp src this mac link hl pl size this_mac
              inet ours mac_long s,
        )
        refl

  module _ (b : Ptr) (xs : Cells) (s : Daemon) (head : s.cache ≡ first xs)
      (chain : Chain s.heap b xs) (v : AreEntries xs) (enough : length xs < fuel) where
    -- For a request of six and four address bytes, with a link header, for the IPv4 address of an
    -- interface with a MAC address that no earlier one has, which came in on an interface of the daemon, with a link
    -- address of at most eight bytes: on a well-formed cache of entries of the declared sizes, with a
    -- round for each node and one more, no entry for the sender's IP address and an unused address
    -- from calloc, one frame is sent, the reply to the sender's MAC address. A complete entry with the
    -- sender's addresses is put in front of the cache, whether the send succeeds or not; the result
    -- is 1, and no other node but the old first one is written.
    pub handle_req-adds :
        let t : Trace = sent_reply pack_fd eh arp src this mac ∷ s.trace in
        let p : Ptr = sys.allocated t in
        let from : Bytes = inet_address arp.prot_type (sender_ip arp) in
        NoneOf (has_address from) xs
        → p ≢ null
        → s.heap p ≡ none
        → (g : Heap) × (handle_req sys fuel devices stack pack_fd eh arp src s
            ≡ ok true (record { heap = g; cache = p; trace = calloc ∷ t }))
          × Chain g null ((p, reverse_of src mac from) ∷ xs)
          × ((q : Ptr) → q ≢ p → q ≢ first xs → g q ≡ s.heap q)
    handle_req-adds unused ne free =
        let s1 : Daemon = record s { trace = sent_reply pack_fd eh arp src this mac ∷ s.trace } in
        let (g, ran, linked, same) =
          add_reverse-adds sys fuel devices arp src mac hl pl size ours mac_long halen addr_size b
            xs s1 head chain v enough unused ne free in
        (g, handle_req-sends s ∙ ran, linked, same)

    -- The same with an entry for the sender's IP address: the reply is sent, and the heap and the
    -- cache stay.
    pub handle_req-known :
        (p : Ptr)
        → Found (has_address (inet_address arp.prot_type (sender_ip arp))) xs p
        → handle_req sys fuel devices stack pack_fd eh arp src s
          ≡ ok true (record s { trace = sent_reply pack_fd eh arp src this mac ∷ s.trace })
    handle_req-known p f =
        let s1 : Daemon = record s { trace = sent_reply pack_fd eh arp src this mac ∷ s.trace } in
        handle_req-sends s
        ∙ add_reverse-known sys fuel devices arp src mac hl pl size ours mac_long halen addr_size b
            xs s1 head chain v enough p f
