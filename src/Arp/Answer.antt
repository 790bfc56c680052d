-- ===== src/Arp/Answer.antt =====
-- handle_req and handle_reply of arp.c: the two sides of an exchange.
use tour.Base.{
  ℕ, Bool, true, false, not, ◌&&◌, Option, none, some, List, ◌==◌, if◌then◌else◌, ℤ, pos, minus_one,
  zero, suc, Bytes, drop, read_at, write_at, word_bytes, htons, replicate, memcmp_eq, ok,
  out_of_fuel, exited, Cmd, pure, or_fault, ◌>>=◌, ◌>>◌,
}
use tour.Cache.{add_to_cache, get_cache_by_ip_addr}
use tour.Cache.Store.{
  Ptr, null, Hwaddr, Entry, complete, is_incomplete, Cache, node, load, store, write, sockaddr_size,
}
use tour.World.{
  SockaddrLl, System, Daemon, close, on_heap, get, log, set_cache, sys_send_hwaddr, sys_calloc,
}
use tour.Frame.{send_frame}
use tour.Frame.Make.{copy_from, eth_alen}
use tour.Arp.Device.{HwaInfo, is_destination, mac_by_ifindex}
use tour.Arp.Handle.{buffer}
use tour.Arp.Packet.{
  ArpHdr, build_arp, spa_offset, tha_offset, tpa_offset, arp_hdr_size, arphrd_ether, arpop_reply,
}
use tour.Arp.Receive.{print_arp}

-- The eight byte array that a zeroed struct has, with bytes copied to its front.
abbrev pub zeroed_8 : Bytes
zeroed_8 = replicate 8 0

-- A zeroed struct sockaddr_in with the family and the address set.
unfoldable pub sockaddr_of : ℕ → Bytes → Option Bytes
sockaddr_of family addr = elim (write_at (replicate sockaddr_size 0) 0 (word_bytes family)) [
  | none ↦ none
  | some blah ↦ write_at blah 4 addr
]

-- A node from calloc with its payload filled in.
abbrev pub init_node : Ptr → Entry → Cmd Daemon (Unit {0})
init_node p e s = ok tt (record s { heap = write s.heap p (some (node e null null)) })

-- The entry that handle_req makes for the node that asked.
unfoldable pub reverse_entry : List HwaInfo → SockaddrLl → Bytes → Cmd Daemon Entry
reverse_entry devices src srcip = do
  mac ← or_fault (copy_from (mac_by_ifindex devices src.sll_ifindex) eth_alen)
  sll_ifaddr ← or_fault (write_at zeroed_8 0 mac)
  from ← or_fault (read_at src.sll_addr 0 src.sll_halen)
  sll_addr ← or_fault (write_at zeroed_8 0 from)
  pure (record {
    ipaddress = srcip;
    domain_socket = pos 0;
    state = complete;
    hw = record {
      sll_ifindex = src.sll_ifindex;
      sll_ifhatype = arphrd_ether;
      sll_ifhalen = eth_alen;
      sll_ifaddr = sll_ifaddr;
      sll_hatype = src.sll_hatype;
      sll_halen = src.sll_halen;
      sll_addr = sll_addr;
    };
  })

module _ (sys : System) where
  -- An entry that waits for the address gets the answer, and its client is told and closed.
  unfoldable pub complete_entry : Ptr → Cache → Hwaddr → Cmd Daemon (Unit {0})
  complete_entry p c new = do
    sent ← sys_send_hwaddr sys c.entry.domain_socket new
    on_heap (
        store p (record c {
          entry = record (c.entry) { hw = new; domain_socket = minus_one; state = complete };
        }))
    log (close c.entry.domain_socket)

  -- The loop over the cache.
  unfoldable pub reply_loop : Hwaddr → Bytes → ℕ → Ptr → Cmd Daemon (Unit {0})
  reply_loop new repip zero p = λ _. out_of_fuel
  reply_loop new repip (suc k) p = if p == null then pure tt else do
    c ← on_heap (load p)
    same ← or_fault (memcmp_eq repip c.entry.ipaddress sockaddr_size)
    if same && is_incomplete c.entry.state then complete_entry p c new else pure tt
    after ← on_heap (load p)
    reply_loop new repip k after.next

module _ (sys : System) (fuel : ℕ) (devices : List HwaInfo) where
  -- The reply to a request for the address of the interface `this`.
  unfoldable pub send_reply : ℤ → Bytes → ArpHdr → SockaddrLl → HwaInfo → Cmd Daemon (Unit {0})
  send_reply pack_fd eh arp src this = do
    h_source ← or_fault (read_at eh 6 eth_alen)
    (hdr_size, hdr) ← or_fault (
        build_arp (some (replicate arp_hdr_size 0)) arp_hdr_size arp.hard_type arp.prot_type
          arp.hard_len arp.prot_len arpop_reply
          (record {
            send_hwa = some h_source;
            send_pro = some (drop 4 this.ip_addr);
            target_hwa = some this.if_haddr;
            target_pro = some (drop (tpa_offset arp) arp.payload);
          }))
    shown ← or_fault (print_arp (buffer hdr))
    sent ←
        send_frame sys pack_fd (buffer hdr) hdr_size (some h_source)
          (mac_by_ifindex devices src.sll_ifindex) src.sll_ifindex
    pure tt

  -- The reverse cache entry: one is added if the asking address has none.
  unfoldable pub add_reverse : ArpHdr → SockaddrLl → Cmd Daemon Bool
  add_reverse arp src = do
    spa ← or_fault (read_at arp.payload (spa_offset arp) arp.prot_len)
    srcip ← or_fault (sockaddr_of arp.prot_type spa)
    s ← get
    entry ← on_heap (get_cache_by_ip_addr fuel s.cache (some srcip))
    if not (entry == null) then pure true else do
      new_entry ← sys_calloc sys
      if new_entry == null then exited 1 else do
        e ← reverse_entry devices src srcip
        init_node new_entry e
        (added, head) ← on_heap (add_to_cache (some s.cache) new_entry)
        elim head [ none ↦ pure tt | some p ↦ set_cache p ]
        pure added

  -- `stack` is what the four bytes of the local `tgtip` held.
  unfoldable pub handle_req : Bytes → ℤ → Bytes → ArpHdr → SockaddrLl → Cmd Daemon Bool
  handle_req stack pack_fd eh arp src = do
    tpa ← or_fault (read_at arp.payload (tpa_offset arp) arp.prot_len)
    tgtip ← or_fault (write_at stack 0 tpa)
    dest ← or_fault (is_destination devices (some tgtip))
    elim dest [
      | none ↦ pure true
      | some this ↦ send_reply pack_fd eh arp src this >> add_reverse arp src
    ]

  -- The struct hwaddr of a reply: the target's hardware address and our own on the interface.
  unfoldable pub reply_hwaddr : ArpHdr → SockaddrLl → Cmd Daemon Hwaddr
  reply_hwaddr arp src = do
    tha ← or_fault (read_at arp.payload (tha_offset arp) arp.hard_len)
    sll_addr ← or_fault (write_at zeroed_8 0 tha)
    mac ← or_fault (copy_from (mac_by_ifindex devices src.sll_ifindex) arp.hard_len)
    sll_ifaddr ← or_fault (write_at zeroed_8 0 mac)
    pure (record {
      sll_ifindex = src.sll_ifindex;
      sll_ifhatype = 0;
      sll_ifhalen = eth_alen;
      sll_ifaddr = sll_ifaddr;
      sll_hatype = htons arphrd_ether;
      sll_halen = arp.hard_len;
      sll_addr = sll_addr;
    })

  unfoldable pub handle_reply : ArpHdr → SockaddrLl → Cmd Daemon Bool
  handle_reply arp src = do
    new ← reply_hwaddr arp src
    tpa ← or_fault (read_at arp.payload (tpa_offset arp) arp.prot_len)
    repip ← or_fault (sockaddr_of arp.prot_type tpa)
    s ← get
    reply_loop sys new repip fuel s.cache
    pure false
