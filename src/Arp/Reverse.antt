-- ===== src/Arp/Reverse.antt =====
-- handle_req of arp.c: the reverse cache entry.
use tour.Base.{
  ℕ, ◌≤◌, ◌<◌, ◌≡◌, ◌≢◌, refl, inl, inr, ◌∙◌, Bool, true, false, none, some, List, [], ◌∷◌, ◌++◌,
  arith, ◌==◌, pos, Bytes, bytes_eq, length, take, drop, replicate, ok, length-append, length-drop,
  length-take, read_within, read_front, write_next, read_at,
}
use tour.Cache.Store.{Ptr, null, Entry, complete, node, Heap, write}
use tour.Cache.Chain.{
  Cells, first, Chain, ◌∉◌, not-mem-chain, Chain-suffix, Chain-write, write_self, write-other,
}
use tour.Cache.Entries.{AreEntries}
use tour.Cache.Lookup.{
  NoneOf, NoneOf-position, Found, Answer, Answer-null, get_cache_by_ip_addr-first,
}
use tour.Cache.{get_cache_by_ip_addr}
use tour.World.{System, Daemon, SockaddrLl, calloc, sys_calloc, on_heap}
use tour.World.OnHeap.{on_head-ok, on_head-add}
use tour.Arp.Device.{HwaInfo, mac_by_ifindex}
use tour.Arp.Packet.{ArpHdr}
use tour.Arp.Answer.{add_reverse, reverse_entry}
use tour.Arp.Resolve.{eight, inet_address, sockaddr_of-inet}

-- The reverse entry of handle_req.
abbrev pub reverse_of : SockaddrLl → Bytes → Bytes → Entry
reverse_of src mac srcip = record {
  ipaddress = srcip;
  domain_socket = pos 0;
  state = complete;
  hw = record {
    sll_ifindex = src.sll_ifindex;
    sll_ifhatype = 1;
    sll_ifhalen = 6;
    sll_ifaddr = take 6 mac ++ (0 ∷ 0 ∷ []);
    sll_hatype = src.sll_hatype;
    sll_halen = src.sll_halen;
    sll_addr = take src.sll_halen src.sll_addr ++ drop src.sll_halen (replicate 8 0);
  };
}

abbrev pub sender_ip : ArpHdr → Bytes
sender_ip arp = take 4 (drop 6 arp.payload)

abbrev pub has_address : Bytes → Ptr × Entry → Bool
has_address addr x = bytes_eq x.1.ipaddress addr

reverse_entry_lem :
    (devices : List HwaInfo) (src : SockaddrLl) (srcip mac : Bytes) (s : Daemon)
    → mac_by_ifindex devices src.sll_ifindex ≡ some mac
    → 6 ≤ length mac
    → src.sll_halen ≤ 8
    → length src.sll_addr ≡ 8
    → reverse_entry devices src srcip s ≡ ok (reverse_of src mac srcip) s
unfolding reverse_entry
reverse_entry_lem devices src srcip mac s ours long halen addr8 =
    let from = take src.sll_halen src.sll_addr in
    let len : length from ≡ src.sll_halen = omega (arith, length-take src.sll_halen src.sll_addr) in
    rw
      (
        ours,
        read_front mac 6 long,
        eight (take 6 mac) (omega (arith, length-take 6 mac)),
        read_front src.sll_addr src.sll_halen (omega arith),
        write_next (replicate 8 0) [] from 0 refl (omega arith),
        len,
      )
      refl

module _ (sys : System) (fuel : ℕ) (devices : List HwaInfo) (arp : ArpHdr) (src : SockaddrLl)
    (mac : Bytes) (hl : arp.hard_len ≡ 6) (pl : arp.prot_len ≡ 4) (size : length arp.payload ≡ 48)
    (ours : mac_by_ifindex devices src.sll_ifindex ≡ some mac) (mac_long : 6 ≤ length mac)
    (halen : src.sll_halen ≤ 8) (addr_size : length src.sll_addr ≡ 8) where
  abbrev pub asker : Bytes
  asker = inet_address arp.prot_type (sender_ip arp)

  abbrev has_ip : Ptr × Entry → Bool
  has_ip = has_address asker

  length-sender_ip : length (sender_ip arp) ≡ 4
  length-sender_ip = omega (arith, length-take 4 (drop 6 arp.payload), length-drop 6 arp.payload)

  length-asker : length asker ≡ 16
  length-asker = omega (arith, length-sender_ip, length-append (sender_ip arp) (replicate 8 0))

  module _ (b : Ptr) (xs : Cells) (s : Daemon) (head : s.cache ≡ first xs)
      (chain : Chain s.heap b xs) (v : AreEntries xs) (enough : length xs < fuel) where
    looks_up :
        (p : Ptr) × (on_heap (get_cache_by_ip_addr fuel s.cache (some asker)) s ≡ ok p s)
        × Answer has_ip xs p
    looks_up =
        let (p, ran, found) =
          get_cache_by_ip_addr-first s.heap b xs fuel chain enough asker length-asker v in
        (
          p,
          on_head-ok (λ q. get_cache_by_ip_addr fuel q (some asker)) s (first xs) head p s.heap ran,
          found,
        )

    reads_asker : read_at arp.payload arp.hard_len arp.prot_len ≡ some (sender_ip arp)
    reads_asker = rw (hl, pl) (read_within arp.payload 6 4 (omega arith))

    pub add_reverse-adds :
        NoneOf has_ip xs
        → sys.allocated s.trace ≢ null
        → s.heap (sys.allocated s.trace) ≡ none
        → let p = sys.allocated s.trace in
          (g : Heap) × (add_reverse sys fuel devices arp src s
            ≡ ok true (record { heap = g; cache = p; trace = calloc ∷ s.trace }))
          × Chain g null ((p, reverse_of src mac asker) ∷ xs)
          × ((q : Ptr) → q ≢ p → q ≢ first xs → g q ≡ s.heap q)
    unfolding add_reverse sys_calloc
    add_reverse-adds unused ne free =
        let p = sys.allocated s.trace in
        let new = node (reverse_of src mac asker) null null in
        let s1 : Daemon = record s { trace = calloc ∷ s.trace } in
        let s2 : Daemon = record s1 { heap = write s.heap p (some new) } in
        let (q, ran, found) = looks_up in
        let none_there : q ≡ null = Answer-null has_ip xs q unused found in
        let out : p ∉ xs = not-mem-chain s.heap b p xs chain free in
        let live : (p == null) ≡ false = ground arith in
        let (g, added, linked, others) =
          on_head-add s2 p b xs ne (write_self s.heap p (some new)) head
            (Chain-write s.heap b xs p (some new) chain out) out in
        (
          g,
          rw
              (
                reads_asker,
                sockaddr_of-inet arp.prot_type (sender_ip arp) length-sender_ip,
                ran,
                none_there,
                live,
                reverse_entry_lem devices src asker mac s1 ours mac_long halen addr_size,
                added,
              )
              refl,
          linked,
          λ x nx nf. others x nx nf ∙ write-other s.heap p x (some new) nx,
        )

    pub add_reverse-known :
        (p : Ptr) → Found has_ip xs p → add_reverse sys fuel devices arp src s ≡ ok true s
    unfolding add_reverse
    add_reverse-known p f =
        let (q, ran, found) = looks_up in
        let live : (q == null) ≡ false = stands q found in
        rw (reads_asker, sockaddr_of-inet arp.prot_type (sender_ip arp) length-sender_ip, ran, live)
          refl
      where
        stands : (q : Ptr) → Answer has_ip xs q → (q == null) ≡ false
        stands q (inl g) =
            let c' : Chain s.heap b (g.before ++ ((q, g.entry) ∷ g.after)) =
              rw (g.position) at chain in
            let ne = (Chain-suffix s.heap b g.before ((q, g.entry) ∷ g.after) c').0 in ground arith
        stands q (inr (others, _)) =
            let miss : has_ip (p, f.entry) ≡ false =
              NoneOf-position has_ip f.before (p, f.entry) f.after (rw (f.position) at others) in
            absurd (ground (arith, f.passes))
