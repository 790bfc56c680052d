-- ===== src/Arp/Run/Client.antt =====
-- Two rounds of run_arp of arp.c: a client asks, and the reply comes.
use tour.Base.{
  is_member, ℕ, ◌≤◌, ◌<◌, ◌≡◌, sym, ap, true, if◌then◌else◌, ◌&&◌, some, List, [], ◌∷◌, arith, ℤ,
  Bytes, bytes_eq, bytes_eq_refl, length, All, ok, map, length-take,
}
use tour.Cache.Store.{Ptr, null, Entry, connection, incomplete, node, Heap, Hwaddr, write}
use tour.Cache.Chain.{Cells, first, Chain, Chain-set}
use tour.Cache.Entries.{AreEntries}
use tour.Cache.Lookup.{NoneOf}
use tour.World.{System, Daemon, Trace, SockaddrLl, select, recvfrom, send_hwaddr, close}
use tour.Arp.Device.{HwaInfo, mac_by_ifindex}
use tour.Arp.Select.{watched}
use tour.Arp.Request.{IsDevice}
use tour.Arp.Serve.{has_address, waiting}
use tour.Arp.Reply.{complete_cell, told}
use tour.Arp.Resolve.{inet_address, answer, target_ip}
use tour.Arp.Run.{round}
use tour.Arp.Run.Watch.{Fits, rset_of}
use tour.Arp.Run.Rounds.{IsQuiet, read_reply, reply_frame, round-replies}
use tour.Arp.Run.Asking.{asked_for, asked_calls, round-asks}

-- The entry of the client between the rounds.
abbrev pub waiting_entry : Entry → Bytes → Entry
waiting_entry e addr = record e { state = incomplete; ipaddress = addr }

module _ (sys : System) (devices : List HwaInfo) (unix_domain pf_socket : ℤ) (a : Ptr) (e : Entry)
    (xs : Cells) (rest : Bytes) (s : Daemon) where
  abbrev pub cells_between : Cells
  cells_between = (a, waiting_entry e (asked_for rest)) ∷ xs

  abbrev pub calls_between : ℤ → Trace
  calls_between nfds =
      (asked_calls sys pf_socket devices e rest
        (select nfds (rset_of unix_domain pf_socket ((a, e) ∷ xs)) ∷ s.trace)).1

  abbrev pub daemon_between : ℤ → Daemon
  daemon_between nfds = record s {
    heap = write s.heap a (some (waiting (node e (first xs) null) (asked_for rest)));
    trace = calls_between nfds;
  }

  module _ (fuel : ℕ) (stack : Bytes) (size : length rest ≡ 18) (devs : All IsDevice devices)
      (state : e.state ≡ connection) (v : AreEntries ((a, e) ∷ xs))
      (enough : length ((a, e) ∷ xs) < fuel)
      (unknown : NoneOf (has_address (asked_for rest)) ((a, e) ∷ xs)) (unix_fits : Fits unix_domain)
      (pf_fits : Fits pf_socket) (fit : Fits e.domain_socket) (fits : All Fits (watched xs))
      (head : s.cache ≡ a) (chain : Chain s.heap null ((a, e) ∷ xs)) where
    between-AreEntries : AreEntries cells_between
    between-AreEntries = (
      record {
        ip_size = omega (arith, length-take 14 rest);
        addr_size = (v.0).addr_size;
        halen = (v.0).halen;
      },
      v.1,
    )

    between-Chain : (nfds : ℤ) → Chain (daemon_between nfds).heap null cells_between
    between-Chain nfds = Chain-set s.heap null [] a e (waiting_entry e (asked_for rest)) xs chain

    told-target :
        (addr : Bytes) (new : Hwaddr) (t : Trace)
        → asked_for rest ≡ addr
        → told new addr cells_between t
          ≡ told new addr xs (close e.domain_socket ∷ (send_hwaddr e.domain_socket new ∷ t))
    told-target addr new t same =
        let met : bytes_eq addr (asked_for rest) ≡ true = rw same (bytes_eq_refl addr) in
        ap
          (λ w. told new addr xs (
            if (w && true)
            then close e.domain_socket ∷ (send_hwaddr e.domain_socket new ∷ t)
            else t))
          met

    -- On a well-formed cache of entries of the declared sizes, with a round for each node and one more,
    -- descriptors that fit an fd_set, and interfaces with a MAC and an IPv4 address: in the first round
    -- select finds only the descriptor of the first entry readable, whose client has just connected, and
    -- the client's IPv4 request of the right length, for an address that no entry has, can be sent from
    -- every interface. In the second, select finds the packet socket readable but neither the daemon's
    -- Unix socket nor any client, and the frame is a whole reply with Ethernet and IPv4 addresses, of at
    -- most 72 bytes, that comes in on one of the daemon's interfaces and has the requested address as its target.
    -- Then the first round asks for the address from each interface in turn and leaves the client's entry
    -- waiting. The second completes every entry that waits for the address, the client's among
    -- them; it calls select and recvfrom once each, and the client is the first that is sent the answer and is
    -- closed. The head stays, and the loop goes on after both rounds.
    pub rounds-serve :
        (ready1 ready2 : List ℤ) (src : SockaddrLl) (mac header dat : Bytes)
        → is_member e.domain_socket ready1 ≡ true
        → IsQuiet ready1 unix_domain
        → IsQuiet ready1 pf_socket
        → All (IsQuiet ready1) (watched xs)
        → is_member pf_socket ready2 ≡ true
        → IsQuiet ready2 unix_domain
        → All (IsQuiet ready2) (e.domain_socket ∷ watched xs)
        → length header ≡ 14
        → 20 ≤ length dat
        → length dat ≤ 48
        → mac_by_ifindex devices src.sll_ifindex ≡ some mac
        → 6 ≤ length mac
        → asked_for rest ≡ inet_address 2 (target_ip (read_reply dat))
        → let rset1 : List ℤ = rset_of unix_domain pf_socket ((a, e) ∷ xs) in
          let rset2 : List ℤ = rset_of unix_domain pf_socket cells_between in
          let new : Hwaddr = answer (read_reply dat) src mac in
          let addr : Bytes = inet_address 2 (target_ip (read_reply dat)) in
          ((n : ℤ) → sys.readable s.trace n rset1 ≡ some ready1)
          → ((n : ℤ)
              → sys.received (select n rset1 ∷ s.trace) e.domain_socket 21 ≡ some (2 ∷ 0 ∷ rest))
          → ((n : ℤ)
              → (asked_calls sys pf_socket devices e rest (select n rset1 ∷ s.trace)).0 ≡ true)
          → ((n m : ℤ) → sys.readable (calls_between n) m rset2 ≡ some ready2)
          → ((n m : ℤ)
              → sys.frame (select m rset2 ∷ calls_between n) pf_socket
                ≡ some (reply_frame header dat, src))
          → (n : ℤ) × (m : ℤ) × (g : Heap) × (round sys fuel devices stack pf_socket unix_domain s
              ≡ ok true (daemon_between n))
            × (round sys fuel devices stack pf_socket unix_domain (daemon_between n)
                ≡ ok true (record s {
                  heap = g;
                  trace = told new addr xs (
                      close e.domain_socket
                      ∷ (send_hwaddr e.domain_socket new
                          ∷ (recvfrom pf_socket ∷ (select m rset2 ∷ calls_between n))));
                }))
            × Chain g null (map (complete_cell new addr) cells_between)
    rounds-serve ready1 ready2 src mac header dat readable alone1 still quiet1 arrived alone2 quiet2
          link whole short ours long same found1 got sent found2 came =
        let (n, first_round) =
          round-asks sys fuel devices pf_socket a e xs rest size devs state v enough unknown stack
            unix_domain ready1 s head chain unix_fits pf_fits fit fits readable alone1 still quiet1
            found1 got sent in
        let (m, g, second_round, linked, others) =
          round-replies sys fuel devices stack unix_domain pf_socket header dat src mac link whole
            short ours long null cells_between (daemon_between n) ready2 head (between-Chain n)
            between-AreEntries enough unix_fits pf_fits (fit, fits) arrived alone2 quiet2
            (λ k. found2 n k) (λ k. came n k) in
        let rset2 : List ℤ = rset_of unix_domain pf_socket cells_between in
        let served =
          told-target (inet_address 2 (target_ip (read_reply dat)))
            (answer (read_reply dat) src mac)
            (recvfrom pf_socket ∷ (select m rset2 ∷ calls_between n)) same in
        (n, m, g, first_round, rw (sym served) second_round, linked)
