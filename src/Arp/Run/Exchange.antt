-- ===== src/Arp/Run/Exchange.antt =====
-- handle_frame of run_arp of arp.c at two nodes: one answers the request of the other.
use tour.Base.{
  ℕ, ◌≤◌, ◌<◌, ◌≡◌, ◌≢◌, refl, Bool, true, none, some, List, [], ◌∷◌, ◌++◌, map, arith, ℤ, Bytes,
  length, take, drop, ok, Cmd,
}
use tour.Cache.Store.{Ptr, null, Heap, Hwaddr}
use tour.Cache.Chain.{Cells, first, Chain}
use tour.Cache.Entries.{AreEntries}
use tour.Cache.Lookup.{NoneOf}
use tour.World.{System, Daemon, SockaddrLl, Trace, sendto_ll, recvfrom, calloc, sys_recvfrom}
use tour.Frame.Layout.{link_address}
use tour.Arp.Device.{HwaInfo, mac_by_ifindex}
use tour.Arp.Request.{request_frame, IsDevice}
use tour.Arp.Refusals.{inet_of}
use tour.Arp.Reverse.{has_address, reverse_of}
use tour.Arp.Responds.{handle_req-adds, IsFirst}
use tour.Arp.Reply.{complete_cell, told}
use tour.Arp.Resolve.{inet_address, handle_reply-completes}
use tour.Arp.Run.{dispatch, handle_frame}
use tour.Arp.Answers.{
  answer_frame, asked, asked_head, answered, asks_for, asks_from, replies_with, answers_for,
  answers_with, length-asked_head, length-asked, hears_request, length-answered, hears_answer,
}

-- A daemon: its system, its parameters, the cells of its cache and its state, and the source and the
-- interface's MAC address of the frame that comes in next.
pub record Host : Type 0 where
  pub sys : System
  pub fuel : ℕ
  pub devices : List HwaInfo
  pub stack : Bytes
  pub pf_socket : ℤ
  pub src : SockaddrLl
  pub mac : Bytes
  pub before : Ptr
  pub cells : Cells
  pub state : Daemon

-- The frame came in on an interface of the daemon, and its cache is well formed, of entries of the
-- declared sizes, with a round for each node and one more.
pub record IsHost (n : Host) : Type 0 where
  pub local : length n.stack ≡ 4
  pub ours : mac_by_ifindex n.devices n.src.sll_ifindex ≡ some n.mac
  pub mac_long : 6 ≤ length n.mac
  pub halen : n.src.sll_halen ≤ 8
  pub addr_size : length n.src.sll_addr ≡ 8
  pub head : n.state.cache ≡ first n.cells
  pub chain : Chain n.state.heap n.before n.cells
  pub entries : AreEntries n.cells
  pub enough : length n.cells < n.fuel

-- How a host handles the frame that it is sent next.
abbrev pub handles : Host → Cmd Daemon Bool
handles n = handle_frame n.sys n.fuel n.devices n.stack n.pf_socket

abbrev pub Hears : Host → Bytes → Type 0
Hears n frame = n.sys.frame n.state.trace n.pf_socket ≡ some (frame, n.src)

-- What the node that asked tells its clients.
abbrev pub learned : Host → HwaInfo → Hwaddr
learned n this = record {
  sll_ifindex = n.src.sll_ifindex;
  sll_ifhatype = 0;
  sll_ifhalen = 6;
  sll_ifaddr = take 6 n.mac ++ (0 ∷ 0 ∷ []);
  sll_hatype = 256;
  sll_halen = 6;
  sll_addr = take 6 this.if_haddr ++ (0 ∷ 0 ∷ []);
}

module _ (addr : Bytes) (size : 8 ≤ length addr) (d this : HwaInfo) (dev : IsDevice d)
    (this_dev : IsDevice this) where
  -- The calls of the node that is asked, up to its answer.
  abbrev pub answering : Host → Trace
  answering n =
      sendto_ll n.pf_socket (answer_frame addr d this n.mac)
        (link_address 0xF31F (take 6 d.if_haddr) n.src.sll_ifindex)
      ∷ (recvfrom n.pf_socket ∷ n.state.trace)

  abbrev pub Answers : Host → Type 0
  Answers n =
      let p : Ptr = n.sys.allocated (answering n) in
      (g : Heap) × (handles n (n.state)
        ≡ ok true (record { heap = g; cache = p; trace = calloc ∷ answering n }))
      × Chain g null ((p, reverse_of n.src n.mac (inet_address 2 (inet_of d))) ∷ n.cells)

  handle_frame-Answers :
      (n : Host)
      → IsHost n
      → IsFirst (take 4 (drop 4 addr)) this n.devices
      → NoneOf (has_address (inet_address 2 (inet_of d))) n.cells
      → n.sys.allocated (answering n) ≢ null
      → n.state.heap (n.sys.allocated (answering n)) ≡ none
      → Hears n (request_frame addr d)
      → Answers n
  unfolding handle_frame dispatch sys_recvfrom
  handle_frame-Answers n v served unused ne free came =
      let s = n.state in
      let s1 : Daemon = record s { trace = recvfrom n.pf_socket ∷ s.trace } in
      let served =
        handle_req-adds n.sys n.fuel n.devices this n.stack n.pf_socket (asked_head d)
          (asked addr d) n.src n.mac v.local
          (omega (arith, length-asked_head addr size d this dev this_dev)) refl refl
          (length-asked addr size d this dev this_dev) (rw (asks_for addr size d dev) served)
          (this_dev.1) (this_dev.0) v.ours v.mac_long v.halen v.addr_size n.before n.cells s1 v.head
          v.chain v.entries v.enough in
      let (g, ran, linked, same) =
        (rw (replies_with addr size d dev n.pf_socket n.src this n.mac, asks_from addr size d dev)
            at served)
          unused ne free in
      (g, rw (came, hears_request addr size d this dev this_dev, ran) refl, linked)

  abbrev pub Learns : Host → Type 0
  Learns n =
      let new : Hwaddr = learned n this in
      let ip : Bytes = inet_address 2 (take 4 (drop 4 addr)) in
      (g : Heap) × (handles n (n.state)
        ≡ ok true (record (n.state) {
          heap = g;
          trace = told new ip n.cells (recvfrom n.pf_socket ∷ n.state.trace);
        }))
      × Chain g n.before (map (complete_cell new ip) n.cells)

  handle_frame-Learns :
      (n : Host) (from : Bytes)
      → IsHost n
      → 6 ≤ length from
      → Hears n (answer_frame addr d this from)
      → Learns n
  unfolding handle_frame dispatch sys_recvfrom
  handle_frame-Learns n from v long came =
      let s = n.state in
      let s1 : Daemon = record s { trace = recvfrom n.pf_socket ∷ s.trace } in
      let resolved =
        handle_reply-completes n.sys n.fuel n.devices (answered addr d this) n.src n.mac
          (length-answered addr size d this dev this_dev from long) refl refl v.ours v.mac_long
          n.before n.cells s1 v.head v.chain v.entries v.enough in
      let (g, ran, linked, same) =
        rw (answers_for addr size d this dev this_dev, answers_with addr size d this dev this_dev)
          at resolved in
      (g, rw (came, hears_answer addr size d this dev this_dev from long, ran) refl, linked)

  -- Two daemons, each with a well-formed cache of entries of the declared sizes, with a round for each
  -- node and one more, whose frames come in on their own interfaces, with MAC and IPv4 addresses at `d` and `this`: when the owner, which has the
  -- address at its interface `this`, no entry for the asker's IP address and an unused address from
  -- calloc, receives the request that the asker broadcasts from `d`, it sends one frame, its answer,
  -- and puts a complete entry for the asker in front of its cache. When the asker receives that frame,
  -- it completes exactly its entries that wait for the address with the hardware address of `this`,
  -- sends it to each of their clients in the order of the list, and closes them.
  pub exchange-resolves :
      (asker owner : Host)
      → IsHost asker
      → IsHost owner
      → IsFirst (take 4 (drop 4 addr)) this owner.devices
      → NoneOf (has_address (inet_address 2 (inet_of d))) owner.cells
      → owner.sys.allocated (answering owner) ≢ null
      → owner.state.heap (owner.sys.allocated (answering owner)) ≡ none
      → Hears owner (request_frame addr d)
      → Hears asker (answer_frame addr d this owner.mac)
      → Answers owner × Learns asker
  exchange-resolves asker owner va vo served unused ne free asks answers = (
    handle_frame-Answers owner vo served unused ne free asks,
    handle_frame-Learns asker owner.mac va vo.mac_long answers,
  )
