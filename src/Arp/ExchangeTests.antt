-- ===== src/Arp/ExchangeTests.antt =====
-- A request and its reply between two daemons, and a round that receives a reply.
use tour.Base.{
  ◌≡◌, ◌≢◌, ℤ, refl, inl, true, false, some, [], ◌∷◌, map, arith, pos, Bytes, replicate, ok,
  bytes_eq,
}
use tour.Cache.Store.{Ptr, null, Hwaddr, node, write, Heap}
use tour.Cache.Chain.{Chain, SameOutside}
use tour.Cache.Lookup.{NoneOf}
use tour.World.{System, Trace, recvfrom, select, calloc}
use tour.Arp.Device.{HwaInfo, mac_by_ifindex}
use tour.Arp.Reply.{complete_cell, told}
use tour.Arp.Answers.{answer_frame, asked, asked_head}
use tour.Arp.Request.{request_frame}
use tour.Arp.Resolve.{answer}
use tour.Arp.ReplyFrame.{sent_reply}
use tour.Arp.Reverse.{has_address, reverse_of}
use tour.Arp.Answer.{handle_req}
use tour.Arp.Responds.{handle_req-adds}
use tour.Arp.Run.{round}
use tour.Arp.Run.Rounds.{read_reply, reply_frame, round-replies}
use tour.Arp.Serve
use tour.Arp.Serve.{waiting}
use tour.Arp.Run.Asking.{asked_calls, round-asks}
use tour.Arp.Run.Exchange.{Host, IsHost, Answers, Learns, exchange-resolves}
use tour.Arp.Fixtures.{
  fresh_client, waiting_client, eth0, eth0_only, eth0_mac, eth0_ours, inet, clients, two, two-Chain,
  clients-AreEntries, willing, daemon, from_eth0,
}

-- The interface 10.0.0.7 of the other node.
abbrev eth1 : HwaInfo
eth1 = record {
  if_name = 101 ∷ 116 ∷ 104 ∷ 49 ∷ [];
  if_haddr = 2 ∷ 0 ∷ 0 ∷ 0 ∷ 0 ∷ 7 ∷ [];
  if_index = pos 2;
  ip_alias = false;
  ip_addr = inet 7;
}

abbrev owner : Host
owner = record {
  sys = record willing {
    allocated = λ t. 3;
    frame = λ t sock. some (request_frame (inet 7) eth0, from_eth0);
  };
  fuel = 3;
  devices = eth1 ∷ [];
  stack = replicate 4 0;
  pf_socket = pos 3;
  src = from_eth0;
  mac = 2 ∷ 0 ∷ 0 ∷ 0 ∷ 0 ∷ 7 ∷ [];
  before = null;
  cells = clients;
  state = daemon;
}

abbrev asker : Host
asker = record {
  sys = record willing {
    frame =
        λ t sock. some (answer_frame (inet 7) eth0 eth1 (2 ∷ 0 ∷ 0 ∷ 0 ∷ 0 ∷ 7 ∷ []), from_eth0);
  };
  fuel = 3;
  devices = eth0_only;
  stack = replicate 4 0;
  pf_socket = pos 3;
  src = from_eth0;
  mac = 2 ∷ 0 ∷ 0 ∷ 0 ∷ 0 ∷ 9 ∷ [];
  before = null;
  cells = clients;
  state = daemon;
}

owner-IsHost : IsHost owner
unfolding mac_by_ifindex
owner-IsHost = record {
  local = refl;
  ours = refl;
  mac_long = omega arith;
  halen = omega arith;
  addr_size = refl;
  head = refl;
  chain = two-Chain;
  entries = clients-AreEntries;
  enough = omega arith;
}

asker-IsHost : IsHost asker
unfolding mac_by_ifindex
asker-IsHost = record {
  local = refl;
  ours = refl;
  mac_long = omega arith;
  halen = omega arith;
  addr_size = refl;
  head = refl;
  chain = two-Chain;
  entries = clients-AreEntries;
  enough = omega arith;
}

unknown : NoneOf (has_address (inet 9)) clients
unfolding bytes_eq
unknown = (refl, (refl, tt))

exchange-resolves_example :
    Answers
      (inet 7)
      (omega arith)
      eth0
      eth1
      (omega arith, omega arith)
      (omega arith, omega arith)
      owner
    × Learns
        (inet 7)
        (omega arith)
        eth0
        eth1
        (omega arith, omega arith)
        (omega arith, omega arith)
        asker
exchange-resolves_example =
    exchange-resolves (inet 7) (omega arith) eth0 eth1 (omega arith, omega arith)
      (omega arith, omega arith) asker owner asker-IsHost owner-IsHost (inl (refl, refl)) unknown
      (λ e. absurd (omega arith)) refl refl refl

-- The owner's reply as the asker's frame: 10.0.0.7 is at 2:0:0:0:0:7.
abbrev reply_data : Bytes
reply_data = 2 ∷ 0 ∷ 0 ∷ 0 ∷ 0 ∷ 9 ∷ 10 ∷ 0 ∷ 0 ∷ 7 ∷ 2 ∷ 0 ∷ 0 ∷ 0 ∷ 0 ∷ 7 ∷ 10 ∷ 0 ∷ 0 ∷ 7 ∷ []

abbrev hearing : System
hearing = record willing {
  readable = λ t nfds rset. some (pos 3 ∷ []);
  frame = λ t sock. some (reply_frame (replicate 14 0) reply_data, from_eth0);
}

abbrev resolved : Hwaddr
resolved = answer (read_reply reply_data) from_eth0 eth0_mac

round-replies_example :
    (nfds : ℤ) × (g : Heap) × (round hearing 3 eth0_only (replicate 4 0) (pos 3) (pos 4) daemon
      ≡ ok true (record daemon {
        heap = g;
        trace =
            told resolved
              (inet 7)
              clients
              (recvfrom (pos 3) ∷ select nfds (pos 6 ∷ pos 5 ∷ pos 3 ∷ pos 4 ∷ []) ∷ []);
      }))
    × Chain g null (map (complete_cell resolved (inet 7)) clients)
    × SameOutside clients two g
round-replies_example =
    round-replies hearing 3 eth0_only (replicate 4 0) (pos 4) (pos 3) (replicate 14 0) reply_data
      from_eth0 eth0_mac refl (omega arith) (omega arith) eth0_ours (omega arith) null clients
      daemon (pos 3 ∷ []) refl two-Chain clients-AreEntries (omega arith) refl refl
      (refl, (refl, tt)) refl refl (refl, (refl, tt)) (λ nfds. refl) (λ nfds. refl)

eth1_ours : mac_by_ifindex (eth1 ∷ []) (pos 2) ≡ some owner.mac
unfolding mac_by_ifindex
eth1_ours = refl

-- eth0's request for 10.0.0.7 at the owner.
handle_req-adds_example :
    let sys : System = owner.sys in
    let t : Trace =
      sent_reply (pos 3) (asked_head eth0) (asked (inet 7) eth0) from_eth0 eth1 owner.mac ∷ [] in
    (g : Heap) × (handle_req sys 3
        (eth1 ∷ [])
        (replicate 4 0)
        (pos 3)
        (asked_head eth0)
        (asked (inet 7) eth0)
        from_eth0
        daemon
      ≡ ok true (record { heap = g; cache = 3; trace = calloc ∷ t }))
    × Chain g null ((3, reverse_of from_eth0 owner.mac (inet 9)) ∷ clients)
    × ((q : Ptr) → q ≢ 3 → q ≢ 1 → g q ≡ two q)
handle_req-adds_example =
    handle_req-adds owner.sys 3 (eth1 ∷ []) eth1 (replicate 4 0) (pos 3) (asked_head eth0)
      (asked (inet 7) eth0) from_eth0 owner.mac refl (omega arith) refl refl refl (inl (refl, refl))
      (omega arith) (omega arith) eth1_ours (omega arith) (omega arith) refl null clients daemon
      refl two-Chain clients-AreEntries (omega arith) unknown (λ e. absurd (omega arith)) refl

-- The first client asks for 10.0.0.8.
abbrev ready_client : System
ready_client = record willing { readable = λ t nfds rset. some (pos 5 ∷ []) }

abbrev rest_of_request : Bytes
rest_of_request = 0 ∷ 0 ∷ 10 ∷ 0 ∷ 0 ∷ 8 ∷ replicate 12 0

nobody : NoneOf (Serve.has_address (inet 8)) clients
unfolding bytes_eq
nobody = (refl, (refl, tt))

round-asks_example :
    (nfds : ℤ) × (round ready_client 3 eth0_only (replicate 4 0) (pos 3) (pos 4) daemon
      ≡ ok true (record daemon {
        heap = write two 1 (some (waiting (node fresh_client 2 null) (inet 8)));
        trace =
            (asked_calls ready_client
              (pos 3)
              eth0_only
              fresh_client
              rest_of_request
              (select nfds (pos 6 ∷ pos 5 ∷ pos 3 ∷ pos 4 ∷ []) ∷ [])).1;
      }))
round-asks_example =
    round-asks ready_client 3 eth0_only (pos 3) 1 fresh_client ((2, waiting_client) ∷ [])
      rest_of_request refl ((omega arith, omega arith), tt) refl clients-AreEntries (omega arith)
      nobody (replicate 4 0) (pos 4) (pos 5 ∷ []) daemon refl two-Chain refl refl refl (refl, tt)
      refl refl refl (refl, tt) (λ nfds. refl) (λ nfds. refl) (λ nfds. refl)
