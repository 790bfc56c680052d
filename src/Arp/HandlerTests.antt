-- ===== src/Arp/HandlerTests.antt =====
-- The handlers of the ARP daemon at a cache of two entries and one interface.
use tour.Base.{
  ◌≡◌, ◌≢◌, refl, false, some, [], ◌∷◌, ◌++◌, map, arith, pos, Bytes, replicate, ok, fault,
  bytes_eq, bytes_eq_iff,
}
use tour.Cache.Store.{null, Hwaddr, node, Heap}
use tour.Cache.Chain.{Chain, SameOutside}
use tour.World.{recv}
use tour.Arp.Packet.{ArpHdr}
use tour.Arp.Device.{mac_by_ifindex}
use tour.Arp.Build.{wire_header}
use tour.Arp.Parse.{received_arp}
use tour.Arp.Receive.{Recv, request, receive}
use tour.Arp.Answer.{handle_req, handle_reply}
use tour.Arp.Handle.{handle_areq}
use tour.Arp.Reply.{told, complete_cell}
use tour.Arp.Resolve.{inet_address, target_ip, answer, handle_reply-completes}
use tour.Arp.Refusals.{handle_req-overflow}
use tour.Arp.Serve.{Served, handle_areq-Served}
use tour.Arp.Fixtures.{
  inet, eth0_only, fresh_client, two, clients, one_ne, willing, daemon, from_eth0, two-Chain,
  clients-AreEntries,
}

-- The answer of 10.0.0.7.
abbrev answered : ArpHdr
answered =
    received_arp 1 2 6 4 2
      (replicate 10 3 ++ ((2 ∷ 0 ∷ 0 ∷ 0 ∷ 0 ∷ 7 ∷ 10 ∷ 0 ∷ 0 ∷ 7 ∷ []) ++ replicate 28 0))

found_mac : mac_by_ifindex eth0_only (pos 2) ≡ some (2 ∷ 0 ∷ 0 ∷ 0 ∷ 0 ∷ 9 ∷ [])
unfolding mac_by_ifindex
found_mac = refl

handle_reply-completes_example :
    let mac : Bytes = 2 ∷ 0 ∷ 0 ∷ 0 ∷ 0 ∷ 9 ∷ [] in
    let new : Hwaddr = answer answered from_eth0 mac in
    let repip : Bytes = inet_address 2 (target_ip answered) in
    (g : Heap) × (handle_reply willing 3 eth0_only answered from_eth0 daemon
      ≡ ok false (record { heap = g; cache = 1; trace = told new repip clients [] }))
    × Chain g null (map (complete_cell new repip) clients)
    × SameOutside clients two g
handle_reply-completes_example =
    handle_reply-completes willing 3 eth0_only answered from_eth0 (2 ∷ 0 ∷ 0 ∷ 0 ∷ 0 ∷ 9 ∷ []) refl
      refl refl found_mac (omega arith) null clients daemon refl two-Chain clients-AreEntries
      (omega arith)

-- The addresses differ in their last byte.
abbrev asked_for : Bytes
asked_for = 10 ∷ 0 ∷ 0 ∷ 7 ∷ []

abbrev ours : Bytes
ours = 10 ∷ 0 ∷ 0 ∷ 9 ∷ []

not_ours : asked_for ≢ ours
unfolding bytes_eq
not_ours e = absurd (ground (arith, (bytes_eq_iff asked_for ours).1 e))

handle_req-overflow_example :
    (r : Recv) × (receive (some (replicate 14 0 ++ (wire_header 1 2 6 16 1 ++ replicate 44 0)))
      ≡ some (request r))
    × (handle_req willing 3 eth0_only (replicate 4 0) (pos 3) r.eh r.arp from_eth0 daemon ≡ fault)
handle_req-overflow_example =
    handle_req-overflow willing 3 eth0_only (replicate 4 0) (pos 3) from_eth0 daemon refl
      (replicate 14 0) (replicate 44 0) 6 16 refl (omega arith) (omega arith) (omega arith)
      (omega arith) (omega arith) (omega arith)

handle_areq-Served_example :
    Served willing
      (pos 3)
      1
      eth0_only
      (record daemon { trace = recv (pos 5) 21 ∷ [] })
      (node fresh_client 2 null)
      clients
      (inet 8)
      (handle_areq willing 3 (pos 3) 1 eth0_only daemon)
handle_areq-Served_example =
    handle_areq-Served willing 3 (pos 3) 1 eth0_only daemon (node fresh_client 2 null) one_ne refl
      null clients (0 ∷ 0 ∷ 10 ∷ 0 ∷ 0 ∷ 8 ∷ replicate 12 0) refl two-Chain clients-AreEntries
      (omega arith) ((omega arith, omega arith), tt) refl refl refl
