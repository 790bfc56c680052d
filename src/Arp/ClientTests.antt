-- ===== src/Arp/ClientTests.antt =====
-- Tests of the two rounds that serve a client: 10.0.0.8 is asked for, and its reply comes.
use tour.Base.{
  ◌≡◌, ℤ, refl, true, some, List, [], ◌∷◌, map, arith, pos, Bytes, replicate, ok, bytes_eq,
}
use tour.Cache.Store.{null, Hwaddr, Heap}
use tour.Cache.Chain.{Cells, Chain}
use tour.Cache.Lookup.{NoneOf}
use tour.World.{System, Daemon, Trace, recvfrom, select, send_hwaddr, close}
use tour.Arp.Reply.{complete_cell, told}
use tour.Arp.Resolve.{answer}
use tour.Arp.Serve.{has_address}
use tour.Arp.Run.{round}
use tour.Arp.Run.Rounds.{read_reply, reply_frame}
use tour.Arp.Run.Client.{waiting_entry, calls_between, daemon_between, rounds-serve}
use tour.Arp.Fixtures.{
  fresh_client, waiting_client, eth0_only, eth0_mac, eth0_ours, inet, clients, two-Chain,
  clients-AreEntries, willing, daemon, from_eth0,
}

abbrev reply_of_8 : Bytes
reply_of_8 = 2 ∷ 0 ∷ 0 ∷ 0 ∷ 0 ∷ 9 ∷ 10 ∷ 0 ∷ 0 ∷ 8 ∷ 2 ∷ 0 ∷ 0 ∷ 0 ∷ 0 ∷ 8 ∷ 10 ∷ 0 ∷ 0 ∷ 8 ∷ []

-- The client is readable first, then the packet socket.
abbrev first_client : Trace → List ℤ
first_client [] = pos 5 ∷ []
first_client (c ∷ t) = pos 3 ∷ []

abbrev asked_then_told : System
asked_then_told = record willing {
  readable = λ t nfds rset. some (first_client t);
  frame = λ t sock. some (reply_frame (replicate 14 0) reply_of_8, from_eth0);
}

abbrev asks_for_8 : Bytes
asks_for_8 = 0 ∷ 0 ∷ 10 ∷ 0 ∷ 0 ∷ 8 ∷ replicate 12 0

nobody : NoneOf (has_address (inet 8)) clients
unfolding bytes_eq
nobody = (refl, (refl, tt))

abbrev others : Cells
others = (2, waiting_client) ∷ []

abbrev resolved : Hwaddr
resolved = answer (read_reply reply_of_8) from_eth0 eth0_mac

-- The calls when the request has been passed on.
abbrev calls_of_8 : ℤ → Trace
calls_of_8 =
    calls_between asked_then_told eth0_only (pos 4) (pos 3) 1 fresh_client others asks_for_8 daemon

rounds-serve_example :
    let between : ℤ → Daemon =
      daemon_between asked_then_told eth0_only
        (pos 4)
        (pos 3)
        1
        fresh_client
        others
        asks_for_8
        daemon in
    (n : ℤ) × (m : ℤ) × (g : Heap) × (round asked_then_told 3 eth0_only
        (replicate 4 0)
        (pos 3)
        (pos 4)
        daemon
      ≡ ok true (between n))
    × (round asked_then_told 3 eth0_only (replicate 4 0) (pos 3) (pos 4) (between n)
        ≡ ok true (record daemon {
          heap = g;
          trace = told resolved (inet 8) others (
              close (pos 5)
              ∷ (send_hwaddr (pos 5) resolved
                  ∷ (recvfrom (pos 3)
                      ∷ (select m (pos 6 ∷ pos 5 ∷ pos 3 ∷ pos 4 ∷ []) ∷ calls_of_8 n))));
        }))
    × Chain g null
        (map (complete_cell resolved (inet 8)) ((1, waiting_entry fresh_client (inet 8)) ∷ others))
rounds-serve_example =
    rounds-serve asked_then_told eth0_only (pos 4) (pos 3) 1 fresh_client others asks_for_8 daemon 3
      (replicate 4 0) refl ((omega arith, omega arith), tt) refl clients-AreEntries (omega arith)
      nobody refl refl refl (refl, tt) refl two-Chain (pos 5 ∷ []) (pos 3 ∷ []) from_eth0 eth0_mac
      (replicate 14 0) reply_of_8 refl refl refl (refl, tt) refl refl (refl, (refl, tt)) refl
      (omega arith) (omega arith) eth0_ours (omega arith) refl (λ n. refl) (λ n. refl) (λ n. refl)
      (λ n m. refl) (λ n m. refl)
