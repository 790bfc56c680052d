-- ===== src/Arp/Run/Rounds.antt =====
-- A whole round of run_arp of arp.c, from select to the frame that came in.
use tour.Base.{
  is_member, ℕ, zero, suc, ◌+◌, ◌≤◌, ◌<◌, ◌≡◌, refl, ap, ◌∙◌, inr, inl, true, false, some, List, [],
  ◌∷◌, ◌++◌, map, arith, ◌==◌, ℤ, Bytes, length, drop, replicate, All, ok, Bool-cases,
  length-append, length-drop,
}
use tour.Cache.Store.{Ptr, null, Hwaddr, Entry, is_complete, Heap}
use tour.Cache.Chain.{Cells, first, Chain, SameOutside}
use tour.Cache.Entries.{AreEntries}
use tour.World.{System, Daemon, SockaddrLl, select, recvfrom, sys_recvfrom}
use tour.World.OnHeap.{on_heap-load}
use tour.Unix.{fd_isset}
use tour.Arp.Device.{HwaInfo, mac_by_ifindex}
use tour.Arp.Packet.{ArpHdr}
use tour.Arp.Select.{watched}
use tour.Arp.Build.{wire_header}
use tour.Arp.Parse.{received_arp}
use tour.Arp.Dispatch.{receive-wire}
use tour.Arp.Reply.{complete_cell, told}
use tour.Arp.Resolve.{target_ip, inet_address, answer, handle_reply-completes}
use tour.Arp.Run.{visit_client, clients_loop, dispatch, handle_frame, serve, round}
use tour.Arp.Run.Watch.{Fits, rset_of, wait-covers}

-- A descriptor that select did not find readable.
abbrev pub IsQuiet : List ℤ → ℤ → Type 0
IsQuiet rset fd = is_member fd rset ≡ false

module _ (sys : System) (fuel : ℕ) (devices : List HwaInfo) (pf_socket : ℤ) (rset : List ℤ)
    (s : Daemon) where
  visit_client-quiet :
      (b a : Ptr) (e : Entry) (xs : Cells)
      → Chain s.heap b ((a, e) ∷ xs)
      → All Fits (watched ((a, e) ∷ xs))
      → All (IsQuiet rset) (watched ((a, e) ∷ xs))
      → visit_client sys fuel devices pf_socket rset a s ≡ ok (first xs) s
  unfolding visit_client fd_isset
  visit_client-quiet b a e xs (ne, at, out, c) v q = elim (Bool-cases (is_complete e.state)) [
    | inl done ↦ rw (on_heap-load s a ne at, done) refl
    | inr waits ↦
        let fit : All Fits (e.domain_socket ∷ watched xs) = rw waits at v in
        let quiet : All (IsQuiet rset) (e.domain_socket ∷ watched xs) = rw waits at q in
        rw (on_heap-load s a ne at, waits, fit.0, quiet.0) refl
  ]

  watched-tail :
      (P : ℤ → Type 0) (a : Ptr) (e : Entry) (xs : Cells)
      → All P (watched ((a, e) ∷ xs))
      → All P (watched xs)
  watched-tail P a e xs v = elim (Bool-cases (is_complete e.state)) [
    | inl done ↦ rw done at v
    | inr waits ↦ let w : All P (e.domain_socket ∷ watched xs) = rw waits at v in w.1
  ]

  -- No client is readable: the loop passes every node and changes nothing.
  pub clients_loop-quiet :
      (k : ℕ) (b : Ptr) (xs : Cells)
      → Chain s.heap b xs
      → All Fits (watched xs)
      → All (IsQuiet rset) (watched xs)
      → length xs < k
      → clients_loop sys fuel devices pf_socket rset k (first xs) s ≡ ok tt s
  unfolding clients_loop
  clients_loop-quiet zero b xs c v q enough = absurd (omega arith)
  clients_loop-quiet (suc k) b [] c v q enough = refl
  clients_loop-quiet (suc k) b ((a, e) ∷ xs) (ne, at, out, c) v q enough =
      let live : (a == null) ≡ false = ground arith in
      rw (live, visit_client-quiet b a e xs (ne, at, out, c) v q)
        (clients_loop-quiet k a xs c (watched-tail Fits a e xs v)
          (watched-tail (IsQuiet rset) a e xs q) (omega arith))

-- The packet that run_arp reads from a reply with Ethernet and IPv4 addresses in `dat`.
abbrev pub read_reply : Bytes → ArpHdr
read_reply dat = received_arp 1 2 6 4 2 (dat ++ drop (10 + length dat) (replicate 58 0))

-- The frame of the reply on the wire.
abbrev pub reply_frame : Bytes → Bytes → Bytes
reply_frame head dat = head ++ (wire_header 1 2 6 4 2 ++ dat)

length-read_reply : (dat : Bytes) → length dat ≤ 48 → length ((read_reply dat).payload) ≡ 48
length-read_reply dat fits = omega (
  arith,
  length-append dat (drop (10 + length dat) (replicate 58 0)),
  length-drop {A = ℕ} (10 + length dat) (replicate 58 0),
)

module _ (sys : System) (fuel : ℕ) (devices : List HwaInfo) (stack : Bytes)
    (unix_domain pf_socket : ℤ) (head dat : Bytes) (src : SockaddrLl) (mac : Bytes)
    (link : length head ≡ 14) (whole : 20 ≤ length dat) (fits : length dat ≤ 48)
    (ours : mac_by_ifindex devices src.sll_ifindex ≡ some mac) (mac_long : 6 ≤ length mac) (b : Ptr)
    (xs : Cells) where
  abbrev pub new_hwaddr : Hwaddr
  new_hwaddr = answer (read_reply dat) src mac

  abbrev pub replied_ip : Bytes
  replied_ip = inet_address 2 (target_ip (read_reply dat))

  handle_frame-reply :
      (s : Daemon)
      → s.cache ≡ first xs
      → Chain s.heap b xs
      → AreEntries xs
      → length xs < fuel
      → sys.frame s.trace pf_socket ≡ some (reply_frame head dat, src)
      → (g : Heap) × (handle_frame sys fuel devices stack pf_socket s
          ≡ ok true (record s {
            heap = g;
            trace = told new_hwaddr replied_ip xs (recvfrom pf_socket ∷ s.trace);
          }))
        × Chain g b (map (complete_cell new_hwaddr replied_ip) xs)
        × SameOutside xs s.heap g
  unfolding handle_frame dispatch sys_recvfrom
  handle_frame-reply s at_head c v enough came =
      let s1 : Daemon = record s { trace = recvfrom pf_socket ∷ s.trace } in
      let (g, ran, linked, others) =
        handle_reply-completes sys fuel devices (read_reply dat) src mac
          (length-read_reply dat fits) refl refl ours mac_long b xs s1 at_head c v enough in
      (
        g,
        rw
            (
              came,
              receive-wire head dat 6 4 2 link (omega arith) (omega arith) (omega arith) (inr refl)
                  whole fits,
              ran,
            )
            refl,
        linked,
        others,
      )

  -- On a well-formed cache of entries of the declared sizes, with a round for each node and one more,
  -- and descriptors that fit an fd_set, where select finds the packet socket readable but neither the
  -- daemon's Unix socket nor any client: a frame with a whole reply with Ethernet and IPv4 addresses, of at most 72
  -- bytes, that comes in on one of the daemon's interfaces, makes the round complete exactly the
  -- entries that wait for its target address. Each of their clients is sent the answer and is closed,
  -- in the order of the list, after select and recvfrom were called once each; the head, the other
  -- entries and every other node stay, and the loop goes on.
  pub round-replies :
      (s : Daemon) (ready : List ℤ)
      → s.cache ≡ first xs
      → Chain s.heap b xs
      → AreEntries xs
      → length xs < fuel
      → Fits unix_domain
      → Fits pf_socket
      → All Fits (watched xs)
      → is_member pf_socket ready ≡ true
      → IsQuiet ready unix_domain
      → All (IsQuiet ready) (watched xs)
      → let rset : List ℤ = rset_of unix_domain pf_socket xs in
        ((nfds : ℤ) → sys.readable s.trace nfds rset ≡ some ready)
        → ((nfds : ℤ)
            → sys.frame (select nfds rset ∷ s.trace) pf_socket ≡ some (reply_frame head dat, src))
        → (nfds : ℤ) × (g : Heap) × (round sys fuel devices stack pf_socket unix_domain s
            ≡ ok true (record s {
              heap = g;
              trace =
                  told new_hwaddr replied_ip xs (recvfrom pf_socket ∷ (select nfds rset ∷ s.trace));
            }))
          × Chain g b (map (complete_cell new_hwaddr replied_ip) xs)
          × SameOutside xs s.heap g
  unfolding round serve fd_isset
  round-replies s ready at_head c v enough unix_fits pf_fits all_fit arrived alone quiet found
        came =
      let rset : List ℤ = rset_of unix_domain pf_socket xs in
      let (nfds, waited, below) =
        wait-covers sys fuel devices unix_domain pf_socket s b xs at_head c enough unix_fits pf_fits
          all_fit in
      let s1 : Daemon = record s { trace = select nfds rset ∷ s.trace } in
      let passed : clients_loop sys fuel devices pf_socket ready fuel s.cache s1 ≡ ok tt s1 =
        ap (λ q. clients_loop sys fuel devices pf_socket ready fuel q s1) at_head
        ∙ clients_loop-quiet sys fuel devices pf_socket ready s1 fuel b xs c all_fit quiet enough in
      let (g, ran, linked, others) = handle_frame-reply s1 at_head c v enough (came nfds) in
      (
        nfds,
        g,
        rw (waited, found nfds, passed, unix_fits, alone, pf_fits, arrived, ran) refl,
        linked,
        others,
      )
