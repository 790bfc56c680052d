-- ===== src/Arp/Serve.antt =====
-- handle_areq of arp.c on a client's request.
use tour.Base.{
  ℕ, ◌<◌, ◌≡◌, ◌≢◌, refl, ap, ◌∙◌, ◌⊎◌, inl, inr, Bool, true, false, Option, none, some, List, [],
  ◌∷◌, ◌++◌, arith, ◌==◌, ℤ, Bytes, bytes_eq, length, take, All, length-take, read_at, read_within,
  ok, Run, Bool-cases, word_of,
}
use tour.Cache.{get_cache_by_ip_addr}
use tour.Cache.Store.{
  Ptr, null, Entry, incomplete, is_complete, is_connection, Cache, node, Heap, write,
}
use tour.Cache.Chain.{Cells, first, last_or, Chain, Chain-suffix}
use tour.Cache.Entries.{AreEntries}
use tour.Cache.Lookup.{Found, NoneOf, get_cache_by_ip_addr-first}
use tour.World.{System, Daemon, recv, send_hwaddr, sys_recv, sys_send_hwaddr, on_heap}
use tour.World.OnHeap.{on_heap-ok, on_heap-load, on_heap-store}
use tour.Arp.Device.{HwaInfo}
use tour.Arp.Handle.{sa_family, ask_network, answer_areq, handle_areq}
use tour.Arp.Request.{IsDevice, asks, broadcast-asks}

abbrev pub has_address : Bytes → Ptr × Entry → Bool
has_address addr (p, e) = bytes_eq e.ipaddress addr

-- The first entry with the address, if there is one, is not complete.
abbrev pub Unknown : Bytes → Cells → Type 0
Unknown addr xs =
    NoneOf (has_address addr) xs
    ⊎ ((p : Ptr) × (f : Found (has_address addr) xs p) × (is_complete f.entry.state ≡ false))

-- The node where the first entry that passes stands.
Found-live :
    (h : Heap) (b : Ptr) (xs : Cells) (P : Ptr × Entry → Bool) (p : Ptr)
    → Chain h b xs
    → (f : Found P xs p) → (c : Cache) × (p ≢ null) × (h p ≡ some c) × (c.entry ≡ f.entry)
Found-live h b xs P p c f =
    let c' : Chain h b (f.before ++ ((p, f.entry) ∷ f.after)) = rw (f.position) at c in
    let (ne, at, out, rest) = Chain-suffix h b f.before ((p, f.entry) ∷ f.after) c' in
    (node (f.entry) (first f.after) (last_or b f.before), ne, at, refl)

-- The entry of a client, waiting for the address.
abbrev pub waiting : Cache → Bytes → Cache
waiting conn addr = record conn {
  entry = record (conn.entry) { state = incomplete; ipaddress = addr };
}

-- How a request is passed on: the client's entry waits for the address, which is asked for from
-- every interface.
abbrev pub Asked :
    System → ℤ → Ptr → List HwaInfo → Daemon → Cache → Bytes → Run Daemon Bool → Type 0
Asked sys sock conn_entry devices s conn addr run =
    let t = asks sys sock addr devices s.trace in
    run
    ≡ ok t.0 (record s { heap = write s.heap conn_entry (some (waiting conn addr)); trace = t.1 })

-- The client is sent what the first entry with the address holds, if that is complete; else the
-- request is passed on.
abbrev pub Served :
    System → ℤ → Ptr → List HwaInfo → Daemon → Cache → Cells → Bytes → Run Daemon Bool → Type 0
Served sys sock conn_entry devices s conn xs addr run =
    ((p : Ptr) × (f : Found (has_address addr) xs p) × (is_complete f.entry.state ≡ true)
      × (run
          ≡ ok false
              (record s { trace = send_hwaddr conn.entry.domain_socket f.entry.hw ∷ s.trace })))
    ⊎ (Unknown addr xs × Asked sys sock conn_entry devices s conn addr run)

module _ (sys : System) (fuel : ℕ) (sock : ℤ) (conn_entry : Ptr) (devices : List HwaInfo)
    (s : Daemon) (conn : Cache) (ne : conn_entry ≢ null)
    (live : s.heap conn_entry ≡ some conn) where
  ask_network_lem :
      (addr : Bytes)
      → length addr ≡ 16
      → All IsDevice devices
      → Asked sys sock conn_entry devices s conn addr
          (ask_network sys sock conn_entry addr devices s)
  unfolding ask_network
  ask_network_lem addr size v =
      rw (on_heap-load s conn_entry ne live, on_heap-store s conn_entry ne live (waiting conn addr))
        (broadcast-asks sys sock addr (omega arith) devices
          (record s { heap = write s.heap conn_entry (some (waiting conn addr)) }) v)

  module _ (b : Ptr) (xs : Cells) (head : s.cache ≡ first xs) (chain : Chain s.heap b xs)
      (v : AreEntries xs) (enough : length xs < fuel) where
    pub answer_areq-Served :
        (addr : Bytes)
        → length addr ≡ 16
        → All IsDevice devices
        → Served sys sock conn_entry devices s conn xs addr
            (answer_areq sys fuel sock conn_entry addr devices s)
    unfolding answer_areq sys_send_hwaddr
    answer_areq-Served addr size w =
        let (p, e, a) = get_cache_by_ip_addr-first s.heap b xs fuel chain enough addr size v in
        let found =
          ap (λ q. on_heap (get_cache_by_ip_addr fuel q (some addr)) s) head
          ∙ on_heap-ok (get_cache_by_ip_addr fuel (first xs) (some addr)) s p s.heap e in
        rw found (elim a [
          | inl f ↦
              let (c, p_ne, at, same) = Found-live s.heap b xs (has_address addr) p chain f in
              let some_node : (p == null) ≡ false = ground arith in
              elim (Bool-cases (is_complete f.entry.state)) [
                | inl done ↦ inl (
                  p,
                  f,
                  done,
                  rw
                      (
                        some_node,
                        on_heap-load s p p_ne at,
                        same,
                        done,
                        on_heap-load s conn_entry ne live,
                      )
                      refl,
                )
                | inr unready ↦ inr (
                  inr (p, f, unready),
                  rw (some_node, on_heap-load s p p_ne at, same, unready)
                      (ask_network_lem addr size w),
                )
              ]
          | inr (others, nothing) ↦
              let no_node : (p == null) ≡ true = ground arith in
              inr (inl others, rw no_node (ask_network_lem addr size w))
        ])

-- What recv gave is no request for an IPv4 address: an error, another length than that of a struct
-- areq, or an address of another family.
abbrev pub IsRefused : Option Bytes → Type 0
IsRefused none = Unit {0}
IsRefused (some []) = Unit {0}
IsRefused (some (lo ∷ [])) = Unit {0}
IsRefused (some (lo ∷ hi ∷ rest)) = (length rest ≢ 18) ⊎ (word_of lo hi ≢ 2)

module _ (sys : System) (fuel : ℕ) (sock : ℤ) (conn_entry : Ptr) (devices : List HwaInfo)
    (s : Daemon) (conn : Cache) (ne : conn_entry ≢ null)
    (live : s.heap conn_entry ≡ some conn) where
  -- The state when the client's bytes have been taken.
  abbrev pub after_recv : Daemon
  after_recv = record s { trace = recv conn.entry.domain_socket 21 ∷ s.trace }

  refuses :
      (lo hi : ℕ) (rest : Bytes)
      → (length rest ≢ 18) ⊎ (word_of lo hi ≢ 2)
      → is_connection conn.entry.state ≡ true
      → sys.received s.trace conn.entry.domain_socket 21 ≡ some (lo ∷ hi ∷ rest)
      → handle_areq sys fuel sock conn_entry devices s ≡ ok false after_recv
  unfolding handle_areq sys_recv sa_family
  refuses lo hi rest bad state got = elim (Bool-cases (length (lo ∷ hi ∷ rest) == 20)) [
    | inr short ↦ rw (on_heap-load s conn_entry ne live, state, got, short) refl
    | inl whole ↦
        let addr : read_at (lo ∷ hi ∷ rest) 0 16 ≡ some (lo ∷ hi ∷ take 14 rest) =
          read_within (lo ∷ hi ∷ rest) 0 16 (ground arith) in
        let other : (word_of lo hi == 2) ≡ false = ground arith in
        rw (on_heap-load s conn_entry ne live, state, got, whole, addr, other) refl
  ]

  -- handle_areq on the entry of a client that has just connected, from whose socket recv gives an error, another length than
  -- that of a struct areq, or an address of another family than IPv4: the result is 0, and nothing
  -- is done but the recv.
  pub handle_areq-refuses :
      is_connection conn.entry.state ≡ true
      → IsRefused (sys.received s.trace conn.entry.domain_socket 21)
      → handle_areq sys fuel sock conn_entry devices s ≡ ok false after_recv
  unfolding handle_areq sys_recv
  handle_areq-refuses state bad = by_answer _ refl bad
    where
      by_answer :
          (got : Option Bytes)
          → sys.received s.trace conn.entry.domain_socket 21 ≡ got
          → IsRefused got
          → handle_areq sys fuel sock conn_entry devices s ≡ ok false after_recv
      by_answer none e r = rw (on_heap-load s conn_entry ne live, state, e) refl
      by_answer (some []) e r = rw (on_heap-load s conn_entry ne live, state, e) refl
      by_answer (some (lo ∷ [])) e r = rw (on_heap-load s conn_entry ne live, state, e) refl
      by_answer (some (lo ∷ hi ∷ rest)) e r = refuses lo hi rest r state e

  -- handle_areq on the entry of a client that has just connected, from whose socket an IPv4 request
  -- of the right length is read, with a well-formed cache, a round for each of its nodes and one
  -- more, and interfaces with a MAC and an IPv4 address: the client is sent what the first entry with
  -- the address holds, if that is complete; else its own entry waits for the address, which is asked
  -- for from each interface in turn, up to the first frame that cannot be sent.
  pub handle_areq-Served :
      (b : Ptr) (xs : Cells) (rest : Bytes)
      → s.cache ≡ first xs
      → Chain s.heap b xs
      → AreEntries xs
      → length xs < fuel
      → All IsDevice devices
      → is_connection conn.entry.state ≡ true
      → length rest ≡ 18
      → sys.received s.trace conn.entry.domain_socket 21 ≡ some (2 ∷ 0 ∷ rest)
      → Served sys sock conn_entry devices after_recv conn xs
          (2 ∷ 0 ∷ take 14 rest)
          (handle_areq sys fuel sock conn_entry devices s)
  unfolding handle_areq sys_recv sa_family
  handle_areq-Served b xs rest head chain v enough devs state size got =
      let whole : (length (2 ∷ 0 ∷ rest) == 20) ≡ true = ground arith in
      let addr : read_at (2 ∷ 0 ∷ rest) 0 16 ≡ some (2 ∷ 0 ∷ take 14 rest) =
        read_within (2 ∷ 0 ∷ rest) 0 16 (omega arith) in
      rw (on_heap-load s conn_entry ne live, state, got, whole, addr)
        (answer_areq-Served sys fuel sock conn_entry devices after_recv conn ne live b xs head chain
          v enough (2 ∷ 0 ∷ take 14 rest) (omega (arith, length-take 14 rest)) devs)
