-- ===== src/Arp/Run/Asking.antt =====
-- A round of run_arp of arp.c in which a client asks.
use tour.Base.{
  is_member, ℕ, zero, suc, ◌<◌, ◌≡◌, refl, ap, ◌∙◌, inl, inr, Bool, true, false, some, List, ◌∷◌,
  arith, ◌==◌, ℤ, Bytes, length, take, All, ok, Run,
}
use tour.Cache.Store.{Ptr, null, Entry, connection, is_complete, is_connection, Cache, node, write}
use tour.Cache.Chain.{Cells, first, Chain, Chain-write, write_self}
use tour.Cache.Entries.{AreEntries}
use tour.Cache.Lookup.{NoneOf, NoneOf-position}
use tour.World.{System, Daemon, Trace, select, recv}
use tour.World.OnHeap.{on_heap-load}
use tour.Unix.{fd_isset}
use tour.Arp.Device.{HwaInfo}
use tour.Arp.Select.{watched}
use tour.Arp.Request.{IsDevice, asks}
use tour.Arp.Serve.{has_address, Asked, Served, waiting, handle_areq-Served}
use tour.Arp.Run.{serve_client, visit_client, clients_loop, serve, round}
use tour.Arp.Run.Watch.{Fits, rset_of, wait-covers}
use tour.Arp.Run.Rounds.{IsQuiet, clients_loop-quiet}

-- Where no entry has the address, the request is passed on.
passed_on :
    (sys : System) (sock : ℤ) (p : Ptr) (devices : List HwaInfo) (s : Daemon) (conn : Cache)
    (xs : Cells) (addr : Bytes) (run : Run Daemon Bool)
    → NoneOf (has_address addr) xs
    → Served sys sock p devices s conn xs addr run
    → Asked sys sock p devices s conn addr run
passed_on sys sock p devices s conn xs addr run v (inr (unknown, asked)) = asked
passed_on sys sock p devices s conn xs addr run v (inl (q, f, done, answered)) =
    let miss : has_address addr (q, f.entry) ≡ false =
      NoneOf-position (has_address addr) f.before (q, f.entry) f.after (rw (f.position) at v) in
    absurd (ground (arith, f.passes))

-- The address in a request of which all bytes but the family are `rest`.
abbrev pub asked_for : Bytes → Bytes
asked_for rest = 2 ∷ 0 ∷ take 14 rest

-- The calls of a client's request: what recv gave is asked for on every interface.
abbrev pub asked_calls : System → ℤ → List HwaInfo → Entry → Bytes → Trace → Bool × Trace
asked_calls sys pf_socket devices e rest t =
    asks sys pf_socket (asked_for rest) devices (recv e.domain_socket 21 ∷ t)

module _ (sys : System) (fuel : ℕ) (devices : List HwaInfo) (pf_socket : ℤ) (a : Ptr) (e : Entry)
    (xs : Cells) (rest : Bytes) (size : length rest ≡ 18) (devs : All IsDevice devices)
    (state : e.state ≡ connection) (v : AreEntries ((a, e) ∷ xs))
    (enough : length ((a, e) ∷ xs) < fuel)
    (unknown : NoneOf (has_address (asked_for rest)) ((a, e) ∷ xs)) where
  abbrev conn : Cache
  conn = node e (first xs) null

  -- The daemon when the request has been passed on.
  abbrev asking : Daemon → Daemon
  asking s = record s {
    heap = write s.heap a (some (waiting conn (asked_for rest)));
    trace = (asked_calls sys pf_socket devices e rest s.trace).1;
  }

  module _ (ready : List ℤ) (readable : is_member e.domain_socket ready ≡ true)
      (fit : Fits e.domain_socket) (s : Daemon) (head : s.cache ≡ a)
      (chain : Chain s.heap null ((a, e) ∷ xs))
      (got : sys.received s.trace e.domain_socket 21 ≡ some (2 ∷ 0 ∷ rest))
      (sent : (asked_calls sys pf_socket devices e rest s.trace).0 ≡ true) where
    visit_client-asks : visit_client sys fuel devices pf_socket ready a s ≡ ok (first xs) (asking s)
    unfolding visit_client serve_client fd_isset
    visit_client-asks =
        let (ne, at, out, c) = chain in
        let connected : is_connection e.state ≡ true = ap is_connection state in
        let undone : is_complete e.state ≡ false = ap is_complete state in
        let asked =
          passed_on sys pf_socket a devices (record s { trace = recv e.domain_socket 21 ∷ s.trace })
            conn ((a, e) ∷ xs) (asked_for rest) _ unknown
            (handle_areq-Served sys fuel pf_socket a devices s conn ne at null ((a, e) ∷ xs) rest
              head chain v enough devs connected size got) in
        rw
          (
            on_heap-load s a ne at,
            undone,
            fit,
            readable,
            connected,
            asked,
            on_heap-load (asking s) a {c = waiting conn (asked_for rest)} ne
                (write_self s.heap a (some (waiting conn (asked_for rest)))),
            sent,
          )
          refl

    clients_loop-asks :
        (k : ℕ)
        → length ((a, e) ∷ xs) < k
        → All Fits (watched xs)
        → All (IsQuiet ready) (watched xs)
        → clients_loop sys fuel devices pf_socket ready k a s ≡ ok tt (asking s)
    unfolding clients_loop
    clients_loop-asks zero more fits quiet = absurd (omega arith)
    clients_loop-asks (suc k) more fits quiet =
        let (ne, at, out, c) = chain in
        let live : (a == null) ≡ false = ground arith in
        rw (live, visit_client-asks)
          (clients_loop-quiet sys fuel devices pf_socket ready (asking s) k a xs
            (Chain-write s.heap a xs a (some (waiting conn (asked_for rest))) c out) fits quiet
            (omega arith))

  -- On a well-formed cache of entries of the declared sizes, with a round for each node and one more,
  -- descriptors that fit an fd_set, and interfaces with a MAC and an IPv4 address, where select finds
  -- one descriptor readable, that of the first entry, whose client has just connected: an IPv4
  -- request of the right length for an address that no entry has, which can be sent from every
  -- interface, makes the round ask for the address from each interface in turn, after select and recv
  -- were called once each. The client's entry waits for the address, every other node and the head
  -- stay, and the loop goes on.
  pub round-asks :
      (stack : Bytes) (unix_domain : ℤ) (ready : List ℤ) (s : Daemon)
      → s.cache ≡ a
      → Chain s.heap null ((a, e) ∷ xs)
      → Fits unix_domain
      → Fits pf_socket
      → Fits e.domain_socket
      → All Fits (watched xs)
      → is_member e.domain_socket ready ≡ true
      → IsQuiet ready unix_domain
      → IsQuiet ready pf_socket
      → All (IsQuiet ready) (watched xs)
      → let rset : List ℤ = rset_of unix_domain pf_socket ((a, e) ∷ xs) in
        ((nfds : ℤ) → sys.readable s.trace nfds rset ≡ some ready)
        → ((nfds : ℤ)
            → sys.received (select nfds rset ∷ s.trace) e.domain_socket 21 ≡ some (2 ∷ 0 ∷ rest))
        → ((nfds : ℤ)
            → (asked_calls sys pf_socket devices e rest (select nfds rset ∷ s.trace)).0 ≡ true)
        → (nfds : ℤ) × (round sys fuel devices stack pf_socket unix_domain s
            ≡ ok true (record s {
              heap = write s.heap a (some (waiting (node e (first xs) null) (asked_for rest)));
              trace = (asked_calls sys pf_socket devices e rest (select nfds rset ∷ s.trace)).1;
            }))
  unfolding round serve fd_isset
  round-asks stack unix_domain ready s head chain unix_fits pf_fits fit fits readable alone still
        quiet found got sent =
      let rset : List ℤ = rset_of unix_domain pf_socket ((a, e) ∷ xs) in
      let undone : is_complete e.state ≡ false = ap is_complete state in
      let all_fit : All Fits (watched ((a, e) ∷ xs)) = rw undone (fit, fits) in
      let (nfds, waited, below) =
        wait-covers sys fuel devices unix_domain pf_socket s null ((a, e) ∷ xs) head chain enough
          unix_fits pf_fits all_fit in
      let s1 : Daemon = record s { trace = select nfds rset ∷ s.trace } in
      let passed : clients_loop sys fuel devices pf_socket ready fuel s.cache s1
          ≡ ok tt (asking s1) =
        ap (λ q. clients_loop sys fuel devices pf_socket ready fuel q s1) head
        ∙ clients_loop-asks ready readable fit s1 head chain (got nfds) (sent nfds) fuel enough fits
            quiet in
      (nfds, rw (waited, found nfds, passed, unix_fits, alone, pf_fits, still) refl)
