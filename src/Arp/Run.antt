-- ===== src/Arp/Run.antt =====
-- run_arp of arp.c: a round of its loop waits for the sockets, serves the clients whose sockets are
-- readable, accepts a client, and handles a frame.
pub mod Watch
pub mod Accept
pub mod Drop
pub mod Rounds
pub mod Asking
pub mod Client
pub mod Exchange
use tour.Base.{
  is_member, plus_one, ℕ, zero, suc, ◌+◌, Bool, true, false, not, ◌||◌, Option, none, some, List,
  [], ◌∷◌, ◌==◌, ltb, if◌then◌else◌, ℤ, pos, negsuc, minus_one, eqb_ℤ, Bytes, replicate,
  out_of_fuel, Cmd, pure, or_fault, ◌>>=◌, ◌>>◌,
}
use tour.Unix.{fd_set, fd_isset}
use tour.Cache.{add_to_cache, get_cache_by_socket, remove_from_cache}
use tour.Cache.Store.{
  Ptr, null, Hwaddr, Entry, EntryState, connection, is_connection, is_complete, Cache, Heap, load,
  store, free,
}
use tour.World.{
  SockaddrLl, System, Daemon, close, on_heap, get, log, set_cache, sys_calloc, sys_select,
  sys_accept, sys_recvfrom,
}
use tour.Arp.Device.{HwaInfo}
use tour.Arp.Select.{maxfd}
use tour.Arp.Receive.{
  Recv, Verdict, read_failed, too_short, request, reply, unsupported, invalid, receive,
}
use tour.Arp.Handle.{handle_areq}
use tour.Arp.Answer.{init_node, handle_req, handle_reply}

-- The loop that sets the clients' descriptors.
unfoldable pub watch_loop : ℕ → List ℤ → Ptr → Cmd Heap (List ℤ)
watch_loop zero rset p = λ _. out_of_fuel
watch_loop (suc k) rset p = if p == null then pure rset else do
  c ← load p
  rset' ←
      if is_complete c.entry.state then pure rset else or_fault (fd_set c.entry.domain_socket rset)
  watch_loop k rset' c.next

-- What calloc gives: an entry of zero bytes.
abbrev pub zero_hwaddr : Hwaddr
zero_hwaddr = record {
  sll_ifindex = pos 0;
  sll_ifhatype = 0;
  sll_ifhalen = 0;
  sll_ifaddr = replicate 8 0;
  sll_hatype = 0;
  sll_halen = 0;
  sll_addr = replicate 8 0;
}

abbrev pub zero_entry : Entry
zero_entry = record {
  ipaddress = replicate 16 0;
  domain_socket = pos 0;
  state = connection;
  hw = zero_hwaddr;
}

module _ (sys : System) (fuel : ℕ) (devices : List HwaInfo) where
  -- From the top of the loop to select: `none` is the return of -1.
  unfoldable pub wait : ℤ → ℤ → Cmd Daemon (Option (List ℤ))
  wait unix_domain pf_socket = do
    s ← get
    max_fd ← on_heap (maxfd fuel pf_socket unix_domain s.cache)
    rset ← or_fault (fd_set unix_domain [])
    rset ← or_fault (fd_set pf_socket rset)
    rset ← on_heap (watch_loop fuel rset s.cache)
    sys_select sys (plus_one max_fd) rset

  -- The client's socket is closed and its entry is removed.
  unfoldable pub drop_client : Ptr → Cmd Daemon (Unit {0})
  drop_client rm = do
    c ← on_heap (load rm)
    log (close c.entry.domain_socket)
    on_heap (store rm (record c { entry = record (c.entry) { domain_socket = minus_one } }))
    s ← get
    (removed, head) ← on_heap (remove_from_cache fuel (some s.cache) rm)
    elim head [ none ↦ pure tt | some p ↦ set_cache p ]

  -- A readable client: its request is handled, and it is dropped if that returns 0 or if it was
  -- waiting already. The result is the next node, read before the entry is removed.
  unfoldable pub serve_client : ℤ → Ptr → EntryState → Cmd Daemon Ptr
  serve_client pf_socket current state = do
    rv ← if is_connection state then handle_areq sys fuel pf_socket current devices else pure false
    c ← on_heap (load current)
    if rv then pure c.next else drop_client current >> pure c.next

  -- One round of the loop over the clients, to the next node.
  unfoldable pub visit_client : ℤ → List ℤ → Ptr → Cmd Daemon Ptr
  visit_client pf_socket rset current = do
    c ← on_heap (load current)
    if is_complete c.entry.state then pure c.next else do
      isset ← or_fault (fd_isset c.entry.domain_socket rset)
      if isset then serve_client pf_socket current c.entry.state else pure c.next

  unfoldable pub clients_loop : ℤ → List ℤ → ℕ → Ptr → Cmd Daemon (Unit {0})
  clients_loop pf_socket rset zero current = λ _. out_of_fuel
  clients_loop pf_socket rset (suc k) current =
      if current == null
      then pure tt
      else do next ← visit_client pf_socket rset current; clients_loop pf_socket rset k next

  unfoldable pub alloc_entry : Cmd Daemon Ptr
  alloc_entry = do
    p ← sys_calloc sys
    if p == null then pure p else init_node p zero_entry >> pure p

  unfoldable pub accept_client : ℤ → Cmd Daemon (Unit {0})
  accept_client unix_domain = do
    sfd ← sys_accept sys unix_domain
    s ← get
    found ← on_heap (get_cache_by_socket fuel s.cache sfd)
    ce ← if found == null then alloc_entry else pure found
    c ← on_heap (load ce)
    on_heap (
        store ce
          (record c { entry = record (c.entry) { domain_socket = sfd; state = connection } }))
    (added, head) ← on_heap (add_to_cache (some s.cache) ce)
    elim head [ none ↦ pure tt | some p ↦ set_cache p ]
    if added then pure tt else on_heap (free ce)

  module _ (stack : Bytes) (pf_socket : ℤ) where
    unfoldable pub dispatch : Verdict → SockaddrLl → Cmd Daemon (Unit {0})
    dispatch (request r) src = handle_req sys fuel devices stack pf_socket r.eh r.arp src >> pure tt
    dispatch (reply r) src = handle_reply sys fuel devices r.arp src >> pure tt
    dispatch read_failed src = pure tt
    dispatch too_short src = pure tt
    dispatch unsupported src = pure tt
    dispatch invalid src = pure tt

    -- The result is false for the `break` after a failed read.
    unfoldable pub handle_frame : Cmd Daemon Bool
    handle_frame = do
      got ← sys_recvfrom sys pf_socket
      elim got [
        | none ↦ pure false
        | some (bytes, src) ↦ do v ← or_fault (receive (some bytes)); dispatch v src; pure true
      ]

    -- What follows a select that returned.
    unfoldable pub serve : ℤ → List ℤ → Cmd Daemon Bool
    serve unix_domain rset = do
      s ← get
      clients_loop pf_socket rset fuel s.cache
      connecting ← or_fault (fd_isset unix_domain rset)
      if connecting then accept_client unix_domain else pure tt
      arrived ← or_fault (fd_isset pf_socket rset)
      if arrived then handle_frame else pure true

    -- A round of the loop: whether it goes on.
    unfoldable pub round : ℤ → Cmd Daemon Bool
    round unix_domain = do
      ready ← wait unix_domain pf_socket
      elim ready [ none ↦ pure false | some rset ↦ serve unix_domain rset ]

    -- The loop leaves with EXIT_FAILURE, by a `break`.
    unfoldable pub run_arp : ℤ → ℕ → Cmd Daemon ℕ
    run_arp unix_domain zero = λ _. out_of_fuel
    run_arp unix_domain (suc k) =
        let rest = run_arp unix_domain k in
        do more ← round unix_domain; if more then rest else pure 1
