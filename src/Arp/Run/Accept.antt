-- ===== src/Arp/Run/Accept.antt =====
-- run_arp of arp.c: the acceptance of a client.
use tour.Base.{
  ℕ, zero, suc, ◌<◌, ◌≡◌, ◌≢◌, refl, sym, ap, ◌∙◌, Bool, true, false, none, some, List, ◌∷◌, arith,
  ◌==◌, ℤ, eqb_ℤ, eqb_ℤ_iff, length, ok, fault, out_of_fuel,
}
use tour.Cache.{add_to_cache, get_cache_by_socket, find_loop, has_socket}
use tour.Cache.Store.{Ptr, null, Entry, connection, node, Heap, write, load}
use tour.Cache.Chain.{
  guarded_find, first_match, set_next-ok, set_prev-ok, Cells, first, ◌∉◌, Chain, Chain-write,
  load-ok, write_self, write-other, not-mem-chain,
}
use tour.Cache.Entries.{tests-socket}
use tour.Cache.Lookup.{NoneOf, Answer-null, get_cache_by_socket-first}
use tour.World.{System, Daemon, Trace, accept, calloc, on_heap, sys_accept, sys_calloc}
use tour.World.OnHeap.{on_heap-load, on_heap-store, on_head-ok, on_head-add}
use tour.Arp.Device.{HwaInfo}
use tour.Arp.Run.{zero_entry, alloc_entry, accept_client}

abbrev pub has_descriptor : ℤ → Ptr × Entry → Bool
has_descriptor sock (p, e) = eqb_ℤ e.domain_socket sock

-- The entry of a client that has just connected.
abbrev pub new_client : ℤ → Entry
new_client sfd = record zero_entry { domain_socket = sfd; state = connection }

module _ (sys : System) (fuel : ℕ) (devices : List HwaInfo) (unix_domain : ℤ) (s : Daemon) (b : Ptr)
    (xs : Cells) (head : s.cache ≡ first xs) (chain : Chain s.heap b xs)
    (enough : length xs < fuel) where
  abbrev pub accepted_fd : ℤ
  accepted_fd = sys.accepted s.trace unix_domain

  abbrev pub after_accept : Trace
  after_accept = accept unix_domain ∷ s.trace

  abbrev pub fresh_node : Ptr
  fresh_node = sys.allocated after_accept

  -- On a well-formed cache with a round for each node and one more, where accept gives a descriptor
  -- that no entry has, and calloc an unused address: an entry for the client, in the connection state
  -- and zero otherwise, is put in front of the cache; no other node but the old first one is written.
  pub accept_client-adds :
      NoneOf (has_descriptor accepted_fd) xs
      → fresh_node ≢ null
      → s.heap fresh_node ≡ none
      → (g : Heap) × (accept_client sys fuel devices unix_domain s
          ≡ ok tt (record { heap = g; cache = fresh_node; trace = calloc ∷ after_accept }))
        × Chain g null ((fresh_node, new_client accepted_fd) ∷ xs)
        × ((p : Ptr) → p ≢ fresh_node → p ≢ first xs → g p ≡ s.heap p)
  unfolding accept_client alloc_entry sys_accept sys_calloc
  accept_client-adds unused ne free =
      let p = fresh_node in
      let s1 = record s { trace = after_accept } in
      let made = node zero_entry null null in
      let s2 : Daemon = record s {
        trace = calloc ∷ after_accept;
        heap = write s.heap p (some made);
      } in
      let new = node (new_client accepted_fd) null null in
      let s3 : Daemon = record s2 { heap = write s2.heap p (some new) } in
      let out : p ∉ xs = not-mem-chain s.heap b p xs chain free in
      let (q, ran, found) = get_cache_by_socket-first s.heap b xs fuel chain enough accepted_fd in
      let none_there : q ≡ null = Answer-null (has_descriptor accepted_fd) xs q unused found in
      let live : (p == null) ≡ false = ground arith in
      let at2 : s2.heap p ≡ some made = write_self s.heap p (some made) in
      let (g, added, linked, others) =
        on_head-add s3 p b xs ne (write_self s2.heap p (some new)) head
          (Chain-write s2.heap b xs p (some new) (Chain-write s.heap b xs p (some made) chain out)
            out)
          out in
      (
        g,
        rw
            (
              on_head-ok (λ l. get_cache_by_socket fuel l accepted_fd) s1 (first xs) head q s.heap
                  ran,
              none_there,
              live,
              on_heap-load s2 p ne at2,
              on_heap-store s2 p ne at2 new,
              added,
            )
            refl,
        linked,
        λ x nx nf.
            others x nx nf
            ∙ write-other s2.heap p x (some new) nx
            ∙ write-other s.heap p x (some made) nx,
      )

  -- On such a cache, with such a descriptor, and no memory: the NULL of calloc is written through.
  pub accept_client-no_memory :
      NoneOf (has_descriptor accepted_fd) xs
      → fresh_node ≡ null
      → accept_client sys fuel devices unix_domain s ≡ fault
  unfolding accept_client alloc_entry sys_accept sys_calloc on_heap load
  accept_client-no_memory unused full =
      let s1 = record s { trace = after_accept } in
      let (q, ran, found) = get_cache_by_socket-first s.heap b xs fuel chain enough accepted_fd in
      let none_there : q ≡ null = Answer-null (has_descriptor accepted_fd) xs q unused found in
      rw
        (
          on_head-ok (λ l. get_cache_by_socket fuel l accepted_fd) s1 (first xs) head q s.heap ran,
          none_there,
          full,
        )
        refl

head_match :
    (h : Heap) (b a : Ptr) (e : Entry) (xs : Cells) (k : ℕ) (sock : ℤ)
    → Chain h b ((a, e) ∷ xs)
    → length ((a, e) ∷ xs) < k
    → eqb_ℤ e.domain_socket sock ≡ true
    → get_cache_by_socket k a sock h ≡ ok a h
unfolding get_cache_by_socket first_match
head_match h b a e xs k sock chain enough hit =
    guarded_find (has_socket sock) (has_descriptor sock) k b ((a, e) ∷ xs) chain
      (tests-socket h sock b ((a, e) ∷ xs) chain) enough
    ∙ rw hit

-- A node that is its own successor: the search for a descriptor that it does not have goes on.
find_loop-forever :
    (h : Heap) (a : Ptr) (e : Entry) (sock : ℤ) (k : ℕ)
    → a ≢ null
    → h a ≡ some (node e a a)
    → eqb_ℤ e.domain_socket sock ≡ false
    → find_loop (has_socket sock) k a h ≡ out_of_fuel
unfolding find_loop has_socket
find_loop-forever h a e sock zero ne at miss = refl
find_loop-forever h a e sock (suc k) ne at miss =
    let live : (a == null) ≡ false = ground arith in
    rw (live, load-ok h a ne at, miss, load-ok h a ne at)
      (find_loop-forever h a e sock k ne at miss)

get_cache_by_socket-forever :
    (h : Heap) (a : Ptr) (e : Entry) (sock : ℤ) (k : ℕ)
    → a ≢ null
    → h a ≡ some (node e a a)
    → eqb_ℤ e.domain_socket sock ≡ false
    → get_cache_by_socket k a sock h ≡ out_of_fuel
unfolding get_cache_by_socket
get_cache_by_socket-forever h a e sock k ne at miss =
    let live : (a == null) ≡ false = ground arith in
    rw live (find_loop-forever h a e sock k ne at miss)

-- addToCache on the first node of the list itself.
add_to_itself :
    (h : Heap) (a n p : Ptr) (e : Entry)
    → a ≢ null
    → h a ≡ some (node e n p)
    → let h2 = write h a (some (node e a p)) in
      let h3 = write h2 a (some (node e a null)) in
      add_to_cache (some a) a h ≡ ok (true, some a) (write h3 a (some (node e a a)))
unfolding add_to_cache
add_to_itself h a n p e ne at =
    let h2 = write h a (some (node e a p)) in
    let h3 = write h2 a (some (node e a null)) in
    let live : (a == null) ≡ false = ground arith in
    rw
      (
        live,
        set_next-ok h a {c = node e n p} ne at a,
        set_prev-ok h2 a {c = node e a p} ne (write_self h a (some (node e a p))) null,
        set_prev-ok h3 a {c = node e a null} ne (write_self h2 a (some (node e a null))) a,
      )
      refl

abbrev pub reopened : Entry → Entry
reopened e = record e { state = connection }

module _ (sys : System) (fuel : ℕ) (devices : List HwaInfo) (unix_domain : ℤ) (s : Daemon)
    (b a : Ptr) (e : Entry) (xs : Cells) (head : s.cache ≡ a) (chain : Chain s.heap b ((a, e) ∷ xs))
    (enough : length ((a, e) ∷ xs) < fuel) where
  -- On a well-formed cache of at least one node, with a round for each node and one more: if accept
  -- gives the descriptor that the first entry has, as its -1 is that of every entry that a reply
  -- completed, that entry becomes a connection again and is put in front of itself. It is its own
  -- successor, and the search for another descriptor never ends, whatever the number of rounds.
  pub accept_client-cycle :
      sys.accepted s.trace unix_domain ≡ e.domain_socket
      → (g : Heap) × (accept_client sys fuel devices unix_domain s
          ≡ ok tt (record { heap = g; cache = a; trace = accept unix_domain ∷ s.trace }))
        × (g a ≡ some (node (reopened e) a a))
        × ((sock : ℤ) (k : ℕ)
            → eqb_ℤ e.domain_socket sock ≡ false
            → get_cache_by_socket k a sock g ≡ out_of_fuel)
  unfolding accept_client sys_accept
  accept_client-cycle same =
      let fd = sys.accepted s.trace unix_domain in
      let s1 : Daemon = record s { trace = accept unix_domain ∷ s.trace } in
      let old = node e (first xs) b in
      let again = node (record e { domain_socket = fd; state = connection }) (first xs) b in
      let h1 = write s.heap a (some again) in
      let s2 : Daemon = record s1 { heap = h1 } in
      let twice = node again.entry a b in
      let h2 = write h1 a (some twice) in
      let thrice = node again.entry a null in
      let h3 = write h2 a (some thrice) in
      let g = write h3 a (some (node again.entry a a)) in
      let ne = chain.0 in
      let live : (a == null) ≡ false = ground arith in
      let hit : eqb_ℤ e.domain_socket fd ≡ true = (eqb_ℤ_iff e.domain_socket fd).1 (sym same) in
      let ends : g a ≡ some (node (reopened e) a a) =
        write_self h3 a (some (node again.entry a a))
        ∙ ap (λ x. some (node (record e { domain_socket = x; state = connection }) a a)) same in
      (
        g,
        rw
            (
              on_head-ok (λ l. get_cache_by_socket fuel l fd) s1 a head a s.heap
                  (head_match s.heap b a e xs fuel fd chain enough hit),
              live,
              on_heap-load s1 a ne chain.1,
              on_heap-store s1 a ne chain.1 again,
              on_head-ok (λ l. add_to_cache (some l) a) s2 a head (true, some a) g
                  (add_to_itself h1 a (first xs) b again.entry ne
                    (write_self s.heap a (some again))),
            )
            refl,
        ends,
        λ sock k miss. get_cache_by_socket-forever g a (reopened e) sock k ne ends miss,
      )
