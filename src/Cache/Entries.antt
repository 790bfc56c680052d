-- ===== src/Cache/Entries.antt =====
-- When two entries are the same to isSameCache, and the tests of the lookups at the nodes of a chain.
use tour.Base.{
  ◌≤◌, ◌≡◌, ◌≢◌, Bool, ◌&&◌, ◌||◌, some, [], ◌∷◌, ◌++◌, arith, ◌==◌, ℤ, eqb_ℤ, length, take, All,
  Bytes, bytes_eq, memcmp_eq-take, memcmp_eq-whole, ok,
}
use tour.Cache.{same_content, is_same_cache, has_socket, has_hw_addr, has_ip_addr}
use tour.Cache.Store.{Ptr, null, Entry, Cache, Heap, sockaddr_size}
use tour.Cache.Chain.{Cells, Chain, load-ok}

-- The arrays have their declared sizes and the address length stays inside its array.
pub record IsEntry (e : Entry) : Type 0 where
  pub ip_size : length e.ipaddress ≡ sockaddr_size
  pub addr_size : length e.hw.sll_addr ≡ 8
  pub halen : e.hw.sll_halen ≤ 8

-- Same interface, same hardware address in the length of the second entry, same IP address.
unfoldable pub matches : Entry → Entry → Bool
matches a b =
    eqb_ℤ a.hw.sll_ifindex b.hw.sll_ifindex
    && (bytes_eq (take b.hw.sll_halen a.hw.sll_addr) (take b.hw.sll_halen b.hw.sll_addr)
        && bytes_eq a.ipaddress b.ipaddress)

-- On entries of the declared sizes the comparison has no fault and is `matches`.
pub same_content-matches :
    (a b : Entry) → IsEntry a → IsEntry b → same_content a b ≡ some (matches a b)
unfolding same_content matches
same_content-matches a b ha hb = ground (
  arith,
  ha.addr_size,
  hb.addr_size,
  hb.halen,
  memcmp_eq-take a.hw.sll_addr b.hw.sll_addr b.hw.sll_halen,
  memcmp_eq-whole a.ipaddress b.ipaddress 16 ha.ip_size hb.ip_size,
)

-- A cell is what isSameCache takes for the node at `q` with payload `d`.
abbrev pub same_cell : Ptr → Entry → Ptr × Entry → Bool
same_cell q d (a, e) = (a == q) || matches e d

module _ (h : Heap) (a q : Ptr) {c d : Cache} (ha : a ≢ null) (hq : q ≢ null) where
  pub is_same_cache-ok :
      h a ≡ some c
      → h q ≡ some d
      → IsEntry c.entry
      → IsEntry d.entry
      → is_same_cache a q h ≡ ok (same_cell q d.entry (a, c.entry)) h
  unfolding is_same_cache
  is_same_cache-ok ea eq va vq =
      ground
        (arith, load-ok h a ha ea, load-ok h q hq eq, same_content-matches c.entry d.entry va vq)

abbrev pub AreEntries : Cells → Type 0
AreEntries = All (λ c. IsEntry c.1)

-- An entry of the list, and the list with another payload for it.
pub AreEntries-at :
    (ys : Cells) (a : Ptr) (e : Entry) (zs : Cells) → AreEntries (ys ++ ((a, e) ∷ zs)) → IsEntry e
AreEntries-at [] a e zs v = v.0
AreEntries-at (y ∷ ys) a e zs v = AreEntries-at ys a e zs v.1

pub AreEntries-set :
    (ys : Cells) (a : Ptr) (e e' : Entry) (zs : Cells)
    → AreEntries (ys ++ ((a, e) ∷ zs))
    → IsEntry e'
    → AreEntries (ys ++ ((a, e') ∷ zs))
AreEntries-set [] a e e' zs v w = (w, v.1)
AreEntries-set (y ∷ ys) a e e' zs v w = (v.0, AreEntries-set ys a e e' zs v.1 w)

module _ (h : Heap) where
  pub tests-same :
      (q : Ptr) {d : Cache} (b : Ptr) (xs : Cells)
      → q ≢ null
      → h q ≡ some d
      → IsEntry d.entry
      → Chain h b xs
      → AreEntries xs
      → All (λ c. is_same_cache c.0 q h ≡ ok (same_cell q d.entry c) h) xs
  tests-same q b [] nq eq vq c v = tt
  tests-same q b ((a, e) ∷ xs) nq eq vq (ne, at, out, c) (v, vs) =
      (is_same_cache-ok h a q ne nq at eq v vq, tests-same q a xs nq eq vq c vs)

  pub tests-socket :
      (sock : ℤ) (b : Ptr) (xs : Cells)
      → Chain h b xs
      → All (λ c. has_socket sock c.0 h ≡ ok (eqb_ℤ c.1.domain_socket sock) h) xs
  unfolding has_socket
  tests-socket sock b [] c = tt
  tests-socket sock b ((a, e) ∷ xs) (ne, at, out, c) =
      (rw (load-ok h a ne at), tests-socket sock a xs c)

  pub tests-hw :
      (if_haddr : Bytes) (b : Ptr) (xs : Cells)
      → 8 ≤ length if_haddr
      → Chain h b xs
      → AreEntries xs
      → All
          (λ c.
            has_hw_addr if_haddr c.0 h
            ≡ ok
                (bytes_eq (take c.1.hw.sll_halen c.1.hw.sll_addr) (take c.1.hw.sll_halen if_haddr))
                h)
          xs
  unfolding has_hw_addr
  tests-hw if_haddr b [] long c v = tt
  tests-hw if_haddr b ((a, e) ∷ xs) long (ne, at, out, c) (v, vs) = (
    rw (
      load-ok h a ne at,
      memcmp_eq-take e.hw.sll_addr if_haddr e.hw.sll_halen (omega (arith, v.addr_size, v.halen))
          (omega (arith, v.halen)),
    ),
    tests-hw if_haddr a xs long c vs,
  )

  pub tests-ip :
      (ipaddress : Bytes) (b : Ptr) (xs : Cells)
      → length ipaddress ≡ sockaddr_size
      → Chain h b xs
      → AreEntries xs
      → All (λ c. has_ip_addr ipaddress c.0 h ≡ ok (bytes_eq c.1.ipaddress ipaddress) h) xs
  unfolding has_ip_addr
  tests-ip ipaddress b [] size c v = tt
  tests-ip ipaddress b ((a, e) ∷ xs) size (ne, at, out, c) (v, vs) = (
    rw (load-ok h a ne at, memcmp_eq-whole e.ipaddress ipaddress 16 v.ip_size size),
    tests-ip ipaddress a xs size c vs,
  )
