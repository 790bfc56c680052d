-- ===== src/Cache/Lookup.antt =====
-- getFromCache and the lookups by socket, hardware address and IP address.
use tour.Base.{
  ℕ, ◌<◌, ◌≤◌, ◌≡◌, refl, ◌≢◌, ◌⊎◌, inl, inr, Bool, true, false, some, [], ◌∷◌, ◌++◌, arith, ◌==◌,
  ℤ, eqb_ℤ, length, take, All, Bytes, bytes_eq, ok, Bool-cases,
}
use tour.Cache.{
  is_same_cache, has_socket, has_hw_addr, has_ip_addr, get_from_cache, get_cache_by_socket,
  get_cache_by_hw_addr, get_cache_by_ip_addr,
}
use tour.Cache.Store.{Ptr, null, Entry, Cache, Heap, sockaddr_size}
use tour.Cache.Chain.{Cells, first, Chain, first_match, guarded_find}
use tour.Cache.Entries.{
  IsEntry, AreEntries, same_cell, tests-same, tests-socket, tests-hw, tests-ip,
}

-- No cell of the list passes the test.
abbrev pub NoneOf : (Ptr × Entry → Bool) → Cells → Type 0
NoneOf P = All (λ c. P c ≡ false)

-- Where the first cell that passes stands.
pub record Found (P : Ptr × Entry → Bool) (xs : Cells) (p : Ptr) : Type 0 where
  pub before : Cells
  pub entry : Entry
  pub after : Cells
  pub position : xs ≡ before ++ ((p, entry) ∷ after)
  pub skipped : NoneOf P before
  pub passes : P (p, entry) ≡ true

-- The first match is found where it stands, or no cell passes and the answer is NULL.
pub first_match-Found :
    (P : Ptr × Entry → Bool) (xs : Cells)
    → Found P xs (first_match P xs) ⊎ (NoneOf P xs × (first_match P xs ≡ null))
unfolding first_match
first_match-Found P [] = inr (tt, refl)
first_match-Found P ((a, e) ∷ xs) = elim (Bool-cases (P (a, e))) [
  | inl hit ↦ rw hit (
      inl (record {
        before = [];
        entry = e;
        after = xs;
        position = refl;
        skipped = tt;
        passes = hit;
      }))
  | inr miss ↦ rw miss (elim (first_match-Found P xs) [
    | inl f ↦ inl (record {
      before = (a, e) ∷ f.before;
      entry = f.entry;
      after = f.after;
      position = (λ i. (a, e) ∷ f.position i);
      skipped = (miss, f.skipped);
      passes = f.passes;
    })
    | inr (others, e') ↦ inr ((refl, others), e')
  ])
]

pub first_match-append :
    (P : Ptr × Entry → Bool) (ys us : Cells)
    → NoneOf P ys
    → first_match P (ys ++ us) ≡ first_match P us
unfolding first_match
first_match-append P [] us n = refl
first_match-append P ((a, e) ∷ ys) us (miss, n) = rw miss (first_match-append P ys us n)

-- What a lookup answers: the node where the first passing cell stands, or NULL if none passes.
abbrev pub Answer : (Ptr × Entry → Bool) → Cells → Ptr → Type 0
Answer P xs p = Found P xs p ⊎ (NoneOf P xs × (p ≡ null))

pub NoneOf-position :
    (P : Ptr × Entry → Bool) (before : Cells) (c : Ptr × Entry) (after : Cells)
    → NoneOf P (before ++ (c ∷ after))
    → P c ≡ false
NoneOf-position P [] c after v = v.0
NoneOf-position P (x ∷ before) c after v = NoneOf-position P before c after v.1

-- Where no cell passes the answer is NULL.
pub Answer-null :
    (P : Ptr × Entry → Bool) (xs : Cells) (p : Ptr) → NoneOf P xs → Answer P xs p → p ≡ null
Answer-null P xs p v (inr (_, e)) = e
Answer-null P xs p v (inl f) =
    let miss : P (p, f.entry) ≡ false =
      NoneOf-position P f.before (p, f.entry) f.after (rw (f.position) at v) in
    absurd (ground (arith, f.passes))

-- Whether an entry's hardware address is `if_haddr`, in the entry's own length.
abbrev pub has_hw_prefix : Bytes → Ptr × Entry → Bool
has_hw_prefix if_haddr x =
    bytes_eq (take x.1.hw.sll_halen x.1.hw.sll_addr) (take x.1.hw.sll_halen if_haddr)

module _ (h : Heap) (b : Ptr) (xs : Cells) (k : ℕ) (c : Chain h b xs) (fuel : length xs < k) where
  -- On a list of entries of the declared sizes, getFromCache returns the first node that is the
  -- given one or has its interface, hardware address and IP address, NULL if there is none, and
  -- changes nothing.
  pub get_from_cache-first :
      (q : Ptr) {d : Cache}
      → q ≢ null
      → h q ≡ some d
      → IsEntry d.entry
      → AreEntries xs
      → (p : Ptr) × (get_from_cache k (first xs) q h ≡ ok p h) × Answer (same_cell q d.entry) xs p
  unfolding get_from_cache
  get_from_cache-first q {d} nq eq vq v =
      let live : (q == null) ≡ false = ground arith in
      (
        first_match (same_cell q d.entry) xs,
        rw live (
            guarded_find (λ p. is_same_cache p q) (same_cell q d.entry) k b xs c
              (tests-same h q b xs nq eq vq c v) fuel),
        first_match-Found (same_cell q d.entry) xs,
      )

  -- getCacheBySocket returns the first node with the socket, NULL if there is none, and changes
  -- nothing.
  pub get_cache_by_socket-first :
      (sock : ℤ)
      → (p : Ptr) × (get_cache_by_socket k (first xs) sock h ≡ ok p h)
        × Answer (λ x. eqb_ℤ x.1.domain_socket sock) xs p
  unfolding get_cache_by_socket
  get_cache_by_socket-first sock = (
    first_match (λ x. eqb_ℤ x.1.domain_socket sock) xs,
    guarded_find (has_socket sock) (λ x. eqb_ℤ x.1.domain_socket sock) k b xs c
        (tests-socket h sock b xs c) fuel,
    first_match-Found (λ x. eqb_ℤ x.1.domain_socket sock) xs,
  )

  -- On a list of entries of the declared sizes and an address of at least eight bytes,
  -- getCacheByHWAddr returns the first node whose address agrees with it in the node's own length,
  -- NULL if there is none, and changes nothing.
  pub get_cache_by_hw_addr-first :
      (if_haddr : Bytes)
      → 8 ≤ length if_haddr
      → AreEntries xs
      → (p : Ptr) × (get_cache_by_hw_addr k (first xs) (some if_haddr) h ≡ ok p h)
        × Answer (has_hw_prefix if_haddr) xs p
  unfolding get_cache_by_hw_addr
  get_cache_by_hw_addr-first if_haddr long v = (
    first_match (has_hw_prefix if_haddr) xs,
    guarded_find (has_hw_addr if_haddr) (has_hw_prefix if_haddr) k b xs c
        (tests-hw h if_haddr b xs long c v) fuel,
    first_match-Found (has_hw_prefix if_haddr) xs,
  )

  -- On a list of entries of the declared sizes, getCacheByIpAddr returns the first node whose
  -- sixteen address bytes are the given ones, NULL if there is none, and changes nothing.
  pub get_cache_by_ip_addr-first :
      (ipaddress : Bytes)
      → length ipaddress ≡ sockaddr_size
      → AreEntries xs
      → (p : Ptr) × (get_cache_by_ip_addr k (first xs) (some ipaddress) h ≡ ok p h)
        × Answer (λ x. bytes_eq x.1.ipaddress ipaddress) xs p
  unfolding get_cache_by_ip_addr
  get_cache_by_ip_addr-first ipaddress size v = (
    first_match (λ x. bytes_eq x.1.ipaddress ipaddress) xs,
    guarded_find (has_ip_addr ipaddress) (λ x. bytes_eq x.1.ipaddress ipaddress) k b xs c
        (tests-ip h ipaddress b xs size c v) fuel,
    first_match-Found (λ x. bytes_eq x.1.ipaddress ipaddress) xs,
  )
