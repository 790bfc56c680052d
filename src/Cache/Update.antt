-- ===== src/Cache/Update.antt =====
-- updateCache of cache.c.
use tour.Base.{
  ℕ, ◌<◌, ◌≡◌, refl, ◌≢◌, true, false, some, [], ◌∷◌, ◌++◌, arith, ◌==◌, length, ok, take, drop,
  read_at, write_at, length-take,
}
use tour.Cache.{is_same_cache, updated, update_cache}
use tour.Cache.Store.{Ptr, null, Entry, Cache, node, Heap, write}
use tour.Cache.Chain.{
  Cells, first, last_or, Chain, Chain-suffix, Chain-set, first_match, find_loop-first_match,
  load-ok, store-ok, write-other,
}
use tour.Cache.Entries.{IsEntry, AreEntries, same_cell, tests-same}
use tour.Cache.Lookup.{NoneOf, first_match-append}

-- The payload that the found node has afterwards: the other's IP address, interface and hardware
-- type, and the first `sll_halen` bytes of its hardware address before what the node had behind.
unfoldable pub merged : Entry → Entry → Entry
merged old new = record old {
  ipaddress = new.ipaddress;
  hw = record (old.hw) {
    sll_ifindex = new.hw.sll_ifindex;
    sll_hatype = new.hw.sll_hatype;
    sll_addr = take new.hw.sll_halen new.hw.sll_addr ++ drop new.hw.sll_halen old.hw.sll_addr;
  };
}

pub updated-merged :
    (old new : Entry) → IsEntry old → IsEntry new → updated old new ≡ some (merged old new)
unfolding updated merged read_at write_at
updated-merged old new vo vn =
    ground
      (arith, vo.addr_size, vn.addr_size, vn.halen, length-take new.hw.sll_halen new.hw.sll_addr)

null-false : (a : Ptr) → a ≢ null → (a == null) ≡ false
null-false a ne = ground arith

first-ne :
    (h : Heap) (b : Ptr) (ys : Cells) (a : Ptr) (e : Entry) (zs : Cells)
    → Chain h b (ys ++ ((a, e) ∷ zs))
    → first (ys ++ ((a, e) ∷ zs)) ≢ null
first-ne h b [] a e zs c = c.0
first-ne h b ((p, d) ∷ ys) a e zs c = c.0

module _ (h : Heap) (q : Ptr) {r : Cache} (nq : q ≢ null) (atq : h q ≡ some r)
    (vq : IsEntry r.entry) where
  -- On a well-formed list of entries of the declared sizes, with a round for each node and one more,
  -- updateCache changes the first node that is the same as `entry`, to the merged payload, and
  -- nothing else: the other nodes, their order and every link stay.
  pub update_cache-merged :
      (b : Ptr) (ys : Cells) (a : Ptr) (e : Entry) (zs : Cells) (k : ℕ)
      → Chain h b (ys ++ ((a, e) ∷ zs))
      → AreEntries (ys ++ ((a, e) ∷ zs))
      → IsEntry e
      → NoneOf (same_cell q r.entry) ys
      → same_cell q r.entry (a, e) ≡ true
      → length (ys ++ ((a, e) ∷ zs)) < k
      → (g : Heap) × (update_cache k (first (ys ++ ((a, e) ∷ zs))) q h ≡ ok true g)
        × Chain g b (ys ++ ((a, merged e r.entry) ∷ zs))
        × ((p : Ptr) → p ≢ a → g p ≡ h p)
  unfolding update_cache first_match
  update_cache-merged b ys a e zs k c v ve none_before hit fuel =
      let tail = (a, e) ∷ zs in
      let xs = ys ++ tail in
      let new = node (merged e r.entry) (first zs) (last_or b ys) in
      let g = write h a (some new) in
      let part = Chain-suffix h b ys tail c in
      (
        g,
        rw
            (
              null-false (first xs) (first-ne h b ys a e zs c),
              null-false q nq,
              find_loop-first_match (λ x. is_same_cache x q) (same_cell q r.entry) k b xs c
                  (tests-same h q b xs nq atq vq c v) fuel,
              first_match-append (same_cell q r.entry) ys tail none_before,
              hit,
              null-false a part.0,
              load-ok h a part.0 part.1,
              load-ok h q nq atq,
              updated-merged e r.entry ve vq,
              store-ok h a part.0 part.1 new,
            )
            refl,
        Chain-set h b ys a e (merged e r.entry) zs c,
        λ p ne. write-other h a p (some new) ne,
      )
