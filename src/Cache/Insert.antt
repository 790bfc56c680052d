-- ===== src/Cache/Insert.antt =====
-- addToCache of cache.c.
use tour.Base.{◌≡◌, ◌≢◌, true, some, [], ◌∷◌, arith, ok}
use tour.Cache.{add_to_cache}
use tour.Cache.Store.{Ptr, null, Entry, Cache, node, Heap, write}
use tour.Cache.Chain.{Cells, first, ◌∉◌, Chain, Chain-frame, set_next-ok, set_prev-ok}

-- What the head pointer and the heap are afterwards.
abbrev pub Added : Heap → Ptr → Entry → Cells → Heap → Type 0
Added h a e xs g =
    (add_to_cache (some (first xs)) a h ≡ ok (true, some a) g)
    × Chain g null ((a, e) ∷ xs)
    × ((p : Ptr) → p ≢ a → p ≢ first xs → g p ≡ h p)

module _ (h : Heap) (a b : Ptr) {c : Cache} (ne : a ≢ null) (at : h a ≡ some c) where
  -- addToCache puts a node that is not in the list in front. The links are whole afterwards, also
  -- where the old head had a wrong `prev`; no other node is written.
  pub add_to_cache-Chain :
      (xs : Cells) → Chain h b xs → a ∉ xs → (g : Heap) × Added h a c.entry xs g
  unfolding add_to_cache write
  add_to_cache-Chain [] k out =
      let step = record c { next = null } in
      let g = write (write h a (some step)) a (some (node c.entry null null)) in
      (
        g,
        (
          ground (
            arith,
            set_next-ok h a ne at null,
            set_prev-ok (write h a (some step)) a {c = step} ne (ground arith) null,
          ),
          ground arith,
          ground arith,
        ),
      )
  add_to_cache-Chain ((p, e) ∷ xs) (np, ap, op, k) out =
      let one = record c { next = p } in
      let two = node c.entry p null in
      let h1 = write h a (some one) in
      let h2 = write h1 a (some two) in
      let back = node e (first xs) a in
      let g = write h2 p (some back) in
      let apart : p ≢ a = ground arith in
      (
        g,
        (
          ground (
            arith,
            set_next-ok h a ne at p,
            set_prev-ok h1 a {c = one} ne (ground arith) null,
            set_prev-ok h2 p {c = node e (first xs) b} np (ground arith) a,
          ),
          (ne, ground arith, out, (np, ground arith, op, Chain-frame h g p xs k (ground arith))),
          ground arith,
        ),
      )
