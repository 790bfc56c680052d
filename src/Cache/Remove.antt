-- ===== src/Cache/Remove.antt =====
-- removeFromCache of cache.c.
use tour.Base.{
  ℕ, ◌<◌, ◌≡◌, refl, ◌∙◌, ◌≢◌, true, false, none, some, [], ◌∷◌, ◌++◌, arith, ◌==◌, length, ok,
}
use tour.Cache.{is_same_cache, unlink, remove_from_cache}
use tour.Cache.Store.{Ptr, null, Entry, Cache, node, Heap, write}
use tour.Cache.Chain.{
  Cells, first, last_or, ◌∈◌, ◌∉◌, Chain, SameOutside, stands_at-append, ne_of_not_mem,
  Chain-disjoint, not-mem-tail, Chain-frame, Chain-suffix, Chain-replace, first_match,
  find_loop-first_match, load-ok, write-other, free-ok, set_next-ok, set_prev-ok,
}
use tour.Cache.Entries.{IsEntry, AreEntries, same_cell, tests-same}
use tour.Cache.Lookup.{NoneOf, first_match-append}

-- The heap after a node behind `p` is taken out: `p` leads to `zs`, whose first node leads back.
abbrev pub bypassed : Heap → (p : Ptr) → Entry → (before : Ptr) → (a : Ptr) → Cells → Heap
bypassed h p d before a [] = write (write h p (some (node d null before))) a none
bypassed h p d before a ((q, e) ∷ zs) =
    write (write (write h p (some (node d q before))) q (some (node e (first zs) p))) a none

module _ (h : Heap) (b p a list : Ptr) (d e : Entry) where
  -- Taking out the second node of a chain.
  pub unlink-second :
      (zs : Cells)
      → Chain h b ((p, d) ∷ ((a, e) ∷ zs))
      → (unlink list a h ≡ ok list (bypassed h p d b a zs))
        × Chain (bypassed h p d b a zs) b ((p, d) ∷ zs)
  unfolding unlink write
  unlink-second [] (np, atp, outp, (na, ata, outa, k)) =
      let live : (p == null) ≡ false = ground arith in
      let h1 = write h p (some (node d null b)) in
      let apart : a ≢ p = ground arith in
      (
        rw (
          load-ok h a na ata,
          live,
          set_next-ok h p np atp null,
          free-ok h1 a {c = node e null p} na (ground arith),
        ),
        (np, ground arith, refl, tt),
      )
  unlink-second ((q, x) ∷ zs) (np, atp, outp, (na, ata, outa, (nq, atq, outq, k))) =
      let live : (p == null) ≡ false = ground arith in
      let more : (q == null) ≡ false = ground arith in
      let h1 = write h p (some (node d q b)) in
      let h2 = write h1 q (some (node x (first zs) p)) in
      let g = write h2 a none in
      let apart : a ≢ p = ne_of_not_mem p a e ((q, x) ∷ zs) outp in
      let apart' : a ≢ q = ground arith in
      let outp' : p ∉ ((q, x) ∷ zs) = not-mem-tail p a e ((q, x) ∷ zs) outp in
      let apart'' : q ≢ p = ne_of_not_mem p q x zs outp' in
      (
        rw (
          load-ok h a na ata,
          live,
          set_next-ok h p np atp q,
          more,
          set_prev-ok h1 q {c = node x (first zs) a} nq (ground arith) p,
          free-ok h2 a {c = node e q p} na (
              write-other h1 q a (some (node x (first zs) p)) apart'
              ∙ write-other h p a (some (node d q b)) apart
              ∙ ata),
        ),
        (
          np,
          ground arith,
          ground arith,
          (nq, ground arith, outq, Chain-frame h g q zs k (ground arith)),
        ),
      )

bypassed-other :
    (h : Heap) (p : Ptr) (d : Entry) (before a : Ptr) (e : Entry) (zs : Cells) (c : Ptr)
    → c ∉ ((p, d) ∷ ((a, e) ∷ zs))
    → bypassed h p d before a zs c ≡ h c
unfolding write
bypassed-other h p d before a e [] c out = ground arith
bypassed-other h p d before a e ((q, x) ∷ zs) c out = ground arith

bypassed_self :
    (h : Heap) (p : Ptr) (d : Entry) (before a : Ptr) (zs : Cells)
    → bypassed h p d before a zs a ≡ none
unfolding write
bypassed_self h p d before a [] = ground arith
bypassed_self h p d before a ((q, x) ∷ zs) = ground arith

skip_middle :
    (c p a : Ptr) (d e : Entry) (zs : Cells) → c ∉ ((p, d) ∷ ((a, e) ∷ zs)) → c ∉ ((p, d) ∷ zs)
skip_middle c p a d e zs out = ground arith

rest_out : (x : Ptr) (ys us : Cells) → x ∉ (ys ++ us) → x ∉ us
rest_out x ys us out = ground (arith, stands_at-append x ys us)

not_null : (a : Ptr) → a ≢ null → (a == null) ≡ false
not_null a ne = ground arith

module _ (h : Heap) (q : Ptr) {r : Cache} (nq : q ≢ null) (atq : h q ≡ some r)
    (vq : IsEntry r.entry) where
  -- On a well-formed list of entries of the declared sizes, with a round for each node and one more,
  -- removeFromCache on a node that has another before it: the first node that is the same as
  -- `entry` is taken out and freed, the links around it are whole, the head stays, and no address
  -- outside the list is written.
  pub remove_from_cache-second :
      (b : Ptr) (ys : Cells) (p a : Ptr) (d e : Entry) (zs : Cells) (k : ℕ)
      → Chain h b (ys ++ ((p, d) ∷ ((a, e) ∷ zs)))
      → AreEntries (ys ++ ((p, d) ∷ ((a, e) ∷ zs)))
      → NoneOf (same_cell q r.entry) ys
      → same_cell q r.entry (p, d) ≡ false
      → same_cell q r.entry (a, e) ≡ true
      → length (ys ++ ((p, d) ∷ ((a, e) ∷ zs))) < k
      → (g : Heap) × (remove_from_cache k (some (first (ys ++ ((p, d) ∷ ((a, e) ∷ zs))))) q h
          ≡ ok (true, some (first (ys ++ ((p, d) ∷ ((a, e) ∷ zs))))) g)
        × Chain g b (ys ++ ((p, d) ∷ zs))
        × (g a ≡ none)
        × SameOutside (ys ++ ((p, d) ∷ ((a, e) ∷ zs))) h g
  unfolding remove_from_cache first_match
  remove_from_cache-second b ys p a d e zs k c v none_before miss hit fuel =
      let tail = (p, d) ∷ ((a, e) ∷ zs) in
      let xs = ys ++ tail in
      let g = bypassed h p d (last_or b ys) a zs in
      let part = Chain-suffix h b ys tail c in
      let done = unlink-second h (last_or b ys) p a (first xs) d e zs part in
      let live : (q == null) ≡ false = ground arith in
      let found : (a == null) ≡ false = not_null a part.3.0 in
      let spared : (x : Ptr) → x ∈ ys → x ∉ tail = λ x i. Chain-disjoint h b x ys tail c i in
      (
        g,
        rw
            (
              live,
              find_loop-first_match (λ x. is_same_cache x q) (same_cell q r.entry) k b xs c
                  (tests-same h q b xs nq atq vq c v) fuel,
              first_match-append (same_cell q r.entry) ys tail none_before,
              miss,
              hit,
              found,
              done.0,
            )
            refl,
        Chain-replace h g b ys tail ((p, d) ∷ zs) refl c done.1
            (λ x i. bypassed-other h p d (last_or b ys) a e zs x (spared x i))
            (λ x i. skip_middle x p a d e zs (spared x i)),
        bypassed_self h p d (last_or b ys) a zs,
        λ x out. bypassed-other h p d (last_or b ys) a e zs x (rest_out x ys tail out),
      )
