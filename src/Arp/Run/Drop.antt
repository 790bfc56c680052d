-- ===== src/Arp/Run/Drop.antt =====
-- run_arp of arp.c: the removal of a client.
use tour.Base.{
  ℕ, ◌<◌, ◌≡◌, ◌≢◌, refl, sym, ◌∙◌, Bool, true, false, none, some, List, [], ◌∷◌, ◌++◌, arith,
  append_assoc, ◌==◌, ◌||◌, minus_one, length, ok, length-append, ==_refl,
}
use tour.Cache.{remove_from_cache}
use tour.Cache.Store.{Ptr, null, Entry, node, Heap, write}
use tour.Cache.Chain.{
  Cells, first, first-append, last_or, Chain, Chain-set, Chain-suffix, write_self,
}
use tour.Cache.Entries.{IsEntry, AreEntries, AreEntries-at, AreEntries-set, matches, same_cell}
use tour.Cache.Lookup.{NoneOf}
use tour.Cache.Remove.{remove_from_cache-second}
use tour.Cache.Dangling.{remove_from_cache-head}
use tour.World.{System, Daemon, close}
use tour.World.OnHeap.{on_heap-load, on_heap-store, on_head-ok}
use tour.Arp.Device.{HwaInfo}
use tour.Arp.Run.{drop_client}

-- The entry of a client whose socket has been closed.
abbrev pub closed : Entry → Entry
closed f = record f { domain_socket = minus_one }

closed-IsEntry : (f : Entry) → IsEntry f → IsEntry (closed f)
closed-IsEntry f v = record { ip_size = v.ip_size; addr_size = v.addr_size; halen = v.halen }

last_or-append : (b : Ptr) (ys : Cells) (p : Ptr) (d : Entry) → last_or b (ys ++ ((p, d) ∷ [])) ≡ p
last_or-append b [] p d = refl
last_or-append b ((q, e) ∷ ys) p d = last_or-append q ys p d

same_lengths :
    (ys : Cells) (p a : Ptr) (d f : Entry) (zs : Cells)
    → length (ys ++ ((p, d) ∷ ((a, closed f) ∷ zs))) ≡ length (ys ++ ((p, d) ∷ ((a, f) ∷ zs)))
same_lengths ys p a d f zs = omega (
  arith,
  length-append ys ((p, d) ∷ ((a, closed f) ∷ zs)),
  length-append ys ((p, d) ∷ ((a, f) ∷ zs)),
)

third :
    (ys : Cells) (p a : Ptr) (d f : Entry) (zs : Cells)
    → AreEntries (ys ++ ((p, d) ∷ ((a, f) ∷ zs)))
    → IsEntry f
third [] p a d f zs v = v.1.0
third (y ∷ ys) p a d f zs v = third ys p a d f zs v.1

-- The descriptor has no part in the comparison.
matches_either : (b : Bool) (e f : Entry) → matches e f ≡ true → (b || matches e (closed f)) ≡ true
unfolding matches
matches_either true e f h = refl
matches_either false e f h = h

-- The node of a client, and the heap when it is marked as closed.
module _ (h : Heap) (b : Ptr) (ys : Cells) (p a : Ptr) (d f : Entry) (zs : Cells)
    (c : Chain h b (ys ++ ((p, d) ∷ ((a, f) ∷ zs))))
    (v : AreEntries (ys ++ ((p, d) ∷ ((a, f) ∷ zs)))) where
  abbrev before_it : Cells
  before_it = ys ++ ((p, d) ∷ [])

  regroup : (e : Entry) → before_it ++ ((a, e) ∷ zs) ≡ ys ++ ((p, d) ∷ ((a, e) ∷ zs))
  regroup e = append_assoc ys ((p, d) ∷ []) ((a, e) ∷ zs)

  at_node : (a ≢ null) × (h a ≡ some (node f (first zs) p))
  at_node = let part = Chain-suffix h b ys ((p, d) ∷ ((a, f) ∷ zs)) c in (part.3.0, part.3.1)

  abbrev marked : Heap
  marked = write h a (some (node (closed f) (first zs) p))

  last_before : last_or b before_it ≡ p
  last_before = last_or-append b ys p d

  marked-Chain : Chain marked b (ys ++ ((p, d) ∷ ((a, closed f) ∷ zs)))
  marked-Chain =
      let c' : Chain h b (before_it ++ ((a, f) ∷ zs)) = rw (regroup f) c in
      rw (regroup (closed f), last_before) at (Chain-set h b before_it a f (closed f) zs c')

  marked-AreEntries : AreEntries (ys ++ ((p, d) ∷ ((a, closed f) ∷ zs)))
  marked-AreEntries =
      let v' : AreEntries (before_it ++ ((a, f) ∷ zs)) = rw (regroup f) v in
      rw (regroup (closed f)) at (
        AreEntries-set before_it a f (closed f) zs v'
          (closed-IsEntry f (AreEntries-at before_it a f zs v')))

module _ (sys : System) (fuel : ℕ) (devices : List HwaInfo) (s : Daemon) where
  -- On a well-formed cache of entries of the declared sizes, with a round for each node and one more:
  -- the client of an entry that has another before it, and is the same as none before it, is dropped.
  -- Its descriptor is closed, its entry is freed and taken out of the list, and the head stays.
  pub drop_client-second :
      (b : Ptr) (ys : Cells) (p a : Ptr) (d f : Entry) (zs : Cells)
      → let xs : Cells = ys ++ ((p, d) ∷ ((a, f) ∷ zs)) in
        s.cache ≡ first xs
        → Chain s.heap b xs
        → AreEntries xs
        → NoneOf (same_cell a (closed f)) ys
        → same_cell a (closed f) (p, d) ≡ false
        → length xs < fuel
        → (g : Heap) × (drop_client sys fuel devices a s
            ≡ ok tt
                (record { heap = g; cache = first xs; trace = close f.domain_socket ∷ s.trace }))
          × Chain g b (ys ++ ((p, d) ∷ zs))
          × (g a ≡ none)
  unfolding drop_client
  drop_client-second b ys p a d f zs head c v before miss enough =
      let xs : Cells = ys ++ ((p, d) ∷ ((a, f) ∷ zs)) in
      let xs' : Cells = ys ++ ((p, d) ∷ ((a, closed f) ∷ zs)) in
      let h1 = marked s.heap b ys p a d f zs c v in
      let (ne, at) = at_node s.heap b ys p a d f zs c v in
      let s1 : Daemon = record s { trace = close f.domain_socket ∷ s.trace } in
      let same_head : first xs ≡ first xs' =
        first-append ys ((p, d) ∷ ((a, f) ∷ zs)) ((p, d) ∷ ((a, closed f) ∷ zs)) refl in
      let hit : same_cell a (closed f) (a, closed f) ≡ true = rw (==_refl a) refl in
      let same_length : length xs' ≡ length xs = same_lengths ys p a d f zs in
      let (g, ran, linked, gone, others) =
        remove_from_cache-second h1 a ne (write_self s.heap a (some (node (closed f) (first zs) p)))
          (closed-IsEntry f (third ys p a d f zs v)) b ys p a d (closed f) zs fuel
          (marked-Chain s.heap b ys p a d f zs c v) (marked-AreEntries s.heap b ys p a d f zs c v)
          before miss hit (omega (arith, same_length)) in
      (
        g,
        rw
            (
              on_heap-load s a ne at,
              on_heap-store s1 a ne at (node (closed f) (first zs) p),
              on_head-ok (λ l. remove_from_cache fuel (some l) a) (record s1 { heap = h1 })
                  (first xs') (head ∙ same_head) (true, some (first xs')) g ran,
              sym same_head,
            )
            refl,
        linked,
        gone,
      )

  -- On a well-formed cache of entries of the declared sizes, with a round for each node and one more,
  -- where the first two entries are the same to isSameCache though two clients have them, as before
  -- either has asked for an address: dropping the second client frees the first one's entry. The
  -- second one's is the new head, with the descriptor -1 and a `prev` that leads to the freed entry.
  pub drop_client-other :
      (a c : Ptr) (e f : Entry) (zs : Cells)
      → s.cache ≡ a
      → Chain s.heap null ((a, e) ∷ ((c, f) ∷ zs))
      → AreEntries ((a, e) ∷ ((c, f) ∷ zs))
      → matches e f ≡ true
      → length ((a, e) ∷ ((c, f) ∷ zs)) < fuel
      → (g : Heap) × (drop_client sys fuel devices c s
          ≡ ok tt (record { heap = g; cache = c; trace = close f.domain_socket ∷ s.trace }))
        × (g a ≡ none)
        × (g c ≡ some (node (closed f) (first zs) a))
  unfolding drop_client
  drop_client-other a c e f zs head chain v alike enough =
      let h1 = marked s.heap null [] a c e f zs chain v in
      let (ne, at) = at_node s.heap null [] a c e f zs chain v in
      let s1 : Daemon = record s { trace = close f.domain_socket ∷ s.trace } in
      let new = node (closed f) (first zs) a in
      let linked1 = marked-Chain s.heap null [] a c e f zs chain v in
      let hit : same_cell c (closed f) (a, e) ≡ true = matches_either (a == c) e f alike in
      let (ran, linked, gone) =
        remove_from_cache-head h1 a e ((c, closed f) ∷ zs) c fuel ne
          (write_self s.heap c (some new)) (closed-IsEntry f v.1.0) linked1
          (marked-AreEntries s.heap null [] a c e f zs chain v) hit enough in
      (
        write h1 a none,
        rw
            (
              on_heap-load s c ne at,
              on_heap-store s1 c ne at new,
              on_head-ok (λ l. remove_from_cache fuel (some l) c) (record s1 { heap = h1 }) a head
                  (true, some c) (write h1 a none) ran,
            )
            refl,
        gone,
        linked.1,
      )
