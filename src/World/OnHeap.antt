-- ===== src/World/OnHeap.antt =====
-- A command on the heap, run by the daemon, changes the heap alone.
use tour.Base.{true, ◌∷◌, ap, ◌∙◌, ◌≡◌, ◌≢◌, some, ok, fault, Cmd}
use tour.Cache.Store.{Ptr, null, Cache, Heap, load, store, write}
use tour.Cache.Chain.{Cells, first, ◌∉◌, Chain, load-ok, store-ok}
use tour.Cache.Insert.{add_to_cache-Chain}
use tour.Cache.{add_to_cache}
use tour.World.{Daemon, on_heap}

pub on_heap-ok :
    {A : Type 0} (m : Cmd Heap A) (s : Daemon) (a : A) (h : Heap)
    → m s.heap ≡ ok a h
    → on_heap m s ≡ ok a (record s { heap = h })
unfolding on_heap
on_heap-ok m s a h e = rw (e, on_heap)

pub on_heap-fault :
    {A : Type 0} (m : Cmd Heap A) (s : Daemon) → m s.heap ≡ fault → on_heap m s ≡ fault
unfolding on_heap
on_heap-fault m s e = rw (e, on_heap)

module _ (s : Daemon) (a : Ptr) {c : Cache} (ne : a ≢ null) (at : s.heap a ≡ some c) where
  pub on_heap-load : on_heap (load a) s ≡ ok c s
  on_heap-load = on_heap-ok (load a) s c s.heap (load-ok s.heap a ne at)

  pub on_heap-store :
      (d : Cache) → on_heap (store a d) s ≡ ok tt (record s { heap = write s.heap a (some d) })
  on_heap-store d =
      on_heap-ok (store a d) s tt (write s.heap a (some d)) (store-ok s.heap a ne at d)

-- A command on the head of the cache list, which the daemon's static `cache` points to.
module _ {A : Type 0} (m : Ptr → Cmd Heap A) (s : Daemon) (p : Ptr) (head : s.cache ≡ p) where
  pub on_head-ok :
      (a : A) (h : Heap)
      → m p s.heap ≡ ok a h
      → on_heap (m s.cache) s ≡ ok a (record s { heap = h })
  on_head-ok a h e = ap (λ q. on_heap (m q) s) head ∙ on_heap-ok (m p) s a h e

  pub on_head-fault : m p s.heap ≡ fault → on_heap (m s.cache) s ≡ fault
  on_head-fault e = ap (λ q. on_heap (m q) s) head ∙ on_heap-fault (m p) s e

-- A node that is not in the list is put in front of it.
module _ (s : Daemon) (p b : Ptr) {c : Cache} (xs : Cells) (ne : p ≢ null) (at : s.heap p ≡ some c)
    (head : s.cache ≡ first xs) (chain : Chain s.heap b xs) (out : p ∉ xs) where
  pub on_head-add :
      (g : Heap) × (on_heap (add_to_cache (some s.cache) p) s
        ≡ ok (true, some p) (record s { heap = g }))
      × Chain g null ((p, c.entry) ∷ xs)
      × ((q : Ptr) → q ≢ p → q ≢ first xs → g q ≡ s.heap q)
  on_head-add =
      let (g, (ran, linked, others)) = add_to_cache-Chain s.heap p b ne at xs chain out in
      (
        g,
        on_head-ok (λ q. add_to_cache (some q) p) s (first xs) head (true, some p) g ran,
        linked,
        others,
      )
