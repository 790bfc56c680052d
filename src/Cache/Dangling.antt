-- ===== src/Cache/Dangling.antt =====
-- removeFromCache of cache.c at the head of the list.
use tour.Base.{
  ℕ, suc, ◌<◌, ◌≡◌, ◌≢◌, ◌∙◌, true, false, none, some, ◌∷◌, arith, ◌==◌, ==_refl, length, ok, fault,
  pure, ◌>>=◌,
}
use tour.Cache.{find_loop, is_same_cache, unlink, remove_from_cache}
use tour.Cache.Store.{Ptr, null, Entry, Cache, node, Heap, write, load, set_next}
use tour.Cache.Chain.{
  Cells, first, Chain, Chain-write, load-ok, free-ok, write_self, write-other, ne_of_not_mem,
  find_loop-first_match, first_match,
}
use tour.Cache.Entries.{IsEntry, AreEntries, same_cell, tests-same}

is_null-false : (a : Ptr) → a ≢ null → (a == null) ≡ false
is_null-false a ne = ground arith

module _ (h : Heap) (a : Ptr) (e : Entry) (zs : Cells) where
  unlink-head :
      (list : Ptr) → Chain h null ((a, e) ∷ zs) → unlink list a h ≡ ok (first zs) (write h a none)
  unfolding unlink
  unlink-head list (na, ata, outa, c) = rw (load-ok h a na ata, free-ok h a na ata)

  -- On a well-formed list of entries of the declared sizes, with a round for each node and one more,
  -- where the head is the first node that is the same as `entry`, removeFromCache frees it and
  -- returns its successor as the head. The rest is linked as before: its first node's `prev` still
  -- leads to the freed address.
  pub remove_from_cache-head :
      (q : Ptr) {r : Cache} (k : ℕ)
      → q ≢ null
      → h q ≡ some r
      → IsEntry r.entry
      → Chain h null ((a, e) ∷ zs)
      → AreEntries ((a, e) ∷ zs)
      → same_cell q r.entry (a, e) ≡ true
      → length ((a, e) ∷ zs) < k
      → (remove_from_cache k (some a) q h ≡ ok (true, some (first zs)) (write h a none))
        × Chain (write h a none) a zs
        × (write h a none a ≡ none)
  unfolding remove_from_cache first_match
  remove_from_cache-head q {r} k nq atq vq c v hit fuel = (
    rw (
      is_null-false q nq,
      find_loop-first_match (λ x. is_same_cache x q) (same_cell q r.entry) k null ((a, e) ∷ zs) c
          (tests-same h q null ((a, e) ∷ zs) nq atq vq c v) fuel,
      hit,
      is_null-false a c.0,
      unlink-head a c,
    ),
    Chain-write h a zs a none c.3 c.2,
    write_self h a none,
  )

-- A node is the same as itself, whatever it holds.
remove_self :
    (h : Heap) (a : Ptr) (k : ℕ)
    → a ≢ null
    → remove_from_cache (suc k) (some a) a h ≡ (unlink a a >>= λ head. pure (true, some head)) h
unfolding remove_from_cache find_loop is_same_cache
remove_self h a k ne = rw (is_null-false a ne, ==_refl a, is_null-false a ne)

load-none : (h : Heap) (a : Ptr) → h a ≡ none → load a h ≡ fault
unfolding load
load-none h a e = ground arith

-- On a well-formed list of at least two nodes, taking the head out and then the new head, each by
-- its own pointer, writes through a freed pointer.
pub remove_from_cache-twice_faults :
    (h : Heap) (a c : Ptr) (e f : Entry) (ws : Cells) (k : ℕ)
    → Chain h null ((a, e) ∷ ((c, f) ∷ ws))
    → (g : Heap) × (remove_from_cache (suc k) (some a) a h ≡ ok (true, some c) g)
      × (remove_from_cache (suc k) (some c) c g ≡ fault)
unfolding unlink set_next
remove_from_cache-twice_faults h a c e f ws k (na, ata, outa, (nc, atc, outc, l)) =
    let g = write h a none in
    let apart : c ≢ a = ne_of_not_mem a c f ws outa in
    (
      g,
      rw (
        remove_self h a k na,
        unlink-head h a e ((c, f) ∷ ws) a (na, ata, outa, (nc, atc, outc, l)),
      ),
      rw (
        remove_self g c k nc,
        load-ok g c {c = node f (first ws) a} nc (write-other h a c none apart ∙ atc),
        is_null-false a na,
        load-none g a (write_self h a none),
      ),
    )
