-- ===== src/Cache/Release.antt =====
-- cache_size and free_cache of minunit_cache.c, which the tests of the cache count and free a list
-- with.
use tour.Base.{
  ℕ, zero, suc, ◌+◌, ◌<◌, ◌≡◌, ◌≢◌, refl, sym, ap, ◌∙◌, true, false, Option, none, some, [], ◌∷◌,
  arith, ◌==◌, if◌then◌else◌, length, ok, out_of_fuel, Cmd, pure, ◌>>=◌, ◌>>◌,
}
use tour.Cache.{add_to_cache}
use tour.Cache.Store.{Ptr, null, Entry, Cache, Heap, load, free, write}
use tour.Cache.Chain.{
  Cells, first, ◌∉◌, ◌∈◌, Chain, SameOutside, load-ok, free-ok, write-other, not-mem-tail,
  ne_of_not_mem,
}
use tour.Cache.Insert.{add_to_cache-Chain}

-- The loop of cache_size.
unfoldable pub size_loop : ℕ → ℕ → Ptr → Cmd Heap ℕ
size_loop zero size p = λ _. out_of_fuel
size_loop (suc k) size p =
    if p == null then pure size else do c ← load p; size_loop k (suc size) c.next

unfoldable pub cache_size : ℕ → Ptr → Cmd Heap ℕ
cache_size fuel list = size_loop fuel 0 list

-- The nodes behind an entry are freed before it.
unfoldable pub free_cache_entry : ℕ → Ptr → Cmd Heap (Unit {0})
free_cache_entry zero entry = λ _. out_of_fuel
free_cache_entry (suc k) entry =
    if entry == null then pure tt else do c ← load entry; free_cache_entry k c.next; free entry

-- `list` is a `Cache **`, as in add_to_cache.
unfoldable pub free_cache : ℕ → Option Ptr → Cmd Heap (Option Ptr)
free_cache fuel none = pure none
free_cache fuel (some list) = free_cache_entry fuel list >> pure (some null)

module _ (h : Heap) where
  size_loop-length :
      (k n : ℕ) (b : Ptr) (xs : Cells)
      → Chain h b xs
      → length xs < k
      → size_loop k n (first xs) h ≡ ok (length xs + n) h
  unfolding size_loop
  size_loop-length zero n b xs c enough = absurd (omega arith)
  size_loop-length (suc k) n b [] c enough = ap (λ m. ok m h) (omega arith)
  size_loop-length (suc k) n b ((a, e) ∷ xs) (ne, at, out, c) enough =
      let live : (a == null) ≡ false = ground arith in
      rw (live, load-ok h a ne at)
        (size_loop-length k (suc n) a xs c (omega arith) ∙ ap (λ m. ok m h) (omega arith))

  pub cache_size-length :
      (k : ℕ) (b : Ptr) (xs : Cells)
      → Chain h b xs
      → length xs < k
      → cache_size k (first xs) h ≡ ok (length xs) h
  unfolding cache_size
  cache_size-length k b xs c enough =
      size_loop-length k 0 b xs c enough ∙ ap (λ m. ok m h) (omega arith)

-- A node is added to a well-formed list that it is not in, with a round for each node and two more:
-- its size is the old one and one more, as test_create_cache expects.
pub cache_size-add_to_cache :
    (h : Heap) (a b : Ptr) {c : Cache} (k : ℕ) (xs : Cells)
    → a ≢ null
    → h a ≡ some c
    → Chain h b xs
    → a ∉ xs
    → length xs + 1 < k
    → (g : Heap) × (add_to_cache (some (first xs)) a h ≡ ok (true, some a) g)
      × (cache_size k a g ≡ ok (length xs + 1) g)
cache_size-add_to_cache h a b {c} k xs ne at chain out enough =
    let (g, (ran, linked, others)) = add_to_cache-Chain h a b ne at xs chain out in
    (
      g,
      ran,
      cache_size-length g k null ((a, c.entry) ∷ xs) linked (omega arith)
          ∙ ap (λ m. ok m g) (omega arith),
    )

-- Every node of the list has been freed, and no other.
abbrev pub Freed : Heap → Cells → Heap → Type 0
Freed h xs g = ((a : Ptr) → a ∈ xs → g a ≡ none) × SameOutside xs h g

write-freed :
    (g : Heap) (p a : Ptr) (e : Entry) (xs : Cells)
    → (p ∈ xs → g p ≡ none)
    → p ∈ ((a, e) ∷ xs)
    → write g a none p ≡ none
unfolding write
write-freed g p a e xs gone i = ground (arith, gone)

free_cache_entry-Freed :
    (k : ℕ) (h : Heap) (b : Ptr) (xs : Cells)
    → Chain h b xs
    → length xs < k
    → (g : Heap) × (free_cache_entry k (first xs) h ≡ ok tt g) × Freed h xs g
unfolding free_cache_entry
free_cache_entry-Freed zero h b xs c enough = absurd (omega arith)
free_cache_entry-Freed (suc k) h b [] c enough = (h, refl, ((λ a i. absurd (cc)), λ a out. refl))
free_cache_entry-Freed (suc k) h b ((a, e) ∷ xs) (ne, at, out, c) enough =
    let live : (a == null) ≡ false = ground arith in
    let (g, ran, (gone, same)) = free_cache_entry-Freed k h a xs c (omega arith) in
    (
      write g a none,
      rw (live, load-ok h a ne at, ran) (free-ok g a ne (same a out ∙ at)),
      (
        (λ p i. write-freed g p a e xs (gone p) i),
        λ p o.
            write-other g a p none (λ q. ne_of_not_mem p a e xs o (sym q))
            ∙ same p (not-mem-tail p a e xs o),
      ),
    )

-- On a well-formed list with a round for each node and one more, free_cache frees every node of the
-- list and no other, and *list is NULL.
pub free_cache-Freed :
    (k : ℕ) (h : Heap) (b : Ptr) (xs : Cells)
    → Chain h b xs
    → length xs < k
    → (g : Heap) × (free_cache k (some (first xs)) h ≡ ok (some null) g) × Freed h xs g
unfolding free_cache
free_cache-Freed k h b xs c enough =
    let (g, ran, freed) = free_cache_entry-Freed k h b xs c enough in (g, rw ran refl, freed)
