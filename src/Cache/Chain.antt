-- ===== src/Cache/Chain.antt =====
-- What the links of the cache list stand for: the nodes in order, and the heap that holds them.
use mathlib.Core.Bool.{or_assoc}
use tour.Base.{
  ℕ, zero, suc, ◌<◌, ◌≡◌, refl, ap, ◌∙◌, ◌≢◌, Bool, true, false, ◌||◌, Option, none, some, List, [],
  ◌∷◌, ◌++◌, arith, ◌==◌, if◌then◌else◌, length, All, ok, Cmd, pure, Bool-cases, inl, inr,
}
use tour.Cache.{find_loop}
use tour.Cache.Store.{
  Ptr, null, Entry, Cache, node, Heap, write, load, store, free, set_next, set_prev,
}

-- Address and payload of each node, in order.
abbrev pub Cells : Type 0
Cells = List (Ptr × Entry)

-- Whether a node of the list is at the address.
abbrev pub stands_at : Ptr → Cells → Bool
stands_at q [] = false
stands_at q (cell ∷ cells) = (q == cell.0) || stands_at q cells

infix 40 ◌∉◌
abbrev pub ◌∉◌ : Ptr → Cells → Type 0
q ∉ cells = stands_at q cells ≡ false

infix 40 ◌∈◌
abbrev pub ◌∈◌ : Ptr → Cells → Type 0
q ∈ cells = stands_at q cells ≡ true

-- The pointer to the first node, and the one to the last (`b` if there is none).
abbrev pub first : Cells → Ptr
first [] = null
first ((a, _) ∷ xs) = a

abbrev pub last_or : Ptr → Cells → Ptr
last_or b [] = b
last_or b ((a, _) ∷ xs) = last_or a xs

-- The nodes `xs` stand in the heap at distinct addresses, `next` leads from each to the following
-- one and from the last to NULL, `prev` leads back, and the first node's `prev` is `b`.
abbrev pub Chain : Heap → Ptr → Cells → Type 0
Chain h b [] = Unit {0}
Chain h b ((a, e) ∷ xs) = (a ≢ null) × (h a ≡ some (node e (first xs) b)) × (a ∉ xs) × Chain h a xs

-- `g` differs from `h` at most at the addresses of `xs`.
abbrev pub SameOutside : Cells → Heap → Heap → Type 0
SameOutside xs h g = (a : Ptr) → a ∉ xs → g a ≡ h a

pub stands_at-append :
    (a : Ptr) (xs ys : Cells) → stands_at a (xs ++ ys) ≡ (stands_at a xs || stands_at a ys)
stands_at-append a [] ys = refl
stands_at-append a (x ∷ xs) ys = rw (stands_at-append a xs ys, or_assoc)

pub first-append : (ys us vs : Cells) → first us ≡ first vs → first (ys ++ us) ≡ first (ys ++ vs)
first-append [] us vs e = e
first-append (y ∷ ys) us vs e = refl

pub ne_of_not_mem : (a b : Ptr) (e : Entry) (xs : Cells) → a ∉ ((b, e) ∷ xs) → b ≢ a
ne_of_not_mem a b e xs out = ground arith

pub not-mem-tail : (a b : Ptr) (e : Entry) (xs : Cells) → a ∉ ((b, e) ∷ xs) → a ∉ xs
not-mem-tail a b e xs out = ground arith

module _ (h : Heap) where
  -- A chain survives a change that spares its addresses.
  pub Chain-frame :
      (g : Heap) (b : Ptr) (xs : Cells)
      → Chain h b xs
      → ((a : Ptr) → a ∈ xs → g a ≡ h a)
      → Chain g b xs
  Chain-frame g b [] c same = tt
  Chain-frame g b ((a, e) ∷ xs) (ne, at, out, c) same =
      (ne, ground (arith, same a), out, Chain-frame g a xs c (λ p i. same p (ground arith)))

  pub Chain-write :
      (b : Ptr) (xs : Cells) (a : Ptr) (c : Option Cache)
      → Chain h b xs
      → a ∉ xs
      → Chain (write h a c) b xs
  unfolding write
  Chain-write b xs a c s out = Chain-frame (write h a c) b xs s (ground arith)

  pub Chain-suffix : (b : Ptr) (ys zs : Cells) → Chain h b (ys ++ zs) → Chain h (last_or b ys) zs
  Chain-suffix b [] zs c = c
  Chain-suffix b ((a, e) ∷ ys) zs (ne, at, out, c) = Chain-suffix a ys zs c

  -- What follows `ys` may be replaced by another chain that begins at the same node.
  pub Chain-replace :
      (g : Heap) (b : Ptr) (ys us vs : Cells)
      → first us ≡ first vs
      → Chain h b (ys ++ us)
      → Chain g (last_or b ys) vs
      → ((a : Ptr) → a ∈ ys → g a ≡ h a)
      → ((a : Ptr) → a ∈ ys → a ∉ vs)
      → Chain g b (ys ++ vs)
  Chain-replace g b [] us vs e c d same apart = d
  Chain-replace g b ((a, x) ∷ ys) us vs e (ne, at, out, c) d same apart = (
    ne,
    same a (ground arith) ∙ at ∙ ap (λ q. some (node x q b)) (first-append ys us vs e),
    ground (arith, stands_at-append a ys us, stands_at-append a ys vs, apart a),
    Chain-replace g a ys us vs e c d (λ p i. same p (ground arith)) (λ p i. apart p (ground arith)),
  )

  pub not-mem-chain : (b a : Ptr) (xs : Cells) → Chain h b xs → h a ≡ none → a ∉ xs
  not-mem-chain b a [] c unused = refl
  not-mem-chain b a ((p, e) ∷ xs) (ne, at, out, c) unused =
      ground (arith, not-mem-chain p a xs c unused)

  pub null-not-mem : (b : Ptr) (xs : Cells) → Chain h b xs → null ∉ xs
  null-not-mem b [] c = refl
  null-not-mem b ((p, e) ∷ xs) (ne, at, out, c) = ground (arith, null-not-mem p xs c)

-- The heap commands at an address that holds a node.
module _ (h : Heap) (p : Ptr) {c : Cache} (ne : p ≢ null) (at : h p ≡ some c) where
  pub load-ok : load p h ≡ ok c h
  unfolding load
  load-ok = let e : (p == null) ≡ false = ground arith in rw (e, at)

  pub store-ok : (d : Cache) → store p d h ≡ ok tt (write h p (some d))
  unfolding store
  store-ok d = rw load-ok

  pub free-ok : free p h ≡ ok tt (write h p none)
  unfolding free
  free-ok = rw load-ok

  pub set_next-ok : (q : Ptr) → set_next p q h ≡ ok tt (write h p (some (record c { next = q })))
  unfolding set_next
  set_next-ok q = rw load-ok

  pub set_prev-ok : (q : Ptr) → set_prev p q h ≡ ok tt (write h p (some (record c { prev = q })))
  unfolding set_prev
  set_prev-ok q = rw load-ok

pub write_self : (h : Heap) (p : Ptr) (c : Option Cache) → write h p c p ≡ c
unfolding write
write_self h p c = ground arith

pub write-other : (h : Heap) (p q : Ptr) (c : Option Cache) → q ≢ p → write h p c q ≡ h q
unfolding write
write-other h p q c ne = ground arith

-- The first cell that passes the test.
unfoldable pub first_match : (Ptr × Entry → Bool) → Cells → Ptr
first_match P [] = null
first_match P ((a, e) ∷ xs) = if P (a, e) then a else first_match P xs

-- The nodes before a place and those behind it have no address in common.
pub Chain-disjoint : (h : Heap) (b c : Ptr) (ys us : Cells) → Chain h b (ys ++ us) → c ∈ ys → c ∉ us
Chain-disjoint h b c [] us k i = absurd (cc)
Chain-disjoint h b c ((a, e) ∷ ys) us (ne, at, out, k) i =
    ground (arith, stands_at-append a ys us, Chain-disjoint h a c ys us k)

module _ {h : Heap} (test : Ptr → Cmd Heap Bool) (P : Ptr × Entry → Bool) where
  -- With one round for each node and one more, the loop of the lookups returns the first node that
  -- passes, NULL if none does, and changes nothing.
  pub find_loop-first_match :
      (k : ℕ) (b : Ptr) (xs : Cells)
      → Chain h b xs
      → All (λ c. test c.0 h ≡ ok (P c) h) xs
      → length xs < k
      → find_loop test k (first xs) h ≡ ok (first_match P xs) h
  unfolding find_loop first_match
  find_loop-first_match zero b xs c t fuel = absurd (omega arith)
  find_loop-first_match (suc k) b [] c t fuel = refl
  find_loop-first_match (suc k) b ((a, e) ∷ xs) (ne, at, out, c) (t, ts) fuel =
      let live : (a == null) ≡ false = ground arith in
      rw (live, t)
        (elim (Bool-cases (P (a, e))) [
          | inl hit ↦ rw hit
          | inr miss ↦
              rw (miss, load-ok h a ne at) (find_loop-first_match k a xs c ts (omega arith))
        ])

  -- The same behind the test `list != NULL`, which every lookup begins with.
  pub guarded_find :
      (k : ℕ) (b : Ptr) (xs : Cells)
      → Chain h b xs
      → All (λ c. test c.0 h ≡ ok (P c) h) xs
      → length xs < k
      → (if first xs == null then pure null else find_loop test k (first xs)) h
        ≡ ok (first_match P xs) h
  unfolding first_match
  guarded_find k b [] c t fuel = refl
  guarded_find k b ((a, e) ∷ xs) (ne, at, out, c) t fuel =
      let live : (a == null) ≡ false = ground arith in
      rw live (find_loop-first_match k b ((a, e) ∷ xs) (ne, at, out, c) t fuel)

apart_head : (x a : Ptr) (e : Entry) (zs : Cells) → x ∉ ((a, e) ∷ zs) → x ≢ a
apart_head x a e zs out = ground arith

-- A node of the list may get another payload.
pub Chain-set :
    (h : Heap) (b : Ptr) (ys : Cells) (a : Ptr) (e e' : Entry) (zs : Cells)
    → Chain h b (ys ++ ((a, e) ∷ zs))
    → Chain (write h a (some (node e' (first zs) (last_or b ys)))) b (ys ++ ((a, e') ∷ zs))
Chain-set h b ys a e e' zs c =
    let tail = (a, e) ∷ zs in
    let new = node e' (first zs) (last_or b ys) in
    let part = Chain-suffix h b ys tail c in
    let spared : (x : Ptr) → x ∈ ys → x ∉ tail = λ x i. Chain-disjoint h b x ys tail c i in
    Chain-replace h (write h a (some new)) b ys tail ((a, e') ∷ zs) refl c
      (part.0, write_self h a (some new), part.2, Chain-write h a zs a (some new) part.3 part.2)
      (λ x i. write-other h a x (some new) (apart_head x a e zs (spared x i))) (λ x i. spared x i)
