-- ===== src/Arp/Select.antt =====
-- maxfd of arp.c: the highest descriptor that run_arp waits for.
use tour.Base.{
  ℕ, zero, suc, ◌<◌, ◌≡◌, refl, ◌∙◌, ◌⊎◌, inl, inr, false, not, List, [], ◌∷◌, arith, ◌==◌,
  if◌then◌else◌, ℤ, pos, negsuc, ltb_ℤ, length, All, ok, out_of_fuel, Cmd, pure, ◌>>=◌, Bool-cases,
}
use tour.Cache.Store.{Ptr, null, is_complete, Heap, load}
use tour.Cache.Chain.{Cells, first, Chain, load-ok}

-- `a > b ? a : b`.
unfoldable pub larger : ℤ → ℤ → ℤ
larger a b = if ltb_ℤ b a then a else b

-- The loop over the cache.
unfoldable pub maxfd_loop : ℕ → ℤ → Ptr → Cmd Heap ℤ
maxfd_loop zero max p = λ _. out_of_fuel
maxfd_loop (suc k) max p = if p == null then pure max else do
  c ← load p
  maxfd_loop k (if not (is_complete c.entry.state) then larger max c.entry.domain_socket else max)
      c.next

unfoldable pub maxfd : ℕ → ℤ → ℤ → Ptr → Cmd Heap ℤ
unfolding larger maxfd_loop
maxfd fuel pf_socket unix_domain cache =
    if cache == null
    then pure (larger pf_socket unix_domain)
    else maxfd_loop fuel (larger pf_socket unix_domain) cache

-- The descriptors of the entries that are not complete, in order.
abbrev pub watched : Cells → List ℤ
watched [] = []
watched ((p, e) ∷ xs) =
    let rest = watched xs in if is_complete e.state then rest else e.domain_socket ∷ rest

-- The maximum of a number and a list.
abbrev pub maximum : ℤ → List ℤ → ℤ
maximum m [] = m
maximum m (x ∷ xs) = maximum (larger m x) xs

abbrev pub IsAtMost : ℤ → ℤ → Type 0
IsAtMost m x = ltb_ℤ m x ≡ false

IsAtMost-trans : (a b c : ℤ) → IsAtMost b a → IsAtMost c b → IsAtMost c a
IsAtMost-trans (pos a) (pos b) (pos c) h k = ground arith
IsAtMost-trans (pos a) (pos b) (negsuc c) h k = ground arith
IsAtMost-trans (pos a) (negsuc b) c h k = ground arith
IsAtMost-trans (negsuc a) (pos b) (pos c) h k = ground arith
IsAtMost-trans (negsuc a) (pos b) (negsuc c) h k = ground arith
IsAtMost-trans (negsuc a) (negsuc b) (pos c) h k = ground arith
IsAtMost-trans (negsuc a) (negsuc b) (negsuc c) h k = ground arith

larger-IsAtMost : (a b : ℤ) → IsAtMost (larger a b) a × IsAtMost (larger a b) b
unfolding larger
larger-IsAtMost (pos a) (pos b) = ground arith
larger-IsAtMost (pos a) (negsuc b) = ground arith
larger-IsAtMost (negsuc a) (pos b) = ground arith
larger-IsAtMost (negsuc a) (negsuc b) = ground arith

-- Whether a number is in a list.
abbrev pub IsOneOf : ℤ → List ℤ → Type 0
IsOneOf m [] = ⊥
IsOneOf m (x ∷ xs) = (m ≡ x) ⊎ IsOneOf m xs

IsAtMost-refl : (a : ℤ) → IsAtMost a a
IsAtMost-refl (pos a) = ground arith
IsAtMost-refl (negsuc a) = ground arith

-- The maximum bounds what it is taken of.
maximum-IsAtMost :
    (m : ℤ) (xs : List ℤ) → IsAtMost (maximum m xs) m × All (IsAtMost (maximum m xs)) xs
maximum-IsAtMost m [] = (IsAtMost-refl m, tt)
maximum-IsAtMost m (x ∷ xs) =
    let top = larger m x in
    let (above, others) = maximum-IsAtMost top xs in
    let (left, right) = larger-IsAtMost m x in
    (
      IsAtMost-trans m top (maximum top xs) left above,
      (IsAtMost-trans x top (maximum top xs) right above, others),
    )

larger-IsOneOf : (a b : ℤ) → (larger a b ≡ a) ⊎ (larger a b ≡ b)
unfolding larger
larger-IsOneOf a b = ground arith

maximum-IsOneOf : (m : ℤ) (xs : List ℤ) → IsOneOf (maximum m xs) (m ∷ xs)
maximum-IsOneOf m [] = inl refl
maximum-IsOneOf m (x ∷ xs) = elim (maximum-IsOneOf (larger m x) xs) [
  | inr among ↦ inr (inr among)
  | inl top ↦ elim (larger-IsOneOf m x) [
    | inl left ↦ inl (top ∙ left)
    | inr right ↦ inr (inl (top ∙ right))
  ]
]

maxfd_loop-maximum :
    (h : Heap) (k : ℕ) (m : ℤ) (b : Ptr) (xs : Cells)
    → Chain h b xs
    → length xs < k
    → maxfd_loop k m (first xs) h ≡ ok (maximum m (watched xs)) h
unfolding maxfd_loop
maxfd_loop-maximum h zero m b xs c enough = absurd (omega arith)
maxfd_loop-maximum h (suc k) m b [] c enough = refl
maxfd_loop-maximum h (suc k) m b ((a, e) ∷ xs) (ne, at, out, c) enough =
    let live : (a == null) ≡ false = ground arith in
    elim (Bool-cases (is_complete e.state)) [
      | inl done ↦
          rw (live, load-ok h a ne at, done) (maxfd_loop-maximum h k m a xs c (omega arith))
      | inr waits ↦
          rw (live, load-ok h a ne at, waits)
            (maxfd_loop-maximum h k (larger m e.domain_socket) a xs c (omega arith))
    ]

maxfd-maximum :
    (h : Heap) (fuel : ℕ) (pf_socket unix_domain : ℤ) (b : Ptr) (xs : Cells)
    → Chain h b xs
    → length xs < fuel
    → maxfd fuel pf_socket unix_domain (first xs) h
      ≡ ok (maximum pf_socket (unix_domain ∷ watched xs)) h
unfolding maxfd
maxfd-maximum h fuel pf_socket unix_domain b [] c enough = refl
maxfd-maximum h fuel pf_socket unix_domain b ((a, e) ∷ xs) c enough =
    let live : (a == null) ≡ false = ground arith in
    rw live (maxfd_loop-maximum h fuel (larger pf_socket unix_domain) b ((a, e) ∷ xs) c enough)

-- On a well-formed cache, maxfd returns the highest of the two descriptors of the daemon and those
-- of the entries that are not complete: it is one of them, none of them is higher, and the cache
-- stays as it is.
pub maxfd-highest :
    (h : Heap) (fuel : ℕ) (pf_socket unix_domain : ℤ) (b : Ptr) (xs : Cells)
    → Chain h b xs
    → length xs < fuel
    → let all : List ℤ = pf_socket ∷ (unix_domain ∷ watched xs) in
      (m : ℤ) × (maxfd fuel pf_socket unix_domain (first xs) h ≡ ok m h)
      × IsOneOf m all
      × All (IsAtMost m) all
maxfd-highest h fuel pf_socket unix_domain b xs c enough =
    let all : List ℤ = unix_domain ∷ watched xs in
    (
      maximum pf_socket all,
      maxfd-maximum h fuel pf_socket unix_domain b xs c enough,
      maximum-IsOneOf pf_socket all,
      maximum-IsAtMost pf_socket all,
    )
