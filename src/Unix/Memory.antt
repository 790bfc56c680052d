-- ===== src/Unix/Memory.antt =====
-- The memory that a program allocated and freed, by its calls.
use tour.Base.{
  ℕ, ◌+◌, ◌≡◌, refl, true, false, [], ◌∷◌, arith, if◌then◌else◌, ℤ, pos, eqb_ℤ, eqb_ℤ_iff, Leads,
}
use tour.Unix.{Syscall, Calls, Kernel, malloc, calloc, free, call}

-- 1 at an address, else 0.
abbrev pub one : ℤ → ℤ → ℕ
one a p = if eqb_ℤ a p then 1 else 0

abbrev pub allocated_by : ℤ → Syscall → ℤ → ℕ
allocated_by a (malloc size) r = one a r
allocated_by a (calloc size) r = one a r
allocated_by a _ r = 0

abbrev pub freed_by : ℤ → Syscall → ℕ
freed_by a (free p) = one a p
freed_by a _ = 0

-- How often malloc and calloc returned the address, and how often it was freed.
abbrev pub allocs : ℤ → Calls → ℕ
allocs a [] = 0
allocs a ((c, r) ∷ t) = allocated_by a c r + allocs a t

abbrev pub frees : ℤ → Calls → ℕ
frees a [] = 0
frees a ((c, r) ∷ t) = freed_by a c + frees a t

-- The address is to be freed `n` times more.
abbrev pub Owes : ℤ → ℕ → Calls → Type 0
Owes a n t = allocs a t ≡ frees a t + n

module _ (os : Kernel) (a : ℤ) (live : eqb_ℤ a (pos 0) ≡ false) where
  pub free-Leads : (p : ℤ) (n : ℕ) → Leads (Owes a (one a p + n)) (λ _. Owes a n) (call os (free p))
  unfolding call
  free-Leads p n = record { led = λ t v. omega (arith, v) }

  pub malloc-Leads :
      (size n : ℕ) → Leads (Owes a n) (λ r. Owes a (one a r + n)) (call os (malloc size))
  unfolding call
  malloc-Leads size n = record { led = λ t v. omega (arith, v) }

  pub calloc-Leads :
      (size n : ℕ) → Leads (Owes a n) (λ r. Owes a (one a r + n)) (call os (calloc size))
  unfolding call
  calloc-Leads size n = record { led = λ t v. omega (arith, v) }

  -- NULL is not the address.
  pub one-null : (r : ℤ) → eqb_ℤ r (pos 0) ≡ true → one a r ≡ 0
  one-null r e = rw ((eqb_ℤ_iff r (pos 0)).0 e, live) refl
