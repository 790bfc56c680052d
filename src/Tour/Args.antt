-- ===== src/Tour/Args.antt =====
-- valid_args of tour.c.
use tour.Base.{
  ℕ, ◌+◌, ◌-◌, ◌/◌, ◌≤◌, ◌≡◌, ◌≢◌, ◌↔◌, Bool, true, false, List, [], ◌∷◌, arith, ltb, if◌then◌else◌,
  Bytes, bytes_eq, bytes_eq_iff, length,
}
use tour.Tour.Message.{tour_size}

-- TOUR_MAXIPS: (IP_MAXPACKET - sizeof(struct ip) - sizeof(struct tourhdr)) / 4.
abbrev pub tour_maxips : ℕ
tour_maxips = (65535 - 20 - 8) / 4

-- The loop from the third argument on; an argument is its bytes.
unfoldable pub no_repeats : List Bytes → Bool
no_repeats [] = true
no_repeats (a ∷ []) = true
no_repeats (a ∷ b ∷ rest) = let more = no_repeats (b ∷ rest) in if bytes_eq a b then false else more

-- The program's name comes first. With no argument at all `argc - 1` is -1, which the comparison
-- with an unsigned number makes the largest one.
unfoldable pub valid_args : List Bytes → Bool
unfolding no_repeats
valid_args [] = false
valid_args (name ∷ hosts) = if ltb tour_maxips (length hosts) then false else no_repeats hosts

-- No host follows itself.
abbrev pub Alternates : List Bytes → Type 0
Alternates [] = Unit {0}
Alternates (a ∷ []) = Unit {0}
Alternates (a ∷ b ∷ rest) = (a ≢ b) × Alternates (b ∷ rest)

no_repeats-Alternates : (hosts : List Bytes) → (no_repeats hosts ≡ true) ↔ Alternates hosts
unfolding no_repeats
no_repeats-Alternates [] = ground arith
no_repeats-Alternates (a ∷ []) = ground arith
no_repeats-Alternates (a ∷ b ∷ rest) =
    ground (arith, bytes_eq_iff a b, no_repeats-Alternates (b ∷ rest))

-- valid_args accepts exactly the lists of at most 16376 hosts in which no host follows itself.
pub valid_args_iff :
    (name : Bytes) (hosts : List Bytes)
    → (valid_args (name ∷ hosts) ≡ true) ↔ ((length hosts ≤ 16376) × Alternates hosts)
unfolding valid_args
valid_args_iff name hosts = ground (arith, no_repeats-Alternates hosts)

-- With accepted arguments the IP packet of the whole tour message has a length that fits 16 bits.
pub valid_args-tour_size :
    (name : Bytes) (hosts : List Bytes)
    → valid_args (name ∷ hosts) ≡ true
    → 20 + tour_size (length hosts) ≤ 65535
unfolding tour_size
valid_args-tour_size name hosts ok = omega (arith, ((valid_args_iff name hosts).0 ok).0)
