-- ===== src/Tour/Tests.antt =====
-- Tours of two hosts.
use tour.Base.{
  ℕ, ◌+◌, ◌*◌, ◌≡◌, ◌≤◌, ◌<◌, ◌↔◌, refl, sym, ap, true, Option, none, some, List, [], ◌∷◌, ◌++◌,
  arith, if◌then◌else◌, Bytes, bytes_eq, length, drop, replicate, length-replicate, Bool-cases, inl,
  inr,
}
use tour.Tour.Args.{valid_args, Alternates, valid_args_iff}
use tour.Tour.Message.{TourHdr, forward_tour, accepted, accept_tour}
use tour.Tour.Travel.{message, packed, travel}
use tour.Tour.Overread.{forward_tour-overreads}
use tour.Tour.Print.{print_mac}
use tour.Tour.Relay.{forward_tour-accept, travel-visits}
use tour.Tour.Start.{resolve_all, Sockets, initial_message, start_tour}
use tour.Tour.Visits.{start_tour-visits}

-- The argument vector of `tour a b`, by the characters' codes.
abbrev vm_a : Bytes
vm_a = 97 ∷ []

abbrev vm_b : Bytes
vm_b = 98 ∷ []

abbrev program : Bytes
program = 116 ∷ []

abbrev two_hosts : List Bytes
two_hosts = vm_a ∷ vm_b ∷ []

-- Every host but `b` has the address 10.0.0.1.
abbrev addr_of : ℕ → Bytes
addr_of n = 10 ∷ 0 ∷ 0 ∷ n ∷ []

abbrev resolve_hosts : Bytes → Option Bytes
resolve_hosts host = if bytes_eq host vm_b then some (addr_of 2) else some (addr_of 1)

resolve_hosts-four : (host a : Bytes) → resolve_hosts host ≡ some a → length a ≡ 4
resolve_hosts-four host a e = elim (Bool-cases (bytes_eq host vm_b)) [
  | inl is_b ↦ same (rw is_b at e)
  | inr other ↦ same (rw other at e)
]
  where
    size_of : Option Bytes → ℕ
    size_of none = 4
    size_of (some b) = length b

    same : {n : ℕ} → some (addr_of n) ≡ some a → length a ≡ 4
    same q = sym (ap size_of q)

abbrev own_address : Bytes
own_address = addr_of 9

abbrev two_addrs : List Bytes
two_addrs = addr_of 1 ∷ addr_of 2 ∷ []

args_accepted : valid_args (program ∷ two_hosts) ≡ true
unfolding valid_args bytes_eq
args_accepted = refl

hosts_known : resolve_all resolve_hosts two_hosts ≡ some two_addrs
unfolding resolve_all bytes_eq
hosts_known = refl

valid_args_iff_example :
    (valid_args (program ∷ two_hosts) ≡ true) ↔ ((length two_hosts ≤ 16376) × Alternates two_hosts)
valid_args_iff_example = valid_args_iff program two_hosts

-- The message of two addresses, one hop on.
one_hop :
    (packet : Bytes) × (forward_tour own_address
        (message 239 1 2 3 5000 2 (addr_of 2 ++ (addr_of 1 ++ [])))
      ≡ some (addr_of 1, packet))
    × (accept_tour (replicate 65535 0) packet
        ≡ some (
            accepted
              (message 239 1 2 3 5000 1 (addr_of 2 ++ drop (28 + 4 * 1) (replicate 65535 0)))))
one_hop =
    forward_tour-accept 239 1 2 3 5000 own_address refl (replicate 65535 0) 1 (addr_of 2)
      (addr_of 1) [] (length-replicate {A = ℕ} 65535 0) (omega arith) (omega arith) refl refl

-- The message with one address left, as the node there has it.
abbrev one_left : TourHdr
one_left = message 239 1 2 3 5000 1 (addr_of 2 ++ drop (28 + 4 * 1) (replicate 65535 0))

forward_tour-overreads_example : (forward_tour own_address one_left ≡ none) ↔ (16376 < 1)
forward_tour-overreads_example =
    forward_tour-overreads own_address (replicate 65535 0) (one_hop.0) one_left
      (length-replicate {A = ℕ} 65535 0) (one_hop.2) refl

travel-visits_example :
    travel 3 (replicate 65535 0) own_address (message 239 1 2 3 5000 2 (packed two_addrs ++ []))
    ≡ some two_addrs
travel-visits_example =
    travel-visits 239 1 2 3 5000 own_address (replicate 65535 0) [] two_addrs refl
      (length-replicate {A = ℕ} 65535 0) (omega arith) (omega arith) (refl, (refl, tt))

start_tour-visits_example :
    let mcastip : Bytes = 239 ∷ 1 ∷ 2 ∷ 3 ∷ [] in
    let up : Sockets = record { bound = some 5000; joined = true; connected = true } in
    (t : TourHdr) × (packet : Bytes) × (initial_message resolve_hosts mcastip 5000 two_hosts
        (replicate 65507 0)
      ≡ some (some t))
    × (forward_tour own_address t ≡ some (addr_of 1, packet))
    × (start_tour resolve_hosts own_address mcastip up two_hosts (replicate 65507 0)
        ≡ some (some (addr_of 1, packet)))
    × (travel 3 (replicate 65535 0) own_address t ≡ some two_addrs)
start_tour-visits_example =
    start_tour-visits resolve_hosts resolve_hosts-four 239 1 2 3 5000 program own_address
      (replicate 65507 0) (replicate 65535 0) vm_a (addr_of 1) (vm_b ∷ []) (addr_of 2 ∷ [])
      args_accepted (length-replicate {A = ℕ} 65507 0) (length-replicate {A = ℕ} 65535 0) refl
      (omega arith) hosts_known

-- "02:00:00:00:00:FF".
prints_mac :
    print_mac (2 ∷ 0 ∷ 0 ∷ 0 ∷ 0 ∷ 255 ∷ [])
    ≡ some (48 ∷ 50 ∷ 58 ∷ 48 ∷ 48 ∷ 58 ∷ 48 ∷ 48 ∷ 58 ∷ 48 ∷ 48 ∷ 58 ∷ 48 ∷ 48 ∷ 58 ∷ 70 ∷ 70 ∷ [])
unfolding print_mac
prints_mac = refl
