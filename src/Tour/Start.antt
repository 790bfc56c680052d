-- ===== src/Tour/Start.antt =====
-- The message that start_tour of tour.c makes.
use tour.Base.{
  ℕ, ◌-◌, ◌*◌, Bool, not, if◌then◌else◌, ◌%◌, Option, none, some, List, [], ◌∷◌, Bytes, length,
  write_at,
}
use tour.Base.Maybe.{◌>>=◌}
use tour.Tour.Message.{TourHdr, forward_tour}

-- The loop over the hosts, with `j` going down. getipbyhost is `resolve`, which the resolver of the
-- C library stands behind. The outer `none` is an access outside `ips`, the inner one the return
-- of 0.
unfoldable pub fill_ips : (Bytes → Option Bytes) → List Bytes → ℕ → Bytes → Option (Option Bytes)
fill_ips resolve [] j ips = some (some ips)
fill_ips resolve (host ∷ rest) j ips = elim (resolve host) [
  | none ↦ some none
  | some a ↦ write_at ips (4 * j) a >>= fill_ips resolve rest (j - 1)
]

-- The hosts' addresses, if every one of them is known.
unfoldable pub resolve_all : (Bytes → Option Bytes) → List Bytes → Option (List Bytes)
resolve_all resolve [] = some []
resolve_all resolve (host ∷ rest) = do
  a ← resolve host
  addrs ← resolve_all resolve rest
  some (a ∷ addrs)

-- The answers of the system before the message is made: the port that bind_port returned (`none`
-- for -1), and whether mcast_join and connect succeeded.
pub record Sockets : Type 0 where
  pub bound : Option ℕ
  pub joined : Bool
  pub connected : Bool

-- The initial message; `memory` is the zeroed memory of `ips`. The count is stored in a short.
unfoldable pub initial_message :
    (Bytes → Option Bytes) → Bytes → ℕ → List Bytes → Bytes → Option (Option TourHdr)
initial_message resolve mcastip port hosts memory =
    fill_ips resolve hosts (length hosts - 1) memory >>= λ done. elim done [
      | none ↦ some none
      | some ips ↦ some (
          some
            (record { mcastip = mcastip; mcastport = port; len = length hosts % 65536; ips = ips }))
    ]

-- The first hop: the address and the packet, or the return of 0.
unfoldable pub start_tour :
    (Bytes → Option Bytes)
    → Bytes
    → Bytes
    → Sockets
    → List Bytes
    → Bytes
    → Option (Option (Bytes × Bytes))
start_tour resolve hostip mcastip sockets hosts memory = elim sockets.bound [
  | none ↦ some none
  | some port ↦
      if not sockets.joined
      then some none
      else if not sockets.connected
      then some none
      else initial_message resolve mcastip port hosts memory >>= λ made. elim made [
        | none ↦ some none
        | some tour ↦ forward_tour hostip tour >>= λ hop. some (some hop)
      ]
]
