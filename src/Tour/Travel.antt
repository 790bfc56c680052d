-- ===== src/Tour/Travel.antt =====
-- A tour message from node to node: its addresses, its packets and the nodes it visits.
use tour.Base.{
  ℕ, zero, suc, ◌+◌, ◌*◌, ◌≡◌, refl, Option, none, some, List, [], ◌∷◌, ◌++◌, arith, if◌then◌else◌,
  Bytes, length, All, network_bytes, length-append,
}
use tour.Base.Maybe.{◌>>=◌}
use tour.Tour.Message.{
  TourHdr, is_positive, forward_tour, Receipt, too_short, wrong_id, accepted, accept_tour,
}

-- Addresses as they stand in `ips`: the one to visit first stands last.
abbrev pub packed : List Bytes → Bytes
packed [] = []
packed (a ∷ rest) = packed rest ++ a

abbrev pub AreAddrs : List Bytes → Type 0
AreAddrs = All (λ a. length a ≡ 4)

pub length-packed : (rest : List Bytes) → AreAddrs rest → length (packed rest) ≡ 4 * length rest
length-packed [] v = refl
length-packed (a ∷ rest) (v, vs) =
    omega (arith, length-append (packed rest) a, length-packed rest vs)

unfoldable pub follow : (TourHdr → Option (List Bytes)) → Bytes → Receipt → Option (List Bytes)
follow next here too_short = none
follow next here wrong_id = none
follow next here (accepted t) = next t >>= λ rest. some (here ∷ rest)

-- The nodes that a message visits from the node `hostip` on. Each node that it reaches accepts it
-- into its own zeroed buffer and passes it on under its own address; `none` is an access outside
-- the message, a message that is not accepted, or a lack of fuel.
unfoldable pub travel : ℕ → Bytes → Bytes → TourHdr → Option (List Bytes)
unfolding follow
travel zero buffer hostip t = none
travel (suc k) buffer hostip t =
    let rest = travel k buffer in
    if is_positive t.len
    then (do
      (nextip, packet) ← forward_tour hostip t
      receipt ← accept_tour buffer packet
      follow (rest nextip) nextip receipt)
    else some []

-- A message with `n` addresses: the group and port to join, the count, and the addresses.
abbrev pub message : (m0 m1 m2 m3 port n : ℕ) → Bytes → TourHdr
message m0 m1 m2 m3 port n ips = record {
  mcastip = m0 ∷ m1 ∷ m2 ∷ m3 ∷ [];
  mcastport = port;
  len = n;
  ips = ips;
}

-- The packet that carries `body` from one address to another.
abbrev pub ip_packet : Bytes → Bytes → ℕ → Bytes → Bytes
ip_packet hostip dstip len body =
    (0x45 ∷ 0 ∷ network_bytes (20 + len))
    ++ (network_bytes 0xF31F
        ++ (network_bytes 0x4000 ++ (10 ∷ 237 ∷ 0 ∷ 0 ∷ (hostip ++ (dstip ++ body)))))
