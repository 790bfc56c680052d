-- ===== src/Arp/Refusals.antt =====
-- handle_req of arp.c on requests that it does not serve.
use tour.Base.{
  ℕ, ◌+◌, ◌*◌, ◌≤◌, ◌<◌, ◌≡◌, ◌≢◌, refl, ap, ◌∙◌, true, false, none, some, List, [], ◌∷◌, arith, ℤ,
  Bytes, bytes_eq, length, take, drop, read_at, write_at, replicate, pos, length-append,
  read_within, write_beyond, write_next, length-take, length-drop, ok, fault, inl, drop_all,
  append-nil, ◌++◌, All, bytes_eq_iff,
}
use tour.World.{System, Daemon, SockaddrLl}
use tour.Arp.Device.{HwaInfo, sin_addr, is_destination, is_destination_loop}
use tour.Arp.Packet.{ArpHdr}
use tour.Arp.Answer.{handle_req}
use tour.Arp.Build.{wire_header}
use tour.Arp.Parse.{received_arp}
use tour.Arp.Receive.{Recv, request, receive}
use tour.Arp.Dispatch.{receive-wire}

-- An interface whose address is four bytes at offset 4, as in a struct sockaddr_in.
abbrev pub HasInetAddress : HwaInfo → Type 0
HasInetAddress d = 8 ≤ length d.ip_addr

abbrev pub inet_of : HwaInfo → Bytes
inet_of d = take 4 (drop 4 d.ip_addr)

-- No interface has the address.
abbrev pub IsElsewhere : Bytes → List HwaInfo → Type 0
IsElsewhere addr = All (λ d. HasInetAddress d × (addr ≢ inet_of d))

is_destination-none :
    (devices : List HwaInfo) (addr : Bytes)
    → IsElsewhere addr devices
    → is_destination_loop devices addr ≡ some none
unfolding is_destination_loop sin_addr
is_destination-none [] addr v = refl
is_destination-none (d ∷ rest) addr ((long, other), v) =
    let differs : bytes_eq addr (inet_of d) ≡ false =
      ground (arith, bytes_eq_iff addr (inet_of d)) in
    rw (read_within d.ip_addr 4 4 (omega arith), differs) (is_destination-none rest addr v)

-- Four bytes fill the local `tgtip`.
pub fills :
    (stack addr : Bytes) → length stack ≡ 4 → length addr ≡ 4 → write_at stack 0 addr ≡ some addr
fills stack addr local len =
    write_next stack [] addr 0 refl (omega (arith, len, local))
    ∙ ap some (
        ap (λ r. addr ++ r) (drop_all (length addr) stack (omega (arith, len, local)))
        ∙ append-nil addr)

module _ (sys : System) (fuel : ℕ) (devices : List HwaInfo) (stack : Bytes) (pack_fd : ℤ)
    (src : SockaddrLl) (s : Daemon) (local : length stack ≡ 4) where
  handle_req-long :
      (eh : Bytes) (arp : ArpHdr)
      → 2 * arp.hard_len + 2 * arp.prot_len ≤ length arp.payload
      → 4 < arp.prot_len
      → handle_req sys fuel devices stack pack_fd eh arp src s ≡ fault
  unfolding handle_req
  handle_req-long eh arp whole long =
      let tpa : Bytes = take arp.prot_len (drop (2 * arp.hard_len + arp.prot_len) arp.payload) in
      let len : length tpa ≡ arp.prot_len = omega (
        arith,
        length-take arp.prot_len (drop (2 * arp.hard_len + arp.prot_len) arp.payload),
        length-drop (2 * arp.hard_len + arp.prot_len) arp.payload,
      ) in
      rw
        (
          read_within arp.payload (2 * arp.hard_len + arp.prot_len) arp.prot_len (omega arith),
          write_beyond stack 0 tpa (omega (arith, len)),
        )
        refl

  -- A request that is whole in its data, for an IPv4 address that no interface has, where every
  -- interface has an IPv4 address: the result is 1, and nothing is sent or stored.
  pub handle_req-elsewhere :
      (eh : Bytes) (arp : ArpHdr)
      → arp.prot_len ≡ 4
      → 2 * arp.hard_len + 2 * arp.prot_len ≤ length arp.payload
      → IsElsewhere (take 4 (drop (2 * arp.hard_len + arp.prot_len) arp.payload)) devices
      → handle_req sys fuel devices stack pack_fd eh arp src s ≡ ok true s
  unfolding handle_req is_destination
  handle_req-elsewhere eh arp pl whole other =
      let off = 2 * arp.hard_len + arp.prot_len in
      let tpa : Bytes = take 4 (drop off arp.payload) in
      let len : length tpa ≡ 4 =
        omega (arith, length-take 4 (drop off arp.payload), length-drop off arp.payload) in
      let read : read_at arp.payload off arp.prot_len ≡ some tpa =
        read_within arp.payload off arp.prot_len (omega arith)
        ∙ ap (λ n. some (take n (drop off arp.payload))) pl in
      rw (read, fills stack tpa local len, is_destination-none devices tpa other) refl

  -- A frame with a whole Ethernet and IPv4 request of the daemon, whose protocol addresses are
  -- said to be longer than four bytes, passes the checks of run_arp, and the handler then copies
  -- the target address over the end of the four bytes of its local `tgtip`.
  pub handle_req-overflow :
      (head dat : Bytes) (hl pl : ℕ)
      → length head ≡ 14
      → 0 < hl
      → hl ≤ 8
      → 4 < pl
      → pl ≤ 16
      → 2 * hl + 2 * pl ≤ length dat
      → length dat ≤ 48
      → (r : Recv) × (receive (some (head ++ (wire_header 1 2 hl pl 1 ++ dat))) ≡ some (request r))
        × (handle_req sys fuel devices stack pack_fd r.eh r.arp src s ≡ fault)
  handle_req-overflow head dat hl pl link hlp hl8 long pl16 whole fits =
      let behind = drop (10 + length dat) (replicate 58 0) in
      let arp = received_arp 1 2 hl pl 1 (dat ++ behind) in
      (
        record { nread = pos (24 + length dat); eh = head; arp = arp },
        receive-wire head dat hl pl 1 link hlp hl8 pl16 (inl refl) whole fits,
        handle_req-long head arp (omega (arith, length-append dat behind)) long,
      )
