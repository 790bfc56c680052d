-- ===== src/Arp/Request.antt =====
-- handle_areq: the requests that are broadcast for an address.
use tour.Base.{
  ◌≤◌, ◌≡◌, refl, Bool, true, false, none, some, List, [], ◌∷◌, arith, if◌then◌else◌, ℤ, Bytes,
  length, drop, All, replicate, length-drop, ok, Bool-cases, inl, inr,
}
use tour.World.{System, Daemon, SockaddrLl, Trace, sendto_ll}
use tour.Frame.Layout.{wire_frame, link_address, send_frame-front}
use tour.Arp.Device.{HwaInfo}
use tour.Arp.Packet.{Addresses, build_len}
use tour.Arp.Build.{packet, length-packet, build_arp-packet}
use tour.Arp.Handle.{send_request, broadcast}

-- The addresses of a request: ours, and the one that is asked for.
abbrev pub request_addresses : Bytes → HwaInfo → Addresses
request_addresses addr d = record {
  send_hwa = some d.if_haddr;
  send_pro = some (drop 4 d.ip_addr);
  target_hwa = none;
  target_pro = some (drop 4 addr);
}

abbrev pub request_packet : Bytes → HwaInfo → Bytes
request_packet addr d = packet 1 2 1 (request_addresses addr d)

-- The frame of a request to every node on the wire, and the address that it is sent to.
abbrev pub request_frame : Bytes → HwaInfo → Bytes
request_frame addr d = wire_frame 0xF31F (replicate 8 0xFF) d.if_haddr (request_packet addr d)

abbrev pub request_link : HwaInfo → SockaddrLl
request_link d = link_address 0xF31F (replicate 8 0xFF) d.if_index

-- An interface with the bytes of an Ethernet and of an IPv4 address.
abbrev pub IsDevice : HwaInfo → Type 0
IsDevice d = (6 ≤ length d.if_haddr) × (8 ≤ length d.ip_addr)

-- The requests for an address from each interface in turn, up to the first that is not sent.
abbrev pub asks : System → ℤ → Bytes → List HwaInfo → Trace → Bool × Trace
asks sys sock addr [] t = (true, t)
asks sys sock addr (d ∷ rest) t =
    let next =
      asks sys sock addr rest (sendto_ll sock (request_frame addr d) (request_link d) ∷ t) in
    if sys.sendto_ok t sock (request_frame addr d) (request_link d)
    then next
    else (false, sendto_ll sock (request_frame addr d) (request_link d) ∷ t)

module _ (sys : System) (sock : ℤ) (addr : Bytes) (size : 8 ≤ length addr) where
  send_request_lem :
      (d : HwaInfo) (s : Daemon)
      → IsDevice d
      → send_request sys sock addr d s
        ≡ ok
            (sys.sendto_ok s.trace sock (request_frame addr d) (request_link d))
            (record s { trace = sendto_ll sock (request_frame addr d) (request_link d) ∷ s.trace })
  unfolding send_request build_len
  send_request_lem d s (mac, inet) =
      let addrs : Addresses = request_addresses addr d in
      let c1 : 4 ≤ length (drop 4 d.ip_addr) = omega (arith, length-drop 4 d.ip_addr) in
      let c2 : 4 ≤ length (drop 4 addr) = omega (arith, length-drop 4 addr) in
      rw (build_arp-packet 1 2 1 addrs mac c1 tt c2 (replicate 68 0) 68 (omega arith) (omega arith))
        (send_frame-front sys sock (request_packet addr d) (replicate 38 0) (replicate 8 0xFF)
          d.if_haddr 30 d.if_index s (length-packet 1 2 1 addrs mac c1 tt c2) (omega arith)
          (omega arith) mac)

  -- handle_areq's loop over the interfaces, each with a MAC and an IPv4 address: a request for the
  -- address is broadcast from each in turn, up to the first that cannot be sent, and the result is
  -- whether all were sent.
  pub broadcast-asks :
      (devices : List HwaInfo) (s : Daemon)
      → All IsDevice devices
      → let asked = asks sys sock addr devices s.trace in
        broadcast sys sock addr devices s ≡ ok asked.0 (record s { trace = asked.1 })
  unfolding broadcast
  broadcast-asks [] s v = refl
  broadcast-asks (d ∷ rest) s (dev, devs) =
      elim (Bool-cases (sys.sendto_ok s.trace sock (request_frame addr d) (request_link d))) [
        | inl sent ↦
            rw (send_request_lem d s dev, sent)
              (broadcast-asks rest
                (record s {
                  trace = sendto_ll sock (request_frame addr d) (request_link d) ∷ s.trace;
                })
                devs)
        | inr failed ↦ rw (send_request_lem d s dev, failed) refl
      ]
