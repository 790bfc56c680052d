-- ===== src/Frame/Layout.antt =====
-- What send_frame puts on the wire.
use tour.Base.{
  ℕ, ◌+◌, ◌≤◌, ◌<◌, ◌≡◌, refl, ap, ◌∙◌, false, Option, some, [], ◌∷◌, ◌++◌, arith, lt→ltb, le→ltb,
  ℤ, Bytes, length, take, drop, replicate, read_at, write_at, written, write_next, read_front,
  write_at-append, read_at-append, word_bytes-htons, network_bytes, htons, length-append,
  length-take, length-replicate, take-append_left, append_assoc, ok, Run, Bool,
}
use tour.World.{SockaddrLl, System, Daemon, sendto_ll, sys_sendto_ll}
use tour.Frame.{send_frame, send_ip_frame}
use tour.Frame.Make.{eth_frame_len, fill_frame, destination, make_frame}

-- The link-layer header and the payload.
abbrev pub wire_frame : ℕ → Bytes → Bytes → Bytes → Bytes
wire_frame proto dst src body = take 6 dst ++ (take 6 src ++ (network_bytes proto ++ body))

abbrev pub link_address : ℕ → Bytes → ℤ → SockaddrLl
link_address proto dst ifi_index = record {
  sll_family = 17;
  sll_protocol = htons proto;
  sll_ifindex = ifi_index;
  sll_hatype = 0;
  sll_halen = 6;
  sll_addr = take 6 dst ++ (0 ∷ 0 ∷ []);
}

tail_zeros :
    (mac : Bytes) → length mac ≡ 6 → write_at (replicate 8 0) 0 mac ≡ some (mac ++ (0 ∷ 0 ∷ []))
tail_zeros mac e =
    write_at-append [] (replicate 8 0) mac 0 refl (omega arith)
    ∙ ap (λ k. some (mac ++ drop k (replicate 8 0))) e

module _ (proto : ℕ) (payload dst src : Bytes) (size : ℕ) (small : size ≤ 1500)
    (long : size ≤ length payload) (dst_long : 6 ≤ length dst) (src_long : 6 ≤ length src) where
  fill_frame_lem :
      (buf : Bytes)
      → length buf ≡ 1514
      → fill_frame buf proto payload size (some dst) (some src)
        ≡ some (written buf (wire_frame proto dst src (take size payload)))
  unfolding fill_frame
  fill_frame_lem buf len =
      let p1 = take 6 dst in
      let p2 = p1 ++ take 6 src in
      let p3 = p2 ++ network_bytes proto in
      let l1 = length-take 6 dst in
      let l2 = length-append p1 (take 6 src) in
      let l2' = length-take 6 src in
      let l3 = length-append p2 (network_bytes proto) in
      let l4 = length-take size payload in
      rw
        (
          read_front dst 6 dst_long,
          read_front src 6 src_long,
          read_front payload size long,
          word_bytes-htons proto,
          write_next buf [] p1 0 refl (omega arith),
          write_next buf p1 (take 6 src) 6 (omega arith) (omega arith),
          write_next buf p2 (network_bytes proto) 12 (omega arith) (omega arith),
          write_next buf p3 (take size payload) 14 (omega arith) (omega arith),
        )
        (ap (λ w. some (written buf w)) (simp append_assoc))

  length-wire_frame : length (wire_frame proto dst src (take size payload)) ≡ size + 14
  length-wire_frame = omega (
    arith,
    length-append (take 6 dst) (take 6 src ++ (network_bytes proto ++ take size payload)),
    length-append (take 6 src) (network_bytes proto ++ take size payload),
    length-take 6 dst,
    length-take 6 src,
    length-take size payload,
  )

  -- The part of the buffer that is sent.
  sent_part :
      (buf : Bytes)
      → read_at (written buf (wire_frame proto dst src (take size payload))) 0 (size + 14)
        ≡ some (wire_frame proto dst src (take size payload))
  sent_part buf =
      read_at-append [] (wire_frame proto dst src (take size payload))
        (drop (length (wire_frame proto dst src (take size payload))) buf) 0 (size + 14) refl
        length-wire_frame

  destination_lem :
      (ifi_index : ℤ)
      → destination proto (some dst) ifi_index ≡ some (link_address proto dst ifi_index)
  unfolding destination
  destination_lem ifi_index =
      rw (read_front dst 6 dst_long, tail_zeros (take 6 dst) (omega (arith, length-take 6 dst)))

  make_frame_lem :
      (ifi_index : ℤ)
      → make_frame proto payload size (some dst) (some src) ifi_index
        ≡ some (wire_frame proto dst src (take size payload), link_address proto dst ifi_index)
  unfolding make_frame
  make_frame_lem ifi_index = rw (
    fill_frame_lem (replicate eth_frame_len 0) (length-replicate {A = ℕ} eth_frame_len 0),
    destination_lem ifi_index,
    sent_part (replicate eth_frame_len 0),
  )

-- How a send ends: one call of sendto is made, and its success is returned.
abbrev pub Sends : System → ℤ → Bytes → SockaddrLl → Daemon → Run Daemon Bool → Type 0
Sends sys sock frame dest s run =
    run
    ≡ ok (sys.sendto_ok s.trace sock frame dest)
        (record s { trace = sendto_ll sock frame dest ∷ s.trace })

module _ (sys : System) (sock : ℤ) (payload dst src : Bytes) (size : ℕ) (ifi_index : ℤ)
    (s : Daemon) where
  -- A payload of at most 1500 bytes goes out behind the two MAC addresses and the protocol number
  -- of the ARP daemon in network order, to that interface and MAC, in one call of sendto; the result
  -- is whether it succeeded.
  pub send_frame-wire :
      size ≤ 1500
      → size ≤ length payload
      → 6 ≤ length dst
      → 6 ≤ length src
      → Sends sys sock
          (wire_frame 0xF31F dst src (take size payload))
          (link_address 0xF31F dst ifi_index)
          s
          (send_frame sys sock payload size (some dst) (some src) ifi_index s)
  unfolding send_frame sys_sendto_ll
  send_frame-wire small long ld ls = rw (
    le→ltb 1500 size small,
    make_frame_lem 0xF31F payload dst src size small long ld ls ifi_index,
  )

  -- The same of the send_frame of ping.c, under the number of IP.
  pub send_ip_frame-wire :
      size ≤ 1500
      → size ≤ length payload
      → 6 ≤ length dst
      → 6 ≤ length src
      → Sends sys sock
          (wire_frame 0x0800 dst src (take size payload))
          (link_address 0x0800 dst ifi_index)
          s
          (send_ip_frame sys sock payload size (some dst) (some src) ifi_index s)
  unfolding send_ip_frame sys_sendto_ll
  send_ip_frame-wire small long ld ls = rw (
    le→ltb 1500 size small,
    make_frame_lem 0x0800 payload dst src size small long ld ls ifi_index,
  )

  -- A larger payload is refused by both, whatever the addresses: the result is 0, nothing is sent
  -- and the state stays.
  pub send_frame-too_large :
      (to from : Option Bytes)
      → 1500 < size
      → (send_frame sys sock payload size to from ifi_index s ≡ ok false s)
        × (send_ip_frame sys sock payload size to from ifi_index s ≡ ok false s)
  unfolding send_frame send_ip_frame
  send_frame-too_large to from large = (rw (lt→ltb 1500 size large), rw (lt→ltb 1500 size large))

-- The same of a payload that stands at the front of a longer buffer.
pub send_frame-front :
    (sys : System) (sock : ℤ) (body rest dst src : Bytes) (n : ℕ) (ifi_index : ℤ) (s : Daemon)
    → length body ≡ n
    → n ≤ 1500
    → 6 ≤ length dst
    → 6 ≤ length src
    → Sends sys sock
        (wire_frame 0xF31F dst src body)
        (link_address 0xF31F dst ifi_index)
        s
        (send_frame sys sock (body ++ rest) n (some dst) (some src) ifi_index s)
send_frame-front sys sock body rest dst src n ifi_index s len small ld ls =
    rw (take-append_left n body rest len) at (
      send_frame-wire sys sock (body ++ rest) dst src n ifi_index s small
        (omega (arith, length-append body rest)) ld ls)
