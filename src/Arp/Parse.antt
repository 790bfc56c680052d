-- ===== src/Arp/Parse.antt =====
-- recv_frame and print_addresses of arp.c on frames by their layout.
use tour.Base.{
  ℕ, ◌+◌, ◌*◌, ◌-◌, ◌/◌, ◌%◌, length-replicate, ◌≤◌, ◌<◌, ◌≡◌, refl, ap, ◌∙◌, false, none, some, [],
  ◌++◌, arith, ◌==◌, lt→ltb, pos, Bytes, length, take, drop, replicate, write_at, write_next,
  read_beyond, read_within, write_beyond, read_at-append, word_of, htons-word_of, drop_all,
  append-nil, length-append, length-drop, append_assoc,
}
use tour.Base.Maybe.{◌>>=◌}
use tour.Frame.Make.{eth_frame_len}
use tour.Arp.Packet.{ArpHdr, load_arp, ntoh_arp, arp_id}
use tour.Arp.Build.{wire_header}
use tour.Arp.Receive.{print_addresses, recv_into, recv_frame}

-- If the lengths in the header lead outside the 48 bytes of data, printing the addresses reads
-- outside them.
pub print_addresses-overread :
    (arp : ArpHdr)
    → length arp.payload ≡ 48
    → 48 < 2 * arp.hard_len + 2 * arp.prot_len
    → print_addresses arp ≡ none
unfolding print_addresses
print_addresses-overread arp size far =
    ground
      (arith, read_beyond arp.payload (2 * arp.hard_len + arp.prot_len) arp.prot_len (omega arith))

-- The bytes printed when the addresses lie inside the data.
pub print_addresses-within :
    (arp : ArpHdr)
    → 0 < arp.hard_len
    → 2 * arp.hard_len + 2 * arp.prot_len ≤ length arp.payload
    → (out : Bytes) × (print_addresses arp ≡ some out)
unfolding print_addresses
print_addresses-within arp some_len fits =
    let hl = arp.hard_len in
    let pl = arp.prot_len in
    let d = arp.payload in
    let nonzero : (hl == 0) ≡ false = ground arith in
    (
      take hl (drop 0 d)
          ++ (take pl (drop hl d)
              ++ (take hl (drop (hl + pl) d) ++ take pl (drop (2 * hl + pl) d))),
      rw (
        nonzero,
        read_within d 0 hl (omega arith),
        read_within d hl pl (omega arith),
        read_within d (hl + pl) hl (omega arith),
        read_within d (2 * hl + pl) pl (omega arith),
      ),
    )

module _ (frame head body eh arp : Bytes) (room : length frame ≡ 1514) (link : length head ≡ 14)
    (fits : length body ≤ 1500) (more : 10 < length body) (eh_size : length eh ≡ 14) where
  got_length : length (head ++ body) ≡ 14 + length body
  got_length = omega (arith, length-append head body)

  stored :
      write_at frame 0 (head ++ body) ≡ some (head ++ (body ++ drop (length (head ++ body)) frame))
  stored =
      write_next frame [] (head ++ body) 0 refl (omega (arith, got_length))
      ∙ ap some (append_assoc head body (drop (length (head ++ body)) frame))

  -- The link header is copied, and the rest goes to `arp` as far as it has room.
  recv_into-copies : recv_into frame (some (head ++ body)) eh arp ≡ (do
    arp' ← write_at arp 0 body
    hdr ← load_arp arp'
    shown ← print_addresses (ntoh_arp hdr)
    some (record { nread = pos (length (head ++ body)); eh = head; arp = ntoh_arp hdr }))
  unfolding recv_into
  recv_into-copies =
      let long : 24 < length (head ++ body) = omega (arith, got_length) in
      let rest = drop (length (head ++ body)) frame in
      rw (
        stored,
        lt→ltb 24 (length (head ++ body)) long,
        read_at-append [] head (body ++ rest) 0 14 refl link,
        whole_eh,
        read_at-append head body rest 14 (length (head ++ body) - 14) link
            (omega (arith, got_length)),
      )
    where
      whole_eh : write_at eh 0 head ≡ some head
      whole_eh =
          write_next eh [] head 0 refl (omega arith)
          ∙ ap (λ t. some t)
              (ap (λ r. head ++ r) (drop_all (length head) eh (omega arith)) ∙ append-nil head)

  -- More than 58 bytes behind the link header: the copy writes outside `arp`.
  recv_into-overflow :
      length arp ≡ 58 → 58 < length body → recv_into frame (some (head ++ body)) eh arp ≡ none
  recv_into-overflow size over = recv_into-copies ∙ rw (write_beyond arp 0 body (omega arith))

-- A frame with 14 bytes of link header and between 59 and 1500 bytes behind it overflows the
-- caller's struct arp_hdr.
pub recv_frame-overflow :
    (head body eh arp : Bytes)
    → length head ≡ 14
    → 58 < length body
    → length body ≤ 1500
    → length eh ≡ 14
    → length arp ≡ 58
    → recv_frame (some (head ++ body)) eh arp ≡ none
unfolding recv_frame
recv_frame-overflow head body eh arp link over fits eh_size size =
    recv_into-overflow (replicate eth_frame_len 0) head body eh arp
      (length-replicate {A = ℕ} eth_frame_len 0) link fits (omega arith) eh_size size over

-- The structure that the receiver has of a packet in network order.
abbrev pub received_arp : ℕ → ℕ → ℕ → ℕ → ℕ → Bytes → ArpHdr
received_arp hard_type prot_type hard_len prot_len op payload = record {
  id = arp_id;
  hard_type = hard_type;
  prot_type = prot_type;
  hard_len = hard_len;
  prot_len = prot_len;
  op = op;
  payload = payload;
}

-- Loading what build_arp stored and changing the byte order gives the numbers back.
load-wire_header :
    (ht pt hl pl op : ℕ) (rest : Bytes)
    → ht < 65536
    → pt < 65536
    → op < 65536
    → (hdr : ArpHdr) × (load_arp (wire_header ht pt hl pl op ++ rest) ≡ some hdr)
      × (ntoh_arp hdr ≡ received_arp ht pt hl pl op rest)
unfolding load_arp ntoh_arp
load-wire_header ht pt hl pl op rest h1 h2 h3 = (
  record {
    id = word_of 0xDE 0xAD;
    hard_type = word_of (ht / 256 % 256) (ht % 256);
    prot_type = word_of (pt / 256 % 256) (pt % 256);
    hard_len = hl;
    prot_len = pl;
    op = word_of (op / 256 % 256) (op % 256);
    payload = rest;
  },
  refl,
  ground (arith, htons-word_of ht, htons-word_of pt, htons-word_of op),
)

-- A frame of a link header and a packet in network order, whose addresses lie inside the 48 bytes
-- of data, is received as sent: the link header, the numbers of the header, and the data with what
-- the caller's buffer had behind it.
pub recv_frame-wire :
    (head dat eh arp : Bytes) (ht pt hl pl op : ℕ)
    → length head ≡ 14
    → length eh ≡ 14
    → length arp ≡ 58
    → ht < 65536
    → pt < 65536
    → op < 65536
    → 0 < hl
    → 2 * hl + 2 * pl ≤ 48
    → 0 < length dat
    → length dat ≤ 48
    → recv_frame (some (head ++ (wire_header ht pt hl pl op ++ dat))) eh arp
      ≡ some (record {
        nread = pos (24 + length dat);
        eh = head;
        arp = received_arp ht pt hl pl op (dat ++ drop (10 + length dat) arp);
      })
unfolding recv_frame
recv_frame-wire head dat eh arp ht pt hl pl op link eh_size size h1 h2 h3 hlp within more fits =
    let body = wire_header ht pt hl pl op ++ dat in
    let rest = dat ++ drop (10 + length dat) arp in
    let loaded = load-wire_header ht pt hl pl op rest h1 h2 h3 in
    let len : length rest ≡ 48 =
      omega (
        arith,
        length-append dat (drop (10 + length dat) arp),
        length-drop (10 + length dat) arp,
      ) in
    let shown = print_addresses-within (received_arp ht pt hl pl op rest) hlp (omega arith) in
    let total : length (head ++ body) ≡ 24 + length dat =
      omega (arith, length-append head body, length-append (wire_header ht pt hl pl op) dat) in
    recv_into-copies (replicate eth_frame_len 0) head body eh arp
      (length-replicate {A = ℕ} eth_frame_len 0) link (omega arith) (omega arith) eh_size
    ∙ rw (copied, loaded.1, loaded.2, shown.1, total) refl
  where
    hdr : Bytes
    hdr = wire_header ht pt hl pl op

    len_body : length (hdr ++ dat) ≡ 10 + length dat
    len_body = length-append hdr dat

    copied : write_at arp 0 (hdr ++ dat) ≡ some (hdr ++ (dat ++ drop (10 + length dat) arp))
    copied =
        write_next arp [] (hdr ++ dat) 0 refl (omega (arith, len_body))
        ∙ ap (λ t. some t)
            (append_assoc hdr dat (drop (length (hdr ++ dat)) arp)
              ∙ ap (λ k. hdr ++ (dat ++ drop k arp)) len_body)
