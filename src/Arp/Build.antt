-- ===== src/Arp/Build.antt =====
-- build_arp of arp.c: the packet on the wire.
use tour.Base.{
  ℕ, ◌+◌, ◌*◌, ◌≤◌, ◌<◌, ◌≡◌, refl, sym, ap, ◌∙◌, Option, none, some, [], ◌∷◌, ◌++◌, arith, le→ltb,
  lt→ltb, Bytes, length, take, drop, replicate, written, write_next, read_front, network_bytes,
  word_bytes-htons, length-append, length-take, length-replicate, append_assoc,
}
use tour.Arp.Packet.{arp_id, Addresses, put_address, build_len, fill_header, fill_data, build_arp}

-- What an address field holds: zeros for NULL, else the first `n` bytes.
abbrev pub field : ℕ → Option Bytes → Bytes
field n none = replicate n 0
field n (some src) = take n src

-- NULL, or an array of at least `n` bytes.
abbrev pub Covers : ℕ → Option Bytes → Type 0
Covers n none = Unit {0}
Covers n (some src) = n ≤ length src

length-field : (n : ℕ) (src : Option Bytes) → Covers n src → length (field n src) ≡ n
length-field n none c = length-replicate n 0
length-field n (some src) c = omega (arith, length-take n src)

put_next :
    (start pre : Bytes) (off n : ℕ) (src : Option Bytes)
    → length pre ≡ off
    → Covers n src
    → off + n ≤ length start
    → put_address (written start pre) off n src ≡ some (written start (pre ++ field n src))
unfolding put_address
put_next start pre off n none e c fits =
    write_next start pre (replicate n 0) off e (omega (arith, length-field n none tt))
put_next start pre off n (some src) e c fits =
    rw (read_front src n c)
      (write_next start pre (take n src) off e (omega (arith, length-take n src)))

-- The header in network order.
abbrev pub wire_header : ℕ → ℕ → ℕ → ℕ → ℕ → Bytes
wire_header hard_type prot_type hard_len prot_len op =
    network_bytes arp_id
    ++ (network_bytes hard_type
        ++ (network_bytes prot_type ++ (hard_len ∷ prot_len ∷ network_bytes op)))

-- The four addresses, one behind the other.
abbrev pub wire_data : ℕ → ℕ → Addresses → Bytes
wire_data hard_len prot_len addrs =
    field hard_len addrs.send_hwa
    ++ (field prot_len addrs.send_pro
        ++ (field hard_len addrs.target_hwa ++ field prot_len addrs.target_pro))

module _ (hard_type prot_type hard_len prot_len op : ℕ) where
  -- The six header writes.
  fill_header_lem :
      (start : Bytes)
      → 10 ≤ length start
      → fill_header start hard_type prot_type hard_len prot_len op
        ≡ some (written start (wire_header hard_type prot_type hard_len prot_len op))
  unfolding fill_header
  fill_header_lem start fits =
      let p1 = network_bytes arp_id in
      let p2 = p1 ++ network_bytes hard_type in
      let p3 = p2 ++ network_bytes prot_type in
      let p4 = p3 ++ (hard_len ∷ []) in
      let p5 = p4 ++ (prot_len ∷ []) in
      rw
        (
          word_bytes-htons hard_type,
          word_bytes-htons prot_type,
          word_bytes-htons op,
          write_next start [] (network_bytes arp_id) 0 refl (omega arith),
          write_next start p1 (network_bytes hard_type) 2 refl (omega arith),
          write_next start p2 (network_bytes prot_type) 4 refl (omega arith),
          write_next start p3 (hard_len ∷ []) 6 refl (omega arith),
          write_next start p4 (prot_len ∷ []) 7 refl (omega arith),
          write_next start p5 (network_bytes op) 8 refl (omega arith),
        )
        refl

-- The address copies behind ten header bytes.
fill_data_lem :
    (start pre : Bytes) (hard_len prot_len : ℕ) (addrs : Addresses)
    → length pre ≡ 10
    → build_len hard_len prot_len ≤ length start
    → Covers hard_len addrs.send_hwa
    → Covers prot_len addrs.send_pro
    → Covers hard_len addrs.target_hwa
    → Covers prot_len addrs.target_pro
    → fill_data (written start pre) hard_len prot_len addrs
      ≡ some (written start (pre ++ wire_data hard_len prot_len addrs))
unfolding fill_data build_len
fill_data_lem start pre hl pl addrs e fits c1 c2 c3 c4 =
    let f1 = field hl addrs.send_hwa in
    let f2 = field pl addrs.send_pro in
    let f3 = field hl addrs.target_hwa in
    let f4 = field pl addrs.target_pro in
    let l1 = length-field hl addrs.send_hwa c1 in
    let l2 = length-field pl addrs.send_pro c2 in
    let l3 = length-field hl addrs.target_hwa c3 in
    let e2 = length-append pre f1 in
    let e3 = length-append (pre ++ f1) f2 in
    let e4 = length-append ((pre ++ f1) ++ f2) f3 in
    rw
      (
        put_next start pre 10 hl addrs.send_hwa e c1 (omega arith),
        put_next start (pre ++ f1) (10 + hl) pl addrs.send_pro (omega arith) c2 (omega arith),
        put_next start ((pre ++ f1) ++ f2) (10 + hl + pl) hl addrs.target_hwa (omega arith) c3
            (omega arith),
        put_next start (((pre ++ f1) ++ f2) ++ f3) (10 + hl + pl + hl) pl addrs.target_pro
            (omega arith) c4 (omega arith),
      )
      (ap (λ w. some (written start w)) (simp append_assoc))

build_len_lem : (hl pl : ℕ) → build_len hl pl ≡ 10 + 2 * hl + 2 * pl
unfolding build_len
build_len_lem hl pl = refl

pub length-wire_data :
    (hl pl : ℕ) (addrs : Addresses)
    → Covers hl addrs.send_hwa
    → Covers pl addrs.send_pro
    → Covers hl addrs.target_hwa
    → Covers pl addrs.target_pro
    → length (wire_data hl pl addrs) ≡ 2 * hl + 2 * pl
length-wire_data hl pl addrs c1 c2 c3 c4 =
    let f1 = field hl addrs.send_hwa in
    let f2 = field pl addrs.send_pro in
    let f3 = field hl addrs.target_hwa in
    let f4 = field pl addrs.target_pro in
    omega (
      arith,
      length-field hl addrs.send_hwa c1,
      length-field pl addrs.send_pro c2,
      length-field hl addrs.target_hwa c3,
      length-field pl addrs.target_pro c4,
      length-append f1 (f2 ++ (f3 ++ f4)),
      length-append f2 (f3 ++ f4),
      length-append f3 f4,
    )

-- Where the packet fits, build_arp returns its length and writes it in network order: the header,
-- then the four addresses, a NULL one as zeros. The rest of the buffer stays.
pub build_arp-wire :
    (start : Bytes) (size hard_type prot_type hard_len prot_len op : ℕ) (addrs : Addresses)
    → build_len hard_len prot_len ≤ size
    → size ≤ length start
    → Covers hard_len addrs.send_hwa
    → Covers prot_len addrs.send_pro
    → Covers hard_len addrs.target_hwa
    → Covers prot_len addrs.target_pro
    → build_arp (some start) size hard_type prot_type hard_len prot_len op addrs
      ≡ some (
        build_len hard_len prot_len,
        some (
            wire_header hard_type prot_type hard_len prot_len op
            ++ (wire_data hard_len prot_len addrs ++ drop (build_len hard_len prot_len) start)),
      )
unfolding build_arp
build_arp-wire start size ht pt hl pl op addrs fits within c1 c2 c3 c4 =
    rw
      (
        le→ltb size (build_len hl pl) fits,
        fill_header_lem ht pt hl pl op start (omega (arith, build_len_lem hl pl)),
        fill_data_lem start (wire_header ht pt hl pl op) hl pl addrs refl (omega arith) c1 c2 c3 c4,
      )
      (ap (λ (w : Bytes). some (build_len hl pl, some w))
        (append_assoc hdr (wire_data hl pl addrs) _
          ∙ ap (λ (k : ℕ). hdr ++ (wire_data hl pl addrs ++ drop k start)) len))
  where
    hdr : Bytes
    hdr = wire_header ht pt hl pl op

    len : length (hdr ++ wire_data hl pl addrs) ≡ build_len hl pl
    len = omega (
      arith,
      build_len_lem hl pl,
      length-append hdr (wire_data hl pl addrs),
      length-wire_data hl pl addrs c1 c2 c3 c4,
    )

-- A NULL buffer or one that is too small: the result is 0 and nothing is written.
pub build_arp-refuses :
    (start : Option Bytes) (size hard_type prot_type hard_len prot_len op : ℕ) (addrs : Addresses)
    → size < build_len hard_len prot_len
    → build_arp start size hard_type prot_type hard_len prot_len op addrs ≡ some (0, start)
unfolding build_arp
build_arp-refuses none size ht pt hl pl op addrs small = refl
build_arp-refuses (some start) size ht pt hl pl op addrs small =
    rw (lt→ltb size (build_len hl pl) small)

-- The Ethernet and IPv4 packet of the addresses.
abbrev pub packet : ℕ → ℕ → ℕ → Addresses → Bytes
packet hard_type prot_type op addrs = wire_header hard_type prot_type 6 4 op ++ wire_data 6 4 addrs

module _ (ht pt op : ℕ) (addrs : Addresses) (c1 : Covers 6 addrs.send_hwa)
    (c2 : Covers 4 addrs.send_pro) (c3 : Covers 6 addrs.target_hwa)
    (c4 : Covers 4 addrs.target_pro) where
  pub length-packet : length (packet ht pt op addrs) ≡ 30
  length-packet = omega (
    arith,
    length-append (wire_header ht pt 6 4 op) (wire_data 6 4 addrs),
    length-wire_data 6 4 addrs c1 c2 c3 c4,
  )

  -- Built in a buffer that has room for it, the packet stands at the front.
  pub build_arp-packet :
      (start : Bytes) (size : ℕ)
      → 30 ≤ size
      → size ≤ length start
      → build_arp (some start) size ht pt 6 4 op addrs
        ≡ some (30, some (packet ht pt op addrs ++ drop 30 start))
  unfolding build_len
  build_arp-packet start size room within =
      build_arp-wire start size ht pt 6 4 op addrs room within c1 c2 c3 c4
      ∙ ap (λ (w : Bytes). some (30, some w))
          (sym (append_assoc (wire_header ht pt 6 4 op) (wire_data 6 4 addrs) (drop 30 start)))
