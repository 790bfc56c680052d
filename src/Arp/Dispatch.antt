-- ===== src/Arp/Dispatch.antt =====
-- What run_arp makes of a frame that it received.
use tour.Base.{
  ℕ, ◌+◌, ◌*◌, ◌≤◌, ◌<◌, ◌≡◌, refl, ap, ◌⊎◌, true, false, some, ◌++◌, arith, ◌==◌, le→ltb,
  if◌then◌else◌, pos, Bytes, length, drop, replicate, length-append,
}
use tour.Arp.Packet.{ArpHdr, valid_arp, arp_datalen, arp_id}
use tour.Arp.Build.{wire_header}
use tour.Arp.Parse.{received_arp, recv_frame-wire}
use tour.Arp.Receive.{
  Recv, Verdict, read_failed, too_short, request, reply, unsupported, invalid, classify, receive,
}

-- Why a branch is taken at a frame of `nread` bytes.
abbrev pub Explains : Recv → ℕ → Verdict → Type 0
Explains r nread read_failed = ⊥
Explains r nread too_short = nread < 24 + arp_datalen r.arp
Explains r nread (request x) =
    (x ≡ r) × (valid_arp r.arp ≡ true) × (24 + arp_datalen r.arp ≤ nread) × (r.arp.op ≡ 1)
Explains r nread (reply x) =
    (x ≡ r) × (valid_arp r.arp ≡ true) × (24 + arp_datalen r.arp ≤ nread) × (r.arp.op ≡ 2)
Explains r nread unsupported = ⊥
Explains r nread invalid = valid_arp r.arp ≡ false

-- The branch for an unsupported operation is never taken: a request or a reply is handled only if
-- the packet is valid, has its operation and is whole in the bytes that were read; any other frame
-- is dropped as too short or as invalid.
pub classify-Explains : (r : Recv) (nread : ℕ) → Explains r nread (classify r nread)
unfolding classify valid_arp
classify-Explains r nread = ground arith

-- valid_arp accepts exactly the packets with the daemon's id, Ethernet and IPv4 addresses of at
-- most 8 and 16 bytes, and the operation request or reply.
abbrev pub IsValid : ArpHdr → Type 0
IsValid arp =
    (arp.id ≡ arp_id)
    × (arp.hard_type ≡ 1)
    × (arp.prot_type ≡ 2)
    × (arp.hard_len ≤ 8)
    × (arp.prot_len ≤ 16)
    × ((arp.op ≡ 1) ⊎ (arp.op ≡ 2))

pub valid_arp-true : (arp : ArpHdr) → IsValid arp → valid_arp arp ≡ true
unfolding valid_arp
valid_arp-true arp v = ground arith

-- A whole Ethernet and IPv4 packet with the daemon's id, of at most 72 bytes with its link header,
-- reaches the handler of its operation, as it was sent.
pub receive-wire :
    (head dat : Bytes) (hl pl op : ℕ)
    → length head ≡ 14
    → 0 < hl
    → hl ≤ 8
    → pl ≤ 16
    → (op ≡ 1) ⊎ (op ≡ 2)
    → 2 * hl + 2 * pl ≤ length dat
    → length dat ≤ 48
    → let r : Recv = record {
      nread = pos (24 + length dat);
      eh = head;
      arp = received_arp 1 2 hl pl op (dat ++ drop (10 + length dat) (replicate 58 0));
    } in
      receive (some (head ++ (wire_header 1 2 hl pl op ++ dat)))
      ≡ some (if op == 1 then request r else reply r)
unfolding receive classify
receive-wire head dat hl pl op link hlp hl8 pl16 ops whole fits =
    let body = wire_header 1 2 hl pl op ++ dat in
    let hdr = received_arp 1 2 hl pl op (dat ++ drop (10 + length dat) (replicate 58 0)) in
    let total : length (head ++ body) ≡ 24 + length dat =
      omega (arith, length-append head body, length-append (wire_header 1 2 hl pl op) dat) in
    rw
      (
        recv_frame-wire head dat (replicate 14 0) (replicate 58 0) 1 2 hl pl op link refl refl
            (omega arith) (omega arith) (omega arith) hlp (omega arith) (omega arith) fits,
        total,
        le→ltb (24 + length dat) 24 (omega arith),
        le→ltb (24 + length dat) (24 + (2 * hl + 2 * pl)) (omega arith),
        valid_arp-true hdr (refl, refl, refl, hl8, pl16, ops),
      )
      (ap (λ v. some v) (one_or_two _ _ op ops))
  where
    one_or_two :
        (q p : Verdict) (k : ℕ)
        → (k ≡ 1) ⊎ (k ≡ 2)
        → (if k == 1 then q else if k == 2 then p else unsupported) ≡ (if k == 1 then q else p)
    one_or_two q p k h = ground arith
