-- ===== src/Arp/Packet.antt =====
-- struct arp_hdr of arp.h; ntoh_arp, valid_arp, build_arp, and the address accessors of arp.c.
use tour.Base.{
  ℕ, ◌+◌, ◌*◌, Bool, ◌&&◌, ◌||◌, Option, none, some, [], ◌∷◌, ◌==◌, ltb, leb, if◌then◌else◌, Bytes,
  read_at, write_at, word_bytes, word_of, htons, replicate,
}
use tour.Base.Maybe.{◌>>=◌}

abbrev pub arp_id : ℕ
arp_id = 0xDEAD

abbrev pub arp_maxlen : ℕ
arp_maxlen = 68

abbrev pub arp_hdrlen : ℕ
arp_hdrlen = 10

abbrev pub arp_maxhwlen : ℕ
arp_maxhwlen = 8

abbrev pub arp_maxprlen : ℕ
arp_maxprlen = 16

abbrev pub arp_maxdatalen : ℕ
arp_maxdatalen = 48

-- sizeof(struct arp_hdr): the header and its data, with no padding.
abbrev pub arp_hdr_size : ℕ
arp_hdr_size = 58

-- Of net/if_arp.h and sys/socket.h.
abbrev pub arphrd_ether : ℕ
arphrd_ether = 1

abbrev pub arpop_request : ℕ
arpop_request = 1

abbrev pub arpop_reply : ℕ
arpop_reply = 2

abbrev pub pf_inet : ℕ
pf_inet = 2

-- `payload` is the member `data`.
pub record ArpHdr : Type 0 where
  pub id : ℕ
  pub hard_type : ℕ
  pub prot_type : ℕ
  pub hard_len : ℕ
  pub prot_len : ℕ
  pub op : ℕ
  pub payload : Bytes

-- The structure that the bytes in memory are.
unfoldable pub load_arp : Bytes → Option ArpHdr
load_arp (i0 ∷ i1 ∷ h0 ∷ h1 ∷ p0 ∷ p1 ∷ hl ∷ pl ∷ o0 ∷ o1 ∷ payload) = some (record {
  id = word_of i0 i1;
  hard_type = word_of h0 h1;
  prot_type = word_of p0 p1;
  hard_len = hl;
  prot_len = pl;
  op = word_of o0 o1;
  payload = payload;
})
load_arp _ = none

-- ARP_SHA, ARP_SPA, ARP_THA and ARP_TPA as offsets into `data`.
abbrev pub sha_offset : ArpHdr → ℕ
sha_offset arp = 0

abbrev pub spa_offset : ArpHdr → ℕ
spa_offset arp = arp.hard_len

abbrev pub tha_offset : ArpHdr → ℕ
tha_offset arp = arp.hard_len + arp.prot_len

abbrev pub tpa_offset : ArpHdr → ℕ
tpa_offset arp = 2 * arp.hard_len + arp.prot_len

-- ARP_DATALEN.
abbrev pub arp_datalen : ArpHdr → ℕ
arp_datalen arp = 2 * arp.hard_len + 2 * arp.prot_len

unfoldable pub ntoh_arp : ArpHdr → ArpHdr
ntoh_arp arp = record arp {
  id = htons arp.id;
  hard_type = htons arp.hard_type;
  prot_type = htons arp.prot_type;
  op = htons arp.op;
}

-- Each failed check clears `valid`.
unfoldable pub valid_arp : ArpHdr → Bool
valid_arp arp =
    (arp.id == arp_id)
    && ((arp.hard_type == arphrd_ether)
        && ((arp.prot_type == pf_inet)
            && (leb arp.hard_len arp_maxhwlen
                && (leb arp.prot_len arp_maxprlen
                    && ((arp.op == arpop_request) || (arp.op == arpop_reply))))))

-- `if(src == NULL) memset(dst, 0, n); else memcpy(dst, src, n);` at an offset of the buffer.
unfoldable pub put_address : Bytes → ℕ → ℕ → Option Bytes → Option Bytes
put_address buf off n none = write_at buf off (replicate n 0)
put_address buf off n (some src) = read_at src 0 n >>= write_at buf off

-- The four addresses that build_arp is given; `none` is NULL.
pub record Addresses : Type 0 where
  pub send_hwa : Option Bytes
  pub send_pro : Option Bytes
  pub target_hwa : Option Bytes
  pub target_pro : Option Bytes

unfoldable pub build_len : ℕ → ℕ → ℕ
build_len hard_len prot_len = arp_hdrlen + 2 * hard_len + 2 * prot_len

-- The header fields, in the order of the assignments.
unfoldable pub fill_header : Bytes → ℕ → ℕ → ℕ → ℕ → ℕ → Option Bytes
fill_header start hard_type prot_type hard_len prot_len op = do
  b ← write_at start 0 (word_bytes (htons arp_id))
  b ← write_at b 2 (word_bytes (htons hard_type))
  b ← write_at b 4 (word_bytes (htons prot_type))
  b ← write_at b 6 (hard_len ∷ [])
  b ← write_at b 7 (prot_len ∷ [])
  write_at b 8 (word_bytes (htons op))

-- The variable length data, [ sha | spa | tha | tpa ].
unfoldable pub fill_data : Bytes → ℕ → ℕ → Addresses → Option Bytes
fill_data start hard_len prot_len addrs =
    let sha = arp_hdrlen in
    let spa = sha + hard_len in
    let tha = spa + prot_len in
    let tpa = tha + hard_len in
    do
      b ← put_address start sha hard_len addrs.send_hwa
      b ← put_address b spa prot_len addrs.send_pro
      b ← put_address b tha hard_len addrs.target_hwa
      put_address b tpa prot_len addrs.target_pro

-- The returned length, and the buffer afterwards; `start` is `none` for NULL.
unfoldable pub build_arp :
    Option Bytes → ℕ → ℕ → ℕ → ℕ → ℕ → ℕ → Addresses → Option (ℕ × Option Bytes)
build_arp none size hard_type prot_type hard_len prot_len op addrs = some (0, none)
build_arp (some start) size hard_type prot_type hard_len prot_len op addrs =
    if ltb size (build_len hard_len prot_len) then some (0, some start) else do
      b ← fill_header start hard_type prot_type hard_len prot_len op
      b ← fill_data b hard_len prot_len addrs
      some (build_len hard_len prot_len, some b)
