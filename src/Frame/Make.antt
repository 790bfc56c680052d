-- ===== src/Frame/Make.antt =====
-- The frame and the destination that send_frame of arp.c and ping.c makes; the two differ in the
-- protocol number alone.
use tour.Base.{
  ℕ, Option, none, some, ℤ, Bytes, read_at, write_at, word_bytes, htons, replicate, ◌+◌,
}
use tour.Base.Maybe.{◌>>=◌}
use tour.World.{SockaddrLl}

-- Of net/ethernet.h and sys/socket.h.
abbrev pub eth_alen : ℕ
eth_alen = 6

abbrev pub eth_hlen : ℕ
eth_hlen = 14

abbrev pub eth_data_len : ℕ
eth_data_len = 1500

abbrev pub eth_frame_len : ℕ
eth_frame_len = 1514

abbrev pub af_packet : ℕ
af_packet = 17

-- The protocols of the frames that arp.c and ping.c send.
abbrev pub eth_p_arp_sh : ℕ
eth_p_arp_sh = 0xF31F

abbrev pub eth_p_ip : ℕ
eth_p_ip = 0x0800

-- memcpy from an address that may be NULL.
abbrev pub copy_from : Option Bytes → ℕ → Option Bytes
copy_from none n = none
copy_from (some src) n = read_at src 0 n

-- The frame buffer after the copies; `frame` is what it held.
unfoldable pub fill_frame : Bytes → ℕ → Bytes → ℕ → Option Bytes → Option Bytes → Option Bytes
fill_frame frame proto payload size dstmac srcmac = do
  dst ← copy_from dstmac eth_alen
  src ← copy_from srcmac eth_alen
  frame ← write_at frame 0 dst
  frame ← write_at frame eth_alen src
  frame ← write_at frame 12 (word_bytes (htons proto))
  body ← read_at payload 0 size
  write_at frame eth_hlen body

-- The sockaddr_ll; its eight address bytes are zero behind the MAC address.
unfoldable pub destination : ℕ → Option Bytes → ℤ → Option SockaddrLl
destination proto dstmac ifi_index = do
  dst ← copy_from dstmac eth_alen
  sll_addr ← write_at (replicate 8 0) 0 dst
  some (record {
    sll_family = af_packet;
    sll_protocol = htons proto;
    sll_ifindex = ifi_index;
    sll_hatype = 0;
    sll_halen = eth_alen;
    sll_addr = sll_addr;
  })

-- What is handed to sendto: the first `size + 14` bytes of the frame, and the address.
unfoldable pub make_frame :
    ℕ → Bytes → ℕ → Option Bytes → Option Bytes → ℤ → Option (Bytes × SockaddrLl)
make_frame proto payload size dstmac srcmac ifi_index = do
  frame ← fill_frame (replicate eth_frame_len 0) proto payload size dstmac srcmac
  dest ← destination proto dstmac ifi_index
  sent ← read_at frame 0 (size + eth_hlen)
  some (sent, dest)
