-- ===== src/Areq.antt =====
-- areq and print_hwa of api.c: a client asks the daemon for the hardware address of an IP address.
-- A struct hwaddr is its 28 bytes.
mod Tests
pub mod Closes
pub mod Returns
use tour.Base.{
  ℕ, zero, suc, ◌+◌, Bool, Option, none, some, List, [], ◌∷◌, ◌++◌, if◌then◌else◌, ltb_ℤ, ℤ, pos,
  plus_one, is_negative, eqb_ℤ, Bytes, read_at, word_bytes, Cmd, pure, or_fault, ◌>>=◌, ◌>>◌,
}
use tour.Unix.{
  Calls, Kernel, socket, connect, send, select, recv, close, af_unix, sock_stream, fd_set, call,
  call_for_bytes,
}

-- ARP_WELL_KNOWN_PATH, "/tmp/arp_cse533-14".
abbrev pub arp_well_known_path : Bytes
arp_well_known_path =
    47 ∷ 116 ∷ 109 ∷ 112 ∷ 47 ∷ 97 ∷ 114 ∷ 112 ∷ 95 ∷ 99 ∷ 115 ∷ 101 ∷ 53 ∷ 51 ∷ 51 ∷ 45 ∷ 49 ∷ 52
    ∷ []

-- sizeof(struct hwaddr).
abbrev pub hwaddr_size : ℕ
hwaddr_size = 28

-- The bytes that the loop and the last call print. One outside `sll_addr` is `none`.
unfoldable pub print_hwa : ℕ → Bytes → Option Bytes
print_hwa n [] = none
print_hwa zero (b ∷ rest) = some (b ∷ [])
print_hwa (suc zero) (b ∷ rest) = some (b ∷ [])
print_hwa (suc (suc n)) (b ∷ rest) =
    let more = print_hwa (suc n) rest in elim more [ none ↦ none | some bs ↦ some (b ∷ bs) ]

-- The address is printed: its length is at offset 18, its eight bytes from 19 on.
unfoldable pub show_hwa : Bytes → Option Bytes
unfolding print_hwa
show_hwa hwa = elim (read_at hwa 18 1) [
  | none ↦ none
  | some sll_halen ↦ elim (read_at hwa 19 8) [
    | none ↦ none
    | some sll_addr ↦ print_hwa (first_byte sll_halen) sll_addr
  ]
]
  where
    first_byte : Bytes → ℕ
    first_byte [] = 0
    first_byte (b ∷ _) = b

module _ (os : Kernel) where
  -- The else branch of the select: the address, or `none` for a jump to CLOSE_SOCK.
  unfoldable pub receive_hwa : ℤ → Cmd Calls (Option Bytes)
  receive_hwa sock = do
    (nread, hwa) ← call_for_bytes os (recv sock hwaddr_size)
    if is_negative nread
        then pure none
        else if ltb_ℤ nread (pos hwaddr_size)
        then pure none
        else or_fault (show_hwa hwa) >> pure (some hwa)

  -- What is done with the socket before it is closed.
  unfoldable pub ask : ℤ → Bytes → ℕ → Cmd Calls (Option Bytes)
  ask sock ipa len = do
    rc ← call os (connect sock (word_bytes af_unix ++ arp_well_known_path))
    if is_negative rc then pure none else do
      addr ← or_fault (read_at ipa 0 16)
      nsent ← call os (send sock (addr ++ (word_bytes len ++ (0 ∷ 0 ∷ []))))
      if is_negative nsent then pure none else do
        rset ← or_fault (fd_set sock [])
        rv ← call os (select (plus_one sock) rset (some 2))
        if is_negative rv
            then pure none
            else if eqb_ℤ rv (pos 0)
            then pure none
            else receive_hwa sock

  -- The hardware address, or `none` for the return of 0. `len` is below 65536.
  unfoldable pub areq : Bytes → ℕ → Cmd Calls (Option Bytes)
  areq ipa len = do
    sock ← call os (socket af_unix sock_stream 0)
    if is_negative sock
        then pure none
        else do found ← ask sock ipa len; call os (close sock); pure found
