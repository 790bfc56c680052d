-- ===== src/Prhwaddrs.antt =====
-- prhwaddrs.c: the program that prints the interfaces that get_hw_addrs lists.
mod Tests
pub mod Main
pub mod Text
pub mod Frees
use tour.Base.{
  hex_byte, digits, ℕ, zero, suc, ◌+◌, ◌/◌, ◌%◌, Bool, true, false, Option, none, some, List, [],
  ◌∷◌, ◌++◌, ◌==◌, ltb, if◌then◌else◌, ℤ, pos, negsuc, Bytes, read_at,
}
use tour.Base.Maybe.{◌>>=◌}
use tour.Unix.{af_inet}
use tour.Arp.Handle.{sa_family}
use tour.Arp.Device.{HwaInfo}
use tour.Tour.Sockets.{text_of}

-- Of sys/socket.h.
abbrev pub af_inet6 : ℕ
af_inet6 = 10

-- "%d" of an int.
abbrev pub int_text : ℤ → Bytes
int_text (pos n) = digits 10 n []
int_text (negsuc n) = 45 ∷ digits 10 (n + 1) []

-- Whether a byte of the hardware address is not 0.
unfoldable pub is_set : Bytes → Bool
is_set [] = false
is_set (b ∷ rest) = let more = is_set rest in if b == 0 then more else true

-- The loop that prints the hardware address, with `i` bytes left.
unfoldable pub hw_loop : ℕ → Bytes → Option Bytes
hw_loop zero bytes = some []
hw_loop (suc i) [] = none
hw_loop (suc i) (b ∷ rest) = do
  text ← hw_loop i rest
  some (hex_byte b ++ ((if i == 0 then 32 else 58) ∷ text))

-- " :", " (alias)\n", "         IP addr = ", "         HW addr = ", "\n         interface index = ".
abbrev name_end : Bytes
name_end = 32 ∷ 58 ∷ []

abbrev alias_text : Bytes
alias_text = 32 ∷ 40 ∷ 97 ∷ 108 ∷ 105 ∷ 97 ∷ 115 ∷ 41 ∷ 10 ∷ []

abbrev nine_spaces : Bytes
nine_spaces = 32 ∷ 32 ∷ 32 ∷ 32 ∷ 32 ∷ 32 ∷ 32 ∷ 32 ∷ 32 ∷ []

abbrev ip_label : Bytes
ip_label = nine_spaces ++ (73 ∷ 80 ∷ 32 ∷ 97 ∷ 100 ∷ 100 ∷ 114 ∷ 32 ∷ 61 ∷ 32 ∷ [])

abbrev hw_label : Bytes
hw_label = nine_spaces ++ (72 ∷ 87 ∷ 32 ∷ 97 ∷ 100 ∷ 100 ∷ 114 ∷ 32 ∷ 61 ∷ 32 ∷ [])

abbrev index_label : Bytes
index_label =
    10
    ∷ (nine_spaces
        ++ (105 ∷ 110 ∷ 116 ∷ 101 ∷ 114 ∷ 102 ∷ 97 ∷ 99 ∷ 101 ∷ 32 ∷ 105 ∷ 110 ∷ 100 ∷ 101 ∷ 120
            ∷ 32 ∷ 61 ∷ 32 ∷ []))

-- inet_ntop of arpa/inet.h: the text of an address of a family, `none` for NULL.
module _ (inet_ntop : ℕ → Bytes → Option Bytes) where
  -- The static buffer after inet_ntop, which leaves it if it fails.
  abbrev pub refreshed : Bytes → Option Bytes → Bytes
  refreshed ip_str none = ip_str
  refreshed ip_str (some text) = text

  -- The static buffer `ip_str` afterwards, which is what ntop returns.
  unfoldable pub ntop : Bytes → Bytes → Option Bytes
  ntop ip_str ip = do
    family ← sa_family ip
    if family == af_inet
        then (do addr ← read_at ip 4 4; some (refreshed ip_str (inet_ntop af_inet addr)))
        else if family == af_inet6
        then (do addr ← read_at ip 8 16; some (refreshed ip_str (inet_ntop af_inet6 addr)))
        else some ip_str

  -- The text of an interface whose address is shown as `ip_str`. `ip_addr` is never NULL in a list of
  -- get_hw_addrs.
  unfoldable pub show_interface : Bytes → HwaInfo → Option Bytes
  show_interface ip_str hwa = do
    name ← text_of hwa.if_name
    hw ← if is_set hwa.if_haddr then hw_loop 6 hwa.if_haddr else some []
    some (
        name
        ++ (name_end
            ++ ((if hwa.ip_alias then alias_text else 10 ∷ [])
                ++ (ip_label
                    ++ (ip_str
                        ++ (10
                            ∷ ((if is_set hwa.if_haddr then hw_label ++ hw else [])
                                ++ (index_label ++ (int_text hwa.if_index ++ (10 ∷ 10 ∷ []))))))))))

  -- What the loop of main prints, with the static buffer.
  unfoldable pub show_interfaces : Bytes → List HwaInfo → Option Bytes
  show_interfaces ip_str [] = some []
  show_interfaces ip_str (hwa ∷ rest) = do
    shown ← ntop ip_str hwa.ip_addr
    text ← show_interface shown hwa
    more ← show_interfaces shown rest
    some (text ++ more)
