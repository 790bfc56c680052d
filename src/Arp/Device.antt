-- ===== src/Arp/Device.antt =====
-- struct hwa_info of get_hw_addrs.h, and the searches of its linked list. The list is built once and
-- never changed, so it is a list here.
use tour.Base.{
  Bool, Option, none, some, List, [], ◌∷◌, if◌then◌else◌, ℤ, eqb_ℤ, Bytes, bytes_eq, read_at,
}
use tour.Base.Maybe.{◌>>=◌}

-- `ip_addr` holds the bytes of the struct sockaddr that the pointer leads to.
pub record HwaInfo : Type 0 where
  pub if_name : Bytes
  pub if_haddr : Bytes
  pub if_index : ℤ
  pub ip_alias : Bool
  pub ip_addr : Bytes

-- `((struct sockaddr_in *)p)->sin_addr`: four bytes at offset 4, in network order.
unfoldable pub sin_addr : Bytes → Option Bytes
sin_addr addr = read_at addr 4 4

-- `ip_addr` is `none` for NULL. A comparison of two `s_addr` is one of their bytes.
unfoldable pub is_destination_loop : List HwaInfo → Bytes → Option (Option HwaInfo)
is_destination_loop [] ip_addr = some none
is_destination_loop (current ∷ rest) ip_addr =
    let next = is_destination_loop rest ip_addr in
    do own ← sin_addr current.ip_addr; if bytes_eq ip_addr own then some (some current) else next

unfoldable pub is_destination : List HwaInfo → Option Bytes → Option (Option HwaInfo)
unfolding is_destination_loop
is_destination devices none = some none
is_destination devices (some ip_addr) = is_destination_loop devices ip_addr

-- `none` is NULL.
unfoldable pub mac_by_ifindex : List HwaInfo → ℤ → Option Bytes
mac_by_ifindex [] index = none
mac_by_ifindex (tmp ∷ rest) index =
    if eqb_ℤ tmp.if_index index then some tmp.if_haddr else mac_by_ifindex rest index

unfoldable pub hwa_searchbyindex : List HwaInfo → ℤ → Option HwaInfo
hwa_searchbyindex [] index = none
hwa_searchbyindex (tmp ∷ rest) index =
    if eqb_ℤ tmp.if_index index then some tmp else hwa_searchbyindex rest index
