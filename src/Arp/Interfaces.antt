-- ===== src/Arp/Interfaces.antt =====
-- get_hw_addrs and free_hwa_info of get_hw_addrs.c: the list of the interfaces named eth0. A struct
-- ifreq is its 40 bytes: the name in 16, and a union of which a sockaddr fills 16.
use tour.Base.{
  ℕ, zero, suc, ◌+◌, ◌*◌, ◌/◌, Bool, true, false, not, ◌||◌, Option, none, some, List, [], ◌∷◌,
  ◌++◌, ◌==◌, if◌then◌else◌, ℤ, pos, negsuc, is_negative, eqb_ℤ, Bytes, bytes_eq, take, drop,
  length, read_at, replicate, out_of_fuel, Cmd, pure, or_fault, ◌>>=◌, ◌>>◌,
}
use tour.Unix.{
  int_of, Calls, Kernel, socket, close, ioctl, malloc, calloc, free, af_inet, sock_dgram, call,
  call_for_bytes,
}
use tour.Arp.Device.{HwaInfo}

-- Of sys/ioctl.h and errno.h.
abbrev pub siocgifconf : ℕ
siocgifconf = 0x8912

abbrev pub siocgifhwaddr : ℕ
siocgifhwaddr = 0x8927

abbrev pub siocgifindex : ℕ
siocgifindex = 0x8933

-- The result of an ioctl that failed with EINVAL.
abbrev pub minus_einval : ℤ
minus_einval = negsuc 21

abbrev pub ifreq_size : ℕ
ifreq_size = 40

-- sizeof(struct hwa_info).
abbrev pub hwa_info_size : ℕ
hwa_info_size = 48

-- `strcmp(item->ifr_name, "eth0") == 0`.
unfoldable pub is_eth0 : Bytes → Bool
is_eth0 item = bytes_eq (take 5 item) (101 ∷ 116 ∷ 104 ∷ 48 ∷ 0 ∷ [])

-- A colon before the first NUL is replaced by a NUL.
unfoldable pub cut_alias : Bytes → Bytes
cut_alias [] = []
cut_alias (b ∷ rest) =
    let more = cut_alias rest in if b == 58 then 0 ∷ rest else if b == 0 then b ∷ rest else b ∷ more

-- strncmp on two names of 16 bytes, whether it returns 0.
unfoldable pub same_name : Bytes → Bytes → Bool
same_name (a ∷ as') (b ∷ bs) =
    let more = same_name as' bs in if a == b then (if a == 0 then true else more) else false
same_name [] [] = true
same_name _ _ = false

-- An element of the list, with the addresses of the struct and of its sockaddr.
pub record Listed : Type 0 where
  pub hwa : ℤ
  pub addr : ℤ
  pub info : HwaInfo

-- The nodes of a list that get_hw_addrs returns, which is empty for NULL.
abbrev pub nodes : Option (List Listed) → List Listed
nodes none = []
nodes (some hwas) = hwas

-- How the loop over the interfaces ends: with the list, or with a jump to FREE_HWA or to FREE_BUF.
pub data Outcome : Type 0 where
  listed : List Listed → Outcome
  free_hwa : List Listed → Outcome
  free_buf : Outcome

-- The items of the table.
unfoldable pub items : ℕ → Bytes → List Bytes
items zero table = []
items (suc n) table = take ifreq_size table ∷ items n (drop ifreq_size table)

module _ (os : Kernel) where
  -- The loop that frees the list.
  unfoldable pub free_hwa_info : List Listed → Cmd Calls (Unit {0})
  free_hwa_info [] = pure tt
  free_hwa_info (hwa ∷ rest) =
      let more = free_hwa_info rest in call os (free hwa.addr) >> call os (free hwa.hwa) >> more

  -- An ioctl on a struct ifreq, which stays as it is if the call fails.
  unfoldable pub ask_ifreq : ℤ → ℕ → Bytes → Cmd Calls Bytes
  ask_ifreq sockfd request ifreq = do
    (rc, new) ← call_for_bytes os (ioctl sockfd request ifreq)
    pure (if is_negative rc then ifreq else new)

  -- The hardware address and the index of the interface, by the copy of the item.
  unfoldable pub describe : ℤ → Bool → Bytes → Bytes → Cmd Calls HwaInfo
  describe sockfd alias item ifrcopy = do
    ip_addr ← or_fault (read_at item 16 16)
    ifrcopy ← ask_ifreq sockfd siocgifhwaddr ifrcopy
    if_haddr ← or_fault (read_at ifrcopy 18 6)
    ifrcopy ← ask_ifreq sockfd siocgifindex ifrcopy
    if_index ← or_fault (read_at ifrcopy 16 4)
    pure (record {
      if_name = take 15 item ++ (0 ∷ []);
      if_haddr = if_haddr;
      if_index = int_of if_index;
      ip_alias = alias;
      ip_addr = ip_addr;
    })

  -- The rest of the loop, with the list so far. If there is no memory for an address, the list is
  -- lost.
  unfoldable pub interfaces : ℤ → Bytes → List Listed → List Bytes → Cmd Calls Outcome
  interfaces sockfd lastname sofar [] = pure (listed sofar)
  interfaces sockfd lastname sofar (item ∷ rest) =
      let skip = interfaces sockfd lastname sofar rest in
      let cut = cut_alias (take 16 item) in
      let next : Listed → Cmd Calls Outcome =
        λ new. interfaces sockfd cut (sofar ++ (new ∷ [])) rest in
      if not (is_eth0 item) then skip else do
        hwa ← call os (calloc hwa_info_size)
        if eqb_ℤ hwa (pos 0) then pure (free_hwa sofar) else do
          addr ← call os (calloc 16)
          if eqb_ℤ addr (pos 0) then pure free_buf else do
            info ← describe sockfd (same_name lastname cut) item (cut ++ drop 16 item)
            next (record { hwa = hwa; addr = addr; info = info })

  -- The loop that enlarges the buffer until the length of the table does not change: the buffer and
  -- the table, or `none` for a jump, with the buffer to free if there is one.
  unfoldable pub read_table : ℤ → ℕ → ℕ → ℕ → Cmd Calls (Option ℤ × Option Bytes)
  read_table sockfd zero len lastlen = λ _. out_of_fuel
  read_table sockfd (suc k) len lastlen =
      let again : ℕ → Cmd Calls (Option ℤ × Option Bytes) =
        λ last. read_table sockfd k (len + 10 * ifreq_size) last in
      do
        buf ← call os (malloc len)
        if eqb_ℤ buf (pos 0) then pure (none, none) else do
          (rc, table) ← call_for_bytes os (ioctl sockfd siocgifconf (replicate len 0))
          if is_negative rc
              then (if not (eqb_ℤ rc minus_einval) || not (lastlen == 0)
                  then pure (some buf, none)
                  else call os (free buf) >> again lastlen)
              else (if length table == lastlen
                  then pure (some buf, some table)
                  else call os (free buf) >> again (length table))

  -- From FREE_BUF on.
  unfoldable pub give_up_table : ℤ → Option ℤ → Cmd Calls (Option (List Listed))
  give_up_table sockfd none = call os (close sockfd) >> pure none
  give_up_table sockfd (some buf) = call os (free buf) >> call os (close sockfd) >> pure none

  unfoldable pub leave : ℤ → ℤ → Outcome → Cmd Calls (Option (List Listed))
  leave sockfd buf (listed hwas) = call os (free buf) >> pure (some hwas)
  leave sockfd buf (free_hwa hwas) = free_hwa_info hwas >> give_up_table sockfd (some buf)
  leave sockfd buf free_buf = give_up_table sockfd (some buf)

  unfoldable pub list_table : ℤ → Option ℤ × Option Bytes → Cmd Calls (Option (List Listed))
  list_table sockfd (some buf, some table) = do
    out ← interfaces sockfd (0 ∷ []) [] (items (length table / ifreq_size) table)
    leave sockfd buf out
  list_table sockfd (some buf, none) = give_up_table sockfd (some buf)
  list_table sockfd (none, t) = give_up_table sockfd none

  -- The list, which is NULL if it is empty, or `none` for a return of NULL by a jump or for want of a
  -- socket.
  unfoldable pub get_hw_addrs : ℕ → Cmd Calls (Option (List Listed))
  get_hw_addrs fuel = do
    sockfd ← call os (socket af_inet sock_dgram 0)
    if is_negative sockfd
        then pure none
        else do read ← read_table sockfd fuel (100 * ifreq_size) 0; list_table sockfd read
